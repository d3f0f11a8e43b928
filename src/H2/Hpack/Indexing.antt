-- ===== src/H2/Hpack/Indexing.antt =====
-- The two tables: what an index stands for, and what `search_index` finds.
use rite.Prelude.{
  ℕ, zero, suc, ◌+◌, ◌-◌, ◌%◌, ◌^◌, ◌≤◌, ◌<◌, ◌≡◌, refl, ap, ◌∙◌, ◌⊎◌, inl, inr, List, [], ◌∷◌,
  arith, All, All-imp, Bool, true, false, ◌&&◌, ◌||◌, Option, none, some, ltb, bytes_eq,
  bytes_eq→eq, lt→ltb, le→ltb_false, length, get_elem?, Bool-cases,
}
use rite.Text.{codes}
use rite.Outcome.{ok, throws, HpackError, hpack_error}
use rite.H2.Huffman.{lookup}
use rite.H2.Hpack.StaticTable.{Header, static_header_table}
use rite.H2.Hpack.{Parser, header_by_index, static_entry, dynamic_entry, empty_header}

-- The table as the program starts with it.
abbrev pub IsPristine : Parser → Type 0
IsPristine p = p.static_table ≡ static_header_table

abbrev pub Entry : List (ℕ × Header) → ℕ × Header → Type 0
Entry table e = lookup e.0 table ≡ some e.1

missing : Option Header → Bool
missing none = true
missing (some _) = false

distinct : List (ℕ × Header) → Bool
unfolding missing
distinct [] = true
distinct ((i, h) ∷ rest) = missing (lookup i rest) && distinct rest

shadowed :
    (i : ℕ) (h : Header) (rest : List (ℕ × Header)) (e : ℕ × Header)
    → lookup i rest ≡ none
    → Entry rest e
    → Entry ((i, h) ∷ rest) e
unfolding lookup
shadowed i h rest e fresh here = ground arith

Entry-here : (i : ℕ) (h : Header) (rest : List (ℕ × Header)) → Entry ((i, h) ∷ rest) (i, h)
unfolding lookup
Entry-here i h rest = ground arith

distinct-cons :
    (i : ℕ) (h : Header) (rest : List (ℕ × Header))
    → distinct ((i, h) ∷ rest) ≡ true
    → (lookup i rest ≡ none) × (distinct rest ≡ true)
unfolding distinct missing
distinct-cons i h rest d = ground arith

-- In a table without repeated keys every entry is what a lookup of its key gives.
distinct-Entry : (table : List (ℕ × Header)) → distinct table ≡ true → All (Entry table) table
distinct-Entry [] d = tt
distinct-Entry ((i, h) ∷ rest) d =
    let (fresh, d') = distinct-cons i h rest d in
    (Entry-here i h rest, All-imp (λ e. shadowed i h rest e fresh) rest (distinct-Entry rest d'))

-- Every entry of the static table is below 61, or is the last one.
abbrev pub www_authenticate : List ℕ
www_authenticate = codes "www-authenticate"

in_reach : ℕ × Header → Bool
in_reach (i, h) = ltb i 61 || bytes_eq h.key www_authenticate

all_in_reach : List (ℕ × Header) → Bool
unfolding in_reach
all_in_reach [] = true
all_in_reach (e ∷ rest) = in_reach e && all_in_reach rest

all_in_reach-All :
    (table : List (ℕ × Header)) → all_in_reach table ≡ true → All (λ e. in_reach e ≡ true) table
unfolding all_in_reach
all_in_reach-All [] h = tt
all_in_reach-All (e ∷ rest) h = (ground arith, all_in_reach-All rest (ground arith))

static_distinct : distinct static_header_table ≡ true
unfolding distinct static_header_table lookup
static_distinct = refl

static_in_reach : all_in_reach static_header_table ≡ true
unfolding all_in_reach static_header_table
static_in_reach = refl

length-static_header_table : length static_header_table ≡ 61
unfolding static_header_table
length-static_header_table = refl

-- An index that a search of the static table finds: where it leads, and that the parser accepts it.
abbrev pub Reached : ℕ × Header → Type 0
Reached e = Entry static_header_table e × ((e.0 < 61) ⊎ (e.1.key ≡ www_authenticate))

reached : (e : ℕ × Header) → Entry static_header_table e → in_reach e ≡ true → Reached e
unfolding in_reach
reached (i, h) here near = elim (Bool-cases (ltb i 61)) [
  | inl t ↦ (here, inl (ground arith))
  | inr f ↦ (here, inr (bytes_eq→eq h.key www_authenticate (rw f at near)))
]

All-Reached :
    (table : List (ℕ × Header))
    → All (Entry static_header_table) table
    → All (λ e. in_reach e ≡ true) table
    → All Reached table
All-Reached [] here near = tt
All-Reached (e ∷ rest) here near = (reached e here.0 near.0, All-Reached rest here.1 near.1)

pub static-Reached : All Reached static_header_table
static-Reached =
    All-Reached static_header_table (distinct-Entry static_header_table static_distinct)
      (all_in_reach-All static_header_table static_in_reach)

get_elem?_past : (xs : List Header) (i : ℕ) → length xs ≤ i → get_elem? xs i ≡ none
get_elem?_past [] i h = refl
get_elem?_past (x ∷ xs) zero h = absurd (omega arith)
get_elem?_past (x ∷ xs) (suc i) h = get_elem?_past xs i (omega arith)

-- Below the size of the static table an index is looked up there; behind it, in the dynamic table,
-- with the size and one more taken off modulo 2 ^ 32.
lookup_static :
    (p : Parser) (index : ℕ) (h : Header)
    → index < length p.static_table
    → lookup index p.static_table ≡ some h
    → header_by_index index p ≡ (p, ok h)
unfolding header_by_index
lookup_static p index h below e = rw (lt→ltb _ _ below) (rw (e, static_entry))

lookup_dynamic :
    (p : Parser) (index : ℕ)
    → length p.static_table ≤ index
    → header_by_index index p
      ≡ dynamic_entry ((index - length p.static_table + (2 ^ 32 - 1)) % 2 ^ 32) p
unfolding header_by_index
lookup_dynamic p index above = rw (le→ltb_false _ _ above)

dynamic_some :
    (p : Parser) (i : ℕ) (h : Header)
    → get_elem? p.header_map i ≡ some h
    → dynamic_entry i p ≡ (p, ok h)
unfolding dynamic_entry
dynamic_some p i h e = rw (e, dynamic_entry)

dynamic_none :
    (p : Parser) (i : ℕ)
    → length p.header_map ≤ i
    → dynamic_entry i p ≡ (p, throws (hpack_error HpackError.unknown_header))
unfolding dynamic_entry
dynamic_none p i e = rw (get_elem?_past p.header_map i e, dynamic_entry)

-- Behind the static table and one index more, the dynamic table starts.
behind :
    (p : Parser) (index i : ℕ)
    → length p.static_table + 1 + i ≡ index
    → index < 2 ^ 32
    → header_by_index index p ≡ dynamic_entry i p
behind p index i e fits =
    lookup_dynamic p index (omega arith) ∙ ap (λ k. dynamic_entry k p) (omega arith)

-- The index that is the size of the static table wraps around.
wrapped :
    (p : Parser) (index : ℕ)
    → length p.static_table ≡ index
    → length p.header_map < 2 ^ 32
    → header_by_index index p ≡ (p, throws (hpack_error HpackError.unknown_header))
wrapped p index e few =
    lookup_dynamic p index (omega arith)
    ∙ ap (λ k. dynamic_entry k p) (omega arith)
    ∙ dynamic_none p (2 ^ 32 - 1) (omega arith)

size_pristine : (p : Parser) → IsPristine p → length p.static_table ≡ 61
size_pristine p pristine = rw pristine length-static_header_table

pub header_by_index_static :
    (p : Parser) (i : ℕ) (h : Header)
    → IsPristine p
    → i < 61
    → Entry static_header_table (i, h)
    → header_by_index i p ≡ (p, ok h)
header_by_index_static p i h pristine below e =
    lookup_static p i h (rw (pristine, length-static_header_table) below) (rw pristine e)

-- While the static table is as the program starts with it, an index from 62 on stands for an entry
-- of the dynamic table, the newest first, if it has that many.
pub header_by_index_dynamic :
    (p : Parser) (j : ℕ) (h : Header)
    → IsPristine p
    → 62 + j < 2 ^ 32
    → get_elem? p.header_map j ≡ some h
    → header_by_index (62 + j) p ≡ (p, ok h)
header_by_index_dynamic p j h pristine fits e =
    behind p (62 + j) j (omega (arith, size_pristine p pristine)) fits ∙ dynamic_some p j h e

-- The last static entry is out of reach: index 61 is refused as unknown.
header_by_index_last :
    (p : Parser)
    → IsPristine p
    → length p.header_map < 2 ^ 32
    → header_by_index 61 p ≡ (p, throws (hpack_error HpackError.unknown_header))
header_by_index_last p pristine few = wrapped p 61 (size_pristine p pristine) few

abbrev pub with_zero : Parser → Parser
with_zero p = record p { static_table = (0, empty_header) ∷ p.static_table }

pub lookup_zero : lookup 0 static_header_table ≡ none
unfolding static_header_table lookup
lookup_zero = refl

zero_missing : (p : Parser) → IsPristine p → header_by_index 0 p ≡ (with_zero p, ok empty_header)
unfolding header_by_index
zero_missing p pristine =
    let absent : lookup 0 p.static_table ≡ none = rw pristine lookup_zero in
    rw (lt→ltb 0 (length p.static_table) (omega (arith, size_pristine p pristine)))
      (rw (absent, static_entry))

last_found :
    (p : Parser)
    → IsPristine p
    → lookup 61 ((0, empty_header) ∷ p.static_table)
      ≡ some (record { key = www_authenticate; value = [] })
last_found p pristine = rw pristine (unfold static_header_table lookup in refl)

-- Index 0 is accepted as an empty header and leaves an entry behind in the static table, which all
-- connections share. From then on index 62 is refused, index 63 + j stands for the entry of the
-- dynamic table that 62 + j stood for, and index 61 is found.
pub header_by_index_zero :
    (p : Parser) (j : ℕ) (h : Header)
    → IsPristine p
    → 63 + j < 2 ^ 32
    → length p.header_map < 2 ^ 32
    → get_elem? p.header_map j ≡ some h
    → (header_by_index 0 p ≡ (with_zero p, ok empty_header))
      × (header_by_index 62 (with_zero p)
          ≡ (with_zero p, throws (hpack_error HpackError.unknown_header)))
      × (header_by_index (63 + j) (with_zero p) ≡ (with_zero p, ok h))
      × (header_by_index 61 (with_zero p)
          ≡ (with_zero p, ok (record { key = www_authenticate; value = [] })))
header_by_index_zero p j h pristine fits few e =
    let size : length p.static_table ≡ 61 = size_pristine p pristine in
    (
      zero_missing p pristine,
      wrapped (with_zero p) 62 (omega arith) few,
      behind (with_zero p) (63 + j) j (omega arith) fits ∙ dynamic_some (with_zero p) j h e,
      lookup_static (with_zero p) 61 _ (omega arith) (last_found p pristine),
    )
