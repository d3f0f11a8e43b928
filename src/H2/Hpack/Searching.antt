-- ===== src/H2/Hpack/Searching.antt =====
-- What `search_index` finds in the table.
use rite.Prelude.{
  ℕ, ◌≡◌, refl, inl, inr, List, [], ◌∷◌, arith, All, Bool, true, false, ◌&&◌, ◌||◌, Option, none,
  some, if◌then◌else◌, bytes_eq, bytes_eq→eq, Bool-cases,
}
use rite.Text.{to_lower}
use rite.H2.Hpack.StaticTable.{Header, static_header_table}
use rite.H2.Hpack.Serializer.{
  Where, fully_indexed, key_indexed, literal, where_best, search_from, search_index,
}
use rite.H2.Hpack.Indexing.{Reached, static-Reached}

-- What the result of a search says of the table, for a property `Q` that its entries have.
abbrev pub Found : (ℕ × Header → Type 0) → List ℕ → List ℕ → Where → Type 0
Found Q key value (fully_indexed i) = (h : Header) × Q (i, h) × (h.key ≡ key) × (h.value ≡ value)
Found Q key value (key_indexed i) = (h : Header) × Q (i, h) × (h.key ≡ key)
Found Q key value literal = Unit {0}

search_from-Found :
    (Q : ℕ × Header → Type 0) (rest : List (ℕ × Header)) (key value : List ℕ) (best : Option ℕ)
    → All Q rest
    → Found Q key value (where_best best)
    → Found Q key value (search_from rest key value best)
unfolding search_from where_best
search_from-Found Q [] key value best all good = good
search_from-Found Q ((i, h) ∷ rest) key value best all good =
    elim (Bool-cases (bytes_eq h.key key)) [
      | inl k ↦ elim (Bool-cases (bytes_eq h.value value)) [
        | inl v ↦ rw (k, v) (h, all.0, bytes_eq→eq h.key key k, bytes_eq→eq h.value value v)
        | inr v ↦
            rw (k, v)
              (search_from-Found Q rest key value (some i) all.1
                (h, all.0, bytes_eq→eq h.key key k))
      ]
      | inr k ↦ rw k (search_from-Found Q rest key value best all.1 good)
    ]

-- What `search_index` finds in the static table is there: a full match is an entry with the
-- lower-case key and the value, a key match one with the lower-case key, and both are what a lookup
-- of the index gives, at an index below 61 or with the key of the last entry.
pub search_index-Found :
    (h : Header) → Found Reached (to_lower h.key) h.value (search_index static_header_table h)
unfolding search_index
search_index-Found h =
    search_from-Found Reached static_header_table (to_lower h.key) h.value none static-Reached tt

pub data Kind : Type 0 where
  full keyed plain : Kind

unfoldable pub kind : Where → Kind
kind (fully_indexed _) = full
kind (key_indexed _) = keyed
kind literal = plain

unfoldable pub has_key : List (ℕ × Header) → List ℕ → Bool
has_key [] key = false
has_key ((i, h) ∷ rest) key = bytes_eq h.key key || has_key rest key

unfoldable pub has_pair : List (ℕ × Header) → List ℕ → List ℕ → Bool
has_pair [] key value = false
has_pair ((i, h) ∷ rest) key value =
    (bytes_eq h.key key && bytes_eq h.value value) || has_pair rest key value

seen : Option ℕ → Bool
seen none = false
seen (some _) = true

search_from-kind :
    (rest : List (ℕ × Header)) (key value : List ℕ) (best : Option ℕ)
    → kind (search_from rest key value best) ≡ (
        if has_pair rest key value
        then full
        else if seen best || has_key rest key
        then keyed
        else plain)
unfolding search_from where_best kind has_key has_pair seen
search_from-kind [] key value none = refl
search_from-kind [] key value (some i) = refl
search_from-kind ((i, h) ∷ rest) key value best =
    ground (arith, search_from-kind rest key value best, search_from-kind rest key value (some i))

-- In any table and any order of it, `search_index` reports a full match exactly when some entry has
-- the lower-case key and the value, otherwise a key match exactly when some entry has the key, and
-- a literal when none has.
search_index-kind :
    (table : List (ℕ × Header)) (h : Header)
    → kind (search_index table h) ≡ (
        if has_pair table (to_lower h.key) h.value
        then full
        else if has_key table (to_lower h.key)
        then keyed
        else plain)
unfolding search_index seen
search_index-kind table h = search_from-kind table (to_lower h.key) h.value none
