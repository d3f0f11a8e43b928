-- ===== src/H2/Hpack/Blocks.antt =====
-- Header blocks as any client may write them (RFC 7541), and what `parse` of src/protocols/h2/hpack.cpp
-- makes of them. Integers and strings are coded as in H2/VarInt and H2/Hpack/Strings; a change of the
-- size of the table is not among the fields.
use rite.Prelude.{
  ℕ, zero, suc, ◌+◌, ◌%◌, ◌^◌, ◌≤◌, ◌<◌, ◌≡◌, ◌≢◌, refl, sym, ap, ◌∙◌, ◌⊎◌, inl, inr, bit_or, true,
  false, ◌==◌, List, [], ◌∷◌, ◌++◌, arith, All, some, length, take, length-append, append-nil,
  append_assoc, get_elem?, ==-ne,
}
use rite.Prelude.Bits.{bit_five, bit_six, bit_seven}
use rite.Outcome.{ok, HpackError}
use rite.H2.Frame.{Frame}
use rite.H2.Headers.{has_flag, end_headers, end_stream}
use rite.H2.Headers.Layout.{payload_plain}
use rite.H2.VarInt
use rite.H2.VarInt.Limits.{encode_head}
use rite.H2.VarInt.RoundTrip.{add_flags, decode-encode}
use rite.H2.Hpack.StaticTable.{Header, static_header_table}
use rite.H2.Hpack.{
  Parser, header_by_index, key_of, not_indexed, parse_field, parse_fields, parse_block, parse,
  caught,
}
use rite.H2.Hpack.Indexing.{IsPristine, Entry, header_by_index_static, header_by_index_dynamic}
use rite.H2.Hpack.Strings.{TextWire, parse_string-TextWire, drop-add_flags}
use rite.H2.Hpack.Fields.{
  parse_one, pair, not_zero, dispatch_indexed, dispatch_literal_indexed, indexed_step, key_of_entry,
  key_of_string, literal_indexed_step, not_indexed_step,
}
use rite.H2.Hpack.RoundTrip.{IsWhole, parse_fields_step, parse_ok}

-- A header that an index stands for: one of the static table, or one of the client's dynamic table, the
-- newest first.
pub data Known (table : List Header) : ℕ → Header → Type 0 where
  static : (i : ℕ) (h : Header) → i < 61 → Entry static_header_table (i, h) → Known table i h
  dynamic :
      (k : ℕ) (h : Header) → 62 + k < 2 ^ 32 → get_elem? table k ≡ some h → Known table (62 + k) h

-- The key of a field with its own value: the index, the key, and the bytes that follow the index.
pub data Name (table : List Header) : ℕ → List ℕ → List ℕ → Type 0 where
  known : (i : ℕ) (h : Header) → Known table i h → Name table i h.key []
  spelled : (key wire : List ℕ) → TextWire key wire → Name table 0 key wire

-- One field: its bytes, the header that it stands for, and what it adds to the dynamic table. The last
-- two kinds are a literal with and without incremental indexing, and 16 marks one that is never indexed.
pub data Field (table : List Header) : List ℕ → Header → List Header → Type 0 where
  indexed_field :
      (i : ℕ) (h : Header) → Known table i h → Field table (add_flags 128 (VarInt.encode 7 i)) h []
  added_field :
      (i : ℕ) (key name value text : List ℕ)
      → Name table i key name
      → TextWire value text
      → Field table
          (add_flags 64 (VarInt.encode 6 i) ++ (name ++ text))
          (pair key value)
          (pair key value ∷ [])
  plain_field :
      (mark i : ℕ) (key name value text : List ℕ)
      → (mark ≡ 0) ⊎ (mark ≡ 16)
      → Name table i key name
      → TextWire value text
      → Field table (add_flags mark (VarInt.encode 4 i) ++ (name ++ text)) (pair key value) []

-- A block: the client's table before it, its bytes, the headers, and the table behind it.
pub data Block : List Header → List ℕ → List Header → List Header → Type 0 where
  nothing : {table : List Header} → Block table [] [] table
  field :
      {table after hs added : List Header} {bytes more : List ℕ} {h : Header}
      → Field table bytes h added
      → Block (added ++ table) more hs after
      → Block table (bytes ++ more) (h ∷ hs) after

abbrev with_field : Header → List Header → Parser → Parser
with_field h added p = record p {
  decoded = p.decoded ++ (h ∷ []);
  header_map = added ++ p.header_map;
}

Known-fits : {table : List Header} {i : ℕ} {h : Header} → Known table i h → i < 2 ^ 32
Known-fits (static i h below here) = omega arith
Known-fits (dynamic k h fits here) = fits

Known-nonzero : {table : List Header} {i : ℕ} {h : Header} → Known table i h → i ≢ 0
Known-nonzero (static i h below here) = not_zero i h here
Known-nonzero (dynamic k h fits here) = λ e. omega (arith, e)

header_by_index-Known :
    (p : Parser) {i : ℕ} {h : Header}
    → IsPristine p
    → Known p.header_map i h
    → header_by_index i p ≡ (p, ok h)
header_by_index-Known p pristine (static i h below here) =
    header_by_index_static p i h pristine below here
header_by_index-Known p pristine (dynamic k h fits here) =
    header_by_index_dynamic p k h pristine fits here

Name-fits : {table : List Header} {i : ℕ} {key name : List ℕ} → Name table i key name → i < 2 ^ 32
Name-fits (known i h k) = Known-fits k
Name-fits (spelled key name t) = omega arith

key_of-Name :
    (p : Parser) {i : ℕ} {key name : List ℕ} (tail : List ℕ)
    → IsPristine p
    → Name p.header_map i key name
    → key_of i (name ++ tail) p ≡ (p, ok (key, tail))
key_of-Name p tail pristine (known i h k) =
    key_of_entry p i tail h (Known-nonzero k) (header_by_index-Known p pristine k)
key_of-Name p tail pristine (spelled key name t) =
    key_of_string p (name ++ tail) key tail (parse_string-TextWire tail t)

dispatch_not_indexed :
    (mark : ℕ) (wire rest : List ℕ) (p : Parser)
    → (mark ≡ 0) ⊎ (mark ≡ 16)
    → 0 < length wire
    → All (λ b. b < 16) (take 1 wire)
    → parse_one (add_flags mark wire ++ rest) p ≡ not_indexed (add_flags mark wire ++ rest) p
unfolding parse_field
dispatch_not_indexed mark [] rest p either filled small = absurd (omega arith)
dispatch_not_indexed mark (b ∷ wire) rest p (inl e) filled small =
    ground (arith, bit_seven (mark + b), bit_six (mark + b), bit_five (mark + b))
dispatch_not_indexed mark (b ∷ wire) rest p (inr e) filled small =
    ground (arith, bit_seven (mark + b), bit_six (mark + b), bit_five (mark + b))

parse_one-indexed_field :
    (p : Parser) (i : ℕ) (h : Header) (rest : List ℕ)
    → IsPristine p
    → Known p.header_map i h
    → parse_one (add_flags 128 (VarInt.encode 7 i) ++ rest) p ≡ (with_field h [] p, ok rest)
parse_one-indexed_field p i h rest pristine k =
    let wire = VarInt.encode 7 i in
    let (first, tail, shape, small) = encode_head 7 i in
    dispatch_indexed wire rest p (rw shape (omega arith)) (rw shape (omega arith))
    ∙ indexed_step (add_flags 128 wire ++ rest) p i (length wire) h
        (decode-encode 7 i 128 rest (omega arith) (omega arith) (Known-fits k) refl (omega arith))
        (header_by_index-Known p pristine k)
    ∙ rw (drop-add_flags 128 wire rest) refl

parse_one-added_field :
    (p : Parser) (i : ℕ) (key name value text rest : List ℕ)
    → IsPristine p
    → Name p.header_map i key name
    → TextWire value text
    → parse_one (add_flags 64 (VarInt.encode 6 i) ++ (name ++ (text ++ rest))) p
      ≡ (with_field (pair key value) (pair key value ∷ []) p, ok rest)
parse_one-added_field p i key name value text rest pristine n t =
    let wire = VarInt.encode 6 i in
    let behind = name ++ (text ++ rest) in
    let (first, tail, shape, small) = encode_head 6 i in
    dispatch_literal_indexed wire behind p (rw shape (omega arith)) (rw shape (omega arith))
    ∙ literal_indexed_step (add_flags 64 wire ++ behind) p i (length wire) key (text ++ rest) value
        rest
        (decode-encode 6 i 64 behind (omega arith) (omega arith) (Name-fits n) refl (omega arith))
        (rw (drop-add_flags 64 wire behind) (key_of-Name p (text ++ rest) pristine n))
        (parse_string-TextWire rest t)

mark_fits : (mark : ℕ) → (mark ≡ 0) ⊎ (mark ≡ 16) → (mark % 2 ^ 4 ≡ 0) × (mark + 2 ^ 4 ≤ 256)
mark_fits mark (inl e) = (rw e refl, omega (arith, e))
mark_fits mark (inr e) = (rw e refl, omega (arith, e))

parse_one-plain_field :
    (p : Parser) (mark i : ℕ) (key name value text rest : List ℕ)
    → IsPristine p
    → (mark ≡ 0) ⊎ (mark ≡ 16)
    → Name p.header_map i key name
    → TextWire value text
    → parse_one (add_flags mark (VarInt.encode 4 i) ++ (name ++ (text ++ rest))) p
      ≡ (with_field (pair key value) [] p, ok rest)
parse_one-plain_field p mark i key name value text rest pristine either n t =
    let wire = VarInt.encode 4 i in
    let behind = name ++ (text ++ rest) in
    let (first, tail, shape, small) = encode_head 4 i in
    let (low, room) = mark_fits mark either in
    dispatch_not_indexed mark wire behind p either (rw shape (omega arith)) (rw shape (omega arith))
    ∙ not_indexed_step (add_flags mark wire ++ behind) p i (length wire) key (text ++ rest) value
        rest (decode-encode 4 i mark behind (omega arith) (omega arith) (Name-fits n) low room)
        (rw (drop-add_flags mark wire behind) (key_of-Name p (text ++ rest) pristine n))
        (parse_string-TextWire rest t)

around :
    (flagged name text rest : List ℕ)
    → (flagged ++ (name ++ text)) ++ rest ≡ flagged ++ (name ++ (text ++ rest))
around flagged name text rest =
    append_assoc flagged (name ++ text) rest ∙ ap (λ l. flagged ++ l) (append_assoc name text rest)

-- A round of the loop takes exactly one field, delivers its header, and learns what the client has.
parse_one-Field :
    (p : Parser) {bytes : List ℕ} {h : Header} {added : List Header} (rest : List ℕ)
    → IsPristine p
    → Field p.header_map bytes h added
    → parse_one (bytes ++ rest) p ≡ (with_field h added p, ok rest)
parse_one-Field p rest pristine (indexed_field i h k) =
    parse_one-indexed_field p i h rest pristine k
parse_one-Field p rest pristine (added_field i key name value text n t) =
    ap (λ l. parse_one l p) (around (add_flags 64 (VarInt.encode 6 i)) name text rest)
    ∙ parse_one-added_field p i key name value text rest pristine n t
parse_one-Field p rest pristine (plain_field mark i key name value text either n t) =
    ap (λ l. parse_one l p) (around (add_flags mark (VarInt.encode 4 i)) name text rest)
    ∙ parse_one-plain_field p mark i key name value text rest pristine either n t

flagged-some : (flags n i : ℕ) → 0 < length (add_flags flags (VarInt.encode n i))
flagged-some flags n i = let (first, tail, shape, small) = encode_head n i in rw shape (omega arith)

Field-some :
    {table added : List Header} {bytes : List ℕ} {h : Header}
    → Field table bytes h added
    → 0 < length bytes
Field-some (indexed_field i h k) = flagged-some 128 7 i
Field-some (added_field i key name value text n t) =
    omega
      (arith, flagged-some 64 6 i, length-append (add_flags 64 (VarInt.encode 6 i)) (name ++ text))
Field-some (plain_field mark i key name value text either n t) = omega (
  arith,
  flagged-some mark 4 i,
  length-append (add_flags mark (VarInt.encode 4 i)) (name ++ text),
)

-- The parser behind a block.
abbrev pub decoded_block : List Header → List Header → Parser → Parser
decoded_block hs after p = record p { decoded = p.decoded ++ hs; header_map = after }

parse_fields-Block :
    {table after hs : List Header} {bytes : List ℕ} (fuel : ℕ) (p : Parser)
    → IsPristine p
    → Block table bytes hs after
    → length bytes ≤ fuel
    → parse_fields fuel bytes (record p { header_map = table }) ≡ (decoded_block hs after p, ok tt)
unfolding parse_fields
parse_fields-Block fuel p pristine (nothing {table}) enough =
    ap (λ l. (record p { decoded = l; header_map = table }, ok tt)) (sym (append-nil p.decoded))
parse_fields-Block zero p pristine (field {bytes} {more} f b) enough =
    absurd (omega (arith, Field-some f, length-append bytes more))
parse_fields-Block (suc fuel) p pristine (field {table} {after} {hs} {added} {bytes} {more} {h} f b)
      enough =
    let q = record p { header_map = table } in
    let longer : length more < length (bytes ++ more) =
      omega (arith, Field-some f, length-append bytes more) in
    parse_fields_step fuel (bytes ++ more) more q (with_field h added q) longer
      (parse_one-Field q more pristine f)
    ∙ parse_fields-Block fuel (with_field h added q) pristine b (omega arith)
    ∙ ap (λ l. (record p { decoded = l; header_map = after }, ok tt))
        (append_assoc p.decoded (h ∷ []) hs)

parse_block-Block :
    {after hs : List Header} {bytes : List ℕ} (flags : ℕ) (p : Parser)
    → has_flag flags (bit_or end_headers end_stream) ≡ true
    → IsPristine p
    → Block p.header_map bytes hs after
    → parse_block flags bytes p ≡ (decoded_block hs after p, ok HpackError.done)
unfolding parse_block caught
parse_block-Block {bytes = bytes} flags p ends pristine b =
    rw (parse_fields-Block (length bytes) p pristine b (omega arith)) (rw ends)

-- The parser takes a block from a frame that has all of it.
pub parse-Block :
    {after hs : List Header} {bytes : List ℕ} (f : Frame) (p : Parser)
    → IsWhole f.flags
    → f.payload ≡ bytes
    → IsPristine p
    → 0 < length bytes
    → Block p.header_map bytes hs after
    → parse f p ≡ (decoded_block hs after p, ok HpackError.done)
parse-Block f p (plain, unweighted, ends) e pristine filled b =
    let some_bytes : (length f.payload == 0) ≡ false =
      ==-ne (length f.payload) 0 (omega (arith, filled, ap length e)) in
    let taken = payload_plain f (plain, unweighted) ∙ rw some_bytes refl in
    parse_ok f f.payload p taken
    ∙ ap (λ l. parse_block f.flags l p) e
    ∙ parse_block-Block f.flags p ends pristine b
