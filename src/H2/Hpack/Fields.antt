-- ===== src/H2/Hpack/Fields.antt =====
-- One header field: what a round of the parser's loop does with what the serializer wrote.
use rite.Prelude.{
  ℕ, ◌+◌, ◌<◌, ◌≡◌, refl, sym, ◌∙◌, ◌≢◌, inl, inr, List, [], ◌∷◌, ◌++◌, arith, ==-ne, All, length,
  drop, take, append_assoc,
}
use rite.Prelude.Bits.{bit_six, bit_seven}
use rite.Text.{to_lower}
use rite.Outcome.{ok, throws, undefined}
use rite.H2.VarInt
use rite.H2.VarInt.Limits.{encode_head}
use rite.H2.VarInt.RoundTrip.{add_flags, decode-encode}
use rite.H2.Hpack.StaticTable.{Header, static_header_table}
use rite.H2.Hpack.{
  Parser, M, header_by_index, parse_string, key_of, push_decoded, push_front, indexed,
  literal_indexed, not_indexed, parse_field,
}
use rite.H2.Hpack.Serializer.{Where, fully_indexed, key_indexed, literal, string_wire, field_wire}
use rite.H2.Hpack.Indexing.{
  IsPristine, Entry, Reached, header_by_index_static, www_authenticate, lookup_zero,
}
use rite.H2.Hpack.Searching.{Found}
use rite.H2.Hpack.Strings.{IsText, mark_seven, mark_six, drop-add_flags, parse_string-string_wire}

-- A round of the loop on what is left of the payload.
abbrev pub parse_one : List ℕ → M (List ℕ)
parse_one [] p = (p, throws undefined)
parse_one (start ∷ rest) p = parse_field start (start ∷ rest) p

-- The header that arrives, and the parser's state behind it.
abbrev pub received : Where → Header → Header
received (fully_indexed _) h = record { key = to_lower h.key; value = h.value }
received (key_indexed _) h = record { key = to_lower h.key; value = h.value }
received literal h = h

abbrev pub learned : Where → Header → List Header
learned (key_indexed i) h = received (key_indexed i) h ∷ []
learned _ h = []

abbrev pub accept : Where → Header → Parser → Parser
accept w h p = record p {
  decoded = p.decoded ++ (received w h ∷ []);
  header_map = learned w h ++ p.header_map;
}

pub dispatch_indexed :
    (wire rest : List ℕ) (p : Parser)
    → 0 < length wire
    → All (λ b. b < 128) (take 1 wire)
    → parse_one (add_flags 128 wire ++ rest) p ≡ indexed (add_flags 128 wire ++ rest) p
unfolding parse_field
dispatch_indexed [] rest p some small = absurd (omega arith)
dispatch_indexed (b ∷ wire) rest p some small = ground (arith, bit_seven (128 + b))

pub dispatch_literal_indexed :
    (wire rest : List ℕ) (p : Parser)
    → 0 < length wire
    → All (λ b. b < 64) (take 1 wire)
    → parse_one (add_flags 64 wire ++ rest) p ≡ literal_indexed (add_flags 64 wire ++ rest) p
unfolding parse_field
dispatch_literal_indexed [] rest p some small = absurd (omega arith)
dispatch_literal_indexed (b ∷ wire) rest p some small =
    ground (arith, bit_seven (64 + b), bit_six (64 + b))

pub indexed_step :
    (bytes : List ℕ) (p : Parser) (i len : ℕ) (h : Header)
    → VarInt.decode 7 bytes ≡ ok (i, len)
    → header_by_index i p ≡ (p, ok h)
    → indexed bytes p ≡ (record p { decoded = p.decoded ++ (h ∷ []) }, ok (drop len bytes))
unfolding indexed push_decoded
indexed_step bytes p i len h e f = rw (e, indexed) (rw f)

pub key_of_entry :
    (p : Parser) (i : ℕ) (tail : List ℕ) (h : Header)
    → i ≢ 0
    → header_by_index i p ≡ (p, ok h)
    → key_of i tail p ≡ (p, ok (h.key, tail))
unfolding key_of
key_of_entry p i tail h nz f = rw (==-ne i 0 nz) (rw f)

pub key_of_string :
    (p : Parser) (tail key rest : List ℕ)
    → parse_string tail ≡ ok (key, rest)
    → key_of 0 tail p ≡ (p, ok (key, rest))
unfolding key_of
key_of_string p tail key rest e = rw e

abbrev pub pair : List ℕ → List ℕ → Header
pair key value = record { key = key; value = value }

pub literal_indexed_step :
    (bytes : List ℕ) (p : Parser) (i len : ℕ) (key tail value rest : List ℕ)
    → VarInt.decode 6 bytes ≡ ok (i, len)
    → key_of i (drop len bytes) p ≡ (p, ok (key, tail))
    → parse_string tail ≡ ok (value, rest)
    → literal_indexed bytes p ≡ (
      record p {
        decoded = p.decoded ++ (pair key value ∷ []);
        header_map = pair key value ∷ p.header_map;
      },
      ok rest,
    )
unfolding literal_indexed push_decoded push_front
literal_indexed_step bytes p i len key tail value rest e f g = rw (e, literal_indexed) (rw f (rw g))

pub not_indexed_step :
    (bytes : List ℕ) (p : Parser) (i len : ℕ) (key tail value rest : List ℕ)
    → VarInt.decode 4 bytes ≡ ok (i, len)
    → key_of i (drop len bytes) p ≡ (p, ok (key, tail))
    → parse_string tail ≡ ok (value, rest)
    → not_indexed bytes p ≡ (record p { decoded = p.decoded ++ (pair key value ∷ []) }, ok rest)
unfolding not_indexed push_decoded
not_indexed_step bytes p i len key tail value rest e f g = rw (e, not_indexed) (rw f (rw g))

-- What a header has to be for the parser to read it back: strings of bytes whose Huffman forms are
-- shorter than 2 ^ 32 bytes, and another key than that of the last static entry.
pub record IsSendable (h : Header) : Type 0 where
  pub key_text : IsText h.key
  pub value_text : IsText h.value
  pub known : to_lower h.key ≢ www_authenticate

header_eq : (h : Header) (key value : List ℕ) → h.key ≡ key → h.value ≡ value → h ≡ pair key value
header_eq h key value k v = ground arith

in_range :
    (h e : Header) (i : ℕ)
    → IsSendable h
    → Reached (i, e)
    → e.key ≡ to_lower h.key
    → (i < 61) × Entry static_header_table (i, e)
in_range h e i s (here, inl below) k = (below, here)
in_range h e i s (here, inr last) k = absurd (s.known (sym k ∙ last))

pub not_zero : (i : ℕ) (e : Header) → Entry static_header_table (i, e) → i ≢ 0
not_zero i e here z = cc (lookup_zero, rw z at here)

field_fully :
    (i : ℕ) (h : Header) (rest : List ℕ) (p : Parser)
    → IsPristine p
    → IsSendable h
    → Found Reached (to_lower h.key) h.value (fully_indexed i)
    → parse_one (field_wire (fully_indexed i) h ++ rest) p ≡ (accept (fully_indexed i) h p, ok rest)
unfolding field_wire
field_fully i h rest p pristine s (e, at, k, v) =
    let (below, here) = in_range h e i s at k in
    let wire = VarInt.encode 7 i in
    let (first, tail, shape, small) = encode_head 7 i in
    rw (mark_seven i) (
      dispatch_indexed wire rest p (rw shape (omega arith)) (rw shape (omega arith))
      ∙ indexed_step (add_flags 128 wire ++ rest) p i (length wire) e
          (decode-encode 7 i 128 rest (omega arith) (omega arith) (omega arith) refl (omega arith))
          (header_by_index_static p i e pristine below here)
      ∙ rw (drop-add_flags 128 wire rest, header_eq e (to_lower h.key) h.value k v))

field_key :
    (i : ℕ) (h : Header) (rest : List ℕ) (p : Parser)
    → IsPristine p
    → IsSendable h
    → Found Reached (to_lower h.key) h.value (key_indexed i)
    → parse_one (field_wire (key_indexed i) h ++ rest) p ≡ (accept (key_indexed i) h p, ok rest)
unfolding field_wire
field_key i h rest p pristine s (e, at, k) =
    let (below, here) = in_range h e i s at k in
    let wire = VarInt.encode 6 i in
    let text = string_wire h.value in
    let (first, tail, shape, small) = encode_head 6 i in
    let bytes = add_flags 64 wire ++ (text ++ rest) in
    let found =
      key_of_entry p i (text ++ rest) e (not_zero i e here)
        (header_by_index_static p i e pristine below here) in
    rw (mark_six i, append_assoc (add_flags 64 wire) text rest)
      (dispatch_literal_indexed wire (text ++ rest) p (rw shape (omega arith))
          (rw shape (omega arith))
        ∙ literal_indexed_step bytes p i (length wire) e.key (text ++ rest) h.value rest
            (decode-encode 6 i 64 (text ++ rest) (omega arith) (omega arith) (omega arith) refl
              (omega arith))
            (rw (drop-add_flags 64 wire (text ++ rest)) found)
            (parse_string-string_wire h.value rest s.value_text)
        ∙ rw k)

dispatch_literal : (tail : List ℕ) (p : Parser) → parse_one (0 ∷ tail) p ≡ not_indexed (0 ∷ tail) p
unfolding parse_field
dispatch_literal tail p = refl

decode_zero : (tail : List ℕ) → VarInt.decode 4 (0 ∷ tail) ≡ ok (0, 1)
unfolding VarInt.decode
decode_zero tail = refl

field_literal :
    (h : Header) (rest : List ℕ) (p : Parser)
    → IsSendable h
    → parse_one (field_wire literal h ++ rest) p ≡ (accept literal h p, ok rest)
unfolding field_wire
field_literal h rest p s =
    let key = string_wire h.key in
    let value = string_wire h.value in
    rw (append_assoc key value rest) (
      dispatch_literal (key ++ (value ++ rest)) p
      ∙ not_indexed_step (0 ∷ (key ++ (value ++ rest))) p 0 1 h.key (value ++ rest) h.value rest
          (decode_zero (key ++ (value ++ rest)))
          (key_of_string p (key ++ (value ++ rest)) h.key (value ++ rest)
            (parse_string-string_wire h.key (value ++ rest) s.key_text))
          (parse_string-string_wire h.value rest s.value_text))

-- One round of the parser's loop takes exactly the bytes that the serializer wrote for one header
-- and delivers it, with a lower-case key if the key was indexed.
pub parse_one-field_wire :
    (w : Where) (h : Header) (rest : List ℕ) (p : Parser)
    → IsPristine p
    → IsSendable h
    → Found Reached (to_lower h.key) h.value w
    → parse_one (field_wire w h ++ rest) p ≡ (accept w h p, ok rest)
parse_one-field_wire (fully_indexed i) h rest p pristine s found =
    field_fully i h rest p pristine s found
parse_one-field_wire (key_indexed i) h rest p pristine s found =
    field_key i h rest p pristine s found
parse_one-field_wire literal h rest p pristine s found = field_literal h rest p s
