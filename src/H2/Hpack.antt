-- ===== src/H2/Hpack.antt =====
-- HPACK of src/protocols/h2/hpack.cpp and include/protocols/h2/hpack.hpp: the header decoder
-- `parser<h2::hpack>`, and the header encoder `serializer<h2::hpack>` in the child module
-- `Serializer`. A method of the parser is a function from its state to the new state and an
-- outcome, since what it did before it threw stays done. The static table is a global hash map
-- that `operator[]` writes to, so it is part of the state.
pub mod StaticTable
pub mod Serializer
pub mod Indexing
pub mod Searching
pub mod Progress
pub mod Strings
pub mod Blocks
pub mod Fields
pub mod RoundTrip
mod Tests
use rite.Prelude.{
  ℕ, zero, suc, ◌+◌, ◌-◌, ◌%◌, ◌^◌, List, [], ◌∷◌, ◌++◌, Bool, not, Option, none, some, ltb, ◌==◌,
  if◌then◌else◌, length, take, drop, get_elem?, bit_and, bit_or,
}
use rite.Outcome.{Outcome, ok, throws, HpackError, Failure, hpack_error, undefined, stuck}
use rite.H2.VarInt
use rite.H2.Huffman
use rite.H2.Huffman.{hpack_decoder, lookup}
use rite.H2.Frame.{Frame}
use rite.H2.Headers
use rite.H2.Headers.{has_flag, end_headers, end_stream}
use StaticTable.{Header}

pub record Parser : Type 0 where
  pub header_map : List Header
  pub decoded : List Header
  pub static_table : List (ℕ × Header)

abbrev pub M : Type 0 → Type 0
M A = Parser → Parser × Outcome A

abbrev pub continue : {A B : Type 0} → Parser × Outcome A → (A → M B) → Parser × Outcome B
continue (p, ok a) f = f a p
continue (p, throws e) f = (p, throws e)

infixl 5 ◌>>=◌ ◌>>◌
abbrev pub ◌>>=◌ : {A B : Type 0} → M A → (A → M B) → M B
◌>>=◌ m f p = continue (m p) f

abbrev pub ◌>>◌ : {B : Type 0} → M (Unit {0}) → M B → M B
m >> k = m >>= λ _. k

abbrev pub lift : {A : Type 0} → Outcome A → M A
lift o p = (p, o)

abbrev pub pure : {A : Type 0} → A → M A
pure a p = (p, ok a)

abbrev pub empty_header : Header
empty_header = record { key = []; value = [] }

-- `STATIC_HEADER_TABLE[index]`: a missing key is entered with an empty header.
static_entry : ℕ → M Header
unfolding lookup
static_entry index p = elim (lookup index p.static_table) [
  | some h ↦ (p, ok h)
  | none ↦ (record p { static_table = (index, empty_header) ∷ p.static_table }, ok empty_header)
]

-- `header_map_[index]` behind its bounds check.
dynamic_entry : ℕ → M Header
dynamic_entry index p = elim (get_elem? p.header_map index) [
  | some h ↦ (p, ok h)
  | none ↦ (p, throws (hpack_error HpackError.unknown_header))
]

-- `index` is a uint32_t: `index -= 1` wraps at 0.
pub header_by_index : ℕ → M Header
unfolding static_entry dynamic_entry
header_by_index index p =
    let size = length p.static_table in
    if ltb index size
    then static_entry index p
    else dynamic_entry ((index - size + (2 ^ 32 - 1)) % 2 ^ 32) p

-- `std::string raw(&*pos, length)` behind the bounds check, and the Huffman decoder behind the flag.
read_string : Bool → ℕ → List ℕ → Outcome (List ℕ × List ℕ)
read_string is_huffman size tail =
    if ltb (length tail) size
    then throws (hpack_error HpackError.invalid)
    else if is_huffman
    then ok (Huffman.decode hpack_decoder (take size tail), drop size tail)
    else ok (take size tail, drop size tail)

string_body : List ℕ → ℕ × ℕ → Bool → Outcome (List ℕ × List ℕ)
unfolding read_string
string_body bytes (size, len) is_huffman = read_string is_huffman size (drop len bytes)

-- `parse_string`: the string, and the bytes from the new `pos` on. At the end of the payload the
-- first read is past the end.
pub parse_string : List ℕ → Outcome (List ℕ × List ℕ)
unfolding string_body
parse_string [] = throws undefined
parse_string (first ∷ rest) = elim (VarInt.decode 7 (first ∷ rest)) [
  | ok r ↦ string_body (first ∷ rest) r (has_flag first 0x80)
  | throws e ↦ throws e
]

push_decoded : Header → M (Unit {0})
push_decoded h p = (record p { decoded = p.decoded ++ (h ∷ []) }, ok tt)

push_front : Header → M (Unit {0})
push_front h p = (record p { header_map = h ∷ p.header_map }, ok tt)

-- The key: a string if the index is 0, else the key of the indexed header.
pub key_of : ℕ → List ℕ → M (List ℕ × List ℕ)
unfolding parse_string header_by_index
key_of index tail =
    if index == 0
    then lift (parse_string tail)
    else do h ← header_by_index index; pure (h.key, tail)

-- The four kinds of header field, each from its first byte on.
pub indexed : List ℕ → M (List ℕ)
unfolding header_by_index push_decoded
indexed bytes = do
  (index, len) ← lift (VarInt.decode 7 bytes)
  header ← header_by_index index
  push_decoded header
  pure (drop len bytes)

pub literal_indexed : List ℕ → M (List ℕ)
unfolding key_of parse_string push_decoded push_front
literal_indexed bytes = do
  (index, len) ← lift (VarInt.decode 6 bytes)
  (key, tail) ← key_of index (drop len bytes)
  (value, rest) ← lift (parse_string tail)
  push_decoded (record { key = key; value = value })
  push_front (record { key = key; value = value })
  pure rest

-- `while (size < header_map_.size()) pop_back()` keeps the first `size` entries.
table_update : List ℕ → M (List ℕ)
table_update bytes = do
  (size, len) ← lift (VarInt.decode 5 bytes)
  λ p. (record p { header_map = take size p.header_map }, ok tt)
  pure (drop len bytes)

pub not_indexed : List ℕ → M (List ℕ)
unfolding key_of parse_string push_decoded
not_indexed bytes = do
  (index, len) ← lift (VarInt.decode 4 bytes)
  (key, tail) ← key_of index (drop len bytes)
  (value, rest) ← lift (parse_string tail)
  push_decoded (record { key = key; value = value })
  pure rest

-- One round of the loop of `parse`, without the check at its end; the payload is not empty.
pub parse_field : ℕ → List ℕ → M (List ℕ)
unfolding indexed literal_indexed table_update not_indexed
parse_field start bytes =
    if has_flag start 0x80
    then indexed bytes
    else if has_flag start 0x40
    then literal_indexed bytes
    else if has_flag start 0x20
    then table_update bytes
    else not_indexed bytes

-- The loop of `parse`, with the check that `pos` has moved.
pub parse_fields : ℕ → List ℕ → M (Unit {0})
parse_fields fuel [] = pure tt
parse_fields zero (start ∷ rest) = lift (throws stuck)
parse_fields (suc fuel) (start ∷ rest) = parse_field start (start ∷ rest) >>= λ next.
    let more = parse_fields fuel next in
    if length next == length (start ∷ rest)
    then lift (throws (hpack_error HpackError.invalid))
    else more

-- `catch (h2::hpack::error err) { return err; }`, and the value of the loop's normal end.
pub caught : ℕ → Outcome (Unit {0}) → Outcome HpackError
caught flags (ok _) =
    if has_flag flags (bit_or end_headers end_stream)
    then ok HpackError.done
    else ok HpackError.more
caught flags (throws (hpack_error e)) = ok e
caught flags (throws e) = throws e

pub parse_block : ℕ → List ℕ → M HpackError
unfolding parse_fields caught
parse_block flags block p = let r = parse_fields (length block) block p in (r.0, caught flags r.1)

-- `parse`: the payload is taken apart outside the try block.
pub parse : Frame → M HpackError
unfolding parse_block
parse frame = do payload ← lift (Headers.payload frame); parse_block frame.flags payload.block

-- `result` moves the decoded headers out.
unfoldable pub result : Parser → Parser × List Header
result p = (record p { decoded = [] }, p.decoded)
