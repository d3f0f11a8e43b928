-- ===== src/H2/Hpack/Serializer.antt =====
-- `serializer<h2::hpack>` of src/protocols/h2/hpack.cpp. Its `header_map_` is never used, so the
-- state is the payload. The table is passed in the order in which the hash map is iterated.
use rite.Prelude.{
  ℕ, ◌%◌, ◌^◌, List, [], ◌∷◌, ◌++◌, ◌&&◌, Option, none, some, bytes_eq, if◌then◌else◌, length,
  bit_and, bit_or,
}
use rite.Text.{to_lower}
use rite.H2.VarInt
use rite.H2.Huffman
use rite.H2.Huffman.{hpack_decoder}
use rite.H2.Frame.{Frame, type_headers}
use rite.H2.Headers.{end_headers}
use rite.H2.Hpack.StaticTable.{Header}

-- The variant that `search_index` returns.
pub data Where : Type 0 where
  fully_indexed : ℕ → Where
  key_indexed : ℕ → Where
  literal : Where

-- `best_index` is -1 until an entry with the same key and another value has been seen.
unfoldable pub where_best : Option ℕ → Where
where_best none = literal
where_best (some index) = key_indexed index

unfoldable pub search_from : List (ℕ × Header) → List ℕ → List ℕ → Option ℕ → Where
unfolding where_best
search_from [] key value best = where_best best
search_from ((index, header) ∷ rest) key value best =
    let same_key = bytes_eq header.key key in
    let later = search_from rest key value (if same_key then some index else best) in
    if same_key && bytes_eq header.value value then fully_indexed index else later

unfoldable pub search_index : List (ℕ × Header) → Header → Where
unfolding search_from
search_index table h = search_from table (to_lower h.key) h.value none

-- `wire[0] |= flag` and `wire[0] = (wire[0] & 0b0011'1111) | 0b0100'0000`.
unfoldable pub mark_first : (ℕ → ℕ) → List ℕ → List ℕ
mark_first mark [] = []
mark_first mark (first ∷ rest) = mark first ∷ rest

-- The length of the Huffman form behind its flag, and the Huffman form.
unfoldable pub string_wire : List ℕ → List ℕ
unfolding mark_first
string_wire text =
    let huffman = Huffman.encode hpack_decoder text in
    mark_first (λ b. bit_or b 0x80) (VarInt.encode 7 (length huffman % 2 ^ 32)) ++ huffman

unfoldable pub field_wire : Where → Header → List ℕ
unfolding mark_first string_wire
field_wire (fully_indexed index) h = mark_first (λ b. bit_or b 0x80) (VarInt.encode 7 index)
field_wire (key_indexed index) h =
    mark_first (λ b. bit_or (bit_and b 0x3F) 0x40) (VarInt.encode 6 index) ++ string_wire h.value
field_wire literal h = 0 ∷ string_wire h.key ++ string_wire h.value

-- `serialize` appends to the payload.
unfoldable pub serialize : List (ℕ × Header) → List ℕ → List Header → List ℕ
unfolding field_wire search_index
serialize table payload [] = payload
serialize table payload (h ∷ hs) =
    serialize table (payload ++ field_wire (search_index table h) h) hs

-- `finish` moves the payload into a HEADERS frame and leaves it empty.
unfoldable pub finish : List ℕ → ℕ → List ℕ × Frame
finish payload stream_id = (
  [],
  record {
    length = length payload % 2 ^ 32;
    type = type_headers;
    flags = end_headers;
    stream_identifier = stream_id;
    payload = payload;
  },
)
