-- ===== src/H2/Huffman.antt =====
-- The class `huffman` of include/protocols/h2/huffman.hpp and its one instance, `hpack::decoder()`
-- of src/protocols/h2/huffman.cpp. A char is a byte; a hash map is an association list whose keys
-- are distinct.
pub mod Table
pub mod Bits
pub mod Encoder
pub mod Decoder
pub mod Codes
pub mod RoundTrip
pub mod Tests
use mathlib.Core.List.{foldl}
use rite.Prelude.{
  ℕ, zero, suc, ◌+◌, ◌-◌, ◌*◌, ◌/◌, ◌%◌, ◌^◌, List, [], ◌∷◌, ◌++◌, Bool, true, false, ◌&&◌, Option,
  none, some, ltb, leb, ◌==◌, if◌then◌else◌, min,
}
use Table.{hpack_encoding_low, hpack_encoding_high}

-- Maps with numbers for keys: `find`, `contains`, `operator[]` on a missing key, and assignment.
module _ {ℓ} {V : Type ℓ} where
  unfoldable pub lookup : ℕ → List (ℕ × V) → Option V
  lookup k [] = none
  lookup k ((j, v) ∷ m) = if j == k then some v else lookup k m

  unfoldable pub assign : ℕ → V → List (ℕ × V) → List (ℕ × V)
  assign k v [] = (k, v) ∷ []
  assign k v ((j, w) ∷ m) = if j == k then (j, v) ∷ m else (j, w) ∷ assign k v m

abbrev pub or_default {ℓ} : {V : Type ℓ} → V → Option V → V
or_default d none = d
or_default d (some v) = v

abbrev contains {ℓ} : {V : Type ℓ} → Option V → Bool
contains none = false
contains (some v) = true

-- Construction of an unordered_map from an initialiser list: of two entries with one key the first
-- stays. The key is narrowed to a char, so the last symbol, 256, has the key 0, which is taken.
insert_new : List (ℕ × (ℕ × ℕ)) → ℕ × (ℕ × ℕ) → List (ℕ × (ℕ × ℕ))
unfolding lookup
insert_new m (symbol, entry) =
    if contains (lookup (symbol % 256) m) then m else m ++ ((symbol % 256, entry) ∷ [])

pub encoding_map : List (ℕ × (ℕ × ℕ)) → List (ℕ × (ℕ × ℕ))
unfolding insert_new
encoding_map = foldl insert_new []

pub record Huffman : Type 0 where
  pub encodings : List (ℕ × (ℕ × ℕ))
  pub reverse_map : List (ℕ × ℕ)
  pub code_lengths : List (ℕ × ℕ)

-- The constructor's loop: the reverse map and the lengths are keyed by the code alone.
add_encoding : Huffman → ℕ × (ℕ × ℕ) → Huffman
unfolding assign
add_encoding h (codepoint, (encoding, length)) = record h {
  reverse_map = assign encoding codepoint h.reverse_map;
  code_lengths = assign encoding length h.code_lengths;
}

pub huffman : List (ℕ × (ℕ × ℕ)) → Huffman
unfolding add_encoding
huffman encodings =
    foldl add_encoding (record { encodings = encodings; reverse_map = []; code_lengths = [] })
      encodings

-- `hpack::decoder()` returns one object that is made on the first call.
unfoldable pub hpack_decoder : Huffman
unfolding huffman encoding_map
hpack_decoder = huffman (encoding_map (hpack_encoding_low ++ hpack_encoding_high))

-- The least length, from the greatest size_t down.
pub min_bit_size : Huffman → ℕ
min_bit_size h = foldl (λ least e. if ltb e.1 least then e.1 else least) (2 ^ 64 - 1) h.code_lengths

-- The variables of the decoding loop.
pub record Decoding : Type 0 where
  pub code : ℕ
  pub bits_checked : ℕ
  pub output : List ℕ

abbrev pub start_decoding : Decoding
start_decoding = record { code = 0; bits_checked = 0; output = [] }

-- `code_lengths_.contains(code) && bits_checked >= min_bit_size`, and the two lookups behind it.
matched : Huffman → ℕ → Decoding → Decoding
unfolding lookup
matched h least s =
    let length = lookup s.code h.code_lengths in
    if contains length && leb least s.bits_checked && or_default 0 length == s.bits_checked
    then record {
      code = 0;
      bits_checked = 0;
      output = s.output ++ (or_default 0 (lookup s.code h.reverse_map) ∷ []);
    }
    else s

-- One round of the inner loop: shift the bit in, look for a code, give up after 32 bits.
pub decode_bit : Huffman → ℕ → Decoding → ℕ → Decoding
unfolding matched
decode_bit h least s bit =
    let shifted = record s {
      code = (s.code * 2 + bit) % 2 ^ 32;
      bits_checked = s.bits_checked + 1;
    } in
    let next = matched h least shifted in
    if leb 32 next.bits_checked then record next { code = 0; bits_checked = 0 } else next

-- The inner loop over the `count` lowest bits of a byte, the highest of them first.
pub decode_byte : Huffman → ℕ → ℕ → ℕ → Decoding → Decoding
unfolding decode_bit
decode_byte h least byte zero s = s
decode_byte h least byte (suc i) s =
    decode_byte h least byte i (decode_bit h least s (byte / 2 ^ i % 2))

pub decode_bytes : Huffman → ℕ → List ℕ → Decoding → Decoding
unfolding decode_byte
decode_bytes h least [] s = s
decode_bytes h least (byte ∷ rest) s = decode_bytes h least rest (decode_byte h least byte 8 s)

pub decode : Huffman → List ℕ → List ℕ
unfolding decode_bytes min_bit_size
decode h input = (decode_bytes h (min_bit_size h) input start_decoding).output

-- The variables of the encoding loop.
pub record Encoding : Type 0 where
  pub byte : ℕ
  pub bit_position : ℕ
  pub output : List ℕ

abbrev pub start_encoding : Encoding
start_encoding = record { byte = 0; bit_position = 0; output = [] }

-- `byte <<= 1; byte |= bit` on a uint8_t, and the byte is stored when it is full.
pub encode_bit : Encoding → ℕ → Encoding
encode_bit s bit =
    let byte' = s.byte * 2 % 256 + bit in
    if s.bit_position + 1 == 8
    then record { byte = 0; bit_position = 0; output = s.output ++ (byte' ∷ []) }
    else record s { byte = byte'; bit_position = s.bit_position + 1 }

-- The inner loop: the `count` lowest bits of the code, the highest of them first.
pub encode_code : ℕ → ℕ → Encoding → Encoding
unfolding encode_bit
encode_code code zero s = s
encode_code code (suc i) s = encode_code code i (encode_bit s (code / 2 ^ i % 2))

-- The entry of a character, and the length that is looked up by its code.
pub code_of : Huffman → ℕ → ℕ
unfolding lookup
code_of h codepoint = (or_default (0, 0) (lookup codepoint h.encodings)).0

pub length_of : Huffman → ℕ → ℕ
unfolding lookup code_of
length_of h codepoint = or_default 0 (lookup (code_of h codepoint) h.code_lengths)

pub encode_string : Huffman → List ℕ → Encoding → Encoding
unfolding encode_code code_of length_of
encode_string h [] s = s
encode_string h (codepoint ∷ rest) s =
    encode_string h rest (encode_code (code_of h codepoint) (length_of h codepoint) s)

-- The last byte is filled with ones.
pub pad : Encoding → List ℕ
pad s =
    let room = 8 - s.bit_position in
    if ltb 0 s.bit_position
    then s.output ++ ((s.byte * 2 ^ room % 256 + (2 ^ room - 1)) ∷ [])
    else s.output

unfoldable pub encode : Huffman → List ℕ → List ℕ
unfolding encode_string pad
encode h input = pad (encode_string h input start_encoding)
