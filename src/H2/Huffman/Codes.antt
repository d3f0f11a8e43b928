-- ===== src/H2/Huffman/Codes.antt =====
-- The table of HPACK, checked symbol by symbol.
use rite.Prelude.{
  ℕ, ◌<◌, ◌≡◌, refl, [], ◌∷◌, arith, Bool, true, ◌&&◌, ◌==◌, bytes_eq, bytes_eq→eq, replicate,
}
use rite.Prelude.Bits.{all_below, all_below-at}
use rite.H2.Huffman.{
  Huffman, hpack_decoder, min_bit_size, code_of, length_of, Decoding, start_decoding, decode_bit,
}
use rite.H2.Huffman.Bits.{code_bits}
use rite.H2.Huffman.Decoder.{feed}

-- The decoder, fed the code of a symbol, puts out that symbol and is back at its start.
decodes_symbol : Huffman → ℕ → ℕ → Bool
unfolding feed decode_bit code_of length_of code_bits
decodes_symbol h least c =
    let s = feed h least (code_bits (code_of h c) (length_of h c)) start_decoding in
    s.code == 0 && s.bits_checked == 0 && bytes_eq s.output (c ∷ [])

symbols_decode : all_below 256 (decodes_symbol hpack_decoder (min_bit_size hpack_decoder)) ≡ true
unfolding all_below decodes_symbol hpack_decoder min_bit_size
symbols_decode = refl

symbol_checks :
    (s : Decoding) (c : ℕ)
    → (s.code == 0 && s.bits_checked == 0 && bytes_eq s.output (c ∷ [])) ≡ true
    → s ≡ record { code = 0; bits_checked = 0; output = c ∷ [] }
symbol_checks s c h = ground (arith, bytes_eq→eq s.output (c ∷ []))

pub feed-symbol :
    (c : ℕ)
    → c < 256
    → feed hpack_decoder
        (min_bit_size hpack_decoder)
        (code_bits (code_of hpack_decoder c) (length_of hpack_decoder c))
        start_decoding
      ≡ record { code = 0; bits_checked = 0; output = c ∷ [] }
unfolding decodes_symbol
feed-symbol c h = symbol_checks _ c (
    all_below-at (decodes_symbol hpack_decoder (min_bit_size hpack_decoder)) 256 c h symbols_decode)

-- Fewer than eight ones are no code, nor do they begin with one.
quiet_ones : ℕ → Bool
unfolding feed decode_bit
quiet_ones k =
    bytes_eq (feed hpack_decoder (min_bit_size hpack_decoder) (replicate k 1) start_decoding).output
      []

padding_quiet : all_below 8 quiet_ones ≡ true
unfolding all_below quiet_ones hpack_decoder min_bit_size
padding_quiet = refl

pub feed-padding :
    (k : ℕ)
    → k < 8
    → (feed hpack_decoder (min_bit_size hpack_decoder) (replicate k 1) start_decoding).output ≡ []
unfolding quiet_ones
feed-padding k h = bytes_eq→eq _ [] (all_below-at quiet_ones 8 k h padding_quiet)
