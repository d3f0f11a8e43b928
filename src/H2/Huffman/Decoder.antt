-- ===== src/H2/Huffman/Decoder.antt =====
-- The decoder of `huffman` seen as a reader of bits.
use rite.Prelude.{ℕ, zero, suc, ◌/◌, ◌%◌, ◌^◌, ◌≡◌, refl, sym, ap, ◌∙◌, List, [], ◌∷◌, ◌++◌}
use rite.H2.Huffman.{
  Huffman, Decoding, start_decoding, decode_bit, decode_byte, decode_bytes, decode, min_bit_size,
}
use rite.H2.Huffman.Bits.{code_bits, bytes_bits}

unfoldable pub feed : Huffman → ℕ → List ℕ → Decoding → Decoding
feed h least [] s = s
feed h least (b ∷ bs) s = feed h least bs (decode_bit h least s b)

pub feed-append :
    (h : Huffman) (least : ℕ) (xs ys : List ℕ) (s : Decoding)
    → feed h least (xs ++ ys) s ≡ feed h least ys (feed h least xs s)
unfolding feed
feed-append h least [] ys s = refl
feed-append h least (x ∷ xs) ys s = feed-append h least xs ys (decode_bit h least s x)

decode_byte-feed :
    (h : Huffman) (least b n : ℕ) (s : Decoding)
    → decode_byte h least b n s ≡ feed h least (code_bits b n) s
unfolding decode_byte feed code_bits
decode_byte-feed h least b zero s = refl
decode_byte-feed h least b (suc n) s =
    decode_byte-feed h least b n (decode_bit h least s (b / 2 ^ n % 2))

decode_bytes-feed :
    (h : Huffman) (least : ℕ) (bs : List ℕ) (s : Decoding)
    → decode_bytes h least bs s ≡ feed h least (bytes_bits bs) s
unfolding decode_bytes bytes_bits
decode_bytes-feed h least [] s = unfold feed in refl
decode_bytes-feed h least (b ∷ bs) s =
    decode_bytes-feed h least bs (decode_byte h least b 8 s)
    ∙ ap (feed h least (bytes_bits bs)) (decode_byte-feed h least b 8 s)
    ∙ sym (feed-append h least (code_bits b 8) (bytes_bits bs) s)

-- `decode` depends on its input only through the stream of its bits.
pub decode-feed :
    (h : Huffman) (bs : List ℕ)
    → decode h bs ≡ (feed h (min_bit_size h) (bytes_bits bs) start_decoding).output
unfolding decode
decode-feed h bs =
    ap (λ (s : Decoding). s.output) (decode_bytes-feed h (min_bit_size h) bs start_decoding)
