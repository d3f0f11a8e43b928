-- ===== src/H2/Huffman/Tests.antt =====
-- Concrete runs (RFC 7541, appendix C.4), and the theorems at concrete inputs.
use rite.Prelude.{ℕ, ◌≡◌, refl, List, [], ◌∷◌, arith, length}
use rite.Text.{codes}
use rite.H2.Huffman.{hpack_decoder, encode, decode}
use rite.H2.Huffman.RoundTrip.{decode-encode_text}

-- "no-cache"
encode_no_cache :
    encode hpack_decoder (110 ∷ 111 ∷ 45 ∷ 99 ∷ 97 ∷ 99 ∷ 104 ∷ 101 ∷ [])
    ≡ 0xA8 ∷ 0xEB ∷ 0x10 ∷ 0x64 ∷ 0x9C ∷ 0xBF ∷ []
unfolding encode hpack_decoder
encode_no_cache = refl

decode_no_cache :
    decode hpack_decoder (0xA8 ∷ 0xEB ∷ 0x10 ∷ 0x64 ∷ 0x9C ∷ 0xBF ∷ [])
    ≡ 110 ∷ 111 ∷ 45 ∷ 99 ∷ 97 ∷ 99 ∷ 104 ∷ 101 ∷ []
unfolding decode hpack_decoder
decode_no_cache = refl

abbrev no_cache : List ℕ
no_cache = 110 ∷ 111 ∷ 45 ∷ 99 ∷ 97 ∷ 99 ∷ 104 ∷ 101 ∷ []

decode-encode_text_example : decode hpack_decoder (encode hpack_decoder no_cache) ≡ no_cache
decode-encode_text_example = decode-encode_text no_cache (omega arith)

pub length-encode_x : length (encode hpack_decoder (codes "x")) ≡ 1
unfolding encode hpack_decoder
length-encode_x = refl

pub length-encode_accept : length (encode hpack_decoder (codes "Accept")) ≡ 4
unfolding encode hpack_decoder
length-encode_accept = refl

pub length-encode_status : length (encode hpack_decoder (codes ":status")) ≡ 5
unfolding encode hpack_decoder
length-encode_status = refl

pub length-encode_200 : length (encode hpack_decoder (codes "200")) ≡ 2
unfolding encode hpack_decoder
length-encode_200 = refl
