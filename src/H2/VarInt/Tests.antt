-- ===== src/H2/VarInt/Tests.antt =====
-- Concrete runs (the integers of RFC 7541, appendix C.1), and the theorems at concrete inputs.
use rite.Prelude.{ℕ, ◌^◌, ◌≤◌, ◌<◌, ◌≡◌, refl, List, [], ◌∷◌, ◌++◌, arith, length, dec_lt}
use rite.Prelude.Order.{lt_wf}
use rite.Outcome.{ok, throws, undefined, invalid_argument}
use rite.H2.VarInt.{encode_groups, encode, decode_groups, decode}
use rite.H2.VarInt.RoundTrip.{decode-encode, add_flags}
use rite.H2.VarInt.Limits.{decode_bounds, decode_overlong}

encode_1337 : encode 5 1337 ≡ 31 ∷ 154 ∷ 10 ∷ []
unfolding encode encode_groups lt_wf dec_lt
encode_1337 = refl

decode_1337 : decode 5 (0xFF ∷ 154 ∷ 10 ∷ 7 ∷ []) ≡ ok (1337, 3)
unfolding decode decode_groups
decode_1337 = refl

decode_empty : decode 7 [] ≡ throws invalid_argument
unfolding decode
decode_empty = refl

decode-encode_example :
    decode 7 (add_flags 128 (encode 7 1337) ++ (9 ∷ [])) ≡ ok (1337, length (encode 7 1337))
decode-encode_example =
    decode-encode 7 1337 128 (9 ∷ []) (omega arith) (omega arith) (omega arith) refl (omega arith)

decode_bounds_example : (1337 < 2 ^ 32) × (1 ≤ 3) × (3 ≤ 4)
decode_bounds_example =
    decode_bounds 5 (0xFF ∷ 154 ∷ 10 ∷ 7 ∷ []) 1337 3 (omega arith) (omega arith) decode_1337

abbrev continued : List ℕ
continued = 0x80 ∷ 0x80 ∷ 0x80 ∷ 0x80 ∷ 0x80 ∷ []

decode_overlong_example : decode 7 (0xFF ∷ continued ++ (0 ∷ [])) ≡ throws undefined
decode_overlong_example =
    decode_overlong 7 0xFF continued 0 [] (omega arith) (omega arith) refl (omega arith)
      (omega arith)
