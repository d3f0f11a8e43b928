-- ===== src/H2/VarInt/RoundTrip.antt =====
-- Decoding what `encode` wrote.
use mathlib.Core.WellFounded.{Acc}
use mathlib.Core.Logic.{dif_pos, dif_neg}
use native.Mathlib.Nat.{
  div-add-mod, pow-le-pow_right, mod-add-mod, mod-eq_of_lt, one-le-pow, zero-add,
}
use native.Mathlib.Bridge.{le_prop}
use native.Mathlib.Numerals.{towards_suc}
use rite.Prelude.{
  ℕ, ◌+◌, ◌-◌, ◌*◌, ◌/◌, ◌%◌, ◌^◌, ◌≤◌, ◌<◌, ◌≡◌, ap, List, [], ◌∷◌, ◌++◌, arith, length, dec_lt,
  bit_and, lt→ltb, le→ltb_false, sym, ◌∙◌,
}
use rite.Prelude.Bits.{low_seven, bit_seven, seven_set, low_bits}
use rite.Prelude.Order.{lt_wf}
use rite.Outcome.{ok}
use rite.H2.VarInt.{encode_groups, encode, decode_groups, decode, max_prefix, quotient-lt}

shift_seven : (s : ℕ) → 2 ^ (s + 7) ≡ 128 * 2 ^ s
shift_seven s = simp towards_suc (omega arith)

-- A value that is not 0 and fits 32 bits after a shift was shifted by less than 32.
shift-lt : (w s : ℕ) → 0 < w → w * 2 ^ s < 2 ^ 32 → s < 32
shift-lt w s h fits = elim (dec_lt s 32) [
  | yes p ↦ p
  | no p ↦
      let wide : 2 ^ 32 ≤ 2 ^ s = pow-le-pow_right {n = 2} (omega arith) {i = 32} (omega arith) in
      absurd (grind arith)
]

-- The low seven bits of what is left, and the rest, each at its place.
next_group : (s w : ℕ) → w % 128 * 2 ^ s + w / 128 * 2 ^ (s + 7) ≡ w * 2 ^ s
next_group s w =
    let low_and_high = ap (λ v. v * 2 ^ s) (div-add-mod w 128) in
    let higher = ap (λ v. w / 128 * v) (shift_seven s) in omega (arith, higher, low_and_high)

decode_groups-encode_groups :
    (w acc s n : ℕ) (a : Acc ◌<◌ w) (rest : List ℕ)
    → s < 32
    → acc + w * 2 ^ s < 2 ^ 32
    → decode_groups (encode_groups w a ++ rest) acc s n
      ≡ ok (acc + w * 2 ^ s, n + length (encode_groups w a))
unfolding decode_groups encode_groups
decode_groups-encode_groups w acc s n (Acc.intro _ smaller) rest hs fits =
    elim (dec_lt 0 (w / 128)) [
      | yes p ↦ rw (dif_pos _ le_prop p) (
          ground (
            arith,
            seven_set (w % 128),
            low_seven (w % 128 + 128),
            bit_seven (w % 128 + 128),
            next_group s w,
            shift-lt (w / 128) (s + 7) p,
            decode_groups-encode_groups (w / 128) (acc + w % 128 * 2 ^ s) (s + 7) (n + 1)
                (smaller _ (quotient-lt w p)) rest,
          ))
      | no p ↦ rw (dif_neg _ p) (ground (arith, low_seven (w % 128), bit_seven (w % 128)))
    ]

-- The first byte of an encoding carries flags in the bits above the prefix.
abbrev pub add_flags : ℕ → List ℕ → List ℕ
add_flags flags [] = []
add_flags flags (first ∷ rest) = (flags + first) ∷ rest

low-add_flags : (p flags b : ℕ) → flags % p ≡ 0 → b < p → (flags + b) % p ≡ b
low-add_flags p flags b e h = sym (mod-add-mod flags p b) ∙ rw (e, zero-add) (mod-eq_of_lt h)

prefix-add_flags :
    (n flags b : ℕ)
    → n < 9
    → flags % 2 ^ n ≡ 0
    → flags + 2 ^ n ≤ 256
    → b < 2 ^ n
    → bit_and (flags + b) (0xFF / 2 ^ (8 - n)) ≡ b
prefix-add_flags n flags b hn e room hb =
    low_bits n (flags + b) hn (omega arith) ∙ low-add_flags (2 ^ n) flags b e hb

-- `decode<N>` reads back any uint32_t that `encode<N>` wrote, whatever flags stand above the prefix
-- and whatever bytes follow, and `bytes` is the length of the encoding.
pub decode-encode :
    (n v flags : ℕ) (rest : List ℕ)
    → 1 ≤ n
    → n ≤ 8
    → v < 2 ^ 32
    → flags % 2 ^ n ≡ 0
    → flags + 2 ^ n ≤ 256
    → decode n (add_flags flags (encode n v) ++ rest) ≡ ok (v, length (encode n v))
unfolding decode encode
decode-encode n v flags rest lo hi hv e room =
    let positive : 1 ≤ 2 ^ n = one-le-pow n 2 (omega arith) in
    elim (dec_lt v (max_prefix n)) [
      | yes p ↦ rw (lt→ltb _ _ p) (ground (arith, prefix-add_flags n flags v))
      | no p ↦ rw (le→ltb_false v (max_prefix n) (omega arith)) (
          ground (
            arith,
            prefix-add_flags n flags (max_prefix n),
            decode_groups-encode_groups (v - max_prefix n) (max_prefix n) 0 1
                (lt_wf.apply (v - max_prefix n)) rest,
          ))
    ]
