-- ===== src/H2/VarInt/Limits.antt =====
-- What `variable_integer` guarantees of any value and of any input, well formed or not.
use mathlib.Core.Logic.{dif_pos, dif_neg}
use mathlib.Core.WellFounded.{Acc}
use native.Mathlib.Bridge.{le_prop}
use native.Mathlib.Nat.{mod-le, pow-le-pow_right}
use rite.Prelude.{
  ℕ, zero, suc, ◌+◌, ◌-◌, ◌*◌, ◌/◌, ◌%◌, ◌^◌, ◌≤◌, ◌<◌, ◌≡◌, List, [], ◌∷◌, ◌++◌, arith, length,
  ◌≢◌, dec_lt, bit_and, All, lt→ltb, le→ltb_false,
}
use rite.Prelude.Bits.{bit_seven, seven_set, low_bits}
use rite.Prelude.Order.{lt_wf}
use rite.Outcome.{ok, throws, undefined, stuck}
use rite.H2.VarInt.{encode_groups, encode, decode_groups, decode, max_prefix, quotient-lt}

abbrev pub IsByte : ℕ → Type 0
IsByte b = b < 256

encode_groups_shape :
    (k w : ℕ) (a : Acc ◌<◌ w)
    → w < 128 ^ suc k
    → All IsByte (encode_groups w a)
      × (1 ≤ length (encode_groups w a))
      × (length (encode_groups w a) ≤ suc k)
unfolding encode_groups
encode_groups_shape zero w (Acc.intro _ smaller) h =
    rw (dif_neg (dec_lt 0 (w / 128)) (omega arith)) (omega arith)
encode_groups_shape (suc k) w (Acc.intro _ smaller) h = elim (dec_lt 0 (w / 128)) [
  | yes p ↦ rw (dif_pos _ le_prop p) (
      ground (
        arith,
        seven_set (w % 128),
        encode_groups_shape k (w / 128) (smaller _ (quotient-lt w p)) (omega arith),
      ))
  | no p ↦ rw (dif_neg _ p) (omega arith)
]

-- `encode<N>` writes between 1 and 6 bytes for any uint32_t, and each is a byte.
pub encode_shape :
    (n v : ℕ)
    → n ≤ 8
    → v < 2 ^ 32
    → All IsByte (encode n v) × (1 ≤ length (encode n v)) × (length (encode n v) ≤ 6)
unfolding encode
encode_shape n v hn hv =
    let room : 2 ^ n ≤ 2 ^ 8 = pow-le-pow_right {n = 2} (omega arith) {i = n} hn in
    elim (dec_lt v (max_prefix n)) [
      | yes p ↦ rw (lt→ltb _ _ p) (omega arith)
      | no p ↦
          let w = v - max_prefix n in
          let shape = encode_groups_shape 4 w (lt_wf.apply w) (omega arith) in
          rw (le→ltb_false v (max_prefix n) (omega arith))
            ((omega arith, shape.0), omega arith, omega (arith, shape.2))
    ]

decode_groups_bounds :
    (src : List ℕ) (value shift bytes v k : ℕ)
    → value < 2 ^ 32
    → decode_groups src value shift bytes ≡ ok (v, k)
    → (v < 2 ^ 32) × (bytes ≤ k) × (k ≤ bytes + length src)
unfolding decode_groups
decode_groups_bounds [] value shift bytes v k h e = ground arith
decode_groups_bounds (b ∷ rest) value shift bytes v k h e = ground (
  arith,
  decode_groups_bounds rest ((value + bit_and b 0x7F * 2 ^ shift % 2 ^ 32) % 2 ^ 32) (shift + 7)
      (bytes + 1) v k,
)

decode_groups_moves :
    (src : List ℕ) (value shift bytes v k : ℕ)
    → decode_groups src value shift bytes ≡ ok (v, k)
    → (bytes ≤ k) × (k ≤ bytes + length src)
unfolding decode_groups
decode_groups_moves [] value shift bytes v k e = ground arith
decode_groups_moves (b ∷ rest) value shift bytes v k e = ground (
  arith,
  decode_groups_moves rest ((value + bit_and b 0x7F * 2 ^ shift % 2 ^ 32) % 2 ^ 32) (shift + 7)
      (bytes + 1) v k,
)

-- A `decode<N>` that succeeds on bytes gives a uint32_t, moves forward by at least one byte, and
-- stays within the input.
pub decode_bounds :
    (n : ℕ) (src : List ℕ) (v k : ℕ)
    → n ≤ 8
    → All IsByte src
    → decode n src ≡ ok (v, k)
    → (v < 2 ^ 32) × (1 ≤ k) × (k ≤ length src)
unfolding decode
decode_bounds n [] v k hn h e = cc
decode_bounds n (b ∷ rest) v k hn h e =
    let room : 2 ^ n ≤ 2 ^ 8 = pow-le-pow_right {n = 2} (omega arith) {i = n} hn in
    let masked : b % 2 ^ n ≤ b = mod-le b (2 ^ n) in
    ground (arith, low_bits n b, decode_groups_bounds rest (max_prefix n) 0 1 v k)

abbrev pub Continues : ℕ → Type 0
Continues b = (128 ≤ b) × (b < 256)

decode_groups_run :
    (run : List ℕ) (b : ℕ) (rest : List ℕ) (value shift bytes : ℕ)
    → All Continues run
    → 32 ≤ shift + 7 * length run
    → decode_groups (run ++ (b ∷ rest)) value shift bytes ≡ throws undefined
unfolding decode_groups
decode_groups_run [] b rest value shift bytes h long = ground arith
decode_groups_run (c ∷ run) b rest value shift bytes h long = ground (
  arith,
  bit_seven c,
  decode_groups_run run b rest ((value + bit_and c 0x7F * 2 ^ shift % 2 ^ 32) % 2 ^ 32) (shift + 7)
      (bytes + 1),
)

-- A full prefix, five bytes with the continuation bit and one more byte of any kind make
-- `decode<N>` shift by 35: the behaviour is undefined, there is no error.
pub decode_overlong :
    (n first : ℕ) (run : List ℕ) (b : ℕ) (rest : List ℕ)
    → n ≤ 8
    → IsByte first
    → first % 2 ^ n ≡ max_prefix n
    → All Continues run
    → 5 ≤ length run
    → decode n (first ∷ run ++ (b ∷ rest)) ≡ throws undefined
unfolding decode
decode_overlong n first run b rest hn hf full h five =
    ground
      (arith, low_bits n first, decode_groups_run run b rest (max_prefix n) 0 1 h (omega arith))

-- The first byte of an encoding leaves the bits above the prefix free.
pub encode_head :
    (n v : ℕ) → (first : ℕ) × (tail : List ℕ) × (encode n v ≡ first ∷ tail) × (first ≤ max_prefix n)
unfolding encode
encode_head n v = elim (dec_lt v (max_prefix n)) [
  | yes p ↦ (v, [], rw (lt→ltb _ _ p), omega arith)
  | no p ↦ (
    max_prefix n,
    encode_groups (v - max_prefix n) (lt_wf.apply (v - max_prefix n)),
    rw (le→ltb_false v (max_prefix n) (omega arith)),
    omega arith,
  )
]

-- A `decode<N>` that succeeds moves forward.
pub decode_moves :
    (n : ℕ) (src : List ℕ) (v k : ℕ) → decode n src ≡ ok (v, k) → (1 ≤ k) × (k ≤ length src)
unfolding decode
decode_moves n [] v k e = cc
decode_moves n (b ∷ rest) v k e = ground (arith, decode_groups_moves rest (max_prefix n) 0 1 v k)

decode_groups-ne-stuck :
    (src : List ℕ) (value shift bytes : ℕ) → decode_groups src value shift bytes ≢ throws stuck
unfolding decode_groups
decode_groups-ne-stuck [] value shift bytes e = cc
decode_groups-ne-stuck (b ∷ rest) value shift bytes e = ground (
  arith,
  decode_groups-ne-stuck rest ((value + bit_and b 0x7F * 2 ^ shift % 2 ^ 32) % 2 ^ 32) (shift + 7)
      (bytes + 1),
)

pub decode-ne-stuck : (n : ℕ) (src : List ℕ) → decode n src ≢ throws stuck
unfolding decode
decode-ne-stuck n [] e = cc
decode-ne-stuck n (b ∷ rest) e = ground (arith, decode_groups-ne-stuck rest (max_prefix n) 0 1)
