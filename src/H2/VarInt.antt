-- ===== src/H2/VarInt.antt =====
-- `h2::variable_integer<N>` of include/protocols/h2/hpack.hpp: integers with an N-bit prefix.
-- A uint32_t is a number below 2 ^ 32 with its wrap-around written out.
pub mod RoundTrip
pub mod Limits
mod Tests
use mathlib.Core.WellFounded.{Acc}
use rite.Prelude.{
  ℕ, zero, suc, ◌+◌, ◌-◌, ◌*◌, ◌/◌, ◌%◌, ◌^◌, ◌<◌, List, [], ◌∷◌, arith, ltb, leb, ◌==◌,
  if◌then◌else◌, dite, dec_lt, bit_and, bit_or,
}
use rite.Prelude.Order.{lt_wf}
use rite.Outcome.{Outcome, ok, throws, invalid_argument, undefined}

-- The greatest value that an N-bit prefix can hold, which marks a longer encoding.
abbrev pub max_prefix : ℕ → ℕ
max_prefix n = 2 ^ n - 1

pub quotient-lt : (v : ℕ) → 0 < v / 128 → v / 128 < v
quotient-lt v h = omega arith

-- The do-while loop of `encode`: seven bits a byte, with the continuation bit on all but the last.
unfoldable pub encode_groups : (value : ℕ) → Acc ◌<◌ value → List ℕ
encode_groups value (Acc.intro _ smaller) =
    dite (dec_lt 0 (value / 128))
      (λ more.
        bit_or 0x80 (value % 128)
        ∷ encode_groups (value / 128) (smaller _ (quotient-lt value more)))
      (λ _. value % 128 ∷ [])

unfoldable pub encode : ℕ → ℕ → List ℕ
encode n value =
    if ltb value (max_prefix n)
    then value ∷ []
    else max_prefix n ∷ encode_groups (value - max_prefix n) (lt_wf.apply (value - max_prefix n))

-- The for loop of `decode`, over the bytes that it has not reached. A shift by 32 or more is
-- undefined; a shorter one is taken modulo 2 ^ 32, as C++20 has it. The second number of the
-- result is the out parameter `bytes`.
unfoldable pub decode_groups : List ℕ → ℕ → ℕ → ℕ → Outcome (ℕ × ℕ)
decode_groups [] value shift bytes = ok (value, bytes)
decode_groups (byte ∷ rest) value shift bytes =
    let value' = (value + bit_and byte 0x7F * 2 ^ shift % 2 ^ 32) % 2 ^ 32 in
    let next = decode_groups rest value' (shift + 7) (bytes + 1) in
    if leb 32 shift
    then throws undefined
    else if bit_and byte 0x80 == 0
    then ok (value', bytes + 1)
    else next

unfoldable pub decode : ℕ → List ℕ → Outcome (ℕ × ℕ)
decode n [] = throws invalid_argument
decode n (first ∷ rest) =
    let prefix = bit_and first (0xFF / 2 ^ (8 - n)) in
    let long = decode_groups rest (max_prefix n) 0 1 in
    if ltb prefix (max_prefix n) then ok (prefix, 1) else long
