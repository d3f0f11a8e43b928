-- ===== src/Prelude/Bits.antt =====
-- Masks on one byte in arithmetic. Each law is a table that is checked by evaluation.
use Prim.Native.Nat.{ℕ, zero, suc, ◌+◌, ◌-◌, ◌*◌, ◌/◌, ◌%◌, ◌^◌, ◌<◌, bit_and, bit_or}
use native.Mathlib.Omega.{arith}
use mathlib.Core.Bool.{Bool, true, ◌&&◌}
use mathlib.Core.Path.{◌≡◌, refl}
use rite.Prelude.Tests.{◌==◌, ==_iff}

unfoldable pub all_below : ℕ → (ℕ → Bool) → Bool
all_below zero p = true
all_below (suc n) p = p n && all_below n p

-- What a table that evaluates to `true` says of one entry.
pub all_below-at :
    (test : ℕ → Bool) (bound i : ℕ) → i < bound → all_below bound test ≡ true → test i ≡ true
unfolding all_below
all_below-at test (suc last) i near table = ground (arith, all_below-at test last i)
all_below-at test zero i near table = absurd (omega arith)

abbrev SameBelow : (ℕ → ℕ) → (ℕ → ℕ) → ℕ → Type 0
SameBelow f g n = all_below n (λ x. f x == g x) ≡ true

SameBelow→eq : (f g : ℕ → ℕ) (n : ℕ) → SameBelow f g n → (x : ℕ) → x < n → f x ≡ g x
SameBelow→eq f g n h x lt = (==_iff _ _).0 (all_below-at (λ y. f y == g y) n x lt h)

pub low_seven : (b : ℕ) → b < 256 → bit_and b 0x7F ≡ b % 128
unfolding all_below
low_seven = SameBelow→eq (λ b. bit_and b 0x7F) (λ b. b % 128) 256 refl

pub bit_seven : (b : ℕ) → b < 256 → bit_and b 0x80 ≡ b / 128 * 128
unfolding all_below
bit_seven = SameBelow→eq (λ b. bit_and b 0x80) (λ b. b / 128 * 128) 256 refl

pub bit_six : (b : ℕ) → b < 256 → bit_and b 0x40 ≡ b / 64 % 2 * 64
unfolding all_below
bit_six = SameBelow→eq (λ b. bit_and b 0x40) (λ b. b / 64 % 2 * 64) 256 refl

pub bit_five : (b : ℕ) → b < 256 → bit_and b 0x20 ≡ b / 32 % 2 * 32
unfolding all_below
bit_five = SameBelow→eq (λ b. bit_and b 0x20) (λ b. b / 32 % 2 * 32) 256 refl

pub set_seven : (b : ℕ) → b < 128 → bit_or b 0x80 ≡ b + 128
unfolding all_below
set_seven = SameBelow→eq (λ b. bit_or b 0x80) (λ b. b + 128) 128 refl

pub seven_set : (b : ℕ) → b < 128 → bit_or 0x80 b ≡ b + 128
unfolding all_below
seven_set = SameBelow→eq (λ b. bit_or 0x80 b) (λ b. b + 128) 128 refl

pub set_six : (b : ℕ) → b < 64 → bit_or (bit_and b 0x3F) 0x40 ≡ b + 64
unfolding all_below
set_six = SameBelow→eq (λ b. bit_or (bit_and b 0x3F) 0x40) (λ b. b + 64) 64 refl

prefix_table :
    all_below 9 (λ n. all_below 256 (λ b. bit_and b (0xFF / 2 ^ (8 - n)) == b % 2 ^ n)) ≡ true
unfolding all_below
prefix_table = refl

-- The mask of the lowest `n` bits of a byte.
pub low_bits : (n b : ℕ) → n < 9 → b < 256 → bit_and b (0xFF / 2 ^ (8 - n)) ≡ b % 2 ^ n
low_bits n b hn hb =
    let row =
      all_below-at (λ m. all_below 256 (λ c. bit_and c (0xFF / 2 ^ (8 - m)) == c % 2 ^ m)) 9 n hn
        prefix_table in
    (==_iff _ _).0 (all_below-at (λ c. bit_and c (0xFF / 2 ^ (8 - n)) == c % 2 ^ n) 256 b hb row)
