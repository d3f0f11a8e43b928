-- ===== src/H2/Huffman/Bits.antt =====
-- Numbers and byte strings as streams of bits, the highest bit first.
use native.Mathlib.Nat.{div-div-eq-div-mul, add-zero, add-suc, one-le-pow, pow-succ', pow-zero}
use native.Mathlib.Numerals.{add-one}
use rite.Prelude.{
  ℕ, zero, suc, ◌+◌, ◌-◌, ◌*◌, ◌/◌, ◌%◌, ◌^◌, ◌≤◌, ◌<◌, ◌≡◌, refl, sym, ap, ◌∙◌, List, [], ◌∷◌,
  ◌++◌, arith, All, replicate, append-nil, append_assoc,
}

-- The `count` lowest bits of a number.
unfoldable pub code_bits : ℕ → ℕ → List ℕ
code_bits code zero = []
code_bits code (suc i) = (code / 2 ^ i % 2) ∷ code_bits code i

unfoldable pub bytes_bits : List ℕ → List ℕ
bytes_bits [] = []
bytes_bits (b ∷ bs) = code_bits b 8 ++ bytes_bits bs

abbrev pub IsBit : ℕ → Type 0
IsBit b = b < 2

pub code_bits-IsBit : (code n : ℕ) → All IsBit (code_bits code n)
unfolding code_bits
code_bits-IsBit code zero = tt
code_bits-IsBit code (suc n) = (omega arith, code_bits-IsBit code n)

drop_bit : (c b i : ℕ) → b < 2 → (c * 2 + b) / 2 ^ suc i ≡ c / 2 ^ i
drop_bit c b i h =
    let halved : (c * 2 + b) / 2 ≡ c = omega arith in
    let power : 2 * 2 ^ i ≡ 2 ^ suc i = omega arith in
    rw power at (rw halved at (sym (div-div-eq-div-mul (c * 2 + b) 2 (2 ^ i))))

code_bits_snoc : (c b n : ℕ) → b < 2 → code_bits (c * 2 + b) (suc n) ≡ code_bits c n ++ (b ∷ [])
unfolding code_bits
code_bits_snoc c b zero h = ap (λ x. x ∷ []) (omega arith)
code_bits_snoc c b (suc n) h =
    rw (drop_bit c b n h) (ap (◌∷◌ (c / 2 ^ n % 2)) (code_bits_snoc c b n h))

pub bytes_bits-append : (xs ys : List ℕ) → bytes_bits (xs ++ ys) ≡ bytes_bits xs ++ bytes_bits ys
unfolding bytes_bits
bytes_bits-append [] ys = refl
bytes_bits-append (x ∷ xs) ys =
    ap (◌++◌ (code_bits x 8)) (bytes_bits-append xs ys)
    ∙ sym (append_assoc (code_bits x 8) (bytes_bits xs) (bytes_bits ys))

pub bytes_bits_one : (b : ℕ) → bytes_bits (b ∷ []) ≡ code_bits b 8
unfolding bytes_bits
bytes_bits_one b = append-nil _

pub add_bit :
    (byte p b : ℕ)
    → byte < 128
    → b < 2
    → code_bits (byte * 2 % 256 + b) (p + 1) ≡ code_bits byte p ++ (b ∷ [])
add_bit byte p b small h =
    let exact : byte * 2 % 256 + b ≡ byte * 2 + b = omega arith in
    rw (exact, add-one) (code_bits_snoc byte b p h)

replicate_snoc : (k : ℕ) → ◌++◌ {A = ℕ} (replicate k 1) (1 ∷ []) ≡ replicate (suc k) 1
replicate_snoc zero = refl
replicate_snoc (suc k) = ap (◌∷◌ 1) (replicate_snoc k)

pub code_bits_ones :
    (b n k : ℕ) → code_bits (b * 2 ^ k + (2 ^ k - 1)) (n + k) ≡ code_bits b n ++ replicate k 1
code_bits_ones b n zero =
    let same : b * 1 + (1 - 1) ≡ b = omega arith in rw (same, add-zero, append-nil)
code_bits_ones b n (suc k) =
    let positive : 1 ≤ 2 ^ k = one-le-pow k 2 (omega arith) in
    let double : b * 2 ^ suc k + (2 ^ suc k - 1) ≡ (b * 2 ^ k + (2 ^ k - 1)) * 2 + 1 =
      omega (arith, pow-succ' 2 k, ap (λ (t : ℕ). b * t) (pow-succ' 2 k)) in
    let longer : n + suc k ≡ suc (n + k) = omega arith in
    rw (double, longer)
      (code_bits_snoc (b * 2 ^ k + (2 ^ k - 1)) 1 (n + k) (omega arith)
        ∙ ap (λ l. l ++ (1 ∷ [])) (code_bits_ones b n k)
        ∙ append_assoc (code_bits b n) (replicate k 1) (1 ∷ [])
        ∙ ap (◌++◌ (code_bits b n)) (replicate_snoc k))

pub pow-add : (c p k : ℕ) → c ^ (p + k) ≡ c ^ p * c ^ k
pow-add c p zero = let one : c ^ 0 ≡ 1 = pow-zero c in rw (add-zero, one) (omega arith)
pow-add c p (suc k) = rw add-suc (
    omega (
      arith,
      pow-succ' c (p + k),
      pow-succ' c k,
      ap (λ (t : ℕ). c * t) (pow-add c p k),
      ap (λ (t : ℕ). c ^ p * t) (pow-succ' c k),
    ))
