-- ===== src/H2/Connection/Uri/RoundTrip.antt =====
-- Decoding what a client has percent-encoded.
use rite.Prelude.{
  ℕ, ◌/◌, ◌%◌, ◌≤◌, ◌<◌, ◌≡◌, ◌≢◌, refl, ap, ◌∙◌, inl, inr, List, [], ◌∷◌, arith, All, Bool, true,
  false, length, ◌==◌, ==_iff, ==-ne, Bool-cases,
}
use rite.Prelude.Bits.{all_below, all_below-at}
use rite.Http.Escape.{hex_digit, escape, escaped}
use rite.H2.Connection.Uri.{is_hex, hex_value, plain, is_escape, uri_decode}

hex_digits : all_below 16 (λ n. is_hex (hex_digit n)) ≡ true
unfolding all_below is_hex hex_digit
hex_digits = refl

hex_values : all_below 16 (λ n. hex_value (hex_digit n) == n) ≡ true
unfolding all_below hex_value hex_digit
hex_values = refl

is_hex-hex_digit : (n : ℕ) → n < 16 → is_hex (hex_digit n) ≡ true
is_hex-hex_digit n h = all_below-at (λ m. is_hex (hex_digit m)) 16 n h hex_digits

pub hex_value-hex_digit : (n : ℕ) → n < 16 → hex_value (hex_digit n) ≡ n
hex_value-hex_digit n h =
    (==_iff _ _).0 (all_below-at (λ m. hex_value (hex_digit m) == m) 16 n h hex_values)

is_escape-ne : (c a b : ℕ) → c ≢ 37 → is_escape c a b ≡ false
unfolding is_escape
is_escape-ne c a b p = rw (==-ne c 37 p)

is_escape-hex_digit :
    (hi lo : ℕ) → hi < 16 → lo < 16 → is_escape 37 (hex_digit hi) (hex_digit lo) ≡ true
unfolding is_escape
is_escape-hex_digit hi lo h l = rw (is_hex-hex_digit hi h, is_hex-hex_digit lo l)

plain-ne : (c : ℕ) → c ≢ 43 → plain c ≡ c
unfolding plain
plain-ne c q = rw (==-ne c 43 q)

decode_plain :
    (c : ℕ) (rest : List ℕ) → c ≢ 37 → c ≢ 43 → uri_decode (c ∷ rest) ≡ c ∷ uri_decode rest
unfolding uri_decode
decode_plain c [] p q = rw (plain-ne c q)
decode_plain c (a ∷ []) p q = rw (plain-ne c q)
decode_plain c (a ∷ b ∷ rest) p q = rw (is_escape-ne c a b p, uri_decode) (rw (plain-ne c q))

decode_escaped :
    (c : ℕ) (rest : List ℕ) → c < 256 → uri_decode (escaped c rest) ≡ c ∷ uri_decode rest
unfolding uri_decode
decode_escaped c rest h =
    let hi : c / 16 < 16 = omega arith in
    let lo : c % 16 < 16 = omega arith in
    rw (is_escape-hex_digit (c / 16) (c % 16) hi lo, uri_decode)
      (rw (hex_value-hex_digit (c / 16) hi, hex_value-hex_digit (c % 16) lo)
        (ap (λ n. n ∷ uri_decode rest) (omega arith)))

-- `uri_decode` gives back any byte string that was percent-encoded, whichever bytes are escaped, as
-- long as `%` and `+` are among them.
pub uri_decode-escape :
    (safe : ℕ → Bool) (cs : List ℕ)
    → safe 37 ≡ false
    → safe 43 ≡ false
    → All (λ c. c < 256) cs
    → uri_decode (escape safe cs) ≡ cs
unfolding escape uri_decode
uri_decode-escape safe [] p q h = refl
uri_decode-escape safe (c ∷ cs) p q h = elim (Bool-cases (safe c)) [
  | inl e ↦ rw e (
      decode_plain c (escape safe cs) (λ z. cc) (λ z. cc)
      ∙ ap (λ l. c ∷ l) (uri_decode-escape safe cs p q h.1))
  | inr e ↦
      rw e (
        decode_escaped c (escape safe cs) h.0 ∙ ap (λ l. c ∷ l) (uri_decode-escape safe cs p q h.1))
]

-- `uri_decode` never makes a string longer.
length-uri_decode : (cs : List ℕ) → length (uri_decode cs) ≤ length cs
unfolding uri_decode
length-uri_decode [] = omega arith
length-uri_decode (c ∷ []) = omega arith
length-uri_decode (c ∷ a ∷ []) = omega arith
length-uri_decode (c ∷ a ∷ b ∷ rest) = elim (Bool-cases (is_escape c a b)) [
  | inl e ↦ rw (e, uri_decode) (omega (arith, length-uri_decode rest))
  | inr e ↦ rw (e, uri_decode) (omega (arith, length-uri_decode (a ∷ b ∷ rest)))
]
