-- ===== src/Http/Request/Order.antt =====
-- The order of the keys of a header map.
use rite.Prelude.{
  ℕ, ◌<◌, ◌≡◌, inl, inr, refl, sym, ap, ◌∙◌, List, [], ◌∷◌, ◌++◌, arith, All, true, false, ◌==◌,
  ltb, ltb→lt, le→ltb_false, ==_iff, ==-ne, bytes_eq, bytes_eq→eq, Bool-cases,
}
use rite.Http.Request.{set_header, text_lt}

abbrev pub Below : List ℕ → List (List ℕ × List ℕ) → Type 0
Below key kvs = All (λ kv. text_lt kv.0 key ≡ true) kvs

lt_asym : (x y : List ℕ) → text_lt x y ≡ true → text_lt y x ≡ false
unfolding text_lt
lt_asym [] [] h = cc
lt_asym [] (y ∷ ys) h = refl
lt_asym (x ∷ xs) [] h = cc
lt_asym (x ∷ xs) (y ∷ ys) h = elim (Bool-cases (ltb x y)) [
  | inl e ↦
      let less : x < y = ltb→lt x y e in
      rw (le→ltb_false y x (omega (arith, less)), ==-ne y x (λ q. omega (arith, less, q))) refl
  | inr e ↦ elim (Bool-cases (x == y)) [
    | inl q ↦
        let same : x ≡ y = (==_iff x y).0 q in
        let later : text_lt xs ys ≡ true = rw (e, q) at h in
        rw (le→ltb_false y x (omega (arith, same)), (==_iff y x).1 (sym same), lt_asym xs ys later)
          refl
    | inr q ↦ let never : false ≡ true = rw (e, q) at h in absurd cc
  ]
]

lt_differ : (x y : List ℕ) → text_lt x y ≡ true → bytes_eq x y ≡ false
lt_differ x y h = elim (Bool-cases (bytes_eq x y)) [
  | inl e ↦
      let same = bytes_eq→eq x y e in
      let back = lt_asym x y h in
      let both : text_lt x y ≡ text_lt y x =
        ap (λ l. text_lt l y) same ∙ sym (ap (text_lt y) same) in
      absurd (cc (sym h ∙ both ∙ back))
  | inr e ↦ e
]

-- A key that is greater than all of them goes to the end.
pub set_header_last :
    (key value : List ℕ) (kvs : List (List ℕ × List ℕ))
    → Below key kvs
    → set_header key value kvs ≡ kvs ++ ((key, value) ∷ [])
unfolding set_header
set_header_last key value [] h = refl
set_header_last key value ((k, v) ∷ kvs) (h, hs) =
    rw (lt_differ k key h, lt_asym k key h)
      (ap (λ l. (k, v) ∷ l) (set_header_last key value kvs hs))
