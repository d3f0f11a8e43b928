-- ===== src/Http/Request/Headers.antt =====
-- The header map.
use rite.Prelude.{
  ℕ, ◌≡◌, refl, sym, ap, ◌∙◌, inl, inr, List, [], ◌∷◌, true, false, some, bytes_eq, bytes_eq→eq,
  Bool-cases, bytes_eq_refl, if◌then◌else◌,
}
use rite.Http.Request.{set_header, header, text_lt}

-- Two strings that differ are not both the one that is wanted.
one_wanted :
    (k key wanted : List ℕ)
    → bytes_eq k key ≡ false
    → bytes_eq k wanted ≡ true
    → bytes_eq key wanted ≡ false
one_wanted k key wanted differ w = elim (Bool-cases (bytes_eq key wanted)) [
  | inl t ↦
      let k_is = bytes_eq→eq k wanted w in
      let key_is = bytes_eq→eq key wanted t in
      absurd (cc (sym (bytes_eq_refl k) ∙ ap (bytes_eq k) (k_is ∙ sym key_is) ∙ differ))
  | inr f ↦ f
]

-- After `headers_[key] = value`, a lookup of the key gives the value, and a lookup of any other
-- string what it gave before, on any map.
pub header-set_header {ℓ} :
    {A : Type ℓ} (key : List ℕ) (value : A) (wanted : List ℕ) (map : List (List ℕ × A))
    → header wanted (set_header key value map)
      ≡ (if bytes_eq key wanted then some value else header wanted map)
unfolding set_header header
header-set_header key value wanted [] = refl
header-set_header key value wanted ((k, v) ∷ rest) = elim (Bool-cases (bytes_eq k key)) [
  | inl e ↦ rw e (elim (Bool-cases (bytes_eq key wanted)) [
    | inl w ↦ rw (bytes_eq→eq k key e, w) refl
    | inr w ↦ rw (bytes_eq→eq k key e, w) refl
  ])
  | inr e ↦ rw e (elim (Bool-cases (text_lt key k)) [
    | inl t ↦ rw t refl
    | inr t ↦ rw t (elim (Bool-cases (bytes_eq k wanted)) [
      | inl w ↦ rw (w, one_wanted k key wanted e w) refl
      | inr w ↦ rw w (header-set_header key value wanted rest)
    ])
  ])
]
