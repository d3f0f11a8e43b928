-- ===== src/Http/Query/Values.antt =====
-- The values of a key.
use rite.Prelude.{ℕ, ◌≡◌, refl, inl, inr, List, [], ◌∷◌, Option, none, some, bytes_eq, Bool-cases}
use rite.Http.Query.{get_one, collect, get_all}

module _ {A : Type 0} (deserialize : List ℕ → A) where
  abbrev head : Option (List A) → Option A
  head none = none
  head (some []) = none
  head (some (x ∷ xs)) = some x

  -- A single value is the first of all of them, and there is none exactly when there is none at all.
  get_one-get_all :
      (key : List ℕ) (parameters : List (List ℕ × List ℕ))
      → get_one deserialize key parameters ≡ head (get_all deserialize key parameters)
  unfolding get_one get_all collect
  get_one-get_all key [] = refl
  get_one-get_all key ((k, v) ∷ parameters) = elim (Bool-cases (bytes_eq k key)) [
    | inl e ↦ rw e refl
    | inr e ↦ rw e (get_one-get_all key parameters)
  ]
