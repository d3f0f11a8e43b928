-- ===== src/Http/Stream/Lines.antt =====
-- Pieces of text up to a delimiter.
use rite.Prelude.{
  ℕ, ◌<◌, ◌≡◌, ◌≢◌, refl, ap, List, [], ◌∷◌, ◌++◌, arith, All, some, ==-ne, drop, length,
}
use rite.Http.Stream.{until, getline}

pub until-stop :
    (d : ℕ) (xs rest : List ℕ) → All (λ c. c ≢ d) xs → until d (xs ++ (d ∷ rest)) ≡ (xs, d ∷ rest)
unfolding until
until-stop d [] rest h = ground arith
until-stop d (x ∷ xs) rest h = rw (==-ne x d h.0, until-stop d xs rest h.1)

pub until_whole : (d : ℕ) (xs : List ℕ) → All (λ c. c ≢ d) xs → until d xs ≡ (xs, [])
unfolding until
until_whole d [] h = refl
until_whole d (x ∷ xs) h = rw (==-ne x d h.0, until_whole d xs h.1)

pub getline-here :
    (d : ℕ) (xs rest : List ℕ)
    → All (λ c. c ≢ d) xs
    → getline d (xs ++ (d ∷ rest)) ≡ some (xs, rest)
unfolding getline
getline-here d [] rest h = ap (λ r. some (r.0, drop 1 r.1)) (until-stop d [] rest h)
getline-here d (x ∷ xs) rest h = ap (λ r. some (r.0, drop 1 r.1)) (until-stop d (x ∷ xs) rest h)

pub getline_last :
    (d : ℕ) (xs : List ℕ) → 0 < length xs → All (λ c. c ≢ d) xs → getline d xs ≡ some (xs, [])
unfolding getline
getline_last d [] some_bytes h = absurd (omega (arith, some_bytes))
getline_last d (x ∷ xs) some_bytes h = ap (λ r. some (r.0, drop 1 r.1)) (until_whole d (x ∷ xs) h)
