-- ===== src/Odin/Render/Searching.antt =====
-- What the search for a placeholder finds, and what the loop of `render` makes of it.
use rite.Prelude.{
  ℕ, zero, suc, ◌≡◌, ◌≢◌, refl, sym, ap, ◌∙◌, inl, inr, List, [], ◌∷◌, ◌++◌, Option, none, some,
  Bool, true, false, not, ◌||◌, ◌==◌, ==-ne, ==_iff, Bool-cases, All, drop_length-append,
  append_assoc,
}
use rite.Outcome.{Outcome, ok, throws, ◌>>=◌}
use rite.Odin.{starts_with}
use rite.Odin.Render.{find_text, replace_step, replace_all}

-- Two keys that differ at some place where both have a byte: neither is the beginning of the other.
unfoldable pub differ : List ℕ → List ℕ → Bool
differ [] ys = false
differ (x ∷ xs) [] = false
differ (x ∷ xs) (y ∷ ys) = not (x == y) || differ xs ys

abbrev pub IsPlain : List ℕ → Type 0
IsPlain text = All (λ c. c ≢ b'%') text

starts_with-differ :
    (key k rest : List ℕ) → differ key k ≡ true → starts_with key (k ++ rest) ≡ false
unfolding starts_with differ
starts_with-differ [] k rest e = cc
starts_with-differ (y ∷ key) [] rest e = cc
starts_with-differ (y ∷ key) (x ∷ k) rest e = elim (Bool-cases (y == x)) [
  | inl h ↦ rw h (starts_with-differ key k rest (rw h at e))
  | inr h ↦ rw h refl
]

starts_with-append : (key rest : List ℕ) → starts_with key (key ++ rest) ≡ true
unfolding starts_with
starts_with-append [] rest = refl
starts_with-append (y ∷ key) rest = rw ((==_iff y y).1 refl) (starts_with-append key rest)

-- A search that finds the same behind some more text.
abbrev shifted : List ℕ → Option (List ℕ × List ℕ) → Option (List ℕ × List ℕ)
shifted text (some r) = some (text ++ r.0, r.1)
shifted text none = none

shifted_nil : (o : Option (List ℕ × List ℕ)) → shifted [] o ≡ o
shifted_nil (some r) = refl
shifted_nil none = refl

shifted_once :
    (c : ℕ) (text : List ℕ) (o : Option (List ℕ × List ℕ))
    → elim (shifted text o) as (λ _. Option (List ℕ × List ℕ)) [
      | some (before, behind) ↦ some (c ∷ before, behind)
      | none ↦ none
    ]
      ≡ shifted (c ∷ text) o
shifted_once c text (some r) = refl
shifted_once c text none = refl

pub find_text-plain :
    (key text rest : List ℕ)
    → IsPlain text
    → find_text (b'%' ∷ key) (text ++ rest) ≡ shifted text (find_text (b'%' ∷ key) rest)
unfolding find_text starts_with
find_text-plain key [] rest h = sym (shifted_nil (find_text (b'%' ∷ key) rest))
find_text-plain key (c ∷ text) rest h =
    rw (==-ne 37 c (λ z. h.0 (sym z)), find_text-plain key text rest h.1)
      (shifted_once c text (find_text (b'%' ∷ key) rest))

pub find_text-differ :
    (key k rest : List ℕ)
    → IsPlain k
    → differ key k ≡ true
    → find_text (b'%' ∷ key) ((b'%' ∷ k) ++ rest) ≡ shifted (b'%' ∷ k) (find_text (b'%' ∷ key) rest)
unfolding find_text starts_with
find_text-differ key k rest h e =
    rw (starts_with-differ key k rest e, find_text-plain key k rest h)
      (shifted_once 37 k (find_text (b'%' ∷ key) rest))

find_text-here :
    (key rest : List ℕ) → find_text (b'%' ∷ key) ((b'%' ∷ key) ++ rest) ≡ some ([], rest)
unfolding find_text starts_with
find_text-here key rest =
    rw (starts_with-append key rest) (ap (λ l. some ([], l)) (drop_length-append key rest))

-- Text in which no placeholder starts stays as it is.
abbrev pub behind : List ℕ → Outcome (List ℕ) → Outcome (List ℕ)
behind text o = o >>= λ out. ok (text ++ out)

behind_value :
    (text before value : List ℕ) (o : Outcome (List ℕ))
    → (o >>= λ rest. ok ((text ++ before) ++ (value ++ rest)))
      ≡ behind text (o >>= λ rest. ok (before ++ (value ++ rest)))
behind_value text before value (ok rest) = ap ok (append_assoc text before (value ++ rest))
behind_value text before value (throws e) = refl

replace_step-shifted :
    (later : List ℕ → Outcome (List ℕ)) (value text rest : List ℕ) (o : Option (List ℕ × List ℕ))
    → replace_step later value (text ++ rest) (shifted text o)
      ≡ behind text (replace_step later value rest o)
unfolding replace_step
replace_step-shifted later value text rest none = refl
replace_step-shifted later value text rest (some r) = behind_value text r.0 value (later r.1)

pub replace_all-shifted :
    (fuel : ℕ) (key value text rest : List ℕ)
    → find_text (b'%' ∷ key) (text ++ rest) ≡ shifted text (find_text (b'%' ∷ key) rest)
    → replace_all fuel (b'%' ∷ key) value (text ++ rest)
      ≡ behind text (replace_all fuel (b'%' ∷ key) value rest)
unfolding replace_all
replace_all-shifted zero key value text rest e = refl
replace_all-shifted (suc fuel) key value text rest e =
    let later = replace_all fuel (b'%' ∷ key) value in
    ap (replace_step later value (text ++ rest)) e
    ∙ replace_step-shifted later value text rest (find_text (b'%' ∷ key) rest)

pub replace_all-here :
    (fuel : ℕ) (key value rest : List ℕ)
    → replace_all (suc fuel) (b'%' ∷ key) value ((b'%' ∷ key) ++ rest)
      ≡ behind value (replace_all fuel (b'%' ∷ key) value rest)
unfolding replace_all replace_step
replace_all-here fuel key value rest =
    ap (replace_step (replace_all fuel (b'%' ∷ key) value) value ((b'%' ∷ key) ++ rest))
      (find_text-here key rest)
