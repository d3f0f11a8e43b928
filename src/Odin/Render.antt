-- ===== src/Odin/Render.antt =====
-- `render` of modules/odin/src/odin.cpp: a template in which `%key` stands for a value. The map of the
-- values is the list of its entries in the order in which the loop meets them.
pub mod Searching
pub mod Filling
pub mod Checking
use rite.Prelude.{
  ℕ, zero, suc, List, [], ◌∷◌, ◌++◌, Option, none, some, if◌then◌else◌, drop, length,
}
use rite.Outcome.{Outcome, ok, throws, ◌>>=◌, stuck}
use rite.Odin.{starts_with}

-- `result.find(placeholder, pos)`: what is before and what is behind the first one.
unfoldable pub find_text : List ℕ → List ℕ → Option (List ℕ × List ℕ)
unfolding starts_with
find_text placeholder [] = if starts_with placeholder [] then some ([], []) else none
find_text placeholder (c ∷ text) =
    let later = find_text placeholder text in
    if starts_with placeholder (c ∷ text)
    then some ([], drop (length placeholder) (c ∷ text))
    else elim later [ some (before, behind) ↦ some (c ∷ before, behind) | none ↦ none ]

-- A round of the inner loop, whose later rounds are given: the value itself is skipped.
unfoldable pub replace_step :
    (List ℕ → Outcome (List ℕ)) → List ℕ → List ℕ → Option (List ℕ × List ℕ) → Outcome (List ℕ)
replace_step later value text none = ok text
replace_step later value text (some (before, behind)) = do
  rest ← later behind
  ok (before ++ (value ++ rest))

-- The inner loop, from `pos` on.
unfoldable pub replace_all : ℕ → List ℕ → List ℕ → List ℕ → Outcome (List ℕ)
unfolding find_text replace_step
replace_all zero placeholder value text = throws stuck
replace_all (suc fuel) placeholder value text =
    replace_step (replace_all fuel placeholder value) value text (find_text placeholder text)

-- The loop over the values.
unfoldable pub render : List (List ℕ × List ℕ) → List ℕ → Outcome (List ℕ)
unfolding replace_all
render [] result = ok result
render ((key, value) ∷ values) result = do
  replaced ← replace_all (suc (length result)) (b'%' ∷ key) value result
  render values replaced
