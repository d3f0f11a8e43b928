-- ===== src/Http/Endpoint/Tests.antt =====
-- A concrete search and concrete groups, and the theorems on paths at them.
use rite.Prelude.{
  ℕ, ◌≡◌, refl, List, [], ◌∷◌, ◌&&◌, ◌==◌, Option, none, some, bytes_eq, if◌then◌else◌,
}
use rite.Text.{codes}
use rite.Outcome.{ok}
use rite.Http.Request.{header}
use rite.Http.Endpoint.{Parameter, CompiledPath, path_of, Parameters, match_path}
use rite.Http.Endpoint.Templates.{
  Template, ending, slot, written, expression, names, Finds, match_path-written,
}

-- The text up to the first byte `c`, and what is behind it.
abbrev cut : ℕ → List ℕ → Option (List ℕ × List ℕ)
cut c [] = none
cut c (x ∷ text) = elim (cut c text) [
  | some (before, rest) ↦ if x == c then some ([], text) else some (x ∷ before, rest)
  | none ↦ if x == c then some ([], text) else none
]

abbrev named : List ℕ → List ℕ → List ℕ → Parameter
named before inside rest = elim (cut b':' inside) [
  | some (name, pattern) ↦ record { before = before; name = name; pattern = pattern; rest = rest }
  | none ↦ record { before = before; name = inside; pattern = []; rest = rest }
]

-- Braces around a name, or a name and a pattern.
abbrev pub braces_search : List ℕ → Option Parameter
braces_search text = elim (cut b'{' text) [
  | some (before, behind) ↦ elim (cut b'}' behind) [
    | some (inside, rest) ↦ some (named before inside rest)
    | none ↦ none
  ]
  | none ↦ none
]

-- "/{a}/{b:[0-9]}"
abbrev pub two_parameters : Template
two_parameters =
    slot (codes "/") (codes "a") [] (slot (codes "/") (codes "b") (codes "[0-9]") (ending []))

two_parameters-Finds : Finds braces_search two_parameters
unfolding Finds written
two_parameters-Finds = (refl, (refl, refl))

-- The groups of "/(([^/]+))/([0-9])/?" in "/x/7", by the order of their opening parentheses.
abbrev pub slash_groups : List ℕ → List ℕ → Option (List (List ℕ))
slash_groups regex url =
    if bytes_eq regex (codes "/(([^/]+))/([0-9])/?") && bytes_eq url (codes "/x/7")
    then some (codes "x" ∷ codes "x" ∷ codes "7" ∷ [])
    else none

groups_run :
    slash_groups (expression two_parameters) (codes "/x/7")
    ≡ some (codes "x" ∷ codes "x" ∷ codes "7" ∷ [])
unfolding expression
groups_run = refl

-- The second parameter gets the second group, which belongs to the first one.
match_path-written_example :
    (p : CompiledPath) × (ps : Parameters) × (path_of braces_search (written two_parameters) ≡ ok p)
    × (match_path slash_groups p (codes "/x/7") ≡ some ps)
    × (header (codes "b") ps ≡ some (codes "x"))
unfolding names
match_path-written_example =
    match_path-written braces_search slash_groups two_parameters (codes "/x/7")
      (codes "x" ∷ codes "x" ∷ codes "7" ∷ []) 1 (codes "b") (codes "x") two_parameters-Finds
      ((refl, tt), (tt, tt)) groups_run refl refl
