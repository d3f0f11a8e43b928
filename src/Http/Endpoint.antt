-- ===== src/Http/Endpoint.antt =====
-- `path` of include/http/endpoint.hpp: a path with parameters as a regular expression, and what a
-- match gives. std::regex is two parameters: `search` is the search for the first "{name}" or
-- "{name:pattern}" in a text, and `groups` the groups of a match of an expression with a text.
pub mod Templates
pub mod Tests
use rite.Prelude.{ℕ, zero, suc, List, [], ◌∷◌, ◌++◌, Option, none, some, length}
use rite.Text.{codes}
use rite.Outcome.{Outcome, ok, throws, stuck}
use rite.Http.Request.{set_header}

-- A match of the search: what is before it, its two groups, and what is behind it.
pub record Parameter : Type 0 where
  pub before : List ℕ
  pub name : List ℕ
  pub pattern : List ℕ
  pub rest : List ℕ

pub record CompiledPath : Type 0 where
  pub regex : List ℕ
  pub parameter_names : List (List ℕ)

abbrev pub default_pattern : List ℕ
default_pattern = codes "([^/]+)"

abbrev pub parameter_regex : List ℕ → List ℕ
parameter_regex [] = codes "(" ++ (default_pattern ++ codes ")")
parameter_regex (c ∷ pattern) = codes "(" ++ ((c ∷ pattern) ++ codes ")")

module _ (search : List ℕ → Option Parameter) where
  -- The loop of the constructor, and what is appended behind it.
  build : ℕ → List ℕ → CompiledPath → Outcome CompiledPath
  build zero text p = throws stuck
  build (suc fuel) text p = elim (search text) [
    | none ↦ ok (record p { regex = p.regex ++ (text ++ codes "/?") })
    | some m ↦ build fuel m.rest (record {
      regex = p.regex ++ (m.before ++ parameter_regex m.pattern);
      parameter_names = p.parameter_names ++ (m.name ∷ []);
    })
  ]

  unfoldable pub path_of : List ℕ → Outcome CompiledPath
  unfolding build
  path_of text = build (suc (length text)) text (record { regex = []; parameter_names = [] })

abbrev pub Parameters : Type 0
Parameters = List (List ℕ × List ℕ)

-- The group after group goes to the name after name.
unfoldable pub bind_groups : List (List ℕ) → List (List ℕ) → Parameters → Parameters
unfolding set_header
bind_groups [] gs ps = ps
bind_groups (n ∷ ns) [] ps = ps
bind_groups (n ∷ ns) (g ∷ gs) ps = bind_groups ns gs (set_header n g ps)

module _ (groups : List ℕ → List ℕ → Option (List (List ℕ))) where
  unfoldable pub match_path : CompiledPath → List ℕ → Option Parameters
  unfolding bind_groups
  match_path p url = elim (groups p.regex url) [
    | none ↦ none
    | some gs ↦ some (bind_groups p.parameter_names gs [])
  ]
