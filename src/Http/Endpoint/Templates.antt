-- ===== src/Http/Endpoint/Templates.antt =====
-- Paths as they are written: literal text and parameters in turn.
use rite.Prelude.{
  ℕ, zero, suc, ◌≤◌, ◌<◌, ◌≡◌, refl, ap, ◌∙◌, subst, List, [], ◌∷◌, ◌++◌, arith, All, Option, none,
  some, false, get_elem?, length, length-append, append_assoc, append-nil, bytes_eq, bytes_eq_refl,
}
use rite.Text.{codes}
use rite.Outcome.{ok}
use rite.Http.Request.{header, set_header}
use rite.Http.Request.Headers.{header-set_header}
use rite.Http.Endpoint.{
  Parameter, CompiledPath, parameter_regex, build, path_of, Parameters, bind_groups, match_path,
}

pub data Template : Type 0 where
  ending : List ℕ → Template
  slot : (before name pattern : List ℕ) → Template → Template

-- "{name}" and "{name:pattern}".
abbrev braces : List ℕ → List ℕ → List ℕ
braces name [] = codes "{" ++ (name ++ codes "}")
braces name (c ∷ pattern) = codes "{" ++ (name ++ (codes ":" ++ ((c ∷ pattern) ++ codes "}")))

unfoldable pub written : Template → List ℕ
written (ending text) = text
written (slot before name pattern t) = before ++ (braces name pattern ++ written t)

-- The regular expression that stands for a path, and the names of its parameters.
unfoldable pub expression : Template → List ℕ
expression (ending text) = text ++ codes "/?"
expression (slot before name pattern t) = before ++ (parameter_regex pattern ++ expression t)

unfoldable pub names : Template → List (List ℕ)
names (ending text) = []
names (slot before name pattern t) = name ∷ names t

-- The search finds the parameters of a path one after the other, and none behind the last.
unfoldable pub Finds : (List ℕ → Option Parameter) → Template → Type 0
unfolding written
Finds search (ending text) = search text ≡ none
Finds search (slot before name pattern t) =
    (search (written (slot before name pattern t))
      ≡ some (record { before = before; name = name; pattern = pattern; rest = written t }))
    × Finds search t

slots : Template → ℕ
slots (ending text) = 0
slots (slot before name pattern t) = suc (slots t)

braces_some : (name pattern : List ℕ) → 0 < length (braces name pattern)
braces_some name [] = omega arith
braces_some name (c ∷ pattern) = omega arith

slots_few : (t : Template) → slots t ≤ length (written t)
unfolding slots written
slots_few (ending text) = omega arith
slots_few (slot before name pattern t) = omega (
  arith,
  slots_few t,
  braces_some name pattern,
  length-append before (braces name pattern ++ written t),
  length-append (braces name pattern) (written t),
)

module _ (search : List ℕ → Option Parameter) where
  build-written :
      (t : Template) (fuel : ℕ) (p : CompiledPath)
      → Finds search t
      → slots t ≤ fuel
      → build search (suc fuel) (written t) p
        ≡ ok (record {
          regex = p.regex ++ expression t;
          parameter_names = p.parameter_names ++ names t;
        })
  unfolding build written expression names Finds slots
  build-written (ending text) fuel p h few = rw (h, build, append-nil p.parameter_names) refl
  build-written (slot before name pattern t) zero p h few = absurd (omega (arith, few))
  build-written (slot before name pattern t) (suc fuel) p (h, rest) few =
      rw (h, build)
        (build-written t fuel _ rest (omega (arith, few))
          ∙ ap
              (λ r. ok (record {
                regex = r;
                parameter_names = (p.parameter_names ++ (name ∷ [])) ++ names t;
              }))
              (append_assoc p.regex (before ++ parameter_regex pattern) (expression t)
                ∙ ap (λ r. p.regex ++ r)
                    (append_assoc before (parameter_regex pattern) (expression t)))
          ∙ ap
              (λ n. ok (record {
                regex = p.regex ++ (before ++ (parameter_regex pattern ++ expression t));
                parameter_names = n;
              }))
              (append_assoc p.parameter_names (name ∷ []) (names t)))

  -- A path is compiled to the expression with one group around the pattern of each parameter, the
  -- default `([^/]+)` where none is given, and an optional slash at the end, and the names are
  -- kept in their order. The search finds the parameters of the path one after the other.
  pub path_of-written :
      (t : Template)
      → Finds search t
      → path_of search (written t) ≡ ok (record { regex = expression t; parameter_names = names t })
  unfolding path_of
  path_of-written t h =
      build-written t (length (written t)) (record { regex = []; parameter_names = [] }) h
        (slots_few t)

abbrev Apart : List ℕ → List (List ℕ) → Type 0
Apart n ns = All (λ m. bytes_eq m n ≡ false) ns

-- No name stands twice.
abbrev pub Distinct : List (List ℕ) → Type 0
Distinct [] = Unit {0}
Distinct (n ∷ ns) = Apart n ns × Distinct ns

bind_groups-Apart :
    (n : List ℕ) (ns gs : List (List ℕ)) (ps : Parameters)
    → Apart n ns
    → header n (bind_groups ns gs ps) ≡ header n ps
unfolding bind_groups
bind_groups-Apart n [] gs ps h = refl
bind_groups-Apart n (m ∷ ns) [] ps h = refl
bind_groups-Apart n (m ∷ ns) (g ∷ gs) ps (differ, h) =
    bind_groups-Apart n ns gs (set_header m g ps) h ∙ header-set_header m g n ps ∙ rw differ refl

bind_groups-Distinct :
    (i : ℕ) (n g : List ℕ) (ns gs : List (List ℕ)) (ps : Parameters)
    → Distinct ns
    → get_elem? ns i ≡ some n
    → get_elem? gs i ≡ some g
    → header n (bind_groups ns gs ps) ≡ some g
unfolding bind_groups
bind_groups-Distinct i n g [] gs ps d e f = cc
bind_groups-Distinct i n g (m ∷ ns) [] ps d e f = cc
bind_groups-Distinct zero n g (m ∷ ns) (k ∷ gs) ps (apart, d) e f =
    let same : m ≡ n = cc in
    bind_groups-Apart n ns gs (set_header m k ps) (subst (λ l. Apart l ns) same apart)
    ∙ header-set_header m k n ps
    ∙ rw (same, bytes_eq_refl n) f
bind_groups-Distinct (suc i) n g (m ∷ ns) (k ∷ gs) ps (apart, d) e f =
    bind_groups-Distinct i n g ns gs (set_header m k ps) d e f

module _ (search : List ℕ → Option Parameter)
    (groups : List ℕ → List ℕ → Option (List (List ℕ))) where
  -- The parameters of a path whose names are different get the groups of a match with its expression
  -- one after the other: the parameter `i`, counted from 0, gets the group `i + 1`, whether or not
  -- the groups before it are those of other parameters.
  pub match_path-written :
      (t : Template) (url : List ℕ) (gs : List (List ℕ)) (i : ℕ) (n g : List ℕ)
      → Finds search t
      → Distinct (names t)
      → groups (expression t) url ≡ some gs
      → get_elem? (names t) i ≡ some n
      → get_elem? gs i ≡ some g
      → (p : CompiledPath) × (ps : Parameters) × (path_of search (written t) ≡ ok p)
        × (match_path groups p url ≡ some ps)
        × (header n ps ≡ some g)
  unfolding match_path
  match_path-written t url gs i n g finds distinct matched e f = (
    record { regex = expression t; parameter_names = names t },
    bind_groups (names t) gs [],
    path_of-written search t finds,
    rw (matched, match_path) refl,
    bind_groups-Distinct i n g (names t) gs [] distinct e f,
  )
