-- ===== src/Http/Stream.antt =====
-- The parts of std::string and std::istringstream that src/http/parser.cpp uses.
pub mod Lines
use rite.Prelude.{
  ℕ, List, [], ◌∷◌, Bool, ◌&&◌, ◌||◌, Option, none, some, leb, ◌==◌, if◌then◌else◌, drop,
}

-- What is before the first `c`, and the rest from it on: the two sides of `find(c)`, which is npos
-- when the rest is empty.
unfoldable pub until : ℕ → List ℕ → List ℕ × List ℕ
until c [] = ([], [])
until c (x ∷ xs) =
    let (before, rest) = until c xs in if x == c then ([], x ∷ xs) else (x ∷ before, rest)

-- `std::getline(stream, line, c)`: it fails when there is nothing left, and otherwise takes the line
-- and the delimiter behind it, if there is one.
unfoldable pub getline : ℕ → List ℕ → Option (List ℕ × List ℕ)
unfolding until
getline c [] = none
getline c (x ∷ xs) = let (line, rest) = until c (x ∷ xs) in some (line, drop 1 rest)

-- std::isspace in the "C" locale.
unfoldable pub is_space : ℕ → Bool
is_space c = c == 32 || (leb 9 c && leb c 13)

unfoldable pub skip_spaces : List ℕ → List ℕ
unfolding is_space
skip_spaces [] = []
skip_spaces (x ∷ xs) = let rest = skip_spaces xs in if is_space x then rest else x ∷ xs

unfoldable pub until_space : List ℕ → List ℕ × List ℕ
unfolding is_space
until_space [] = ([], [])
until_space (x ∷ xs) =
    let (before, rest) = until_space xs in if is_space x then ([], x ∷ xs) else (x ∷ before, rest)

unfoldable pub filled : List ℕ × List ℕ → Option (List ℕ × List ℕ)
filled ([], rest) = none
filled (c ∷ word, rest) = some (c ∷ word, rest)

-- `stream >> word`.
unfoldable pub read_word : List ℕ → Option (List ℕ × List ℕ)
unfolding skip_spaces until_space filled
read_word text = filled (until_space (skip_spaces text))

-- The characters of " \n\r\t".
unfoldable pub is_blank : ℕ → Bool
is_blank c = c == 32 || c == 10 || c == 13 || c == 9

-- `text.erase(0, text.find_first_not_of(" \n\r\t"))`, which erases everything on npos.
unfoldable pub trim_front : List ℕ → List ℕ
unfolding is_blank
trim_front [] = []
trim_front (x ∷ xs) = let rest = trim_front xs in if is_blank x then rest else x ∷ xs

-- `text.erase(text.find_last_not_of(" \n\r\t") + 1)`, which erases everything on npos.
unfoldable pub trim_back : List ℕ → List ℕ
unfolding is_blank
trim_back [] = []
trim_back (x ∷ xs) = elim (trim_back xs) [
  | [] ↦ if is_blank x then [] else x ∷ []
  | y ∷ ys ↦ x ∷ y ∷ ys
]
