-- ===== src/Odin/Render/Checking.antt =====
-- The conditions on a template, decided.
use rite.Prelude.{
  ℕ, ◌≡◌, refl, List, [], ◌∷◌, All, Bool, true, false, not, ◌&&◌, ◌||◌, ◌==◌, arith, bytes_eq,
}
use rite.Odin.Render.Searching.{IsPlain, differ}
use rite.Odin.Render.Filling.{Piece, literal, slot, IsClear}

abbrev pub is_plain : List ℕ → Bool
is_plain [] = true
is_plain (c ∷ text) = not (c == b'%') && is_plain text

abbrev pub all_clear : List ℕ → List Piece → Bool
all_clear key [] = true
all_clear key (literal text ∷ ps) = is_plain text && all_clear key ps
all_clear key (slot k ∷ ps) = (is_plain k && (bytes_eq key k || differ key k)) && all_clear key ps

and_first : (a b : Bool) → (a && b) ≡ true → a ≡ true
and_first true b e = refl
and_first false b e = cc

and_second : (a b : Bool) → (a && b) ≡ true → b ≡ true
and_second true b e = e
and_second false b e = cc

pub is_plain→IsPlain : (text : List ℕ) → is_plain text ≡ true → IsPlain text
is_plain→IsPlain [] e = tt
is_plain→IsPlain (c ∷ text) e = (
  ground (arith, and_first (not (c == b'%')) (is_plain text) e),
  is_plain→IsPlain text (and_second (not (c == b'%')) (is_plain text) e),
)

pub All-clear→IsClear :
    (key : List ℕ) (ps : List Piece) → all_clear key ps ≡ true → All (IsClear key) ps
All-clear→IsClear key [] e = tt
All-clear→IsClear key (literal text ∷ ps) e = (
  is_plain→IsPlain text (and_first (is_plain text) (all_clear key ps) e),
  All-clear→IsClear key ps (and_second (is_plain text) (all_clear key ps) e),
)
All-clear→IsClear key (slot k ∷ ps) e =
    let own = is_plain k && (bytes_eq key k || differ key k) in
    let here = and_first own (all_clear key ps) e in
    (
      (
        is_plain→IsPlain k (and_first (is_plain k) (bytes_eq key k || differ key k) here),
        and_second (is_plain k) (bytes_eq key k || differ key k) here,
      ),
      All-clear→IsClear key ps (and_second own (all_clear key ps) e),
    )
