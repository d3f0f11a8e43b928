-- ===== src/Odin/Render/Filling.antt =====
-- Templates as pieces, and what `render` makes of them.
use rite.Prelude.{
  ℕ, zero, suc, ◌<◌, ◌≡◌, refl, sym, ap, ◌∙◌, inl, inr, List, [], ◌∷◌, ◌++◌, Option, none, some,
  true, ◌||◌, Bool-cases, if◌then◌else◌, arith, All, length, map, bytes_eq, bytes_eq→eq, when,
  All-imp, length-append,
}
use rite.Outcome.{ok, ◌>>=◌}
use rite.Http.Request.{header}
use rite.Odin.{starts_with}
use rite.Odin.Render.{find_text, replace_step, replace_all, render}
use rite.Odin.Render.Searching.{
  IsPlain, differ, behind, find_text-plain, find_text-differ, replace_all-shifted, replace_all-here,
}

-- Text, or the place of a value.
pub data Piece : Type 0 where
  literal slot : List ℕ → Piece

abbrev pub written : List Piece → List ℕ
written [] = []
written (literal text ∷ ps) = text ++ written ps
written (slot key ∷ ps) = (b'%' ∷ key) ++ written ps

abbrev pub put_value : List ℕ → List ℕ → Piece → Piece
put_value key value (literal text) = literal text
put_value key value (slot k) = if bytes_eq key k then literal value else slot k

-- A piece in which a key cannot be found but as a slot of its own.
abbrev pub IsClear : List ℕ → Piece → Type 0
IsClear key (literal text) = IsPlain text
IsClear key (slot k) = IsPlain k × ((bytes_eq key k || differ key k) ≡ true)

replace_all-end :
    (fuel : ℕ) (key value : List ℕ) → replace_all (suc fuel) (b'%' ∷ key) value [] ≡ ok []
unfolding replace_all replace_step find_text starts_with
replace_all-end fuel key value = refl

-- A slot, whichever key it has.
replace_all-slot :
    (fuel : ℕ) (key value k rest : List ℕ) (ps : List Piece)
    → IsClear key (slot k)
    → replace_all fuel (b'%' ∷ key) value rest ≡ ok (written ps)
    → replace_all (suc fuel) (b'%' ∷ key) value rest ≡ ok (written ps)
    → replace_all (suc fuel) (b'%' ∷ key) value ((b'%' ∷ k) ++ rest)
      ≡ ok (written (put_value key value (slot k) ∷ ps))
replace_all-slot fuel key value k rest ps (plain, known) e f = elim (Bool-cases (bytes_eq key k)) [
  | inl same ↦ rw same (
      ap (λ l. replace_all (suc fuel) (b'%' ∷ key) value ((b'%' ∷ l) ++ rest))
        (sym (bytes_eq→eq key k same))
      ∙ replace_all-here fuel key value rest
      ∙ ap (behind value) e)
  | inr other ↦ rw other (
      replace_all-shifted (suc fuel) key value (b'%' ∷ k) rest
        (find_text-differ key k rest plain (rw other at known))
      ∙ ap (behind (b'%' ∷ k)) f)
]

replace_all-written :
    (ps : List Piece) (fuel : ℕ) (key value : List ℕ)
    → All (IsClear key) ps
    → length (written ps) < fuel
    → replace_all fuel (b'%' ∷ key) value (written ps) ≡ ok (written (map (put_value key value) ps))
replace_all-written ps zero key value clear h = absurd (omega arith)
replace_all-written [] (suc fuel) key value clear h = replace_all-end fuel key value
replace_all-written (literal text ∷ ps) (suc fuel) key value clear h =
    let short : length (written ps) < suc fuel = omega (arith, length-append text (written ps)) in
    replace_all-shifted (suc fuel) key value text (written ps)
      (find_text-plain key text (written ps) clear.0)
    ∙ ap (behind text) (replace_all-written ps (suc fuel) key value clear.1 short)
replace_all-written (slot k ∷ ps) (suc fuel) key value clear h =
    let short : length (written ps) < fuel = omega (arith, length-append (b'%' ∷ k) (written ps)) in
    replace_all-slot fuel key value k (written ps) (map (put_value key value) ps) clear.0
      (replace_all-written ps fuel key value clear.1 short)
      (replace_all-written ps (suc fuel) key value clear.1 (omega (arith, short)))

abbrev pub or_slot : List ℕ → Option (List ℕ) → Piece
or_slot k (some value) = literal value
or_slot k none = slot k

-- Each slot with the first value that there is for its key.
abbrev pub filled : List (List ℕ × List ℕ) → Piece → Piece
filled values (literal text) = literal text
filled values (slot k) = or_slot k (header k values)

filled-put_value :
    (key value : List ℕ) (values : List (List ℕ × List ℕ)) (p : Piece)
    → filled values (put_value key value p) ≡ filled ((key, value) ∷ values) p
unfolding header
filled-put_value key value values (literal text) = refl
filled-put_value key value values (slot k) = elim (Bool-cases (bytes_eq key k)) [
  | inl e ↦ rw e refl
  | inr e ↦ rw e refl
]

map_none : (ps : List Piece) → map (filled []) ps ≡ ps
unfolding header
map_none [] = refl
map_none (literal text ∷ ps) = rw (map_none ps) refl
map_none (slot k ∷ ps) = rw (map_none ps) refl

map_filled :
    (key value : List ℕ) (values : List (List ℕ × List ℕ)) (ps : List Piece)
    → map (filled values) (map (put_value key value) ps) ≡ map (filled ((key, value) ∷ values)) ps
map_filled key value values [] = refl
map_filled key value values (p ∷ ps) =
    rw (filled-put_value key value values p, map_filled key value values ps) refl

-- The value is plain, and the key is found nowhere but in slots of its own.
abbrev pub IsEntry : List Piece → List ℕ × List ℕ → Type 0
IsEntry ps (key, value) = IsPlain value × All (IsClear key) ps

put_value-IsClear :
    (k key value : List ℕ)
    → IsPlain value
    → (p : Piece) → IsClear k p
    → IsClear k (put_value key value p)
put_value-IsClear k key value plain (literal text) clear = clear
put_value-IsClear k key value plain (slot j) clear =
    when (IsClear k) (bytes_eq key j) _ _ (λ e. plain) (λ e. clear)

put_values-IsClear :
    (k key value : List ℕ) (ps : List Piece)
    → IsPlain value
    → All (IsClear k) ps
    → All (IsClear k) (map (put_value key value) ps)
put_values-IsClear k key value [] plain clear = tt
put_values-IsClear k key value (p ∷ ps) plain clear =
    (put_value-IsClear k key value plain p clear.0, put_values-IsClear k key value ps plain clear.1)

put_values-IsEntry :
    (key value : List ℕ) (ps : List Piece)
    → IsPlain value
    → (e : List ℕ × List ℕ) → IsEntry ps e
    → IsEntry (map (put_value key value) ps) e
put_values-IsEntry key value ps plain e (own, clear) =
    (own, put_values-IsClear e.0 key value ps plain clear)

-- `render` ends, and gives the template with each slot filled by the value of its key and the other
-- slots as they were, whatever the order of the values: if no text, key or value has a `%` in it, and
-- each key of a value differs from each other key of the template at some byte that both have.
pub render-written :
    (values : List (List ℕ × List ℕ)) (ps : List Piece)
    → All (IsEntry ps) values
    → render values (written ps) ≡ ok (written (map (filled values) ps))
unfolding render
render-written [] ps entries = ap (λ l. ok (written l)) (sym (map_none ps))
render-written ((key, value) ∷ values) ps entries =
    let put = map (put_value key value) ps in
    ap (λ o. o >>= render values)
      (replace_all-written ps (suc (length (written ps))) key value entries.0.1 (omega arith))
    ∙ render-written values put
        (All-imp (put_values-IsEntry key value ps entries.0.0) values entries.1)
    ∙ ap (λ l. ok (written l)) (map_filled key value values ps)
