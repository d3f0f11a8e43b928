-- ===== src/Server/Slots/Lists.antt =====
-- A slot that is changed, and the ones beside it.
use rite.Prelude.{
  ℕ, zero, suc, ◌≡◌, refl, subst, inl, inr, List, [], ◌∷◌, All, Option, none, some, Option-cases,
  get_elem?, ◌⊎◌, ◌≢◌, ◌<◌, arith, get-set_at, get_some, get-set_at_other,
}
use rite.Server.Slots.{Client, Slot, free, busy, next_free, put, accept}

pub put-same :
    (i : ℕ) (slot old : Slot) (slots : List Slot)
    → get_elem? slots i ≡ some old
    → get_elem? (put i slot slots) i ≡ some slot
put-same i slot old slots h = get-set_at i slot slots (get_some i old slots h)

abbrev pub IsBusy : Slot → Type 0
IsBusy free = ⊥
IsBusy (busy c) = Unit {0}

-- The first free slot, if there is one.
abbrev pub Free : List Slot → Option ℕ → Type 0
Free slots none = All IsBusy slots
Free slots (some i) =
    (get_elem? slots i ≡ some free)
    × ((j : ℕ) → j < i → (c : Client) × (get_elem? slots j ≡ some (busy c)))

shifted :
    (c : Client) (slots : List Slot) (found : Option ℕ)
    → Free slots found
    → Free (busy c ∷ slots) (elim found [ some i ↦ some (suc i) | none ↦ none ])
shifted c slots none h = (tt, h)
shifted c slots (some i) (here, before) = (here, earlier)
  where
    earlier : (j : ℕ) → j < suc i → (d : Client) × (get_elem? (busy c ∷ slots) j ≡ some (busy d))
    earlier zero h = (c, refl)
    earlier (suc j) h = before j (omega (arith, h))

-- The search gives the first free slot, or none if all of them are busy.
next_free-Free : (slots : List Slot) → Free slots (next_free slots)
unfolding next_free
next_free-Free [] = tt
next_free-Free (free ∷ slots) = (refl, λ j h. absurd (omega (arith, h)))
next_free-Free (busy c ∷ slots) = shifted c slots (next_free slots) (next_free-Free slots)

-- An accepted connection gets the first free slot and leaves the others as they are; without a free
-- slot nothing changes.
pub accept-Free :
    (c : Client) (slots : List Slot)
    → ((i : ℕ) × (get_elem? slots i ≡ some free)
        × (get_elem? (accept c slots) i ≡ some (busy c))
        × ((j : ℕ) → i ≢ j → get_elem? (accept c slots) j ≡ get_elem? slots j))
      ⊎ (All IsBusy slots × (accept c slots ≡ slots))
unfolding accept
accept-Free c slots = elim (Option-cases (next_free slots)) [
  | inl e ↦ inr (subst (Free slots) e (next_free-Free slots), rw (e, accept) refl)
  | inr (i, e) ↦
      let here = (subst (Free slots) e (next_free-Free slots)).0 in
      inl (
        i,
        here,
        rw (e, accept) (put-same i (busy c) free slots here),
        λ j differ. rw (e, accept) (get-set_at_other i j (busy c) slots differ),
      )
]
