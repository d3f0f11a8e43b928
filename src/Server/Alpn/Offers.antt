-- ===== src/Server/Alpn/Offers.antt =====
-- The selection from what a client writes.
use rite.Prelude.{
  ℕ, zero, suc, ◌≤◌, ◌<◌, ◌≡◌, refl, sym, ap, ◌∙◌, inl, inr, List, [], ◌∷◌, ◌++◌, arith, Bool,
  false, ◌||◌, bytes_eq, bytes_eq→eq, if◌then◌else◌, length, take, drop, length-append, length-drop,
  append_assoc, take-append-drop, length-take, dec_lt, take_length-append, drop_length-append,
  le→ltb_false, lt→ltb, Bool-cases,
}
use rite.Outcome.{ok}
use rite.Server.Alpn.{Selection, selected, no_ack, h2, is_h2, select_from, alpn_select}

pub offer : List (List ℕ) → List ℕ
offer [] = []
offer (name ∷ names) = length name ∷ (name ++ offer names)

pub offers_h2 : List (List ℕ) → Bool
offers_h2 [] = false
offers_h2 (name ∷ names) = bytes_eq name h2 || offers_h2 names

-- The test on one name of the list.
is_h2-name : (name rest : List ℕ) → is_h2 (length name) (name ++ rest) ≡ bytes_eq name h2
is_h2-name [] rest = refl
is_h2-name (a ∷ []) rest = ground arith
is_h2-name (a ∷ b ∷ []) rest = ground arith
is_h2-name (a ∷ b ∷ c ∷ name) rest = ground arith

-- The end of a list that is cut off: nothing, or a length byte with fewer bytes behind it.
abbrev pub Cut : List ℕ → Type 0
Cut [] = Unit {0}
Cut (len ∷ rest) = length rest < len

select_from-Cut :
    (fuel : ℕ) (tail : List ℕ) → length tail ≤ fuel → Cut tail → select_from fuel tail ≡ ok no_ack
unfolding select_from
select_from-Cut fuel [] h c = refl
select_from-Cut zero (len ∷ rest) h c = absurd (omega arith)
select_from-Cut (suc fuel) (len ∷ rest) h c = rw (lt→ltb (length rest) len c) refl

select_from-name :
    (fuel : ℕ) (name rest : List ℕ)
    → select_from (suc fuel) (length name ∷ (name ++ rest))
      ≡ (if bytes_eq name h2 then ok (selected name) else select_from fuel rest)
unfolding select_from
select_from-name fuel name rest =
    rw (le→ltb_false (length (name ++ rest)) (length name) (omega (arith, length-append name rest)))
      (rw (is_h2-name name rest, take_length-append name rest, drop_length-append name rest) refl)

unfoldable pub answer : List (List ℕ) → Selection
unfolding offers_h2
answer names = if offers_h2 names then selected h2 else no_ack

select_from-offer :
    (names : List (List ℕ)) (tail : List ℕ) (fuel : ℕ)
    → Cut tail
    → length (offer names ++ tail) ≤ fuel
    → select_from fuel (offer names ++ tail) ≡ ok (answer names)
unfolding offer answer offers_h2
select_from-offer [] tail fuel c h = select_from-Cut fuel tail h c
select_from-offer (name ∷ names) tail zero c h = absurd (omega arith)
select_from-offer (name ∷ names) tail (suc fuel) c h =
    let enough : length (offer names ++ tail) ≤ fuel = omega (
      arith,
      h,
      length-append name (offer names),
      length-append name (offer names ++ tail),
      ap length (append_assoc name (offer names) tail),
    ) in
    rw (append_assoc name (offer names) tail) (
      select_from-name fuel name (offer names ++ tail) ∙ elim (Bool-cases (bytes_eq name h2)) [
        | inl e ↦ rw e (ap (λ n. ok (selected n)) (bytes_eq→eq name h2 e))
        | inr e ↦ rw e (select_from-offer names tail fuel c enough)
      ])

-- Every byte string is a list of names with a cut-off end.
record IsOffer (bytes : List ℕ) : Type 0 where
  names : List (List ℕ)
  tail : List ℕ
  split : bytes ≡ offer names ++ tail
  cut : Cut tail

offer_split :
    (len : ℕ) (rest : List ℕ) (names : List (List ℕ)) (tail : List ℕ)
    → len ≤ length rest
    → drop len rest ≡ offer names ++ tail
    → len ∷ rest ≡ offer (take len rest ∷ names) ++ tail
unfolding offer
offer_split len rest names tail h e =
    let whole =
      (sym (take-append-drop len rest)
        ∙ ap (λ l. take len rest ++ l) e
        ∙ sym (append_assoc (take len rest) (offer names) tail)) in
    let size : len ≡ length (take len rest) = omega (arith, length-take len rest, h) in
    ap (λ n. n ∷ rest) size ∙ ap (λ l. length (take len rest) ∷ l) whole

offered : (fuel : ℕ) (bytes : List ℕ) → length bytes ≤ fuel → IsOffer bytes
offered fuel [] h = record { names = []; tail = []; split = unfold offer in refl; cut = tt }
offered zero (len ∷ rest) h = absurd (omega arith)
offered (suc fuel) (len ∷ rest) h = elim (dec_lt (length rest) len) [
  | yes p ↦ record { names = []; tail = len ∷ rest; split = unfold offer in refl; cut = p }
  | no p ↦
      let inner = offered fuel (drop len rest) (omega (arith, length-drop len rest)) in
      record {
        names = take len rest ∷ inner.names;
        tail = inner.tail;
        split = offer_split len rest inner.names inner.tail (omega arith) inner.split;
        cut = inner.cut;
      }
]

select_split :
    (bytes tail : List ℕ) (names : List (List ℕ))
    → bytes ≡ offer names ++ tail
    → Cut tail
    → alpn_select bytes ≡ ok (answer names)
unfolding alpn_select
select_split bytes tail names e c =
    ap alpn_select e ∙ select_from-offer names tail (length (offer names ++ tail)) c (omega arith)

-- Whatever a client sends, the bytes are a list of names with an end that may be cut off, and the
-- server picks `h2` when it is one of these names, and nothing otherwise; in particular the loop ends.
pub alpn_select-offer :
    (bytes : List ℕ)
    → (names : List (List ℕ)) × (tail : List ℕ) × (bytes ≡ offer names ++ tail)
      × Cut tail
      × (alpn_select bytes ≡ ok (answer names))
alpn_select-offer bytes =
    let o = offered (length bytes) bytes (omega arith) in
    (o.names, o.tail, o.split, o.cut, select_split bytes o.tail o.names o.split o.cut)
