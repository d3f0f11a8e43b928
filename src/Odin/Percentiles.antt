-- ===== src/Odin/Percentiles.antt =====
-- `calculate_percentiles`: the durations of the samples in milliseconds, in order, and four of them. The
-- products of 32768 and 0.99, 0.9, 0.75 and 0.5 are cut to whole numbers.
use rite.Prelude.{
  ℕ, zero, suc, ◌-◌, ◌/◌, ◌≤◌, ◌<◌, ◌≡◌, refl, ap, ◌∙◌, List, [], ◌∷◌, arith, All, All-imp, leb,
  ltb, when, map, length, if◌then◌else◌,
}
use rite.Odin.{Odin, OdinTiming, sample_size}

pub record OdinPercentiles : Type 0 where
  pub p99 : ℕ
  pub p90 : ℕ
  pub p75 : ℕ
  pub p50 : ℕ

pub durations : List OdinTiming → List ℕ
durations timings = map (λ t. (t.flushed - t.received) / 1000000) timings

-- std::sort on numbers.
insert : ℕ → List ℕ → List ℕ
insert x [] = x ∷ []
insert x (y ∷ ys) = let rest = insert x ys in if leb x y then x ∷ y ∷ ys else y ∷ rest

pub sort : List ℕ → List ℕ
unfolding insert
sort [] = []
sort (x ∷ xs) = insert x (sort xs)

-- The element at an index of an array; the index is in range.
abbrev at_index : List ℕ → ℕ → ℕ
at_index [] i = 0
at_index (x ∷ xs) zero = x
at_index (x ∷ xs) (suc i) = at_index xs i

pub calculate_percentiles : Odin → OdinPercentiles
unfolding sort durations
calculate_percentiles o =
    let sorted = sort (durations o.timings) in
    record {
      p99 = at_index sorted (32440 - 1);
      p90 = at_index sorted (29491 - 1);
      p75 = at_index sorted (24576 - 1);
      p50 = at_index sorted (16384 - 1);
    }

abbrev Sorted : List ℕ → Type 0
Sorted [] = Unit {0}
Sorted (x ∷ xs) = All (λ y. x ≤ y) xs × Sorted xs

-- How many are at most `bound`.
pub at_most : ℕ → List ℕ → ℕ
at_most bound [] = 0
at_most bound (x ∷ xs) = if leb x bound then suc (at_most bound xs) else at_most bound xs

-- How many are below `bound`.
pub below : ℕ → List ℕ → ℕ
below bound [] = 0
below bound (x ∷ xs) = if ltb x bound then suc (below bound xs) else below bound xs

insert-All : (x y : ℕ) (ys : List ℕ) → x ≤ y → All (λ z. x ≤ z) ys → All (λ z. x ≤ z) (insert y ys)
unfolding insert
insert-All x y [] h hs = (h, tt)
insert-All x y (z ∷ zs) h (hz, hzs) =
    when (All (λ z. x ≤ z)) (leb y z) _ _ (λ t. (h, (hz, hzs))) (λ f. (hz, insert-All x y zs h hzs))

insert-Sorted : (x : ℕ) (xs : List ℕ) → Sorted xs → Sorted (insert x xs)
unfolding insert
insert-Sorted x [] s = (tt, tt)
insert-Sorted x (y ∷ ys) (h, s) =
    when Sorted (leb x y) _ _
      (λ t.
        let le : x ≤ y = ground arith in ((le, All-imp (λ z k. omega (arith, le, k)) ys h), (h, s)))
      (λ f. let le : y ≤ x = ground arith in (insert-All y x ys le h, insert-Sorted x ys s))

sort-Sorted : (xs : List ℕ) → Sorted (sort xs)
unfolding sort
sort-Sorted [] = tt
sort-Sorted (x ∷ xs) = insert-Sorted x (sort xs) (sort-Sorted xs)

at_most-insert : (bound x : ℕ) (xs : List ℕ) → at_most bound (insert x xs) ≡ at_most bound (x ∷ xs)
unfolding insert at_most
at_most-insert bound x [] = refl
at_most-insert bound x (y ∷ ys) = ground (arith, at_most-insert bound x ys)

at_most-sort : (bound : ℕ) (xs : List ℕ) → at_most bound (sort xs) ≡ at_most bound xs
unfolding sort at_most
at_most-sort bound [] = refl
at_most-sort bound (x ∷ xs) =
    at_most-insert bound x (sort xs) ∙ ground (arith, at_most-sort bound xs)

below-insert : (bound x : ℕ) (xs : List ℕ) → below bound (insert x xs) ≡ below bound (x ∷ xs)
unfolding insert below
below-insert bound x [] = refl
below-insert bound x (y ∷ ys) = ground (arith, below-insert bound x ys)

below-sort : (bound : ℕ) (xs : List ℕ) → below bound (sort xs) ≡ below bound xs
unfolding sort below
below-sort bound [] = refl
below-sort bound (x ∷ xs) = below-insert bound x (sort xs) ∙ ground (arith, below-sort bound xs)

-- Nothing that is at least `bound` is below it.
below_least : (bound : ℕ) (xs : List ℕ) → All (λ y. bound ≤ y) xs → below bound xs ≡ 0
unfolding below
below_least bound [] h = refl
below_least bound (x ∷ xs) (h, hs) = ground (arith, below_least bound xs hs)

length-insert : (x : ℕ) (xs : List ℕ) → length (insert x xs) ≡ suc (length xs)
unfolding insert
length-insert x [] = refl
length-insert x (y ∷ ys) = ground (arith, length-insert x ys)

length-sort : (xs : List ℕ) → length (sort xs) ≡ length xs
unfolding sort
length-sort [] = refl
length-sort (x ∷ xs) = length-insert x (sort xs) ∙ ap suc (length-sort xs)

at_index-All : (x i : ℕ) (xs : List ℕ) → All (λ y. x ≤ y) xs → i < length xs → x ≤ at_index xs i
at_index-All x i [] h below = absurd (omega (arith, below))
at_index-All x zero (y ∷ ys) (h, hs) below = h
at_index-All x (suc i) (y ∷ ys) (h, hs) below = at_index-All x i ys hs (omega (arith, below))

at_index-Sorted :
    (i j : ℕ) (xs : List ℕ) → Sorted xs → i ≤ j → j < length xs → at_index xs i ≤ at_index xs j
at_index-Sorted i j [] s h below = absurd (omega (arith, below))
at_index-Sorted zero zero (x ∷ xs) s h below = omega arith
at_index-Sorted zero (suc j) (x ∷ xs) (least, s) h below =
    at_index-All x j xs least (omega (arith, below))
at_index-Sorted (suc i) zero (x ∷ xs) s h below = absurd (omega (arith, h))
at_index-Sorted (suc i) (suc j) (x ∷ xs) (least, s) h below =
    at_index-Sorted i j xs s (omega (arith, h)) (omega (arith, below))

rank : (i : ℕ) (xs : List ℕ) → Sorted xs → i < length xs → suc i ≤ at_most (at_index xs i) xs
unfolding at_most
rank i [] s below = absurd (omega (arith, below))
rank zero (x ∷ xs) s below = ground arith
rank (suc i) (x ∷ xs) (least, s) below =
    let inside : i < length xs = omega (arith, below) in
    let small = at_index-All x i xs least inside in
    let later = rank i xs s inside in ground (arith, small, later)

fewer : (i : ℕ) (xs : List ℕ) → Sorted xs → i < length xs → below (at_index xs i) xs ≤ i
unfolding below
fewer i [] s inside = absurd (omega (arith, inside))
fewer zero (x ∷ xs) (least, s) inside = ground (arith, below_least x xs least)
fewer (suc i) (x ∷ xs) (least, s) inside =
    let later = fewer i xs s (omega (arith, inside)) in ground (arith, later)

-- The element of a list that stands at an index when the list is in order: at most `i` are below it,
-- and more than `i` are at most it.
abbrev pub IsNth : ℕ → List ℕ → ℕ → Type 0
IsNth i xs x = (below x xs ≤ i) × (i < at_most x xs)

-- The ranks of the samples that the page shows.
ranked : (i : ℕ) (xs : List ℕ) → i < length xs → IsNth i xs (at_index (sort xs) i)
ranked i xs inside =
    let there : i < length (sort xs) = omega (arith, length-sort xs, inside) in
    let x = at_index (sort xs) i in
    (
      omega (arith, fewer i (sort xs) (sort-Sorted xs) there, below-sort x xs),
      omega (arith, rank i (sort xs) (sort-Sorted xs) there, at_most-sort x xs),
    )

length-durations : (timings : List OdinTiming) → length (durations timings) ≡ length timings
unfolding durations
length-durations [] = refl
length-durations (t ∷ timings) = ap suc (length-durations timings)

-- Of 32768 timings, whatever they are, the four percentiles are the durations that stand at the
-- places 16384, 24576, 29491 and 32440 when the durations are in order, counted from 1: fewer
-- durations than that are below a percentile, and at least as many are at most it.
pub calculate_percentiles-IsNth :
    (o : Odin)
    → length o.timings ≡ sample_size
    → IsNth 16383 (durations o.timings) (calculate_percentiles o).p50
      × IsNth 24575 (durations o.timings) (calculate_percentiles o).p75
      × IsNth 29490 (durations o.timings) (calculate_percentiles o).p90
      × IsNth 32439 (durations o.timings) (calculate_percentiles o).p99
unfolding calculate_percentiles
calculate_percentiles-IsNth o filled =
    let ds = durations o.timings in
    let full : length ds ≡ 32768 = length-durations o.timings ∙ filled in
    (
      ranked 16383 ds (omega (arith, full)),
      ranked 24575 ds (omega (arith, full)),
      ranked 29490 ds (omega (arith, full)),
      ranked 32439 ds (omega (arith, full)),
    )
