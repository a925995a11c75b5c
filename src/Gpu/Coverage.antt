-- ===== src/Gpu/Coverage.antt =====
-- gpuMergedIntervalDurationNs of internal/cedana/gpu/profiling.go against the instants that the
-- intervals cover.
use cedana.Base.{
  ℕ, zero, suc, Bool-cases, ◌+◌, ◌-◌, ◌≤◌, ◌<◌, ltb, leb, ◌≡◌, refl, ◌∙◌, Bool, true, false, not,
  ◌&&◌, ◌||◌, List, [], ◌∷◌, All, arith, if◌then◌else◌, inl, inr,
}
use cedana.Gpu.Profile.{Interval, before, insert, sort, merge_from, merged_interval_duration}

-- Whether the instant `t` lies in the span.
abbrev pub inside : ℕ → ℕ → ℕ → Bool
inside s e t = leb s t && ltb t e

abbrev pub covers : List Interval → ℕ → Bool
covers [] t = false
covers (i ∷ is) t = inside i.start_ns i.end_ns t || covers is t

-- How many of the instants below `n` pass the test.
abbrev pub count : (ℕ → Bool) → ℕ → ℕ
count p zero = 0
count p (suc n) = if p n then suc (count p n) else count p n

pub count-ext : (p q : ℕ → Bool) (n : ℕ) → ((t : ℕ) → p t ≡ q t) → count p n ≡ count q n
count-ext p q zero h = refl
count-ext p q (suc n) h = ground (arith, h n, count-ext p q n h)

count-or :
    (p q : ℕ → Bool) (n : ℕ)
    → ((t : ℕ) → (p t && q t) ≡ false)
    → count (λ t. p t || q t) n ≡ count p n + count q n
count-or p q zero h = omega arith
count-or p q (suc n) h = ground (arith, h n, count-or p q n h)

pub count-not : (p : ℕ → Bool) (n : ℕ) → count p n + count (λ t. not (p t)) n ≡ n
count-not p zero = omega arith
count-not p (suc n) = ground (arith, count-not p n)

count-inside : (s e n : ℕ) → count (inside s e) n ≡ (if leb e n then e else n) - s
count-inside s e zero = ground arith
count-inside s e (suc n) = ground (arith, count-inside s e n)

-- The starts are at least the bound, and each at least the one before it.
abbrev SortedFrom : ℕ → List Interval → Type 0
SortedFrom b [] = Unit {0}
SortedFrom b (i ∷ is) = (b ≤ i.start_ns) × SortedFrom i.start_ns is

lower : (a b : ℕ) (is : List Interval) → a ≤ b → SortedFrom b is → SortedFrom a is
lower a b [] h s = tt
lower a b (i ∷ is) h s = (omega (arith, s.0), s.1)

before-start : (i j : Interval) → before i j ≡ true → i.start_ns ≤ j.start_ns
unfolding before
before-start i j h = ground arith

before-not : (i j : Interval) → before j i ≡ false → i.start_ns ≤ j.start_ns
unfolding before
before-not i j h = ground arith

insert-SortedFrom :
    (b : ℕ) (i : Interval) (is : List Interval)
    → b ≤ i.start_ns
    → SortedFrom b is
    → SortedFrom b (insert i is)
unfolding insert
insert-SortedFrom b i [] h s = (h, tt)
insert-SortedFrom b i (j ∷ js) h s = elim (Bool-cases (before j i)) [
  | inl e ↦ rw e (s.0, insert-SortedFrom j.start_ns i js (before-start j i e) s.1)
  | inr e ↦ rw e (h, (before-not i j e, s.1))
]

sort-SortedFrom : (is : List Interval) → SortedFrom 0 (sort is)
unfolding sort
sort-SortedFrom [] = tt
sort-SortedFrom (i ∷ is) = insert-SortedFrom 0 i (sort is) (omega arith) (sort-SortedFrom is)

insert-covers :
    (i : Interval) (is : List Interval) (t : ℕ) → covers (insert i is) t ≡ covers (i ∷ is) t
unfolding insert
insert-covers i [] t = refl
insert-covers i (j ∷ js) t = ground (arith, insert-covers i js t)

sort-covers : (is : List Interval) (t : ℕ) → covers (sort is) t ≡ covers is t
unfolding sort
sort-covers [] t = refl
sort-covers (i ∷ is) t = ground (arith, insert-covers i (sort is) t, sort-covers is t)

-- Not empty and within the first `n` instants.
abbrev pub Within : ℕ → Interval → Type 0
Within n i = (i.start_ns < i.end_ns) × (i.end_ns ≤ n)

insert-All :
    (P : Interval → Type 0) (i : Interval) (is : List Interval)
    → P i
    → All P is
    → All P (insert i is)
unfolding insert
insert-All P i [] h a = (h, tt)
insert-All P i (j ∷ js) h a = elim (Bool-cases (before j i)) [
  | inl e ↦ rw e (a.0, insert-All P i js h a.1)
  | inr e ↦ rw e (h, a)
]

sort-All : (P : Interval → Type 0) (is : List Interval) → All P is → All P (sort is)
unfolding sort
sort-All P [] a = tt
sort-All P (i ∷ is) a = insert-All P i (sort is) a.0 (sort-All P is a.1)

-- Before the first start nothing is covered.
early : (b : ℕ) (is : List Interval) (t : ℕ) → SortedFrom b is → t < b → covers is t ≡ false
early b [] t s h = refl
early b (i ∷ is) t s h = ground (arith, early i.start_ns is t s.1 (omega (arith, s.0, h)), s.0)

-- The loop adds to `total` the instants of the current span and of the intervals to come.
merge_from-count :
    (n total s e : ℕ) (is : List Interval)
    → s ≤ e
    → e ≤ n
    → SortedFrom s is
    → All (Within n) is
    → merge_from total s e is ≡ total + count (λ t. inside s e t || covers is t) n
unfolding merge_from
merge_from-count n total s e [] h k o w = ground (
  arith,
  count-inside s e n,
  count-ext (λ t. inside s e t || false) (inside s e) n (λ t. ground arith),
)
merge_from-count n total s e (i ∷ is) h k o w = elim (Bool-cases (leb i.start_ns e)) [
  | inl q ↦ elim (Bool-cases (ltb e i.end_ns)) [
    | inl r ↦ ground (
      arith,
      w.0,
      merge_from-count n total s i.end_ns is (omega (arith, o.0, w.0.0)) w.0.1
          (lower s i.start_ns is o.0 o.1) w.1,
      count-ext (λ t. inside s e t || covers (i ∷ is) t) (λ t. inside s i.end_ns t || covers is t) n
          (λ t. ground (arith, o.0)),
    )
    | inr r ↦ ground (
      arith,
      w.0,
      merge_from-count n total s e is h k (lower s i.start_ns is o.0 o.1) w.1,
      count-ext (λ t. inside s e t || covers (i ∷ is) t) (λ t. inside s e t || covers is t) n
          (λ t. ground (arith, o.0)),
    )
  ]
  | inr q ↦ ground (
    arith,
    w.0,
    merge_from-count n (total + (e - s)) i.start_ns i.end_ns is (omega (arith, w.0.0)) w.0.1 o.1
        w.1,
    count-or (inside s e) (covers (i ∷ is)) n
        (λ t. ground (arith, early i.start_ns (i ∷ is) t (omega arith, o.1))),
    count-inside s e n,
  )
]

add_zero : (k : ℕ) → 0 + k ≡ k
add_zero k = omega arith

merged_on :
    (n : ℕ) (is js : List Interval)
    → sort is ≡ js
    → SortedFrom 0 js
    → All (Within n) js
    → merged_interval_duration is ≡ count (covers js) n
unfolding merged_interval_duration
merged_on n is [] e o w =
    rw (e, merged_interval_duration)
      (ground (arith, count-inside 0 0 n, count-ext (inside 0 0) (covers []) n (λ t. ground arith)))
merged_on n is (i ∷ js) e o w =
    rw (e, merged_interval_duration)
      (merge_from-count n 0 i.start_ns i.end_ns js (omega (arith, w.0.0)) w.0.1 o.1 w.1
        ∙ add_zero (count (covers (i ∷ js)) n))

-- For intervals that are not empty and end by `n`, in any order and however they overlap, the merged
-- duration is the number of instants below `n` that at least one of them covers.
pub merged_interval_duration-covers :
    (n : ℕ) (is : List Interval)
    → All (Within n) is
    → merged_interval_duration is ≡ count (covers is) n
merged_interval_duration-covers n is w =
    merged_on n is (sort is) refl (sort-SortedFrom is) (sort-All (Within n) is w)
    ∙ count-ext (covers (sort is)) (covers is) n (sort-covers is)
