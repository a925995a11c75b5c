-- ===== src/Profiling/Flat.antt =====
-- Where the durations go when a tree of timings is flattened.
use cedana.Base.{
  ℕ, ◌+◌, ◌%◌, ◌^◌, ◌<◌, ◌==◌, ◌≡◌, ◌⊎◌, inl, inr, refl, ap, ◌∙◌, str_eq, true, false, not, ◌&&◌,
  ◌||◌, Bool-cases, arith, if◌then◌else◌,
}
use cedana.Profiling.{
  Info, Data, data_of, Components, none_left, next, info, components, append, leaf, sub64,
  is_serial, take_off, prefix_all, rename, flatten, flatten_all, print_duration,
}

-- What a component counts for, and the sum over a list.
abbrev pub counted : Info → ℕ
counted i = if is_serial i then i.duration else 0

unfoldable pub sum : Components → ℕ
sum none_left = 0
sum (next c cs) = counted (info c) + sum cs

sum-append : (cs ds : Components) → sum (append cs ds) ≡ sum cs + sum ds
unfolding sum
sum-append none_left ds = omega arith
sum-append (next c cs) ds = omega (arith, sum-append cs ds)

prefix_all-sum : (name : _) (cs : Components) → sum (prefix_all name cs) ≡ sum cs
unfolding sum prefix_all
prefix_all-sum name none_left = refl
prefix_all-sum name (next (data_of i cs) ds) = ap (λ n. counted i + n) (prefix_all-sum name ds)

rename-info : (d : Data) → info (rename d) ≡ info d
unfolding rename
rename-info (data_of i cs) = elim (Bool-cases (i.duration == 0 && not (str_eq i.name ""))) [
  | inl e ↦ rw e refl
  | inr e ↦ rw e refl
]

rename-sum : (d : Data) → sum (components (rename d)) ≡ sum (components d)
unfolding rename
rename-sum (data_of i cs) = elim (Bool-cases (i.duration == 0 && not (str_eq i.name ""))) [
  | inl e ↦ rw e (prefix_all-sum i.name cs)
  | inr e ↦ rw e refl
]

add-mod : (a b c : ℕ) → ((a + b) % 2 ^ 64 + c) % 2 ^ 64 ≡ (a + (b + c)) % 2 ^ 64
add-mod a b c = omega arith

sub64-add : (a b c : ℕ) → b < 2 ^ 64 → (sub64 a b + (b + c)) % 2 ^ 64 ≡ (a + c) % 2 ^ 64
sub64-add a b c h = omega (arith, h)

-- Print adds up what the components count for.
print_duration-sum :
    (total : ℕ) (cs : Components) → print_duration total cs % 2 ^ 64 ≡ (total + sum cs) % 2 ^ 64
unfolding print_duration sum
print_duration-sum total none_left = omega arith
print_duration-sum total (next (data_of i ds) cs) =
    elim (Bool-cases (i.duration == 0 && i.io == 0)) [
      | inl e ↦ ground (arith, print_duration-sum total cs)
      | inr e ↦ rw e (elim (Bool-cases (i.parallel || i.redundant)) [
        | inl f ↦ rw f (print_duration-sum ((total + 0) % 2 ^ 64) cs ∙ add-mod total 0 (sum cs))
        | inr f ↦ rw f (
            print_duration-sum ((total + i.duration) % 2 ^ 64) cs
            ∙ add-mod total i.duration (sum cs))
      ])
    ]

-- A tree none of whose components counts; and one where below a component that does not count none
-- counts, and whose other durations are 64-bit numbers.
unfoldable mutual
  pub IsShaded : Data → Type 0
  IsShaded (data_of i cs) = (is_serial i ≡ false) × AllShaded cs

  pub AllShaded : Components → Type 0
  AllShaded none_left = Unit
  AllShaded (next c cs) = IsShaded c × AllShaded cs

unfoldable mutual
  pub IsProper : Data → Type 0
  IsProper (data_of i cs) = (i.duration < 2 ^ 64) × AllProper cs

  pub AllProper : Components → Type 0
  AllProper none_left = Unit
  AllProper (next c cs) = (IsShaded c ⊎ ((is_serial (info c) ≡ true) × IsProper c)) × AllProper cs

sum-leaf : (d : Data) (cs : Components) → sum (next (leaf d) cs) ≡ counted (info d) + sum cs
unfolding sum
sum-leaf (data_of i ds) cs = refl

-- What a turn of the loop adds to the list.
sum-turn :
    (done : Components) (d : Data)
    → sum (append done (next (leaf d) (components d)))
      ≡ sum done + (counted (info d) + sum (components d))
sum-turn done d =
    sum-append done (next (leaf d) (components d))
    ∙ ap (λ n. sum done + n) (sum-leaf d (components d))

take_off-is_serial : (c i : Info) → is_serial (take_off c i) ≡ is_serial i
unfolding take_off
take_off-is_serial c i = elim (Bool-cases (is_serial c)) [ inl e ↦ rw e refl | inr e ↦ rw e refl ]

flatten_all-is_serial :
    (i : Info) (done cs : Components) → is_serial (info (flatten_all i done cs)) ≡ is_serial i
unfolding flatten
flatten_all-is_serial i done none_left = refl
flatten_all-is_serial i done (next c cs) =
    flatten_all-is_serial (take_off (info c) i) _ cs ∙ take_off-is_serial (info c) i

flatten-is_serial : (d : Data) → is_serial (info (flatten d)) ≡ is_serial (info d)
unfolding flatten
flatten-is_serial (data_of i cs) =
    ap is_serial (rename-info (flatten_all i none_left cs)) ∙ flatten_all-is_serial i none_left cs

uncounted : (i : Info) → is_serial i ≡ false → counted i ≡ 0
uncounted i e = rw e refl

mutual
  unfolding flatten IsShaded sum

  flatten-shaded : (d : Data) → IsShaded d → sum (components (flatten d)) ≡ 0
  flatten-shaded (data_of i cs) h =
      rename-sum (flatten_all i none_left cs) ∙ flatten_all-shaded i none_left cs h.1

  flatten_all-shaded :
      (i : Info) (done cs : Components)
      → AllShaded cs
      → sum (components (flatten_all i done cs)) ≡ sum done
  flatten_all-shaded i done none_left h = refl
  flatten_all-shaded i done (next (data_of j ds) cs) h =
      let c : Data = data_of j ds in
      let d : Data = flatten c in
      omega (
        arith,
        flatten_all-shaded (take_off j i) (append done (next (leaf d) (components d))) cs h.1,
        sum-turn done d,
        flatten-shaded (data_of j ds) h.0,
        uncounted (info d) (flatten-is_serial c ∙ h.0.0),
      )

abbrev pub accounted : Data → ℕ
accounted d = (info d).duration + sum (components d)

shaded-is_serial : (c : Data) → IsShaded c → is_serial (info c) ≡ false
unfolding IsShaded
shaded-is_serial (data_of j ds) h = h.0

proper-bound : (c : Data) → IsProper c → (info c).duration < 2 ^ 64
unfolding IsProper
proper-bound (data_of j ds) h = h.0

-- What a turn takes off the parent and adds to the list is the same, for a component that counts, where
-- `d` is the flattened component.
turn_serial :
    (c i : Info) (d : Data) (n : ℕ)
    → c.duration < 2 ^ 64
    → is_serial c ≡ true
    → is_serial (info d) ≡ true
    → accounted d % 2 ^ 64 ≡ c.duration
    → ((take_off c i).duration + (n + (counted (info d) + sum (components d)))) % 2 ^ 64
      ≡ (i.duration + n) % 2 ^ 64
unfolding take_off
turn_serial c i d n small e f h = rw (e, f) (omega (arith, small, h))

turn_shaded :
    (c i : Info) (d : Data) (n : ℕ)
    → is_serial c ≡ false
    → is_serial (info d) ≡ false
    → sum (components d) ≡ 0
    → ((take_off c i).duration + (n + (counted (info d) + sum (components d)))) % 2 ^ 64
      ≡ (i.duration + n) % 2 ^ 64
unfolding take_off
turn_shaded c i d n e f h = rw (e, f) (omega (arith, h))

mutual
  unfolding flatten IsProper sum

  flatten-accounted : (d : Data) → IsProper d → accounted (flatten d) % 2 ^ 64 ≡ (info d).duration
  flatten-accounted (data_of i cs) h =
      let r : Data = flatten_all i none_left cs in
      omega (
        arith,
        h.0,
        flatten_all-accounted i none_left cs h.1,
        ap (λ j. j.duration) (rename-info r),
        rename-sum r,
      )

  flatten_all-accounted :
      (i : Info) (done cs : Components)
      → AllProper cs
      → accounted (flatten_all i done cs) % 2 ^ 64 ≡ (i.duration + sum done) % 2 ^ 64
  flatten_all-accounted i done none_left h = refl
  flatten_all-accounted i done (next c cs) h =
      let d : Data = flatten c in
      let on =
        flatten_all-accounted (take_off (info c) i) (append done (next (leaf d) (components d))) cs
          h.1 in
      let turn : ((take_off (info c) i).duration
              + (sum done + (counted (info d) + sum (components d))))
            % 2 ^ 64
          ≡ (i.duration + sum done) % 2 ^ 64 =
        elim h.0 [
          | inl sh ↦
              let e = shaded-is_serial c sh in
              turn_shaded (info c) i d (sum done) e (flatten-is_serial c ∙ e) (flatten-shaded c sh)
          | inr (e, pr) ↦
              turn_serial (info c) i d (sum done) (proper-bound c pr) e (flatten-is_serial c ∙ e)
                (flatten-accounted c pr)
        ] in
      on ∙ ap (λ n. ((take_off (info c) i).duration + n) % 2 ^ 64) (sum-turn done d) ∙ turn

-- No time is lost or counted twice: the duration that is left with the top and the total that
-- Print shows add up to the duration that was measured, modulo 2^64, in a tree where no component counts
-- that is below one which does not (being parallel or redundant). (The durations of the top and of those
-- that count are 64-bit patterns.)
pub flatten_total :
    (d : Data)
    → IsProper d
    → ((info (flatten d)).duration + print_duration 0 (components (flatten d))) % 2 ^ 64
      ≡ (info d).duration
flatten_total d h =
    omega (arith, flatten-accounted d h, print_duration-sum 0 (components (flatten d)))
