-- ===== src/Base/Bytes.antt =====
-- Texts as lists of bytes: the searches of package strings, and decimal numbers.
use Prim.Native.Nat.{ℕ, zero, suc, ◌+◌, ◌-◌, ◌*◌, ◌/◌, ◌%◌, ◌<◌}
use mathlib.Core.Path.{◌≡◌, refl}
use mathlib.Core.Logic.{inl, inr}
use mathlib.Core.Bool.{Bool, true, false, ◌&&◌}
use mathlib.Core.Option.{Option, none, some}
use mathlib.Core.List.{List, [], ◌∷◌, ◌++◌}
use native.Mathlib.Omega.{arith}
use cedana.Base.Tests.{◌==◌, ltb, leb, if◌then◌else◌, Bool-cases}
use cedana.Base.Lists.{All, All-append}

-- What follows the last of the bytes `b`, found by strings.LastIndexByte.
unfoldable pub after_last : ℕ → List ℕ → Option (List ℕ)
after_last b [] = none
after_last b (x ∷ xs) = elim (after_last b xs) [
  | some r ↦ some r
  | none ↦ if x == b then some xs else none
]

-- What precedes the first of the bytes `b`, found by strings.IndexByte.
unfoldable pub before_first : ℕ → List ℕ → Option (List ℕ)
before_first b [] = none
before_first b (x ∷ xs) =
    let rest = before_first b xs in
    if x == b then some [] else elim rest [ none ↦ none | some r ↦ some (x ∷ r) ]

abbrev pub Lacks : ℕ → List ℕ → Type 0
Lacks b = All (λ c. (c == b) ≡ false)

after_last-none : (b : ℕ) (ys : List ℕ) → Lacks b ys → after_last b ys ≡ none
unfolding after_last
after_last-none b [] h = refl
after_last-none b (y ∷ ys) h = rw (after_last-none b ys h.1, h.0) refl

pub after_last-append :
    (b : ℕ) (xs ys : List ℕ) → Lacks b ys → after_last b (xs ++ b ∷ ys) ≡ some ys
unfolding after_last
after_last-append b [] ys h = ground (arith, after_last-none b ys h)
after_last-append b (x ∷ xs) ys h = rw (after_last-append b xs ys h) refl

pub before_first-append :
    (b : ℕ) (xs ys : List ℕ) → Lacks b xs → before_first b (xs ++ b ∷ ys) ≡ some xs
unfolding before_first
before_first-append b [] ys h = ground arith
before_first-append b (x ∷ xs) ys h = rw (h.0, before_first-append b xs ys h.1) refl

-- The decimal digits of a number; the fuel counts digits, and more than the number is enough.
unfoldable pub digits_in : ℕ → ℕ → List ℕ
digits_in zero n = []
digits_in (suc f) n =
    let longer = digits_in f (n / 10) ++ (48 + n % 10) ∷ [] in
    if ltb n 10 then (48 + n) ∷ [] else longer

unfoldable pub decimal : ℕ → List ℕ
unfolding digits_in
decimal n = digits_in (suc n) n

-- The value of digits that follow digits of the value `n`.
unfoldable pub value_from : ℕ → List ℕ → ℕ
value_from n [] = n
value_from n (c ∷ cs) = value_from (n * 10 + (c - 48)) cs

abbrev pub is_digit : ℕ → Bool
is_digit c = leb 48 c && leb c 57

value_from-append :
    (n c : ℕ) (cs : List ℕ) → value_from n (cs ++ c ∷ []) ≡ value_from n cs * 10 + (c - 48)
unfolding value_from
value_from-append n c [] = refl
value_from-append n c (d ∷ cs) = value_from-append (n * 10 + (d - 48)) c cs

digits_in-value : (f n : ℕ) → n < f → value_from 0 (digits_in f n) ≡ n
unfolding digits_in value_from
digits_in-value zero n h = absurd (omega arith)
digits_in-value (suc f) n h = elim (Bool-cases (ltb n 10)) [
  | inl e ↦ rw e (omega arith)
  | inr e ↦ ground (
    arith,
    value_from-append 0 (48 + n % 10) (digits_in f (n / 10)),
    digits_in-value f (n / 10) (ground arith),
  )
]

pub decimal-value : (n : ℕ) → value_from 0 (decimal n) ≡ n
unfolding decimal
decimal-value n = digits_in-value (suc n) n (omega arith)

digits_in-digits : (f n : ℕ) → All (λ c. is_digit c ≡ true) (digits_in f n)
unfolding digits_in
digits_in-digits zero n = tt
digits_in-digits (suc f) n = elim (Bool-cases (ltb n 10)) [
  | inl e ↦ rw e (ground arith, tt)
  | inr e ↦ rw e (
      All-append (λ c. is_digit c ≡ true) (digits_in f (n / 10)) ((48 + n % 10) ∷ [])
        (digits_in-digits f (n / 10)) (ground arith, tt))
]

pub decimal-digits : (n : ℕ) → All (λ c. is_digit c ≡ true) (decimal n)
unfolding decimal
decimal-digits n = digits_in-digits (suc n) n
