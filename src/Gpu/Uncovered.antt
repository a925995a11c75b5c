-- ===== src/Gpu/Uncovered.antt =====
-- The row "other" of gpuOtherRows in internal/cedana/gpu/profiling.go against the intervals that the
-- profile has.
use cedana.Base.{
  All-append, ℕ, zero, suc, ◌<◌, ap, ltb, leb, ◌≡◌, refl, Bool, true, false, not, ◌&&◌, ◌||◌, List,
  [], ◌∷◌, ◌++◌, All, arith,
}
use cedana.Gpu.Profile.{
  ℤ, pos, negsuc, at_least_zero, Interval, RawInterval, PhaseProfile, WorkerProfile, clip, clip_all,
  covered_intervals, other_duration,
}
use cedana.Gpu.Coverage.{covers, count, count-not, Within, merged_interval_duration-covers}

clip_all-Within : (n : ℕ) (rs : List RawInterval) → All (Within n) (clip_all n rs)
unfolding clip_all clip
clip_all-Within n [] = tt
clip_all-Within n (r ∷ rs) = ground (arith, clip_all-Within n rs)

covered-Within : (n : ℕ) (ps : List PhaseProfile) → All (Within n) (covered_intervals n ps)
unfolding covered_intervals
covered-Within n [] = tt
covered-Within n (p ∷ ps) =
    All-append (Within n) (clip_all n p.intervals) (covered_intervals n ps)
      (clip_all-Within n p.intervals) (covered-Within n ps)

count-ext_below : (p q : ℕ → Bool) (n : ℕ) → ((t : ℕ) → t < n → p t ≡ q t) → count p n ≡ count q n
count-ext_below p q zero h = refl
count-ext_below p q (suc n) h =
    ground (arith, h n (omega arith), count-ext_below p q n (λ t k. h t (omega (arith, k))))

abbrev from : ℤ → ℕ → Bool
from (pos n) t = leb n t
from (negsuc n) t = true

abbrev until : ℤ → ℕ → Bool
until (pos n) t = ltb t n
until (negsuc n) t = false

-- Whether the instant lies in an interval, as the profile has it, of one of the phases.
abbrev pub in_intervals : List RawInterval → ℕ → Bool
in_intervals [] t = false
in_intervals (r ∷ rs) t = (from r.raw_start t && until r.raw_end t) || in_intervals rs t

abbrev pub in_phases : List PhaseProfile → ℕ → Bool
in_phases [] t = false
in_phases (p ∷ ps) t = in_intervals p.intervals t || in_phases ps t

from_iff : (z : ℤ) (t : ℕ) → from z t ≡ leb (at_least_zero z) t
from_iff (pos n) t = refl
from_iff (negsuc n) t = ground arith

until_iff : (z : ℤ) (t : ℕ) → until z t ≡ ltb t (at_least_zero z)
until_iff (pos n) t = refl
until_iff (negsuc n) t = ground arith

clip_all-covers :
    (n : ℕ) (rs : List RawInterval) (t : ℕ) → t < n → covers (clip_all n rs) t ≡ in_intervals rs t
unfolding clip_all clip
clip_all-covers n [] t h = refl
clip_all-covers n (r ∷ rs) t h =
    ground (arith, from_iff r.raw_start t, until_iff r.raw_end t, clip_all-covers n rs t h)

covers-append : (is js : List Interval) (t : ℕ) → covers (is ++ js) t ≡ (covers is t || covers js t)
covers-append [] js t = refl
covers-append (i ∷ is) js t = ground (arith, covers-append is js t)

covered-covers :
    (n : ℕ) (ps : List PhaseProfile) (t : ℕ)
    → t < n
    → covers (covered_intervals n ps) t ≡ in_phases ps t
unfolding covered_intervals
covered-covers n [] t h = refl
covered-covers n (p ∷ ps) t h = ground (
  arith,
  covers-append (clip_all n p.intervals) (covered_intervals n ps) t,
  clip_all-covers n p.intervals t h,
  covered-covers n ps t h,
)

-- The duration of a worker's row "other" is the number of instants of the worker's duration that lie
-- in no interval of any of its phases, whatever intervals the profile has.
pub other_duration-uncovered :
    (w : WorkerProfile)
    → other_duration w ≡ count (λ t. not (in_phases w.phases t)) w.worker_duration
unfolding other_duration
other_duration-uncovered w =
    let is : List Interval = covered_intervals w.worker_duration w.phases in
    omega (
      arith,
      merged_interval_duration-covers w.worker_duration is
          (covered-Within w.worker_duration w.phases),
      count-not (covers is) w.worker_duration,
      count-ext_below (λ t. not (covers is t)) (λ t. not (in_phases w.phases t)) w.worker_duration
          (λ t h. ap not (covered-covers w.worker_duration w.phases t h)),
    )
