-- ===== src/Gpu/Profile.antt =====
-- internal/cedana/gpu/profiling.go: the rows of timings that are made of the profiles of a GPU
-- controller's workers. Durations of workers and phases are not negative; the ends of an interval
-- are any integers until they are clipped to the worker's duration.
use cedana.Base.{
  ℕ, suc, ◌+◌, ◌-◌, ◌%◌, ◌^◌, String, ◌==◌, ltb, leb, str_eq, Bool, true, false, not, ◌&&◌, ◌||◌,
  Option, none, some, List, [], ◌∷◌, ◌++◌, if◌then◌else◌,
}

-- The integers over the native numbers: `negsuc n` is -(n + 1).
pub data ℤ : Type 0 where
  pos negsuc : ℕ → ℤ

pub record RawInterval : Type 0 where
  pub raw_start : ℤ
  pub raw_end : ℤ

pub record Interval : Type 0 where
  pub start_ns : ℕ
  pub end_ns : ℕ

pub record PhaseProfile : Type 0 where
  pub phase_name : String
  pub phase_duration : ℕ
  pub phase_bytes : ℕ
  pub intervals : List RawInterval
  pub truncated : Bool

pub record WorkerProfile : Type 0 where
  pub worker_index : ℕ
  pub worker_duration : ℕ
  pub worker_bytes : ℕ
  pub phases : List PhaseProfile

pub record Row : Type 0 where
  pub row_worker : WorkerProfile
  pub worker_position : ℕ
  pub row_name : String
  pub duration_ns : ℕ
  pub bytes : ℕ

-- The order in which the intervals are sorted: by start, then by end.
unfoldable pub before : Interval → Interval → Bool
before i j = if i.start_ns == j.start_ns then ltb i.end_ns j.end_ns else ltb i.start_ns j.start_ns

unfoldable pub insert : Interval → List Interval → List Interval
unfolding before
insert i [] = i ∷ []
insert i (j ∷ js) = let rest = insert i js in if before j i then j ∷ rest else i ∷ j ∷ js

-- sort.Slice; intervals that the order does not tell apart are equal, so that it has one result.
unfoldable pub sort : List Interval → List Interval
unfolding insert
sort [] = []
sort (i ∷ is) = insert i (sort is)

-- The loop of gpuMergedIntervalDurationNs, with `total`, `currentStart` and `currentEnd`.
unfoldable pub merge_from : ℕ → ℕ → ℕ → List Interval → ℕ
merge_from total s e [] = total + e - s
merge_from total s e (i ∷ is) =
    let skipped = merge_from total s e is in
    let longer = merge_from total s i.end_ns is in
    let fresh = merge_from (total + (e - s)) i.start_ns i.end_ns is in
    if leb i.end_ns i.start_ns
    then skipped
    else if leb i.start_ns e
    then (if ltb e i.end_ns then longer else skipped)
    else fresh

unfoldable pub merged_interval_duration : List Interval → ℕ
unfolding sort merge_from
merged_interval_duration is = elim (sort is) [
  | [] ↦ 0
  | i ∷ rest ↦ merge_from 0 i.start_ns i.end_ns rest
]

abbrev pub at_least_zero : ℤ → ℕ
at_least_zero (pos n) = n
at_least_zero (negsuc n) = 0

-- The interval cut to the duration of the worker, if anything is left of it. (A negative end is not
-- after the start, and neither is 0.)
unfoldable pub clip : ℕ → RawInterval → Option Interval
clip duration r =
    let s = at_least_zero r.raw_start in
    let e = at_least_zero r.raw_end in
    let e' = if ltb duration e then duration else e in
    if ltb s e' then some (record { start_ns = s; end_ns = e' }) else none

unfoldable pub clip_all : ℕ → List RawInterval → List Interval
unfolding clip
clip_all duration [] = []
clip_all duration (r ∷ rs) =
    let rest = clip_all duration rs in elim (clip duration r) [ none ↦ rest | some i ↦ i ∷ rest ]

unfoldable pub covered_intervals : ℕ → List PhaseProfile → List Interval
unfolding clip_all
covered_intervals duration [] = []
covered_intervals duration (p ∷ ps) = clip_all duration p.intervals ++ covered_intervals duration ps

abbrev pub no_intervals : List RawInterval → Bool
no_intervals [] = true
no_intervals (r ∷ rs) = false

unfoldable pub intervals_complete : List PhaseProfile → Bool
intervals_complete [] = true
intervals_complete (p ∷ ps) =
    not (p.truncated || (ltb 0 p.phase_duration && no_intervals p.intervals))
    && intervals_complete ps

-- The sum of the phases' bytes, an uint64.
unfoldable pub named_bytes : ℕ → List PhaseProfile → ℕ
named_bytes sum [] = sum
named_bytes sum (p ∷ ps) = named_bytes ((sum + p.phase_bytes) % 2 ^ 64) ps

unfoldable pub other_duration : WorkerProfile → ℕ
unfolding merged_interval_duration covered_intervals
other_duration w =
    w.worker_duration - merged_interval_duration (covered_intervals w.worker_duration w.phases)

unfoldable pub other_bytes : WorkerProfile → ℕ
unfolding other_duration named_bytes
other_bytes w =
    let named = named_bytes 0 w.phases in
    if ltb 0 (other_duration w) && ltb named w.worker_bytes then w.worker_bytes - named else 0

-- The row of one worker, if it has one.
unfoldable pub other_row : ℕ → WorkerProfile → Option Row
unfolding other_bytes intervals_complete
other_row position w =
    if not (intervals_complete w.phases)
    then none
    else if other_duration w == 0 && other_bytes w == 0
    then none
    else some (record {
      row_worker = w;
      worker_position = position;
      row_name = "other";
      duration_ns = other_duration w;
      bytes = other_bytes w;
    })

-- gpuOtherRows, from a position on.
unfoldable pub other_rows : ℕ → List WorkerProfile → List Row
unfolding other_row
other_rows position [] = []
other_rows position (w ∷ ws) =
    let rest = other_rows (suc position) ws in
    elim (other_row position w) [ none ↦ rest | some r ↦ r ∷ rest ]

unfoldable pub worker_phase : String → List PhaseProfile → Option PhaseProfile
worker_phase name [] = none
worker_phase name (p ∷ ps) =
    let rest = worker_phase name ps in if str_eq p.phase_name name then some p else rest

unfoldable pub phase_row : String → String → ℕ → WorkerProfile → Option Row
unfolding worker_phase
phase_row name display position w = elim (worker_phase name w.phases) [
  | none ↦ none
  | some p ↦
      if p.phase_duration == 0 && p.phase_bytes == 0
      then none
      else some (record {
        row_worker = w;
        worker_position = position;
        row_name = display;
        duration_ns = p.phase_duration;
        bytes = p.phase_bytes;
      })
]

-- gpuPhaseRows, from a position on.
unfoldable pub phase_rows : String → String → ℕ → List WorkerProfile → List Row
unfolding phase_row
phase_rows name display position [] = []
phase_rows name display position (w ∷ ws) =
    let rest = phase_rows name display (suc position) ws in
    elim (phase_row name display position w) [ none ↦ rest | some r ↦ r ∷ rest ]

pub record DurationStats : Type 0 where
  pub count : ℕ
  pub min : ℕ
  pub max : ℕ

unfoldable pub add_row : Row → DurationStats → DurationStats
add_row r s = record {
  count = suc s.count;
  min = if s.count == 0 || ltb r.duration_ns s.min then r.duration_ns else s.min;
  max = if s.count == 0 || ltb s.max r.duration_ns then r.duration_ns else s.max;
}

unfoldable pub stats_from : DurationStats → List Row → DurationStats
unfolding add_row
stats_from s [] = s
stats_from s (r ∷ rs) = stats_from (add_row r s) rs

-- gpuWorkerDurationStats.
unfoldable pub worker_duration_stats : List Row → DurationStats
unfolding stats_from
worker_duration_stats rs = stats_from (record { count = 0; min = 0; max = 0 }) rs
