-- ===== src/Gpu/Stats.antt =====
-- gpuWorkerDurationStats of internal/cedana/gpu/profiling.go: what the statistics say of the rows.
use cedana.Base.{ℕ, ◌+◌, ◌≤◌, ◌≡◌, refl, ◌⊎◌, inr, List, [], ◌∷◌, All, arith, length}
use cedana.Gpu.Profile.{Row, DurationStats, add_row, stats_from, worker_duration_stats}

abbrev pub Between : DurationStats → Row → Type 0
Between s r = (s.min ≤ r.duration_ns) × (r.duration_ns ≤ s.max)

-- Later rows only widen the range.
abbrev Wider : DurationStats → DurationStats → Type 0
Wider s t = (t.count ≡ 0 → ⊥) × (t.min ≤ s.min) × (s.max ≤ t.max)

add_row-Wider : (r : Row) (s : DurationStats) → (s.count ≡ 0 → ⊥) → Wider s (add_row r s)
unfolding add_row
add_row-Wider r s h = ground arith

add_row-Between : (r : Row) (s : DurationStats) → Between (add_row r s) r
unfolding add_row
add_row-Between r s = ground arith

stats_from-Wider :
    (rs : List Row) (s : DurationStats) → (s.count ≡ 0 → ⊥) → Wider s (stats_from s rs)
unfolding stats_from
stats_from-Wider [] s h = ground arith
stats_from-Wider (r ∷ rs) s h =
    let w : Wider s (add_row r s) = add_row-Wider r s h in
    let v : Wider (add_row r s) (stats_from (add_row r s) rs) =
      stats_from-Wider rs (add_row r s) w.0 in
    (v.0, omega (arith, v.1, w.1), omega (arith, v.2, w.2))

stats_from-Between : (rs : List Row) (s : DurationStats) → All (Between (stats_from s rs)) rs
unfolding stats_from
stats_from-Between [] s = tt
stats_from-Between (r ∷ rs) s =
    let b : Between (add_row r s) r = add_row-Between r s in
    let w : Wider (add_row r s) (stats_from (add_row r s) rs) =
      stats_from-Wider rs (add_row r s) (unfold add_row in λ e. omega (arith, e)) in
    ((omega (arith, b.0, w.1), omega (arith, b.1, w.2)), stats_from-Between rs (add_row r s))

stats_from-length :
    (rs : List Row) (s : DurationStats) → (stats_from s rs).count ≡ s.count + length rs
unfolding stats_from add_row
stats_from-length [] s = omega arith
stats_from-length (r ∷ rs) s = omega (arith, stats_from-length rs (add_row r s))

-- The bounds are durations of rows, of those counted before or of the new ones.
abbrev pub Attained : List Row → ℕ → Type 0
Attained [] d = ⊥
Attained (r ∷ rs) d = (r.duration_ns ≡ d) ⊎ Attained rs d

stats_from-Attained :
    (rs : List Row) (s : DurationStats)
    → ((s.count ≡ 0 → ⊥) × (s.min ≡ (stats_from s rs).min)
        ⊎ (Attained rs (stats_from s rs).min ⊎ (rs ≡ [])))
      × ((s.count ≡ 0 → ⊥) × (s.max ≡ (stats_from s rs).max)
          ⊎ (Attained rs (stats_from s rs).max ⊎ (rs ≡ [])))
unfolding stats_from add_row
stats_from-Attained [] s = (inr (inr refl), inr (inr refl))
stats_from-Attained (r ∷ []) s = ground arith
stats_from-Attained (r ∷ q ∷ rs) s = ground (arith, stats_from-Attained (q ∷ rs) (add_row r s))

-- The statistics count the rows, each duration lies between their bounds, and if there are rows, both
-- bounds are durations of rows.
pub worker_duration_stats_lem :
    (rs : List Row)
    → ((worker_duration_stats rs).count ≡ length rs)
      × All (Between (worker_duration_stats rs)) rs
      × ((rs ≡ [])
          ⊎ (Attained rs (worker_duration_stats rs).min
              × Attained rs (worker_duration_stats rs).max))
unfolding worker_duration_stats
worker_duration_stats_lem rs =
    let s : DurationStats = record { count = 0; min = 0; max = 0 } in
    (
      omega (arith, stats_from-length rs s),
      stats_from-Between rs s,
      ground (arith, stats_from-Attained rs s),
    )
