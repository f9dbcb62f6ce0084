-- ===== src/Stats/Readings.antt =====
-- scx_cohort/src/stats.rs, the reads of the stats server: what a client sums up from the reports.
use scx_cohort.Base.Floats.{Floats}
use scx_cohort.Base.Words.{u64_mod}
use scx_cohort.Base.{ℕ, ◌+◌, ◌-◌, ◌≤◌, ◌<◌, ◌≡◌, refl, List, [], ◌∷◌, arith}
use scx_cohort.Stats.{Metrics, placed, placed_home, counters_delta, delta, read_metrics}

-- The counters of the metrics.
pub data Counter : Type 0 where
  sync_local prev_idle idle_core idle_smt home_miss_clamp enq_home enq_spill steals tctx_errors
        migrations merges splits :
      Counter

module _ (f : Floats) where
  open f use {F64}

  unfoldable pub value : Counter → Metrics F64 → ℕ
  value sync_local m = m.nr_sync_local
  value prev_idle m = m.nr_prev_idle
  value idle_core m = m.nr_idle_core
  value idle_smt m = m.nr_idle_smt
  value home_miss_clamp m = m.nr_home_miss_clamp
  value enq_home m = m.nr_enq_home
  value enq_spill m = m.nr_enq_spill
  value steals m = m.nr_steals
  value tctx_errors m = m.nr_tctx_errors
  value migrations m = m.nr_migrations
  value merges m = m.nr_merges
  value splits m = m.nr_splits

  -- The reports of a client that reads on each of the metrics, after the first reading.
  unfoldable pub reports : Metrics F64 → List (Metrics F64) → List (Metrics F64)
  reports prev [] = []
  reports prev (cur ∷ ms) =
      let r = read_metrics f prev cur in let rest = reports r.1 ms in r.0 ∷ rest

  unfoldable pub latest : Metrics F64 → List (Metrics F64) → Metrics F64
  latest prev [] = prev
  latest prev (cur ∷ ms) = latest cur ms

  -- A sum over the reports, without a bound.
  unfoldable pub total : Counter → List (Metrics F64) → ℕ
  total c [] = 0
  total c (r ∷ rs) = value c r + total c rs

  -- A counter that never falls.
  abbrev pub IsRising : Counter → Metrics F64 → List (Metrics F64) → Type 0
  IsRising c prev [] = Unit
  IsRising c prev (cur ∷ ms) = (value c prev ≤ value c cur) × IsRising c cur ms

  value-delta :
      (c : Counter) (m rhs : Metrics F64) → value c (delta f m rhs) ≡ value c m - value c rhs
  unfolding value delta counters_delta
  value-delta sync_local m rhs = refl
  value-delta prev_idle m rhs = refl
  value-delta idle_core m rhs = refl
  value-delta idle_smt m rhs = refl
  value-delta home_miss_clamp m rhs = refl
  value-delta enq_home m rhs = refl
  value-delta enq_spill m rhs = refl
  value-delta steals m rhs = refl
  value-delta tctx_errors m rhs = refl
  value-delta migrations m rhs = refl
  value-delta merges m rhs = refl
  value-delta splits m rhs = refl

  -- Of a counter that never falls the reports sum up to its growth since the first reading.
  pub total-reports :
      (c : Counter) (prev : Metrics F64) (ms : List (Metrics F64))
      → IsRising c prev ms
      → value c prev + total c (reports prev ms) ≡ value c (latest prev ms)
  unfolding total reports latest read_metrics
  total-reports c prev [] h = omega arith
  total-reports c prev (cur ∷ ms) h =
      omega (arith, value-delta c cur prev, total-reports c cur ms h.1, h.0)

  -- Whether or not a counter falls back between readings, the reports sum up to no less than its growth
  -- since the first reading.
  latest-le_total :
      (c : Counter) (prev : Metrics F64) (ms : List (Metrics F64))
      → value c (latest prev ms) ≤ value c prev + total c (reports prev ms)
  unfolding total reports latest read_metrics
  latest-le_total c prev [] = omega arith
  latest-le_total c prev (cur ∷ ms) =
      omega (arith, value-delta c cur prev, latest-le_total c cur ms)

-- When the placements of an interval do not overflow, the home placements of `affinity_pct` are
-- no more than all of them, however many steals there were.
placed_home-le_placed :
    (direct home spill stolen : ℕ)
    → direct + home + spill < u64_mod
    → placed_home direct home stolen ≤ placed direct home spill
unfolding placed_home placed
placed_home-le_placed direct home spill stolen h = omega arith
