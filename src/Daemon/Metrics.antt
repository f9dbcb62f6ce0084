-- ===== src/Daemon/Metrics.antt =====
-- scx_cohort/src/main.rs, `read_stat_counters` and `get_metrics`. What a lookup of a slot on all CPUs
-- gives is an argument: the call fails, there is no entry, or the values, of 8 bytes or not.
pub mod Homes
mod Tests
use scx_cohort.Base.Floats.{Floats}
use scx_cohort.Base.Map.{Map, from_list}
use scx_cohort.Base.Words.{add64}
use scx_cohort.Base.{
  ℕ, zero, suc, Bool, true, false, Option, none, some, List, [], ◌∷◌, map, keep, length, ltb,
  nat_beq, nat_key, if◌then◌else◌, ◌>>=◌,
}
use scx_cohort.Common.{
  nr_stats, stat_sync_local, stat_prev_idle, stat_idle_core, stat_idle_smt, stat_home_miss_clamp,
  stat_enq_home, stat_enq_spill, stat_steal, stat_tctx_err,
}
use scx_cohort.Daemon.{Value, sized, misfit}
use scx_cohort.Domain.{CohortSnapshot, LlcLoad}
use scx_cohort.Stats.{Metrics, LlcMetrics, affinity_pct}

-- The sum over the CPUs, where a value of another size counts for 0.
unfoldable pub sum_percpu : ℕ → List (Value ℕ) → ℕ
sum_percpu acc [] = acc
sum_percpu acc (misfit ∷ vals) = sum_percpu acc vals
sum_percpu acc (sized n ∷ vals) = sum_percpu (add64 acc n) vals

unfoldable pub slot_of : Option (List (Value ℕ)) → ℕ
slot_of none = 0
slot_of (some vals) = sum_percpu 0 vals

-- The slots from `idx` on.
unfoldable pub read_slots : (ℕ → Option (Option (List (Value ℕ)))) → ℕ → ℕ → Option (List ℕ)
read_slots lookups zero idx = some []
read_slots lookups (suc n) idx = do
  found ← lookups idx
  rest ← read_slots lookups n (suc idx)
  some (slot_of found ∷ rest)

unfoldable pub read_stat_counters : (ℕ → Option (Option (List (Value ℕ)))) → Option (List ℕ)
read_stat_counters lookups = read_slots lookups nr_stats 0

-- `[u64; NR_STATS]::default`, and a slot of the array.
abbrev pub no_counters : List ℕ
no_counters = 0 ∷ 0 ∷ 0 ∷ 0 ∷ 0 ∷ 0 ∷ 0 ∷ 0 ∷ 0 ∷ []

abbrev pub slot : ℕ → List ℕ → ℕ
slot i [] = 0
slot zero (n ∷ c) = n
slot (suc i) (n ∷ c) = slot i c

unfoldable pub or_no_counters : Option (List ℕ) → List ℕ
or_no_counters none = no_counters
or_no_counters (some c) = c

unfoldable pub sum_tasks : ℕ → List CohortSnapshot → ℕ
sum_tasks acc [] = acc
sum_tasks acc (c ∷ cohorts) = sum_tasks (add64 acc c.nr_tasks) cohorts

-- The cohorts that are at home on an LLC.
unfoldable pub nr_at_home : ℕ → List CohortSnapshot → ℕ
nr_at_home llc cohorts = length (keep (λ c. nat_beq c.home_llc llc) cohorts)

-- The counts that the daemon keeps for the metrics.
pub record Tallies : Type 0 where
  pub nr_migrations : ℕ
  pub nr_merges : ℕ
  pub nr_splits : ℕ
  pub current_spills : Map ℕ ℕ

module _ (f : Floats) where
  open f use {F64, of_nat, div}

  unfoldable pub llc_metrics : List CohortSnapshot → LlcLoad → LlcMetrics F64
  llc_metrics cohorts l = record {
    util = div (of_nat l.load_ns) (of_nat (if ltb l.capacity_ns 1 then 1 else l.capacity_ns));
    nr_cohorts = nr_at_home l.llc cohorts;
  }

  -- `get_metrics`, once the counters are read.
  unfoldable pub metrics_of : Tallies → List ℕ → List CohortSnapshot → List LlcLoad → Metrics F64
  metrics_of s c cohorts llcs = record {
    nr_cohorts = length cohorts;
    nr_tasks = sum_tasks 0 cohorts;
    affinity_hit_pct =
        affinity_pct f
          (add64
            (add64 (add64 (slot stat_sync_local c) (slot stat_prev_idle c)) (slot stat_idle_core c))
            (slot stat_idle_smt c))
          (slot stat_enq_home c) (slot stat_enq_spill c) (slot stat_steal c);
    nr_sync_local = slot stat_sync_local c;
    nr_prev_idle = slot stat_prev_idle c;
    nr_idle_core = slot stat_idle_core c;
    nr_idle_smt = slot stat_idle_smt c;
    nr_home_miss_clamp = slot stat_home_miss_clamp c;
    nr_enq_home = slot stat_enq_home c;
    nr_enq_spill = slot stat_enq_spill c;
    nr_steals = slot stat_steal c;
    nr_tctx_errors = slot stat_tctx_err c;
    nr_migrations = s.nr_migrations;
    nr_merges = s.nr_merges;
    nr_splits = s.nr_splits;
    nr_spilled = length s.current_spills;
    llcs = from_list (map (λ l. (l.llc, llc_metrics cohorts l)) llcs) [];
  }

  unfoldable pub get_metrics :
      Tallies
      → (ℕ → Option (Option (List (Value ℕ))))
      → List CohortSnapshot
      → List LlcLoad
      → Metrics F64
  get_metrics s lookups cohorts llcs =
      metrics_of s (or_no_counters (read_stat_counters lookups)) cohorts llcs
