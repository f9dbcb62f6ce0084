-- ===== src/Stats/Tests.antt =====
-- The snapshot of the unit test, in thousandths, and the theorems at concrete inputs.
use scx_cohort.Base.Floats.{milli}
use scx_cohort.Base.Map.{Map, lookup, lookup_or, insert, contains_key}
use scx_cohort.Base.{
  ℕ, ◌+◌, ◌*◌, ◌/◌, ◌≡◌, refl, inl, true, none, some, List, [], ◌∷◌, arith, nat_key,
}
use scx_cohort.Domain.{LlcLoad, CohortSnapshot, TaskSnapshot}
use scx_cohort.Stats.Readings.{enq_home, value, reports, latest, total, total-reports}
use scx_cohort.Stats.Rows.{Describes, threads_in, spilled_in, procs_snapshot-Describes}
use scx_cohort.Stats.{
  Metrics, CohortRow, placed_home, placed, tick_ns_of, sum_duty, sum_home, affinity_pct,
  direct_hits, counters_delta, delta, read_metrics, pct, new_row, add_thread, add_threads, at_most,
  finish_row, finish_rows, members_of, cohort_row, llc_utils, cohort_rows, procs_snapshot,
}

program : Unit {0}
unfolding placed_home placed tick_ns_of sum_duty sum_home affinity_pct direct_hits counters_delta
    delta read_metrics pct new_row add_thread add_threads at_most finish_row finish_rows members_of
    cohort_row llc_utils cohort_rows procs_snapshot lookup lookup_or insert contains_key value
    reports latest total
program = tt

abbrev tick_ns : ℕ
tick_ns = 200_000_000

abbrev task : ℕ → ℕ → ℕ → ℕ → TaskSnapshot
task pid tgid duty home = record {
  pid = pid;
  tgid = tgid;
  cohort_id = 7;
  duty_ns = duty;
  home_ns = home;
  comm = "game";
}

abbrev seven : CohortSnapshot
seven = record {
  id = 7;
  home_llc = 1;
  pinned = true;
  nr_tasks = 3;
  load_ns = tick_ns;
  residency_ms = none;
}

abbrev tasks : List TaskSnapshot
tasks =
    task 101 100 (tick_ns / 2) (tick_ns / 2)
    ∷ task 102 100 (tick_ns / 2) (tick_ns / 4)
    ∷ task 201 200 (tick_ns / 4) 0
    ∷ []

abbrev llcs : List LlcLoad
llcs = record { llc = 1; load_ns = tick_ns; capacity_ns = tick_ns * 8 } ∷ []

abbrev spills : Map ℕ ℕ
spills = (201, 0) ∷ []

-- The percentages are thousandths of a per cent.
aggregates_threads_and_affinity :
    (threads_in milli 100 (cohort_row milli tick_ns spills tasks seven).procs ≡ 2)
    × (spilled_in milli 200 (cohort_row milli tick_ns spills tasks seven).procs ≡ 1)
    × ((cohort_row milli tick_ns spills tasks seven).util_pct ≡ 125_000)
    × ((cohort_row milli tick_ns spills tasks seven).affinity_pct ≡ 60_000)
unfolding program
aggregates_threads_and_affinity = (refl, refl, refl, refl)

procs_snapshot-Describes_example :
    (row : CohortRow ℕ) × (lookup 7
        (procs_snapshot milli (seven ∷ []) tasks llcs spills tick_ns).cohorts
      ≡ some row)
    × Describes milli spills tasks seven row
procs_snapshot-Describes_example =
    procs_snapshot-Describes milli (seven ∷ []) tasks llcs spills tick_ns seven (refl, tt)
      (inl refl)

abbrev metrics : ℕ → ℕ → Metrics ℕ
metrics home stolen = record {
  nr_cohorts = 1;
  nr_tasks = 3;
  affinity_hit_pct = 0;
  nr_sync_local = 0;
  nr_prev_idle = 0;
  nr_idle_core = 0;
  nr_idle_smt = 0;
  nr_home_miss_clamp = 0;
  nr_enq_home = home;
  nr_enq_spill = 0;
  nr_steals = stolen;
  nr_tctx_errors = 0;
  nr_migrations = 0;
  nr_merges = 0;
  nr_splits = 0;
  nr_spilled = 0;
  llcs = [];
}

abbrev later : List (Metrics ℕ)
later = metrics 30 5 ∷ metrics 45 5 ∷ []

total-reports_example : 10 + total milli enq_home (reports milli (metrics 10 0) later) ≡ 45
unfolding program
total-reports_example =
    total-reports milli enq_home (metrics 10 0) later (omega arith, (omega arith, tt))
