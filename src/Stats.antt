-- ===== src/Stats.antt =====
-- scx_cohort/src/stats.rs: the metrics with their differences, and the view of cohorts and processes.
-- f64 is an interface; a B-tree map is a map of which only lookups are read. Of the stats server the
-- read of the metrics is modelled, with the reading before; printing is not.
pub mod Rows
pub mod Readings
mod Tests
use Prim.Native.String.{String}
use scx_cohort.Base.Floats.{Floats}
use scx_cohort.Base.Map.{Map, insert, lookup_or, contains_key}
use scx_cohort.Base.Words.{u64_mod, add64}
use scx_cohort.Base.{
  ℕ, ◌-◌, ◌%◌, Bool, true, false, List, [], ◌∷◌, ltb, nat_beq, nat_key, if◌then◌else◌, length, keep,
}
use scx_cohort.Domain.{LlcLoad, CohortSnapshot, TaskSnapshot}

pub record LlcMetrics (F64 : Type 0) : Type 0 where
  pub util : F64
  pub nr_cohorts : ℕ

pub record Metrics (F64 : Type 0) : Type 0 where
  pub nr_cohorts : ℕ
  pub nr_tasks : ℕ
  pub affinity_hit_pct : F64
  pub nr_sync_local : ℕ
  pub nr_prev_idle : ℕ
  pub nr_idle_core : ℕ
  pub nr_idle_smt : ℕ
  pub nr_home_miss_clamp : ℕ
  pub nr_enq_home : ℕ
  pub nr_enq_spill : ℕ
  pub nr_steals : ℕ
  pub nr_tctx_errors : ℕ
  pub nr_migrations : ℕ
  pub nr_merges : ℕ
  pub nr_splits : ℕ
  pub nr_spilled : ℕ
  pub llcs : Map ℕ (LlcMetrics F64)

-- The placements that `affinity_pct` takes for home; the subtraction saturates.
unfoldable pub placed_home : ℕ → ℕ → ℕ → ℕ
placed_home direct enq_home steals = add64 direct enq_home - steals

unfoldable pub placed : ℕ → ℕ → ℕ → ℕ
placed direct enq_home enq_spill = add64 (add64 direct enq_home) enq_spill

pub record ProcRow (F64 : Type 0) : Type 0 where
  pub tgid : ℕ
  pub comm : String
  pub threads : ℕ
  pub spilled : ℕ
  pub util_pct : F64
  pub affinity_pct : F64

pub record CohortRow (F64 : Type 0) : Type 0 where
  pub home_llc : ℕ
  pub pinned : ℕ
  pub tasks : ℕ
  pub util_pct : F64
  pub affinity_pct : F64
  pub procs : Map ℕ (ProcRow F64)

pub record ProcsSnapshot (F64 : Type 0) : Type 0 where
  pub nr_tasks : ℕ
  pub affinity_pct : F64
  pub llc_util_pct : Map ℕ F64
  pub cohorts : Map ℕ (CohortRow F64)

-- `bool as u64`.
abbrev pub as_u64 : Bool → ℕ
as_u64 true = 1
as_u64 false = 0

-- `tick.as_nanos().max(1) as u64`.
unfoldable pub tick_ns_of : ℕ → ℕ
tick_ns_of nanos = (if ltb nanos 1 then 1 else nanos) % u64_mod

-- The sums of duty and home time over tasks.
unfoldable pub sum_duty : ℕ → List TaskSnapshot → ℕ
sum_duty acc [] = acc
sum_duty acc (t ∷ tasks) = sum_duty (add64 acc t.duty_ns) tasks

unfoldable pub sum_home : ℕ → List TaskSnapshot → ℕ
sum_home acc [] = acc
sum_home acc (t ∷ tasks) = sum_home (add64 acc t.home_ns) tasks

module _ (f : Floats) where
  open f use {F64, of_nat, add, mul, div, lt}

  unfoldable pub affinity_pct : ℕ → ℕ → ℕ → ℕ → F64
  affinity_pct direct enq_home enq_spill steals =
      let total = placed direct enq_home enq_spill in
      if ltb 0 total
      then div (mul (of_nat (placed_home direct enq_home steals)) (of_nat 100)) (of_nat total)
      else of_nat 100

  -- The placements of one kind or another on an idle CPU of the home CCD.
  unfoldable pub direct_hits : Metrics F64 → ℕ
  direct_hits d = add64 (add64 (add64 d.nr_sync_local d.nr_prev_idle) d.nr_idle_core) d.nr_idle_smt

  -- `Metrics::delta` but for the affinity. The subtractions saturate.
  unfoldable pub counters_delta : Metrics F64 → Metrics F64 → Metrics F64
  counters_delta m rhs = record m {
    nr_sync_local = m.nr_sync_local - rhs.nr_sync_local;
    nr_prev_idle = m.nr_prev_idle - rhs.nr_prev_idle;
    nr_idle_core = m.nr_idle_core - rhs.nr_idle_core;
    nr_idle_smt = m.nr_idle_smt - rhs.nr_idle_smt;
    nr_home_miss_clamp = m.nr_home_miss_clamp - rhs.nr_home_miss_clamp;
    nr_enq_home = m.nr_enq_home - rhs.nr_enq_home;
    nr_enq_spill = m.nr_enq_spill - rhs.nr_enq_spill;
    nr_steals = m.nr_steals - rhs.nr_steals;
    nr_tctx_errors = m.nr_tctx_errors - rhs.nr_tctx_errors;
    nr_migrations = m.nr_migrations - rhs.nr_migrations;
    nr_merges = m.nr_merges - rhs.nr_merges;
    nr_splits = m.nr_splits - rhs.nr_splits;
  }

  unfoldable pub delta : Metrics F64 → Metrics F64 → Metrics F64
  delta m rhs =
      let d = counters_delta m rhs in
      record d {
        affinity_hit_pct = affinity_pct (direct_hits d) d.nr_enq_home d.nr_enq_spill d.nr_steals;
      }

  -- A read of the stats channel: what it reports, and the reading that the next one starts from.
  unfoldable pub read_metrics : Metrics F64 → Metrics F64 → Metrics F64 × Metrics F64
  read_metrics prev cur = (delta cur prev, cur)

  -- The closure `pct`.
  unfoldable pub pct : ℕ → ℕ → F64
  pct num den = if ltb 0 den then div (mul (of_nat num) (of_nat 100)) (of_nat den) else of_nat 100

  -- `insert_with` of an absent process.
  unfoldable pub new_row : TaskSnapshot → ProcRow F64
  new_row t = record {
    tgid = t.tgid;
    comm = t.comm;
    threads = 0;
    spilled = 0;
    util_pct = of_nat 0;
    affinity_pct = of_nat 0;
  }

  -- One task added to its process.
  unfoldable pub add_thread : ℕ → Map ℕ ℕ → TaskSnapshot → ProcRow F64 → ProcRow F64
  add_thread tick_ns spills t row = record row {
    threads = add64 row.threads 1;
    spilled = add64 row.spilled (as_u64 (contains_key t.pid spills));
    util_pct = add row.util_pct (div (mul (of_nat t.duty_ns) (of_nat 100)) (of_nat tick_ns));
    affinity_pct = add row.affinity_pct (of_nat t.home_ns);
  }

  -- The loop over the tasks of a cohort.
  unfoldable pub add_threads :
      ℕ → Map ℕ ℕ → List TaskSnapshot → Map ℕ (ProcRow F64) → Map ℕ (ProcRow F64)
  add_threads tick_ns spills [] procs = procs
  add_threads tick_ns spills (t ∷ tasks) procs =
      add_threads tick_ns spills tasks
        (insert t.tgid (add_thread tick_ns spills t (lookup_or (new_row t) t.tgid procs)) procs)

  -- `f64::min`.
  unfoldable pub at_most : F64 → F64 → F64
  at_most limit x = if lt x limit then x else limit

  -- The time at home made a share of the time on a CPU.
  unfoldable pub finish_row : ℕ → ProcRow F64 → ProcRow F64
  finish_row tick_ns row =
      let duty_ns = mul (div row.util_pct (of_nat 100)) (of_nat tick_ns) in
      record row {
        affinity_pct =
            if lt (of_nat 0) duty_ns
            then at_most (of_nat 100) (mul (div row.affinity_pct duty_ns) (of_nat 100))
            else of_nat 100;
      }

  -- The loop over `values_mut`.
  unfoldable pub finish_rows : ℕ → Map ℕ (ProcRow F64) → Map ℕ (ProcRow F64)
  finish_rows tick_ns [] = []
  finish_rows tick_ns ((tgid, row) ∷ procs) =
      (tgid, finish_row tick_ns row) ∷ finish_rows tick_ns procs

  unfoldable pub members_of : CohortSnapshot → List TaskSnapshot → List TaskSnapshot
  members_of c tasks = keep (λ t. nat_beq t.cohort_id c.id) tasks

  unfoldable pub cohort_row : ℕ → Map ℕ ℕ → List TaskSnapshot → CohortSnapshot → CohortRow F64
  cohort_row tick_ns spills tasks c =
      let members = members_of c tasks in
      record {
        home_llc = c.home_llc;
        pinned = as_u64 c.pinned;
        tasks = length members % u64_mod;
        util_pct = div (mul (of_nat (sum_duty 0 members)) (of_nat 100)) (of_nat tick_ns);
        affinity_pct = pct (sum_home 0 members) (sum_duty 0 members);
        procs = finish_rows tick_ns (add_threads tick_ns spills members []);
      }

  -- The loop over the LLCs.
  unfoldable pub llc_utils : List LlcLoad → Map ℕ F64 → Map ℕ F64
  llc_utils [] utils = utils
  llc_utils (l ∷ llcs) utils = llc_utils llcs (
      insert l.llc
        (div (mul (of_nat l.load_ns) (of_nat 100))
          (of_nat (if ltb l.capacity_ns 1 then 1 else l.capacity_ns)))
        utils)

  -- The loop over the cohorts.
  unfoldable pub cohort_rows :
      ℕ
      → Map ℕ ℕ
      → List TaskSnapshot
      → List CohortSnapshot
      → Map ℕ (CohortRow F64)
      → Map ℕ (CohortRow F64)
  cohort_rows tick_ns spills tasks [] rows = rows
  cohort_rows tick_ns spills tasks (c ∷ cohorts) rows =
      cohort_rows tick_ns spills tasks cohorts
        (insert c.id (cohort_row tick_ns spills tasks c) rows)

  unfoldable pub procs_snapshot :
      List CohortSnapshot → List TaskSnapshot → List LlcLoad → Map ℕ ℕ → ℕ → ProcsSnapshot F64
  procs_snapshot cohorts tasks llcs spills tick_nanos = record {
    nr_tasks = length tasks;
    affinity_pct = pct (sum_home 0 tasks) (sum_duty 0 tasks);
    llc_util_pct = llc_utils llcs [];
    cohorts = cohort_rows (tick_ns_of tick_nanos) spills tasks cohorts [];
  }
