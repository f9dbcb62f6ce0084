-- ===== src/Daemon/Tick.antt =====
-- scx_cohort/src/main.rs, `tick`: the parts of the daemon in their order, over one state. The maps of
-- policies, counters, processes and spills are part of the state, as the daemon leaves them; what the
-- kernel answers otherwise, and which calls fail, is an argument. The BPF side does not write to these
-- maps within a tick here.
pub mod Total
pub mod View
use scx_cohort.Daemon.World.{
  Setup, Scheduler, World, unless, delete_all, Part, Done, ◌>>=◌, ◌>>◌, ok_if, give,
}
use Prim.Native.String.{String}
use scx_cohort.Balancer.{Balancer, plan}
use scx_cohort.Base.Floats.{Floats}
use scx_cohort.Base.Map.{Map, remove}
use scx_cohort.Base.{
  ℕ, Bool, true, false, Option, none, some, List, [], ◌∷◌, length, nat_key, if◌then◌else◌,
}
use scx_cohort.Common.{WakeEdgeKey, TaskStat}
use scx_cohort.Config.{Globs, Config}
use scx_cohort.Daemon.Kernel.{Outcome}
use scx_cohort.Daemon.Merge.{Faults, delete_unless}
use scx_cohort.Daemon.Policies.{PolicyFaults, MoveState, apply}
use scx_cohort.Daemon.Relations.{RelationState, discover_relationships}
use scx_cohort.Daemon.Rules.{RuleState, apply_rules}
use scx_cohort.Daemon.Snapshots.{snapshot_tgid_cohort, snapshot_tasks}
use scx_cohort.Daemon.Split.{SplitFaults}
use scx_cohort.Daemon.Upkeep.{llc_loads, gc_tgid_map}
use scx_cohort.Daemon.{
  CohortPolicy, CohortCounters, Value, CohortState, snapshot_cohorts, SpillState, apply_spills,
}
use scx_cohort.Domain.{LlcLoad, CohortSnapshot, TaskSnapshot, Decision}
use scx_cohort.Spill.{SpillCfg, plan_spills}
use scx_cohort.WakeGraph.{WakeGraph, MergePlan, SplitPlan}

module _ (f : Floats) (globs : Globs) (from_utf8_lossy : List ℕ → String)
    (order : ℕ → List (List (ℕ × ℕ)) → List (List (ℕ × ℕ))) where
  open f use {F64}
  open globs use {Glob}

  module _ (c : Setup F64 Glob) (w : World) where
    unfoldable pub tasks_part : Part (Scheduler F64) (List TaskSnapshot)
    tasks_part s =
        let r = snapshot_tasks from_utf8_lossy s.prev_runtime w.task_stats in
        some (record s { prev_runtime = r.0 }, r.1)

    unfoldable pub tgids_part : Part (Scheduler F64) (Map ℕ ℕ)
    tgids_part s = some (s, snapshot_tgid_cohort (unless w.tgid_batch_fails s.tgid_cohort))

    unfoldable pub rules_part : List TaskSnapshot → Part (Scheduler F64) Done
    rules_part tasks s =
        let r = apply_rules globs c.config w.procfs w.pin_faults (length c.llc_cpus) tasks (record {
          cgroup_cache = s.cgroup_cache;
          residency_overrides = s.residency_overrides;
          cohort_policy = s.cohort_policy;
        }) in
        some (
          record s {
            cgroup_cache = r.0.cgroup_cache;
            residency_overrides = r.0.residency_overrides;
            cohort_policy = r.0.cohort_policy;
          },
          ok_if r.1,
        )

    -- The fields as they are after `snapshot_cohorts`, with its deletes.
    unfoldable pub with_cohorts :
        Scheduler F64
        → Option (CohortState × List CohortSnapshot × List ℕ)
        → Scheduler F64 × Option (List CohortSnapshot)
    with_cohorts s none = (s, none)
    with_cohorts s (some (kept, cohorts, dead)) = (
      record s {
        prev_load_sum = kept.prev_load_sum;
        dead_cohorts = kept.dead_cohorts;
        balancer = kept.balancer;
        cohort_policy = delete_all w.dead_policy_fails dead s.cohort_policy;
        cohort_counters = delete_all w.dead_counters_fails dead s.cohort_counters;
      },
      some cohorts,
    )

    unfoldable pub cohorts_part :
        List TaskSnapshot → Map ℕ ℕ → Part (Scheduler F64) (List CohortSnapshot)
    cohorts_part tasks tgid_cohort s = some (
        with_cohorts s (
          snapshot_cohorts
            (record {
              prev_load_sum = s.prev_load_sum;
              dead_cohorts = s.dead_cohorts;
              residency_overrides = s.residency_overrides;
              balancer = s.balancer;
            })
            tasks tgid_cohort (unless w.policy_batch_fails s.cohort_policy)
            (unless w.counters_batch_fails s.cohort_counters)))

    unfoldable pub gc_part : List TaskSnapshot → Map ℕ ℕ → Part (Scheduler F64) Done
    gc_part tasks tgid_cohort s =
        let r = gc_tgid_map s.dead_tgids tgid_cohort tasks in
        some (
          record s {
            dead_tgids = r.0;
            tgid_cohort = delete_all w.dead_tgid_fails r.1 s.tgid_cohort;
          },
          some tt,
        )

    unfoldable pub llcs_part : Part (Scheduler F64) (List LlcLoad)
    llcs_part s =
        let r = llc_loads c.tick_ns w.llc_lookups c.llc_cpus s.prev_llc_load in
        some (record s { prev_llc_load = r.0 }, r.1)

    unfoldable pub plan_part :
        List LlcLoad → List CohortSnapshot → Part (Scheduler F64) (List Decision)
    plan_part llcs cohorts s =
        let r = plan s.balancer w.now_ms llcs cohorts in
        some (record s { balancer = r.0 }, some r.1)

    unfoldable pub moves_part : List Decision → Part (Scheduler F64) Done
    moves_part decisions s =
        let r =
          apply w.move_faults decisions
            (record { cohort_policy = s.cohort_policy; nr_migrations = s.nr_migrations }) in
        some (
          record s { cohort_policy = r.0.cohort_policy; nr_migrations = r.0.nr_migrations },
          ok_if r.1,
        )

    -- The fields as they are after `apply_spills`.
    abbrev pub put_spills : Scheduler F64 → Outcome SpillState → Scheduler F64 × Option Done
    put_spills s r =
        (record s { current_spills = r.0.current_spills; spill_tasks = r.0.spill_tasks }, ok_if r.1)

    -- From the wanted spill set on.
    unfoldable pub with_spills :
        Scheduler F64 → Option (Map ℕ ℕ) → Option (Scheduler F64 × Option Done)
    with_spills s none = none
    with_spills s (some desired) = some (
        put_spills s (
          apply_spills w.spill_update_fails w.spill_delete_fails
            (record { current_spills = s.current_spills; spill_tasks = s.spill_tasks }) desired))

    unfoldable pub spills_part :
        List LlcLoad → List CohortSnapshot → List TaskSnapshot → Part (Scheduler F64) Done
    spills_part llcs cohorts tasks s =
        with_spills s (plan_spills c.spill_cfg llcs cohorts tasks s.current_spills)

    -- The fields as they are after `discover_relationships`.
    abbrev pub put_relations :
        Scheduler F64 → Outcome (RelationState F64) → Scheduler F64 × Option Done
    put_relations s (r, fine) = (
      record s {
        wake_graph = r.wake_graph;
        cohort_counters = r.cohort_counters;
        cohort_policy = r.cohort_policy;
        tgid_cohort = r.tgid_cohort;
        prev_load_sum = r.prev_load_sum;
        daemon_seq = r.daemon_seq;
        nr_merges = r.nr_merges;
        nr_splits = r.nr_splits;
      },
      ok_if fine,
    )

    unfoldable pub with_relations :
        Scheduler F64 → Option (Outcome (RelationState F64)) → Option (Scheduler F64 × Option Done)
    with_relations s none = none
    with_relations s (some r) = some (put_relations s r)

    abbrev pub relation_part : Scheduler F64 → RelationState F64
    relation_part s = record {
      wake_graph = s.wake_graph;
      cohort_counters = s.cohort_counters;
      cohort_policy = s.cohort_policy;
      tgid_cohort = s.tgid_cohort;
      prev_load_sum = s.prev_load_sum;
      daemon_seq = s.daemon_seq;
      nr_merges = s.nr_merges;
      nr_splits = s.nr_splits;
    }

    unfoldable pub relations_part :
        List CohortSnapshot → List TaskSnapshot → Map ℕ ℕ → Part (Scheduler F64) Done
    relations_part cohorts tasks tgid_cohort s = with_relations s (
        discover_relationships f order w.merge_faults w.split_faults w.drained c.dt_s c.sample_mult
          cohorts tasks tgid_cohort (relation_part s))

    unfoldable pub keep_tasks : List TaskSnapshot → Part (Scheduler F64) Done
    keep_tasks tasks s = some (record s { last_tasks = tasks }, some tt)

    -- `tick` from the spills on.
    unfoldable pub from_spills :
        List TaskSnapshot
        → Map ℕ ℕ
        → List CohortSnapshot
        → List LlcLoad
        → Part (Scheduler F64) (List CohortSnapshot × List LlcLoad)
    from_spills tasks tgid_cohort cohorts llcs = do
      spills_part llcs cohorts tasks
      relations_part cohorts tasks tgid_cohort
      keep_tasks tasks
      give (cohorts, llcs)

    -- From the balancer's plan on.
    unfoldable pub from_plan :
        List TaskSnapshot
        → Map ℕ ℕ
        → List CohortSnapshot
        → List LlcLoad
        → Part (Scheduler F64) (List CohortSnapshot × List LlcLoad)
    from_plan tasks tgid_cohort cohorts llcs = do
      decisions ← plan_part llcs cohorts
      moves_part decisions
      from_spills tasks tgid_cohort cohorts llcs

    -- From the snapshot of the cohorts on.
    unfoldable pub from_cohorts :
        List TaskSnapshot
        → Map ℕ ℕ
        → List CohortSnapshot
        → Part (Scheduler F64) (List CohortSnapshot × List LlcLoad)
    from_cohorts tasks tgid_cohort cohorts = do
      gc_part tasks tgid_cohort
      llcs ← llcs_part
      from_plan tasks tgid_cohort cohorts llcs

    -- From the snapshot of the processes on.
    unfoldable pub from_tgids :
        List TaskSnapshot → Map ℕ ℕ → Part (Scheduler F64) (List CohortSnapshot × List LlcLoad)
    from_tgids tasks tgid_cohort = do
      rules_part tasks
      cohorts ← cohorts_part tasks tgid_cohort
      from_cohorts tasks tgid_cohort cohorts

    unfoldable pub tick : Part (Scheduler F64) (List CohortSnapshot × List LlcLoad)
    tick = do tasks ← tasks_part; tgid_cohort ← tgids_part; from_tgids tasks tgid_cohort
