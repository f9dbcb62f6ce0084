-- ===== src/Daemon/Relations.antt =====
-- scx_cohort/src/main.rs, `discover_relationships`: the wake graph is fed, and its merges and splits are
-- carried out. What is drained from the kernel's map of edges and which calls fail are arguments; a panic
-- is `none`. Maps that the program builds are met in the order of their lists.
pub mod Known
mod Tests
use scx_cohort.Base.Floats.{Floats}
use scx_cohort.Base.Map.{Map, lookup_or, insert, contains_key, from_list}
use scx_cohort.Base.Words.{add64}
use scx_cohort.Base.{
  ℕ, Bool, true, false, Option, none, some, List, [], ◌∷◌, ◌++◌, map, nat_key, if◌then◌else◌,
}
use scx_cohort.Common.{WakeEdgeKey}
use scx_cohort.Daemon.Kernel.{Outcome, for_each}
use scx_cohort.Daemon.Merge.{Faults, MergeState, apply_merge}
use scx_cohort.Daemon.Snapshots.{snapshot_edges}
use scx_cohort.Daemon.Split.{SplitFaults, SplitState, apply_split}
use scx_cohort.Daemon.{CohortPolicy, CohortCounters, Value}
use scx_cohort.Domain.{CohortSnapshot, TaskSnapshot}
use scx_cohort.WakeGraph.Splits.{splits}
use scx_cohort.WakeGraph.{WakeGraph, MergePlan, SplitPlan, observe, merges}

-- What `discover_relationships` reads or writes.
pub record RelationState (F64 : Type 0) : Type 0 where
  pub wake_graph : WakeGraph F64
  pub cohort_counters : Map ℕ (Value CohortCounters)
  pub cohort_policy : Map ℕ (Value CohortPolicy)
  pub tgid_cohort : Map ℕ ℕ
  pub prev_load_sum : Map ℕ ℕ
  pub daemon_seq : ℕ
  pub nr_merges : ℕ
  pub nr_splits : ℕ

abbrev pub merge_part : {F64 : Type 0} → RelationState F64 → MergeState
merge_part s = record {
  cohort_counters = s.cohort_counters;
  cohort_policy = s.cohort_policy;
  tgid_cohort = s.tgid_cohort;
  prev_load_sum = s.prev_load_sum;
  nr_merges = s.nr_merges;
}

abbrev pub with_merges : {F64 : Type 0} → RelationState F64 → MergeState → RelationState F64
with_merges s m = record s {
  cohort_counters = m.cohort_counters;
  cohort_policy = m.cohort_policy;
  tgid_cohort = m.tgid_cohort;
  prev_load_sum = m.prev_load_sum;
  nr_merges = m.nr_merges;
}

abbrev pub split_part : {F64 : Type 0} → RelationState F64 → SplitState
split_part s = record {
  cohort_policy = s.cohort_policy;
  cohort_counters = s.cohort_counters;
  tgid_cohort = s.tgid_cohort;
  daemon_seq = s.daemon_seq;
  nr_splits = s.nr_splits;
}

abbrev pub with_splits : {F64 : Type 0} → RelationState F64 → SplitState → RelationState F64
with_splits s p = record s {
  cohort_policy = p.cohort_policy;
  cohort_counters = p.cohort_counters;
  tgid_cohort = p.tgid_cohort;
  daemon_seq = p.daemon_seq;
  nr_splits = p.nr_splits;
}

-- The two loops.
unfoldable pub apply_merges :
    (MergePlan → Faults) → Map ℕ ℕ → List MergePlan → MergeState → Outcome MergeState
apply_merges faults tgid_cohort = for_each (λ plan s. apply_merge (faults plan) s plan tgid_cohort)

unfoldable pub apply_splits :
    (SplitPlan → SplitFaults) → List SplitPlan → SplitState → Outcome SplitState
apply_splits faults = for_each (λ plan s. apply_split (faults plan) plan s)

-- `cohort_sizes`, and `tgid_tasks`.
unfoldable pub cohort_sizes : List CohortSnapshot → Map ℕ ℕ
cohort_sizes cohorts = from_list (map (λ c. (c.id, c.nr_tasks)) cohorts) []

unfoldable pub count_by_tgid : List TaskSnapshot → Map ℕ ℕ → Map ℕ ℕ
count_by_tgid [] counts = counts
count_by_tgid (t ∷ tasks) counts =
    count_by_tgid tasks (insert t.tgid (add64 (lookup_or 0 t.tgid counts) 1) counts)

-- `cohort_tgids`, of the cohorts that the snapshot has.
unfoldable pub group_tgids :
    Map ℕ ℕ → Map ℕ ℕ → Map ℕ ℕ → Map ℕ (List (ℕ × ℕ)) → Map ℕ (List (ℕ × ℕ))
group_tgids sizes counts [] groups = groups
group_tgids sizes counts ((tgid, cohort) ∷ tgid_cohort) groups =
    group_tgids sizes counts tgid_cohort (
      if contains_key cohort sizes
      then insert cohort (lookup_or [] cohort groups ++ (tgid, lookup_or 0 tgid counts) ∷ []) groups
      else groups)

module _ (f : Floats) (order : ℕ → List (List (ℕ × ℕ)) → List (List (ℕ × ℕ))) where
  open f use {F64}

  -- From the splits on, by what `splits` gives.
  unfoldable pub split_all :
      (SplitPlan → SplitFaults)
      → RelationState F64
      → Option (WakeGraph F64 × List SplitPlan)
      → Option (Outcome (RelationState F64))
  split_all faults s none = none
  split_all faults s (some (graph, plans)) =
      let done = apply_splits faults plans (split_part s) in
      some (with_splits (record s { wake_graph = graph }) done.0, done.1)

  -- From the outcome of the merges on.
  unfoldable pub after_merges :
      (SplitPlan → SplitFaults)
      → Map ℕ (List (ℕ × ℕ))
      → RelationState F64
      → Bool
      → Option (Outcome (RelationState F64))
  after_merges faults cohort_tgids s false = some (s, false)
  after_merges faults cohort_tgids s true =
      split_all faults s (splits f order s.wake_graph cohort_tgids)

  -- From the drained edges on.
  unfoldable pub relate :
      (MergePlan → Faults)
      → (SplitPlan → SplitFaults)
      → F64
      → ℕ
      → List CohortSnapshot
      → List TaskSnapshot
      → Map ℕ ℕ
      → RelationState F64
      → Option (List (ℕ × ℕ × ℕ))
      → Option (Outcome (RelationState F64))
  relate merge_faults split_faults dt_s sample_mult cohorts tasks tgid_cohort s none =
      some (s, false)
  relate merge_faults split_faults dt_s sample_mult cohorts tasks tgid_cohort s (some deltas) =
      let sizes = cohort_sizes cohorts in
      let planned = merges f (observe f s.wake_graph deltas dt_s sample_mult) tgid_cohort sizes in
      let merged = apply_merges merge_faults tgid_cohort planned.1 (merge_part s) in
      after_merges split_faults (group_tgids sizes (count_by_tgid tasks []) tgid_cohort [])
        (with_merges (record s { wake_graph = planned.0 }) merged.0) merged.1

  unfoldable pub discover_relationships :
      (MergePlan → Faults)
      → (SplitPlan → SplitFaults)
      → Option (List (Value WakeEdgeKey × Value ℕ))
      → F64
      → ℕ
      → List CohortSnapshot
      → List TaskSnapshot
      → Map ℕ ℕ
      → RelationState F64
      → Option (Outcome (RelationState F64))
  discover_relationships merge_faults split_faults drained dt_s sample_mult cohorts tasks
        tgid_cohort s =
      relate merge_faults split_faults dt_s sample_mult cohorts tasks tgid_cohort s
        (snapshot_edges drained)
