-- ===== src/Daemon/Merge.antt =====
-- scx_cohort/src/main.rs, `apply_merge`: a cohort's processes are handed to another cohort, in the map
-- through which the BPF side resolves them. Which calls into the kernel fail is an argument.
pub mod Moves
use scx_cohort.Base.Map.{Map, lookup, insert, remove, contains_key}
use scx_cohort.Base.Words.{add64}
use scx_cohort.Base.{ℕ, Bool, true, false, not, List, [], ◌∷◌, nat_beq, nat_key, if◌then◌else◌}
use scx_cohort.Daemon.{CohortPolicy, CohortCounters, Value}
use scx_cohort.WakeGraph.{MergePlan}

-- Calls that fail, by their keys.
pub record Faults : Type 0 where
  pub lookup_fails : ℕ → Bool
  pub update_fails : ℕ → Bool
  pub counters_delete_fails : ℕ → Bool
  pub policy_delete_fails : ℕ → Bool

-- The maps and the fields that `apply_merge` reads or writes.
pub record MergeState : Type 0 where
  pub cohort_counters : Map ℕ (Value CohortCounters)
  pub cohort_policy : Map ℕ (Value CohortPolicy)
  pub tgid_cohort : Map ℕ ℕ
  pub prev_load_sum : Map ℕ ℕ
  pub nr_merges : ℕ

-- An update under `MapFlags::EXIST`.
unfoldable pub update_existing : ℕ → ℕ → Map ℕ ℕ → Map ℕ ℕ
update_existing k v m = if contains_key k m then insert k v m else m

-- The body of the loop over the tick's snapshot.
unfoldable pub move_member : Faults → MergePlan → ℕ → ℕ → Map ℕ ℕ → Map ℕ ℕ
move_member faults plan tgid cohort m =
    if nat_beq cohort plan.from
    then (if faults.update_fails tgid then m else update_existing tgid plan.into m)
    else m

unfoldable pub move_members : Faults → MergePlan → Map ℕ ℕ → Map ℕ ℕ → Map ℕ ℕ
move_members faults plan [] m = m
move_members faults plan ((tgid, cohort) ∷ snapshot) m =
    move_members faults plan snapshot (move_member faults plan tgid cohort m)

-- A delete whose outcome is ignored.
unfoldable pub delete_unless {ℓ} : {V : Type ℓ} → Bool → ℕ → Map ℕ V → Map ℕ V
delete_unless fails k m = if fails then m else remove k m

-- `apply_merge` past its checks.
unfoldable pub merge_into : Faults → MergeState → MergePlan → Map ℕ ℕ → MergeState
merge_into faults s plan snapshot = record s {
  cohort_counters =
      delete_unless (faults.counters_delete_fails plan.from) plan.from s.cohort_counters;
  cohort_policy = delete_unless (faults.policy_delete_fails plan.from) plan.from s.cohort_policy;
  tgid_cohort = move_members faults plan snapshot s.tgid_cohort;
  prev_load_sum = remove plan.from s.prev_load_sum;
  nr_merges = add64 s.nr_merges 1;
}

-- The state after, and whether the call is `Ok`.
unfoldable pub apply_merge : Faults → MergeState → MergePlan → Map ℕ ℕ → MergeState × Bool
apply_merge faults s plan snapshot =
    if faults.lookup_fails plan.into
    then (s, false)
    else if not (contains_key plan.into s.cohort_counters)
    then (s, true)
    else if faults.lookup_fails plan.from
    then (s, false)
    else if not (contains_key plan.from s.cohort_counters)
    then (s, true)
    else (merge_into faults s plan snapshot, true)
