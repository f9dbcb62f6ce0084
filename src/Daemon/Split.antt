-- ===== src/Daemon/Split.antt =====
-- scx_cohort/src/main.rs, `apply_split`: processes leave a cohort for a new one, whose id the daemon
-- makes. Which calls into the kernel fail is an argument.
pub mod Ids
pub mod Moves
mod Tests
use scx_cohort.Base.Map.{Map, lookup, contains_key, insert}
use scx_cohort.Base.Words.{add64}
use scx_cohort.Base.{ℕ, ◌^◌, Bool, true, false, Option, none, some, List, nat_key, if◌then◌else◌}
use scx_cohort.Daemon.Kernel.{Outcome, for_each, update_present, update_absent}
use scx_cohort.Daemon.{CohortPolicy, CohortCounters, Value, sized, misfit}
use scx_cohort.WakeGraph.{SplitPlan}

-- Calls that fail: the three on the maps of cohorts, and those on the map of processes by their keys.
pub record SplitFaults : Type 0 where
  pub policy_lookup_fails : Bool
  pub policy_update_fails : Bool
  pub counters_update_fails : Bool
  pub lookup_fails : ℕ → Bool
  pub update_fails : ℕ → Bool

-- The maps and the fields that `apply_split` reads or writes.
pub record SplitState : Type 0 where
  pub cohort_policy : Map ℕ (Value CohortPolicy)
  pub cohort_counters : Map ℕ (Value CohortCounters)
  pub tgid_cohort : Map ℕ ℕ
  pub daemon_seq : ℕ
  pub nr_splits : ℕ

-- `DAEMON_COHORT_BASE`.
abbrev pub daemon_cohort_base : ℕ
daemon_cohort_base = 2 ^ 32

abbrev pub new_id : ℕ → ℕ
new_id seq = add64 daemon_cohort_base seq

-- `CohortCounters::default`.
abbrev pub default_counters : CohortCounters
default_counters = record { nr_tasks = 0; load_sum = 0 }

-- The body of the loop over the processes that leave.
unfoldable pub move_off : SplitFaults → ℕ → ℕ → Map ℕ ℕ → Outcome (Map ℕ ℕ)
move_off faults id tgid m =
    if faults.lookup_fails tgid
    then (m, false)
    else if contains_key tgid m
    then elim (update_present (faults.update_fails tgid) tgid id m) [
      | none ↦ (m, false)
      | some m' ↦ (m', true)
    ]
    else (m, true)

unfoldable pub move_all_off : SplitFaults → ℕ → List ℕ → Map ℕ ℕ → Outcome (Map ℕ ℕ)
move_all_off faults id = for_each (move_off faults id)

-- From the loop over the processes to the end.
unfoldable pub finish_split : SplitFaults → ℕ → List ℕ → SplitState → Outcome SplitState
finish_split faults id off_tgids s =
    let moved = move_all_off faults id off_tgids s.tgid_cohort in
    if moved.1
    then (record s { tgid_cohort = moved.0; nr_splits = add64 s.nr_splits 1 }, true)
    else (record s { tgid_cohort = moved.0 }, false)

-- From the entry for the counters on, by what the update gives.
unfoldable pub after_counters :
    SplitFaults
    → ℕ
    → List ℕ
    → SplitState
    → Option (Map ℕ (Value CohortCounters))
    → Outcome SplitState
after_counters faults id off_tgids s none = (s, false)
after_counters faults id off_tgids s (some counters) =
    finish_split faults id off_tgids (record s { cohort_counters = counters })

-- From the entry for the policy on, by what the update gives.
unfoldable pub after_policy :
    SplitFaults → ℕ → List ℕ → SplitState → Option (Map ℕ (Value CohortPolicy)) → Outcome SplitState
after_policy faults id off_tgids s none = (s, false)
after_policy faults id off_tgids s (some policies) =
    after_counters faults id off_tgids (record s { cohort_policy = policies })
      (update_absent faults.counters_update_fails id (sized default_counters) s.cohort_counters)

-- The new cohort starts at the old one's home.
abbrev pub same_home : CohortPolicy → CohortPolicy
same_home old = record { home_llc = old.home_llc; flags = 0 }

-- Past the lookup of the old policy; the sequence number is taken before any update.
unfoldable pub split_from :
    SplitFaults → List ℕ → Option (Value CohortPolicy) → SplitState → Outcome SplitState
split_from faults off_tgids none s = (s, true)
split_from faults off_tgids (some misfit) s = (s, true)
split_from faults off_tgids (some (sized old)) s =
    after_policy faults (new_id s.daemon_seq) off_tgids
      (record s { daemon_seq = add64 s.daemon_seq 1 })
      (update_absent faults.policy_update_fails (new_id s.daemon_seq) (sized (same_home old))
        s.cohort_policy)

unfoldable pub apply_split : SplitFaults → SplitPlan → SplitState → Outcome SplitState
apply_split faults plan s =
    if faults.policy_lookup_fails
    then (s, false)
    else split_from faults plan.off_tgids (lookup plan.cohort s.cohort_policy) s
