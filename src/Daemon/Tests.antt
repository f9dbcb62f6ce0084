-- ===== src/Daemon/Tests.antt =====
-- Runs of the daemon's parts, and their theorems at concrete inputs.
use scx_cohort.Balancer.{default_cfg, new, retain_cohorts}
use scx_cohort.Base.Map.{Map, lookup, lookup_or, insert, remove, contains_key, retain}
use scx_cohort.Base.{
  ℕ, ◌≡◌, refl, inl, Bool, true, false, none, some, List, [], ◌∷◌, arith, nat_key, nat_beq,
  if◌then◌else◌, any, map, Option,
}
use scx_cohort.Daemon.Collect.{IsGone, snapshot_cohorts_twice}
use scx_cohort.Daemon.Merge.Moves.{IsSound, destination, apply_merge_moves}
use scx_cohort.Daemon.Merge.{
  Faults, MergeState, update_existing, move_member, move_members, delete_unless, merge_into,
  apply_merge,
}
use scx_cohort.Daemon.Upkeep.Laws.{gc_tgid_map_twice}
use scx_cohort.Daemon.Upkeep.{counter_of, load_of, llc_loads, gc_scan, gc_tgid_map}
use scx_cohort.Daemon.Sync.{apply_spills_agrees}
use scx_cohort.Daemon.{
  CohortPolicy, CohortCounters, Value, sized, misfit, CohortState, is_pinned, count_tasks,
  read_policies, snapshot_of, sight, add_sighting, scan_counters, is_gc_safe, scan_of,
  snapshot_cohorts, is_recorded, update_spills, delete_spills, SpillState, apply_spills,
}
use scx_cohort.WakeGraph.{MergePlan}
use scx_cohort.Base.Words.{add64}
use scx_cohort.Domain.{TaskSnapshot, CohortSnapshot}

program : Unit {0}
unfolding is_pinned count_tasks read_policies snapshot_of sight add_sighting scan_counters
    is_gc_safe scan_of snapshot_cohorts is_recorded update_spills delete_spills apply_spills lookup
    lookup_or insert remove contains_key retain new retain_cohorts update_existing move_member
    move_members delete_unless merge_into apply_merge destination counter_of load_of llc_loads
    gc_scan gc_tgid_map
program = tt

-- A task of cohort 1, and the cohorts 1 and 2.
abbrev busy : List TaskSnapshot
busy = record { pid = 10; tgid = 10; cohort_id = 1; duty_ns = 5; home_ns = 5; comm = "game" } ∷ []

abbrev tgids : Map ℕ ℕ
tgids = (10, 1) ∷ []

abbrev policies : List (ℕ × Value CohortPolicy)
policies = (1, sized (record { home_llc = 1; flags = 1 })) ∷ (2, misfit) ∷ []

abbrev counters : List (ℕ × Value CohortCounters)
counters =
    (1, sized (record { nr_tasks = 1; load_sum = 9 }))
    ∷ (2, sized (record { nr_tasks = 0; load_sum = 7 }))
    ∷ []

abbrev fresh : CohortState
fresh = record {
  prev_load_sum = [];
  dead_cohorts = [];
  residency_overrides = [];
  balancer = new default_cfg;
}

abbrev one_seen : CohortState
one_seen = record fresh { prev_load_sum = (1, 9) ∷ []; dead_cohorts = 2 ∷ [] }

abbrev none_suspected : CohortState
none_suspected = record one_seen { dead_cohorts = [] }

abbrev first_alive : List CohortSnapshot
first_alive =
    record { id = 1; home_llc = 1; pinned = true; nr_tasks = 1; load_ns = 0; residency_ms = none }
    ∷ []

-- The second snapshot deletes cohort 2, and a scan without a task deletes nothing.
collects_on_the_second_snapshot :
    (snapshot_cohorts one_seen busy tgids (some policies) (some counters)
      ≡ some (none_suspected, first_alive, 2 ∷ []))
    × (snapshot_cohorts one_seen [] [] (some policies) (some counters) ≡ some (fresh, [], []))
unfolding program
collects_on_the_second_snapshot = (refl, refl)

snapshot_cohorts_twice_example : IsGone busy tgids 2 × IsGone busy tgids 2
unfolding program
snapshot_cohorts_twice_example =
    snapshot_cohorts_twice fresh one_seen none_suspected busy busy tgids tgids (some policies)
      (some policies) (some counters) (some counters) first_alive first_alive [] (2 ∷ []) 2
      (omega arith) (omega arith) refl refl (inl refl)

abbrev never : ℕ → Bool
never pid = false

abbrev spilled : SpillState
spilled = record { current_spills = (5, 0) ∷ (6, 1) ∷ []; spill_tasks = (5, 0) ∷ (6, 1) ∷ [] }

abbrev wanted : Map ℕ ℕ
wanted = (6, 0) ∷ (7, 1) ∷ []

apply_spills_agrees_example :
    ((apply_spills never never spilled wanted).1 ≡ true)
    × ((apply_spills never never spilled wanted).0.current_spills ≡ wanted)
    × ((pid : ℕ)
        → lookup pid (apply_spills never never spilled wanted).0.spill_tasks ≡ lookup pid wanted)
unfolding program
apply_spills_agrees_example =
    apply_spills_agrees never spilled wanted (λ pid. refl) (refl, (refl, tt)) (λ pid. refl)

abbrev no_faults : Faults
no_faults = record {
  lookup_fails = never;
  update_fails = never;
  counters_delete_fails = never;
  policy_delete_fails = never;
}

no_faults-IsSound : IsSound no_faults
no_faults-IsSound = record {
  lookups = λ k. refl;
  updates = λ k. refl;
  counters_deletes = λ k. refl;
  policy_deletes = λ k. refl;
}

abbrev two_cohorts : MergeState
two_cohorts = record {
  cohort_counters = counters;
  cohort_policy = policies;
  tgid_cohort = (10, 1) ∷ (20, 2) ∷ (21, 2) ∷ [];
  prev_load_sum = [];
  nr_merges = 0;
}

abbrev two_into_one : MergePlan
two_into_one = record { into = 1; from = 2 }

-- The process 21 has come after the snapshot, and stays.
abbrev before_21 : Map ℕ ℕ
before_21 = (10, 1) ∷ (20, 2) ∷ []

merge_moves_the_snapshot :
    (apply_merge no_faults two_cohorts two_into_one before_21).0.tgid_cohort
    ≡ (10, 1) ∷ (20, 1) ∷ (21, 2) ∷ []
unfolding program
merge_moves_the_snapshot = refl

apply_merge_moves_example :
    ((apply_merge no_faults two_cohorts two_into_one before_21).1 ≡ true)
    × ((apply_merge no_faults two_cohorts two_into_one before_21).0.nr_merges
        ≡ add64 two_cohorts.nr_merges 1)
    × ((t : ℕ)
        → lookup t (apply_merge no_faults two_cohorts two_into_one before_21).0.tgid_cohort
          ≡ destination two_into_one (lookup t before_21) (lookup t two_cohorts.tgid_cohort))
    × ((c : ℕ)
        → lookup c (apply_merge no_faults two_cohorts two_into_one before_21).0.cohort_counters
          ≡ (if nat_beq c two_into_one.from then none else lookup c two_cohorts.cohort_counters))
    × ((c : ℕ)
        → lookup c (apply_merge no_faults two_cohorts two_into_one before_21).0.cohort_policy
          ≡ (if nat_beq c two_into_one.from then none else lookup c two_cohorts.cohort_policy))
unfolding program
apply_merge_moves_example =
    apply_merge_moves no_faults two_cohorts two_into_one before_21 no_faults-IsSound
      (refl, (refl, tt)) refl refl

gc_tgid_map_twice_example :
    (any (nat_beq 30) (map (λ u. u.tgid) busy) ≡ false)
    × (any (nat_beq 30) (map (λ u. u.tgid) busy) ≡ false)
unfolding program
gc_tgid_map_twice_example =
    gc_tgid_map_twice [] ((30, 1) ∷ tgids) ((30, 1) ∷ tgids) busy busy 30 (inl refl)

-- The first LLC has run for 7 since the reading, the second is read for the first time.
abbrev answers : ℕ → Option (Value ℕ)
answers llc = some (sized 107)
