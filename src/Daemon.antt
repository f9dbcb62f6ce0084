-- ===== src/Daemon.antt =====
-- scx_cohort/src/main.rs, the daemon: its snapshot of the cohorts, with the collection of those that
-- are gone. What the kernel gives for a batch of a map is an argument, `none` where the call fails;
-- a value may have another size than the program's, and keys have the map's size. The deletes, whose
-- outcome the program ignores, are the last part of the result.
pub mod Kernel
pub mod Scanned
pub mod Collect
pub mod Sync
pub mod Policies
pub mod Cgroup
pub mod Rules
pub mod Snapshots
pub mod Metrics
pub mod Relations
pub mod World
pub mod Tick
pub mod Run
pub mod Options
pub mod Init
pub mod Main
pub mod Merge
pub mod Split
pub mod Upkeep
mod Tests
use scx_cohort.Balancer.{Balancer, retain_cohorts}
use scx_cohort.Base.Map.{Map, lookup, lookup_or, insert, remove, contains_key, values}
use scx_cohort.Base.Words.{add64}
use scx_cohort.Base.{
  ℕ, ◌-◌, ◌/◌, ◌%◌, Bool, true, false, not, ◌&&◌, ◌||◌, Option, none, some, List, [], ◌∷◌, ◌++◌,
  map, nat_beq, nat_key, if◌then◌else◌, ◌>>=◌, any,
}
use scx_cohort.Domain.{CohortSnapshot, TaskSnapshot}

pub record CohortPolicy : Type 0 where
  pub home_llc : ℕ
  pub flags : ℕ

pub record CohortCounters : Type 0 where
  pub nr_tasks : ℕ
  pub load_sum : ℕ

-- A value of a map as the program reads it: of its size, or not.
pub data Value (V : Type 0) : Type 0 where
  sized : V → Value V
  misfit : Value V

-- `CohortPolicy::default`.
abbrev pub default_policy : CohortPolicy
default_policy = record { home_llc = 0; flags = 0 }

-- `flags & COHORT_PINNED != 0`, where `COHORT_PINNED` is bit 0.
unfoldable pub is_pinned : CohortPolicy → Bool
is_pinned policy = nat_beq (policy.flags % 2) 1

-- The fields of the scheduler that the snapshot of the cohorts reads or writes.
pub record CohortState : Type 0 where
  pub prev_load_sum : Map ℕ ℕ
  pub dead_cohorts : List ℕ
  pub residency_overrides : Map ℕ ℕ
  pub balancer : Balancer

-- `task_counts`.
unfoldable pub count_tasks : List TaskSnapshot → Map ℕ ℕ → Map ℕ ℕ
count_tasks [] counts = counts
count_tasks (t ∷ tasks) counts =
    count_tasks tasks (insert t.cohort_id (add64 (lookup_or 0 t.cohort_id counts) 1) counts)

-- `policies`, without the values of another size.
unfoldable pub read_policies :
    List (ℕ × Value CohortPolicy) → Map ℕ CohortPolicy → Map ℕ CohortPolicy
read_policies [] policies = policies
read_policies ((id, misfit) ∷ batch) policies = read_policies batch policies
read_policies ((id, sized policy) ∷ batch) policies =
    read_policies batch (insert id policy policies)

-- What the loop makes of one entry of the counters.
pub data Sighting : Type 0 where
  skipped : Sighting
  collected : ℕ → Sighting
  suspected : ℕ → Sighting
  alive : CohortSnapshot → ℕ → Sighting

unfoldable pub snapshot_of : CohortState → ℕ → CohortPolicy → ℕ → CohortCounters → CohortSnapshot
snapshot_of s id policy nr_tasks counters = record {
  id = id;
  home_llc = policy.home_llc;
  pinned = is_pinned policy;
  nr_tasks = nr_tasks;
  load_ns = counters.load_sum - lookup_or counters.load_sum id s.prev_load_sum;
  residency_ms = lookup id s.residency_overrides;
}

-- The body of the loop over the counters.
unfoldable pub sight :
    CohortState → Map ℕ ℕ → List ℕ → Bool → Map ℕ CohortPolicy → ℕ → Value CohortCounters → Sighting
sight s task_counts referenced gc_safe policies id misfit = skipped
sight s task_counts referenced gc_safe policies id (sized counters) =
    if nat_beq (lookup_or 0 id task_counts) 0 && not (any (nat_beq id) referenced)
    then (if not gc_safe
        then skipped
        else if any (nat_beq id) s.dead_cohorts
        then collected id
        else suspected id)
    else alive
        (snapshot_of s id (lookup_or default_policy id policies) (lookup_or 0 id task_counts)
          counters)
        counters.load_sum

-- `out`, `dead`, `dead_now` and `seen`.
pub record Scan : Type 0 where
  pub out : List CohortSnapshot
  pub dead : List ℕ
  pub dead_now : List ℕ
  pub seen : Map ℕ ℕ

unfoldable pub add_sighting : Scan → Sighting → Scan
add_sighting scan skipped = scan
add_sighting scan (collected id) = record scan { dead = scan.dead ++ id ∷ [] }
add_sighting scan (suspected id) = record scan { dead_now = id ∷ scan.dead_now }
add_sighting scan (alive c load_sum) = record scan {
  out = scan.out ++ c ∷ [];
  seen = insert c.id load_sum scan.seen;
}

-- The loop over the counters.
unfoldable pub scan_counters :
    CohortState
    → Map ℕ ℕ
    → List ℕ
    → Bool
    → Map ℕ CohortPolicy
    → List (ℕ × Value CohortCounters)
    → Scan
    → Scan
scan_counters s task_counts referenced gc_safe policies [] scan = scan
scan_counters s task_counts referenced gc_safe policies ((id, val) ∷ batch) scan =
    scan_counters s task_counts referenced gc_safe policies batch
      (add_sighting scan (sight s task_counts referenced gc_safe policies id val))

-- `!tasks.is_empty()`.
unfoldable pub is_gc_safe : List TaskSnapshot → Bool
is_gc_safe [] = false
is_gc_safe (t ∷ tasks) = true

abbrev pub nothing_yet : Scan
nothing_yet = record { out = []; dead = []; dead_now = []; seen = [] }

-- `snapshot_cohorts` once both maps are read.
unfoldable pub scan_of :
    CohortState
    → List TaskSnapshot
    → Map ℕ ℕ
    → List (ℕ × Value CohortPolicy)
    → List (ℕ × Value CohortCounters)
    → Scan
scan_of s tasks tgid_cohort policy_batch counters_batch =
    scan_counters s (count_tasks tasks []) (values tgid_cohort) (is_gc_safe tasks)
      (read_policies policy_batch []) counters_batch nothing_yet

-- The state after, the snapshot, and the ids that are deleted from the two maps.
unfoldable pub snapshot_cohorts :
    CohortState
    → List TaskSnapshot
    → Map ℕ ℕ
    → Option (List (ℕ × Value CohortPolicy))
    → Option (List (ℕ × Value CohortCounters))
    → Option (CohortState × List CohortSnapshot × List ℕ)
snapshot_cohorts s tasks tgid_cohort policy_map counters_map = do
  policy_batch ← policy_map
  counters_batch ← counters_map
  let scan = scan_of s tasks tgid_cohort policy_batch counters_batch
  some (
    record s {
      prev_load_sum = scan.seen;
      dead_cohorts = scan.dead_now;
      balancer = retain_cohorts s.balancer (λ id. any (nat_beq id) (map (λ c. c.id) scan.out));
    },
    scan.out,
    scan.dead,
  )

-- The test of the first loop of `apply_spills`: what is recorded for a task is what is wanted.
unfoldable pub is_recorded : Map ℕ ℕ → ℕ → ℕ → Bool
is_recorded current pid llc = elim (lookup pid current) [ none ↦ false | some l ↦ nat_beq l llc ]

-- The first loop, on the map `spill_tasks`: it stops at an update that fails, with `false`.
unfoldable pub update_spills : (ℕ → Bool) → Map ℕ ℕ → Map ℕ ℕ → Map ℕ ℕ → Map ℕ ℕ × Bool
update_spills update_fails current [] spill_tasks = (spill_tasks, true)
update_spills update_fails current ((pid, llc) ∷ desired) spill_tasks =
    elim (is_recorded current pid llc) [
      | true ↦ update_spills update_fails current desired spill_tasks
      | false ↦ elim (update_fails pid) [
        | true ↦ (spill_tasks, false)
        | false ↦ update_spills update_fails current desired (insert pid llc spill_tasks)
      ]
    ]

-- The second loop: a delete that fails is passed over.
unfoldable pub delete_spills : (ℕ → Bool) → Map ℕ ℕ → Map ℕ ℕ → Map ℕ ℕ → Map ℕ ℕ
delete_spills delete_fails desired [] spill_tasks = spill_tasks
delete_spills delete_fails desired ((pid, llc) ∷ current) spill_tasks =
    delete_spills delete_fails desired current
      (if contains_key pid desired || delete_fails pid then spill_tasks else remove pid spill_tasks)

-- `current_spills` and the map that the BPF side reads.
pub record SpillState : Type 0 where
  pub current_spills : Map ℕ ℕ
  pub spill_tasks : Map ℕ ℕ

-- The state after, and whether the call is `Ok`.
unfoldable pub apply_spills : (ℕ → Bool) → (ℕ → Bool) → SpillState → Map ℕ ℕ → SpillState × Bool
apply_spills update_fails delete_fails s desired =
    let updated = update_spills update_fails s.current_spills desired s.spill_tasks in
    if updated.1
    then (
      record {
        current_spills = desired;
        spill_tasks = delete_spills delete_fails desired s.current_spills updated.0;
      },
      true,
    )
    else (record s { spill_tasks = updated.0 }, false)
