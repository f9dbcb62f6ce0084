-- ===== src/Daemon/World.antt =====
-- scx_cohort/src/main.rs: the state of the daemon, what the kernel answers in a tick, and how the parts of
-- a tick follow each other. The maps of policies, counters, processes and spills are part of the state,
-- as the daemon leaves them; which calls fail is part of what the kernel answers.
use Prim.Native.String.{String}
use scx_cohort.Balancer.{Balancer}
use scx_cohort.Base.Map.{Map}
use scx_cohort.Base.{ℕ, Bool, Option, none, some, List, [], ◌∷◌, nat_key, if◌then◌else◌}
use scx_cohort.Common.{WakeEdgeKey, TaskStat}
use scx_cohort.Config.{Config}
use scx_cohort.Daemon.Merge.{Faults, delete_unless}
use scx_cohort.Daemon.Policies.{PolicyFaults}
use scx_cohort.Daemon.Split.{SplitFaults}
use scx_cohort.Daemon.{CohortPolicy, CohortCounters, Value}
use scx_cohort.Domain.{TaskSnapshot}
use scx_cohort.Spill.{SpillCfg}
use scx_cohort.WakeGraph.{WakeGraph, MergePlan, SplitPlan}

-- What does not change from tick to tick.
pub record Setup (F64 Glob : Type 0) : Type 0 where
  pub tick_ns : ℕ
  pub dt_s : F64
  pub llc_cpus : Map ℕ ℕ
  pub sample_mult : ℕ
  pub config : Config F64 Glob
  pub spill_cfg : SpillCfg

-- The fields of the scheduler, and the maps that it writes to.
pub record Scheduler (F64 : Type 0) : Type 0 where
  pub balancer : Balancer
  pub prev_load_sum : Map ℕ ℕ
  pub prev_llc_load : Map ℕ ℕ
  pub dead_cohorts : List ℕ
  pub dead_tgids : List ℕ
  pub wake_graph : WakeGraph F64
  pub daemon_seq : ℕ
  pub current_spills : Map ℕ ℕ
  pub prev_runtime : Map ℕ (ℕ × ℕ)
  pub cgroup_cache : Map ℕ String
  pub residency_overrides : Map ℕ ℕ
  pub nr_migrations : ℕ
  pub nr_merges : ℕ
  pub nr_splits : ℕ
  pub last_tasks : List TaskSnapshot
  pub cohort_policy : Map ℕ (Value CohortPolicy)
  pub cohort_counters : Map ℕ (Value CohortCounters)
  pub tgid_cohort : Map ℕ ℕ
  pub spill_tasks : Map ℕ ℕ

-- What the kernel answers in a tick.
pub record World : Type 0 where
  pub now_ms : ℕ
  pub task_stats : Option (List (ℕ × Value TaskStat))
  pub tgid_batch_fails : Bool
  pub policy_batch_fails : Bool
  pub counters_batch_fails : Bool
  pub procfs : ℕ → Option String
  pub pin_faults : PolicyFaults
  pub dead_policy_fails : ℕ → Bool
  pub dead_counters_fails : ℕ → Bool
  pub dead_tgid_fails : ℕ → Bool
  pub llc_lookups : ℕ → Option (Option (Value ℕ))
  pub move_faults : PolicyFaults
  pub spill_update_fails : ℕ → Bool
  pub spill_delete_fails : ℕ → Bool
  pub drained : Option (List (Value WakeEdgeKey × Value ℕ))
  pub merge_faults : MergePlan → Faults
  pub split_faults : SplitPlan → SplitFaults

-- A batch that fails gives nothing.
abbrev pub unless : {A : Type 0} → Bool → A → Option A
unless fails a = if fails then none else some a

-- Deletes whose outcome is ignored.
unfoldable pub delete_all : {V : Type 0} → (ℕ → Bool) → List ℕ → Map ℕ V → Map ℕ V
delete_all fails [] m = m
delete_all fails (k ∷ ks) m = delete_all fails ks (delete_unless (fails k) k m)

-- A part of the daemon: a panic is `none`; otherwise the state after, and the result if it is `Ok`.
abbrev pub Part : Type 0 → Type 0 → Type 0
Part S A = S → Option (S × Option A)

abbrev pub Done : Type 0
Done = Unit {0}

infixl 5 ◌>>=◌ ◌>>◌
abbrev pub ◌>>=◌ : {S A B : Type 0} → Part S A → (A → Part S B) → Part S B
◌>>=◌ part next s = elim (part s) [
  | none ↦ none
  | some (s', none) ↦ some (s', none)
  | some (s', some a) ↦ next a s'
]

abbrev pub ◌>>◌ : {S B : Type 0} → Part S Done → Part S B → Part S B
part >> next = part >>= λ _. next

abbrev pub ok_if : Bool → Option Done
ok_if b = if b then some tt else none

abbrev pub give : {S A : Type 0} → A → Part S A
give a s = some (s, some a)
