-- ===== src/Daemon/Rules.antt =====
-- scx_cohort/src/main.rs, `apply_rules`: what the rules of the configuration want of the cohorts. The
-- cgroup files are an argument, and so is which calls into the kernel fail.
pub mod Wants
pub mod Pass
pub mod Tests
use Prim.Native.String.{String}
use scx_cohort.Base.Map.{Map, lookup_or, insert, retain}
use scx_cohort.Base.{
  ℕ, Bool, true, false, Option, none, some, List, [], ◌∷◌, map, ltb, nat_beq, nat_key, any,
  if◌then◌else◌,
}
use scx_cohort.Config.{Globs, Config, Rule, match_task}
use scx_cohort.Daemon.Cgroup.{cgroup_of}
use scx_cohort.Daemon.Kernel.{Outcome}
use scx_cohort.Daemon.Policies.{PolicyFaults, Policies, apply_pins}
use scx_cohort.Domain.{TaskSnapshot}

-- What `apply_rules` reads or writes, besides the configuration.
pub record RuleState : Type 0 where
  pub cgroup_cache : Map ℕ String
  pub residency_overrides : Map ℕ ℕ
  pub cohort_policy : Policies

-- The cache, `overrides` and `pins` in the loop over the tasks.
pub record Effects : Type 0 where
  pub cache : Map ℕ String
  pub overrides : Map ℕ ℕ
  pub pins : Map ℕ ℕ

abbrev pub larger : ℕ → ℕ → ℕ
larger a b = if ltb a b then b else a

-- `entry(..).or_insert(ms)`, raised to at least `ms`.
unfoldable pub add_residency : ℕ → Option ℕ → Map ℕ ℕ → Map ℕ ℕ
add_residency cohort none overrides = overrides
add_residency cohort (some ms) overrides =
    insert cohort (larger (lookup_or ms cohort overrides) ms) overrides

unfoldable pub add_pin : ℕ → Option ℕ → Map ℕ ℕ → Map ℕ ℕ
add_pin cohort none pins = pins
add_pin cohort (some ccd) pins = insert cohort ccd pins

-- The cache without the processes that no task belongs to.
unfoldable pub live_cache : List TaskSnapshot → Map ℕ String → Map ℕ String
live_cache tasks = retain (λ tgid path. any (nat_beq tgid) (map (λ t. t.tgid) tasks))

-- The early return.
unfoldable pub unless_empty :
    {R : Type 0} → List R → RuleState → Outcome RuleState → Outcome RuleState
unless_empty [] s done = (s, true)
unless_empty (r ∷ rules) s done = done

module _ (globs : Globs) where
  open globs use {Glob}

  unfoldable pub add_rule : ℕ → Option (Rule Glob) → Effects → Effects
  add_rule cohort none fx = fx
  add_rule cohort (some r) fx = record fx {
    overrides = add_residency cohort r.min_ccd_residency_ms fx.overrides;
    pins = add_pin cohort r.pin_ccd fx.pins;
  }

  module _ {F64 : Type 0} (config : Config F64 Glob) (procfs : ℕ → Option String) where
    -- The body of the loop over the tasks.
    unfoldable pub add_task : TaskSnapshot → Effects → Effects
    add_task t fx =
        let found = cgroup_of procfs t.tgid fx.cache in
        add_rule t.cohort_id (match_task globs config t.comm found.1)
          (record fx { cache = found.0 })

    unfoldable pub add_tasks : List TaskSnapshot → Effects → Effects
    add_tasks [] fx = fx
    add_tasks (t ∷ tasks) fx = add_tasks tasks (add_task t fx)

    -- `apply_rules` where there are rules.
    unfoldable pub carry_out_rules :
        PolicyFaults → ℕ → List TaskSnapshot → RuleState → Outcome RuleState
    carry_out_rules faults nr_llcs tasks s =
        let fx =
          add_tasks tasks
            (record { cache = live_cache tasks s.cgroup_cache; overrides = []; pins = [] }) in
        let pinned = apply_pins faults nr_llcs fx.pins s.cohort_policy in
        (
          record {
            cgroup_cache = fx.cache;
            residency_overrides = fx.overrides;
            cohort_policy = pinned.0;
          },
          pinned.1,
        )

    unfoldable pub apply_rules :
        PolicyFaults → ℕ → List TaskSnapshot → RuleState → Outcome RuleState
    apply_rules faults nr_llcs tasks s =
        unless_empty config.rules s (carry_out_rules faults nr_llcs tasks s)
