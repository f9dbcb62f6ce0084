-- ===== src/Daemon/Policies.antt =====
-- scx_cohort/src/main.rs: the two places that rewrite a policy in the map, `apply` for the balancer's
-- moves and the last loop of `apply_rules` for the pins. Which calls into the kernel fail is an argument.
pub mod Laws
pub mod Pinned
mod Tests
use scx_cohort.Base.Map.{Map, lookup}
use scx_cohort.Base.Words.{add64, u32_mod}
use scx_cohort.Base.{
  ℕ, ◌+◌, ◌-◌, ◌%◌, Bool, true, false, not, ◌||◌, Option, none, some, List, nat_beq, nat_key, ltb,
  if◌then◌else◌,
}
use scx_cohort.Daemon.Kernel.{Outcome, for_each, update_present}
use scx_cohort.Daemon.{CohortPolicy, Value, sized, misfit, is_pinned}
use scx_cohort.Domain.{Decision, move_cohort}

-- Calls on the map of policies that fail, by their keys.
pub record PolicyFaults : Type 0 where
  pub lookup_fails : ℕ → Bool
  pub update_fails : ℕ → Bool

abbrev pub Policies : Type 0
Policies = Map ℕ (Value CohortPolicy)

-- What `apply` reads or writes.
pub record MoveState : Type 0 where
  pub cohort_policy : Policies
  pub nr_migrations : ℕ

-- From the update on, by what it gives.
unfoldable pub after_move : MoveState → Option Policies → Outcome MoveState
after_move s none = (s, false)
after_move s (some policies) =
    (record { cohort_policy = policies; nr_migrations = add64 s.nr_migrations 1 }, true)

-- From the lookup on, by what it finds.
unfoldable pub move_found :
    PolicyFaults → ℕ → ℕ → Option (Value CohortPolicy) → MoveState → Outcome MoveState
move_found faults id to none s = (s, true)
move_found faults id to (some misfit) s = (s, true)
move_found faults id to (some (sized policy)) s = after_move s (
    update_present (faults.update_fails id) id (sized (record policy { home_llc = to }))
      s.cohort_policy)

-- The body of the loop of `apply`.
unfoldable pub apply_decision : PolicyFaults → Decision → MoveState → Outcome MoveState
apply_decision faults (move_cohort id to) s =
    if faults.lookup_fails id
    then (s, false)
    else move_found faults id to (lookup id s.cohort_policy) s

unfoldable pub apply : PolicyFaults → List Decision → MoveState → Outcome MoveState
apply faults = for_each (apply_decision faults)

-- `flags | COHORT_PINNED`.
abbrev pub with_pin : ℕ → ℕ
with_pin flags = flags - flags % 2 + 1

-- `ccd.min(self.llc_cpus.len() as u32 - 1)`; the subtraction wraps.
unfoldable pub want_home : ℕ → ℕ → ℕ
want_home nr_llcs ccd =
    let last = (nr_llcs + u32_mod - 1) % u32_mod in if ltb last ccd then last else ccd

-- From the update on, by what it gives.
unfoldable pub after_pin : Policies → Option Policies → Outcome Policies
after_pin m none = (m, false)
after_pin m (some policies) = (policies, true)

-- From the lookup on, by what it finds.
unfoldable pub pin_found :
    PolicyFaults → ℕ → ℕ → Option (Value CohortPolicy) → Policies → Outcome Policies
pin_found faults id home none m = (m, true)
pin_found faults id home (some misfit) m = (m, true)
pin_found faults id home (some (sized policy)) m =
    if not (is_pinned policy) || not (nat_beq policy.home_llc home)
    then after_pin m (
        update_present (faults.update_fails id) id
          (sized (record { home_llc = home; flags = with_pin policy.flags })) m)
    else (m, true)

-- The body of the loop over `pins`.
unfoldable pub apply_pin : PolicyFaults → ℕ → ℕ × ℕ → Policies → Outcome Policies
apply_pin faults nr_llcs (cohort, ccd) m =
    if faults.lookup_fails cohort
    then (m, false)
    else pin_found faults cohort (want_home nr_llcs ccd) (lookup cohort m) m

unfoldable pub apply_pins : PolicyFaults → ℕ → Map ℕ ℕ → Policies → Outcome Policies
apply_pins faults nr_llcs = for_each (apply_pin faults nr_llcs)
