-- ===== src/Daemon/Policies/Tests.antt =====
-- Runs of `apply` and of the pins, and theorems about them at concrete inputs.
use scx_cohort.Balancer.{Balancer, default_cfg, new, plan}
use scx_cohort.Base.Map.{lookup, insert, contains_key}
use scx_cohort.Base.{ℕ, ◌≡◌, refl, true, false, some, List, [], ◌∷◌, nat_key}
use scx_cohort.Daemon.Kernel.{after, for_each, update_present}
use scx_cohort.Daemon.Policies.Laws.{IsSound, rewritten, moved_by, apply_moves}
use scx_cohort.Daemon.Policies.Pinned.{apply_pinned}
use scx_cohort.Daemon.Policies.{
  PolicyFaults, MoveState, after_move, move_found, apply_decision, apply, want_home, after_pin,
  pin_found, apply_pin, apply_pins,
}
use scx_cohort.Daemon.{
  CohortPolicy, CohortCounters, CohortState, Value, sized, misfit, is_pinned, scan_of,
}
use scx_cohort.Domain.{Decision, move_cohort, LlcLoad, TaskSnapshot}

program : Unit {0}
unfolding lookup insert contains_key after for_each update_present after_move move_found
    apply_decision apply want_home after_pin pin_found apply_pin apply_pins is_pinned rewritten
    moved_by new
program = tt

abbrev quiet : PolicyFaults
quiet = record { lookup_fails = λ k. false; update_fails = λ k. false }

quiet-IsSound : IsSound quiet
quiet-IsSound = record { lookups = λ k. refl; updates = λ k. refl }

abbrev policy_of : ℕ → ℕ → Value CohortPolicy
policy_of home flags = sized (record { home_llc = home; flags = flags })

abbrev three : MoveState
three = record {
  cohort_policy = (1, policy_of 0 0) ∷ (2, misfit) ∷ (3, policy_of 1 1) ∷ [];
  nr_migrations = 0;
}

abbrev both : List Decision
both = move_cohort 1 1 ∷ move_cohort 2 1 ∷ []

one_is_moved : (apply quiet both three).0 ≡ record {
  cohort_policy = (1, policy_of 1 0) ∷ (2, misfit) ∷ (3, policy_of 1 1) ∷ [];
  nr_migrations = 1;
}
unfolding program
one_is_moved = refl

-- Of two LLCs the pin to the sixth is one to the last.
pins_are_clamped :
    (apply_pins quiet 2 ((1, 5) ∷ (3, 1) ∷ []) three.cohort_policy).0
    ≡ (1, policy_of 1 1) ∷ (2, misfit) ∷ (3, policy_of 1 1) ∷ []
unfolding program
pins_are_clamped = refl

apply_moves_example :
    ((apply quiet both three).1 ≡ true)
    × ((c : ℕ)
        → lookup c (apply quiet both three).0.cohort_policy
          ≡ moved_by c both (lookup c three.cohort_policy))
unfolding program
apply_moves_example = apply_moves quiet quiet-IsSound both three

abbrev some_state : CohortState
some_state = record {
  prev_load_sum = (1, 0) ∷ (3, 0) ∷ [];
  dead_cohorts = [];
  residency_overrides = [];
  balancer = new default_cfg;
}

abbrev a_task : ℕ → TaskSnapshot
a_task c = record { pid = c; tgid = c; cohort_id = c; duty_ns = 1; home_ns = 1; comm = "" }

abbrev counters : List (ℕ × Value CohortCounters)
counters =
    (1, sized (record { nr_tasks = 1; load_sum = 9 }))
    ∷ (3, sized (record { nr_tasks = 1; load_sum = 9 }))
    ∷ []

abbrev uneven : List LlcLoad
uneven =
    record { llc = 1; load_ns = 90; capacity_ns = 100 }
    ∷ record { llc = 0; load_ns = 10; capacity_ns = 100 }
    ∷ []

-- One tick over the threshold so far.
abbrev waiting : Balancer
waiting = record (new default_cfg) { streak = 1 }

-- The third cohort is pinned, and the balancer would move it from the busier LLC.
apply_pinned_example :
    lookup 3
      (apply quiet
        (plan waiting 5000 uneven
          (scan_of some_state (a_task 1 ∷ a_task 3 ∷ []) [] three.cohort_policy counters).out).1
        three).0.cohort_policy
    ≡ some (policy_of 1 1)
unfolding program
apply_pinned_example =
    apply_pinned quiet some_state (a_task 1 ∷ a_task 3 ∷ []) [] counters waiting 5000 uneven three 3
      (record { home_llc = 1; flags = 1 }) (refl, (refl, (refl, tt))) refl refl
