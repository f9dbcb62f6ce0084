-- ===== src/Daemon/Split/Tests.antt =====
-- Runs of `apply_split`, and its theorems at a concrete input.
use scx_cohort.Base.Map.{lookup, insert, contains_key}
use scx_cohort.Base.Words.{add64}
use scx_cohort.Base.{
  ℕ, ◌+◌, ◌≡◌, refl, true, false, some, [], ◌∷◌, arith, nat_beq, nat_key, if◌then◌else◌,
}
use scx_cohort.Daemon.Kernel.{after, for_each, update_present, update_absent}
use scx_cohort.Daemon.Split.Ids.{HasFreshIds, apply_split-HasFreshIds}
use scx_cohort.Daemon.Split.Moves.{IsSound, split_destination, apply_split_moves}
use scx_cohort.Daemon.Split.{
  SplitFaults, SplitState, daemon_cohort_base, default_counters, move_off, move_all_off,
  finish_split, after_counters, after_policy, split_from, apply_split,
}
use scx_cohort.Daemon.{CohortPolicy, sized}
use scx_cohort.WakeGraph.{SplitPlan}

program : Unit {0}
unfolding lookup insert contains_key after for_each update_present update_absent move_off
    move_all_off finish_split after_counters after_policy split_from apply_split split_destination
program = tt

abbrev quiet : SplitFaults
quiet = record {
  policy_lookup_fails = false;
  policy_update_fails = false;
  counters_update_fails = false;
  lookup_fails = λ k. false;
  update_fails = λ k. false;
}

quiet-IsSound : IsSound quiet
quiet-IsSound = record {
  policy_lookup = refl;
  policy_update = refl;
  counters_update = refl;
  lookups = λ k. refl;
  updates = λ k. refl;
}

abbrev old_policy : CohortPolicy
old_policy = record { home_llc = 1; flags = 1 }

abbrev one_cohort : SplitState
one_cohort = record {
  cohort_policy = (7, sized old_policy) ∷ [];
  cohort_counters = (7, sized (record { nr_tasks = 3; load_sum = 9 })) ∷ [];
  tgid_cohort = (10, 7) ∷ (11, 7) ∷ [];
  daemon_seq = 4;
  nr_splits = 0;
}

abbrev eleven_off : SplitPlan
eleven_off = record { cohort = 7; off_tgids = 11 ∷ 12 ∷ [] }

-- The process 12 has gone since, and stays so.
split_moves_what_is_there :
    (apply_split quiet eleven_off one_cohort).0.tgid_cohort
    ≡ (10, 7) ∷ (11, daemon_cohort_base + 4) ∷ []
unfolding program
split_moves_what_is_there = refl

-- The policy stays behind where the entry for the counters fails.
split_fails_halfway :
    (apply_split
      (record quiet { counters_update_fails = true })
      eleven_off
      one_cohort).0.cohort_policy
    ≡ (7, sized old_policy)
      ∷ (daemon_cohort_base + 4, sized (record { home_llc = 1; flags = 0 }))
      ∷ []
unfolding program
split_fails_halfway = refl

one_cohort-HasFreshIds : HasFreshIds one_cohort
unfolding program
one_cohort-HasFreshIds = record { policies = λ k h. ground arith; counters = λ k h. ground arith }

apply_split-HasFreshIds_example : HasFreshIds (apply_split quiet eleven_off one_cohort).0
unfolding program
apply_split-HasFreshIds_example =
    apply_split-HasFreshIds quiet eleven_off one_cohort (omega arith) one_cohort-HasFreshIds

apply_split_moves_example :
    ((apply_split quiet eleven_off one_cohort).1 ≡ true)
    × ((apply_split quiet eleven_off one_cohort).0.nr_splits ≡ add64 0 1)
    × ((t : ℕ)
        → lookup t (apply_split quiet eleven_off one_cohort).0.tgid_cohort
          ≡ split_destination
              (daemon_cohort_base + 4)
              (11 ∷ 12 ∷ [])
              t
              (lookup t one_cohort.tgid_cohort))
    × ((c : ℕ)
        → lookup c (apply_split quiet eleven_off one_cohort).0.cohort_policy ≡ (
            if nat_beq c (daemon_cohort_base + 4)
            then some (sized (record { home_llc = 1; flags = 0 }))
            else lookup c one_cohort.cohort_policy))
    × ((c : ℕ)
        → lookup c (apply_split quiet eleven_off one_cohort).0.cohort_counters ≡ (
            if nat_beq c (daemon_cohort_base + 4)
            then some (sized default_counters)
            else lookup c one_cohort.cohort_counters))
unfolding program
apply_split_moves_example =
    apply_split_moves quiet eleven_off one_cohort old_policy quiet-IsSound (omega arith)
      one_cohort-HasFreshIds refl
