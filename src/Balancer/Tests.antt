-- ===== src/Balancer/Tests.antt =====
-- Runs of the balancer on the inputs of its unit tests, and its theorems at concrete inputs.
use scx_cohort.Balancer.History.{
  Event, tick, after, is_over, waiting, last_moved, move-waiting, last_move_at-last_moved,
}
use scx_cohort.Balancer.Moves.{
  InRange, IsEligible, AreExtremes, Justifies, plan-Justifies, plan_total,
}
use scx_cohort.Balancer.{
  Balancer, default_cfg, new, retain_cohorts, max_by_load, min_by_load, gap_after, residency_of,
  residency_over, movable, narrows, key_lt, best_from, min_by_key, candidates, conclude, decide,
  threshold, plan_between, plan,
}
use scx_cohort.Base.Map.{lookup, insert, retain}
use scx_cohort.Base.{
  ℕ, suc, ◌+◌, ◌*◌, ◌/◌, ◌≤◌, ◌≡◌, refl, inl, inr, true, false, none, List, [], ◌∷◌, arith, nat_key,
}
use scx_cohort.Domain.{LlcLoad, CohortSnapshot, move_cohort}

program : Unit {0}
unfolding new retain_cohorts max_by_load min_by_load gap_after residency_of residency_over movable
    narrows key_lt best_from min_by_key candidates conclude decide threshold plan_between plan
    lookup insert retain after is_over waiting last_moved
program = tt

abbrev cap : ℕ
cap = 8 * 200_000_000

abbrev llc : ℕ → ℕ → LlcLoad
llc id load = record { llc = id; load_ns = load; capacity_ns = cap }

abbrev cohort : ℕ → ℕ → ℕ → CohortSnapshot
cohort id home load = record {
  id = id;
  home_llc = home;
  pinned = false;
  nr_tasks = 4;
  load_ns = load;
  residency_ms = none;
}

abbrev skewed : List LlcLoad
skewed = llc 0 cap ∷ llc 1 (cap / 10) ∷ []

abbrev quarter : List CohortSnapshot
quarter = cohort 1 0 (cap / 4) ∷ []

abbrev observed : Balancer
observed = record { cfg = default_cfg; last_move_at = []; streak = 1 }

two_tick_confirmation :
    ((plan (new default_cfg) 0 skewed quarter).1 ≡ [])
    × ((plan observed 200 skewed quarter).1 ≡ move_cohort 1 1 ∷ [])
unfolding program
two_tick_confirmation = (refl, refl)

abbrev first_tick : Event
first_tick = tick 0 skewed quarter

abbrev second_tick : Event
second_tick = tick 200 skewed quarter

abbrev third_tick : Event
third_tick = tick 400 skewed quarter

residency_immunity :
    ((plan (after default_cfg (third_tick ∷ second_tick ∷ first_tick ∷ [])) 600 skewed quarter).1
      ≡ [])
    × ((plan (after default_cfg (third_tick ∷ second_tick ∷ first_tick ∷ [])) 2500 skewed quarter).1
        ≡ move_cohort 1 1 ∷ [])
unfolding program
residency_immunity = (refl, refl)

abbrev gap : ℕ
gap = cap * 6 / 10

picks_best_repairing_cohort :
    (plan observed 200
      (llc 0 (cap * 8 / 10) ∷ llc 1 (cap * 2 / 10) ∷ [])
      (cohort 1 0 (cap / 100) ∷ cohort 2 0 (gap / 2) ∷ cohort 3 0 gap ∷ [])).1
    ≡ move_cohort 2 1 ∷ []
unfolding program
picks_best_repairing_cohort = refl

pinned_and_oversized_never_move :
    (plan observed 200
      (llc 0 (cap * 2) ∷ llc 1 0 ∷ [])
      (record (cohort 1 0 (cap / 4)) { pinned = true } ∷ cohort 2 0 (cap + cap / 4) ∷ [])).1
    ≡ []
unfolding program
pinned_and_oversized_never_move = refl

skewed-InRange : InRange skewed quarter
skewed-InRange = record {
  llc_loads = λ l m. elim m [
    | inl e ↦ rw e (omega arith)
    | inr (inl e) ↦ rw e (omega arith)
    | inr (inr n) ↦ absurd n
  ];
  cohort_loads = λ c m. elim m [ inl e ↦ rw e (omega arith) | inr n ↦ absurd n ];
}

quarter-IsEligible :
    IsEligible default_cfg [] 200
      (max_by_load (llc 0 cap) (llc 1 (cap / 10) ∷ []))
      (min_by_load (llc 0 cap) (llc 1 (cap / 10) ∷ []))
      (cohort 1 0 (cap / 4))
unfolding program
quarter-IsEligible = record {
  home = refl;
  unpinned = refl;
  peopled = omega arith;
  loaded = omega arith;
  fits = omega arith;
  rested = λ at e. absurd (cc);
  smaller = omega arith;
}

plan-Justifies_example :
    (max : LlcLoad) × (min : LlcLoad) × AreExtremes skewed max min
    × Justifies observed 200 max min quarter 1 1
unfolding program
plan-Justifies_example = plan-Justifies observed 200 skewed quarter skewed-InRange 1 1 [] refl

plan_total_example : (id : ℕ) × ((plan observed 200 skewed quarter).1 ≡ move_cohort id 1 ∷ [])
unfolding program
plan_total_example =
    plan_total observed 200 (llc 0 cap) (llc 1 (cap / 10)) [] quarter skewed-InRange
      (cohort 1 0 (cap / 4)) (inl refl) quarter-IsEligible (omega arith) (omega arith)

move-waiting_example :
    (2 ≤ suc (waiting default_cfg (first_tick ∷ [])))
    × (is_over default_cfg
          (max_by_load (llc 0 cap) (llc 1 (cap / 10) ∷ []))
          (min_by_load (llc 0 cap) (llc 1 (cap / 10) ∷ []))
        ≡ true)
unfolding program
move-waiting_example =
    move-waiting default_cfg (first_tick ∷ []) 200 (llc 0 cap) (llc 1 (cap / 10)) [] quarter
      (move_cohort 1 1) [] refl

last_move_at-last_moved_example :
    lookup 1 (after default_cfg (second_tick ∷ first_tick ∷ [])).last_move_at
    ≡ last_moved default_cfg (second_tick ∷ first_tick ∷ []) 1
last_move_at-last_moved_example =
    last_move_at-last_moved default_cfg (second_tick ∷ first_tick ∷ []) 1
