-- ===== src/Spill/Tests.antt =====
-- Runs of `plan_spills` on the inputs of its unit tests, and its theorems at concrete inputs.
use scx_cohort.Balancer.{min_by_load}
use scx_cohort.Base.Map.{Map, lookup, insert, contains_key, from_list}
use scx_cohort.Base.{
  ℕ, ◌+◌, ◌-◌, ◌*◌, ◌/◌, ◌≡◌, refl, inl, inr, true, false, none, some, List, [], ◌∷◌, arith,
  nat_key,
}
use scx_cohort.Domain.{LlcLoad, CohortSnapshot, TaskSnapshot}
use scx_cohort.Spill.Growth.{Relieved, candidates, demand, shed_sum, plan_spills_relieves}
use scx_cohort.Spill.Reasons.{Reason, plan_spills-Reason}
use scx_cohort.Spill.Sticky.{plan_spills_sticky}
use scx_cohort.Spill.Totality.{plan_spills_total}
use scx_cohort.Spill.{
  default_cfg, capacities, already_spilled, spill_target, keep_spilled, cold_members,
  insert_by_duty, sort_by_duty, grow, mark, spill_more, spill_at, spill_cohort, spill_all,
  plan_spills,
}

program : Unit {0}
unfolding min_by_load lookup insert contains_key from_list capacities already_spilled spill_target
    keep_spilled cold_members insert_by_duty sort_by_duty grow mark spill_more spill_at spill_cohort
    spill_all plan_spills demand shed_sum
program = tt

abbrev full : ℕ
full = 8 * 200_000_000

abbrev llc : ℕ → ℕ → LlcLoad
llc id load = record { llc = id; load_ns = load; capacity_ns = full }

abbrev cohort : ℕ → CohortSnapshot
cohort load = record {
  id = 1;
  home_llc = 0;
  pinned = false;
  nr_tasks = 4;
  load_ns = load;
  residency_ms = none;
}

abbrev task : ℕ → ℕ → TaskSnapshot
task pid duty = record {
  pid = pid;
  tgid = pid;
  cohort_id = 1;
  duty_ns = duty;
  home_ns = 0;
  comm = "";
}

abbrev overload : List LlcLoad
overload = llc 0 (full + full / 4) ∷ llc 1 0 ∷ []

abbrev members : List TaskSnapshot
members = task 1 (full / 2) ∷ task 2 (full / 2) ∷ task 10 (full / 50) ∷ task 11 (full / 100) ∷ []

abbrev big : CohortSnapshot
big = cohort (full + full / 4)

-- The coldest members spill first.
oversized_cohort_spills_coldest_members :
    plan_spills default_cfg overload (big ∷ []) members [] ≡ some ((11, 1) ∷ (10, 1) ∷ [])
unfolding program
oversized_cohort_spills_coldest_members = refl

undersized_cohort_never_spills :
    plan_spills default_cfg (llc 0 (full / 2) ∷ llc 1 0 ∷ []) (cohort (full / 2) ∷ []) members []
    ≡ some []
unfolding program
undersized_cohort_never_spills = refl

spill_set_holds_between_marks :
    plan_spills default_cfg
      (llc 0 full ∷ llc 1 0 ∷ [])
      (cohort (full * 85 / 100) ∷ [])
      members
      ((10, 1) ∷ [])
    ≡ some ((10, 1) ∷ [])
unfolding program
spill_set_holds_between_marks = refl

plan_spills_total_example :
    (m : Map ℕ ℕ) × (plan_spills default_cfg overload (big ∷ []) members [] ≡ some m)
plan_spills_total_example =
    plan_spills_total default_cfg overload (big ∷ []) members [] (llc 0 (full + full / 4)) (llc 1 0)
      (inl refl) (inr (inl refl)) (omega arith)

abbrev held_and_grown : Map ℕ ℕ
held_and_grown = (10, 1) ∷ (11, 1) ∷ []

plan_spills_sticky_example : contains_key 10 held_and_grown ≡ true
unfolding program
plan_spills_sticky_example =
    plan_spills_sticky default_cfg (llc 0 (full + full / 4)) (llc 1 0) [] (big ∷ []) members
      ((10, 1) ∷ []) held_and_grown refl big full (task 10 (full / 50)) (inl refl) refl
      (omega arith) (inr (inr (inl refl))) refl refl

plan_spills_relieves_example :
    Relieved
      (big.load_ns - mark full 95)
      ((11, 1) ∷ (10, 1) ∷ [])
      (candidates default_cfg members [] big)
unfolding program
plan_spills_relieves_example =
    plan_spills_relieves default_cfg (llc 0 (full + full / 4)) (llc 1 0) [] (big ∷ []) members []
      ((11, 1) ∷ (10, 1) ∷ []) refl big full (inl refl) refl (omega arith) (omega arith)
      (omega arith)

plan_spills-Reason_example : Reason default_cfg overload (big ∷ []) members [] 10 1
unfolding program
plan_spills-Reason_example =
    plan_spills-Reason default_cfg overload (big ∷ []) members [] ((11, 1) ∷ (10, 1) ∷ []) refl 10 1
      refl
