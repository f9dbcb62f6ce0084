-- ===== src/Daemon/Metrics/Tests.antt =====
-- A run of `get_metrics`, and the theorem about it at a concrete input.
use scx_cohort.Base.Floats.{milli}
use scx_cohort.Base.Map.{lookup, insert, from_list}
use scx_cohort.Base.{ℕ, ◌≡◌, refl, Option, none, some, List, [], ◌∷◌, length, keep, nat_key, false}
use scx_cohort.Daemon.Metrics.Homes.{sum_cohorts, is_listed, get_metrics_homes}
use scx_cohort.Daemon.Metrics.{
  sum_percpu, slot_of, read_slots, read_stat_counters, or_no_counters, sum_tasks, nr_at_home,
  Tallies, llc_metrics, metrics_of, get_metrics,
}
use scx_cohort.Daemon.{Value, sized, misfit}
use scx_cohort.Domain.{CohortSnapshot, LlcLoad}

program : Unit {0}
unfolding lookup insert from_list sum_percpu slot_of read_slots read_stat_counters or_no_counters
    sum_tasks nr_at_home llc_metrics metrics_of get_metrics sum_cohorts
program = tt

-- Two CPUs with readings, and one with a value of another size.
abbrev readings : ℕ → Option (Option (List (Value ℕ)))
readings idx = some (some (sized idx ∷ misfit ∷ sized 10 ∷ []))

abbrev counts : Tallies
counts = record { nr_migrations = 1; nr_merges = 2; nr_splits = 3; current_spills = (5, 1) ∷ [] }

abbrev cohort : ℕ → ℕ → CohortSnapshot
cohort id home = record {
  id = id;
  home_llc = home;
  pinned = false;
  nr_tasks = 2;
  load_ns = 0;
  residency_ms = none;
}

abbrev three : List CohortSnapshot
three = cohort 1 0 ∷ cohort 2 1 ∷ cohort 3 7 ∷ []

abbrev two_llcs : List LlcLoad
two_llcs =
    record { llc = 0; load_ns = 50; capacity_ns = 100 }
    ∷ record { llc = 1; load_ns = 0; capacity_ns = 100 }
    ∷ []

steals_are_summed : (get_metrics milli counts readings three two_llcs).nr_steals ≡ 17
unfolding program
steals_are_summed = refl

failed_readings_are_zero : (get_metrics milli counts (λ idx. none) three two_llcs).nr_steals ≡ 0
unfolding program
failed_readings_are_zero = refl

get_metrics_homes_example :
    sum_cohorts (get_metrics milli counts readings three two_llcs).llcs
    ≡ length (keep (is_listed two_llcs) three)
unfolding program
get_metrics_homes_example =
    get_metrics_homes milli counts readings three two_llcs (refl, (refl, tt))
