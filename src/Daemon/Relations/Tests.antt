-- ===== src/Daemon/Relations/Tests.antt =====
-- The theorem about `discover_relationships` at a concrete input.
use scx_cohort.Base.Floats.{milli}
use scx_cohort.Base.{ℕ, true, false, none, some, List, [], ◌∷◌}
use scx_cohort.Common.{WakeEdgeKey}
use scx_cohort.Daemon.Merge.{Faults}
use scx_cohort.Daemon.Relations.Known.{Returns, discover_relationships-Returns}
use scx_cohort.Daemon.Relations.{RelationState, discover_relationships}
use scx_cohort.Daemon.Split.{SplitFaults}
use scx_cohort.Daemon.{Value, sized, misfit, default_policy}
use scx_cohort.Daemon.Split.{default_counters}
use scx_cohort.Domain.{CohortSnapshot}
use scx_cohort.WakeGraph.Tests.{as_listed}
use scx_cohort.WakeGraph

abbrev fair : Faults
fair = record {
  lookup_fails = λ id. false;
  update_fails = λ id. false;
  counters_delete_fails = λ id. false;
  policy_delete_fails = λ id. false;
}

-- The calls that move a process fail.
abbrev halting : SplitFaults
halting = record {
  policy_lookup_fails = false;
  policy_update_fails = false;
  counters_update_fails = false;
  lookup_fails = λ id. false;
  update_fails = λ id. true;
}

abbrev cohort : ℕ → CohortSnapshot
cohort id = record {
  id = id;
  home_llc = 0;
  pinned = false;
  nr_tasks = 2;
  load_ns = 0;
  residency_ms = none;
}

-- Two cohorts of a process each.
abbrev start : RelationState ℕ
start = record {
  wake_graph = WakeGraph.new (record (WakeGraph.default_cfg milli) { merge_confirm_ticks = 1 });
  cohort_counters = (7, sized default_counters) ∷ (9, sized default_counters) ∷ [];
  cohort_policy = (7, sized default_policy) ∷ (9, sized default_policy) ∷ [];
  tgid_cohort = (1, 7) ∷ (2, 9) ∷ [];
  prev_load_sum = [];
  daemon_seq = 0;
  nr_merges = 0;
  nr_splits = 0;
}

abbrev drained : List (Value WakeEdgeKey × Value ℕ)
drained =
    (sized (record { waker_tgid = 1; wakee_tgid = 2 }), sized 100_000) ∷ (misfit, sized 1) ∷ []

discover_relationships-Returns_example : Returns milli as_listed start.tgid_cohort (
    discover_relationships milli as_listed
      (λ plan. fair)
      (λ plan. halting)
      (some drained)
      1000
      1
      (cohort 7 ∷ cohort 9 ∷ [])
      []
      start.tgid_cohort
      start)
discover_relationships-Returns_example =
    discover_relationships-Returns milli as_listed (λ plan. fair) (λ plan. halting) (some drained)
      1000 1 (cohort 7 ∷ cohort 9 ∷ []) [] start.tgid_cohort start
