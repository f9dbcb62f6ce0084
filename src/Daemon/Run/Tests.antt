-- ===== src/Daemon/Run/Tests.antt =====
-- A stretch of the loop, and the theorem about it at a concrete input.
use scx_cohort.Base.Floats.{milli}
use scx_cohort.Base.Map.{lookup}
use scx_cohort.Base.{ℕ, true, false, none, some, List, [], ◌∷◌, nat_key}
use scx_cohort.Daemon.Init.{setup}
use scx_cohort.Daemon.Options.Tests.{opts}
use scx_cohort.Daemon.Options.{no_config}
use scx_cohort.Daemon.Rules.Tests.{exact}
use scx_cohort.Daemon.Run.{Turn, asked_procs, timed_out, disconnected}
use scx_cohort.Daemon.World.{Setup, World}
use scx_cohort.Daemon.{sized}

program : Unit {0}
unfolding lookup
program = tt

-- A machine of two LLCs of four CPUs.
abbrev machine : Setup ℕ exact.Glob
machine =
    setup milli exact opts no_config
      (record { nr_nodes = 1; all_llcs = (0, 4) ∷ (1, 4) ∷ []; all_cpus = (0, 0) ∷ (4, 1) ∷ [] })

-- One task of cohort 7, and no failures.
abbrev world : World
world = record {
  now_ms = 1000;
  task_stats = some (
      (
        11,
        sized (record {
          tgid = 11;
          cohort_id = 7;
          runtime_sum = 0;
          runtime_home_sum = 0;
          comm = 97 ∷ 0 ∷ [];
        }),
      )
      ∷ []);
  tgid_batch_fails = false;
  policy_batch_fails = false;
  counters_batch_fails = false;
  procfs = λ tgid. none;
  pin_faults = record { lookup_fails = λ id. false; update_fails = λ id. false };
  dead_policy_fails = λ id. false;
  dead_counters_fails = λ id. false;
  dead_tgid_fails = λ id. false;
  llc_lookups = λ llc. some (some (sized 100));
  move_faults = record { lookup_fails = λ id. false; update_fails = λ id. false };
  spill_update_fails = λ pid. false;
  spill_delete_fails = λ pid. false;
  drained = some [];
  merge_faults = λ plan. record {
    lookup_fails = λ id. false;
    update_fails = λ id. false;
    counters_delete_fails = λ id. false;
    policy_delete_fails = λ id. false;
  };
  split_faults = λ plan. record {
    policy_lookup_fails = false;
    policy_update_fails = false;
    counters_update_fails = false;
    lookup_fails = λ id. false;
    update_fails = λ id. false;
  };
}

-- Asked before and after a tick.
abbrev turns : List Turn
turns = asked_procs true ∷ timed_out world ∷ asked_procs true ∷ disconnected ∷ []
