-- ===== src/Daemon/Rules/Tests.antt =====
-- A run of `apply_rules`, and the theorem about it at a concrete input.
use Prim.Native.String.{String}
use text.Mathlib.Text.{◌==◌ as str_eq}
use scx_cohort.Base.Map.{lookup, lookup_or, insert, contains_key, retain}
use scx_cohort.Base.{ℕ, ◌≡◌, refl, true, false, Option, none, some, List, [], ◌∷◌, nat_key}
use scx_cohort.Config.{Globs, Config, OptionsTable, comm_ok, cgroup_ok, matches, match_task}
use scx_cohort.Daemon.Cgroup.{
  push, lines, strip_prefix, trim_slashes, find_v2, or_empty, read_cgroup, cached_or_read,
  cgroup_of,
}
use scx_cohort.Daemon.Kernel.{after, for_each, update_present}
use scx_cohort.Daemon.Policies.Laws.{rewritten, pinned_to}
use scx_cohort.Daemon.Policies.{
  PolicyFaults, want_home, after_pin, pin_found, apply_pin, apply_pins,
}
use scx_cohort.Daemon.Rules.Pass.{apply_rules_wants}
use scx_cohort.Daemon.Rules.Wants.{
  path_or_read, path_of, at_least, last_of, field_of, longest_residency, last_pin,
}
use scx_cohort.Daemon.Rules.{
  RuleState, add_residency, add_pin, live_cache, add_rule, add_task, add_tasks, unless_empty,
  carry_out_rules, apply_rules,
}
use scx_cohort.Daemon.{sized, misfit, is_pinned}
use scx_cohort.Domain.{TaskSnapshot}

program : Unit {0}
unfolding lookup lookup_or insert contains_key retain comm_ok cgroup_ok matches match_task push
    lines strip_prefix trim_slashes find_v2 or_empty read_cgroup cached_or_read cgroup_of after
    for_each update_present want_home after_pin pin_found apply_pin apply_pins add_residency add_pin
    live_cache add_rule add_task add_tasks unless_empty carry_out_rules apply_rules is_pinned
    path_or_read at_least last_of field_of longest_residency last_pin rewritten pinned_to
program = tt

-- Globs that match themselves.
abbrev pub exact : Globs
exact = record { Glob = String; compile = λ g. some g; is_match = λ g path. str_eq g path }

abbrev no_options : OptionsTable ℕ
no_options = record {
  slice_us = none;
  interval_ms = none;
  steal_min = none;
  steal_delay_us = none;
  imbalance_pct = none;
  residency_ms = none;
  merge_wakes_per_sec = none;
  rt_priority = none;
  drop_privs = none;
}

-- The game's tasks are pinned, and all tasks of the slice stay for a while.
abbrev two_rules : Config ℕ String
two_rules = record {
  options = no_options;
  rules =
      record {
        comms = some ("game" ∷ []);
        cgroup = none;
        pin_ccd = some 4;
        min_ccd_residency_ms = some 100;
      }
      ∷ record {
        comms = none;
        cgroup = some "slice";
        pin_ccd = none;
        min_ccd_residency_ms = some 5000;
      }
      ∷ [];
}

abbrev files : ℕ → Option String
files tgid = some "1:cpu:/x\n0::/slice\n"

abbrev task : ℕ → String → TaskSnapshot
task pid comm = record {
  pid = pid;
  tgid = pid;
  cohort_id = 1;
  duty_ns = 0;
  home_ns = 0;
  comm = comm;
}

abbrev tasks : List TaskSnapshot
tasks = task 10 "game" ∷ task 11 "helper" ∷ []

abbrev quiet : PolicyFaults
quiet = record { lookup_fails = λ k. false; update_fails = λ k. false }

abbrev before : RuleState
before = record {
  cgroup_cache = (9, "old") ∷ [];
  residency_overrides = (3, 1) ∷ [];
  cohort_policy = (1, sized (record { home_llc = 0; flags = 0 })) ∷ (2, misfit) ∷ [];
}

game_is_pinned : apply_rules exact two_rules files quiet 2 tasks before ≡ (
  record {
    cgroup_cache = (10, "slice") ∷ (11, "slice") ∷ [];
    residency_overrides = (1, 5000) ∷ [];
    cohort_policy = (1, sized (record { home_llc = 1; flags = 1 })) ∷ (2, misfit) ∷ [];
  },
  true,
)
unfolding program
game_is_pinned = refl

apply_rules_wants_example :
    let path = path_of files (live_cache tasks before.cgroup_cache) in
    ((apply_rules exact two_rules files quiet 2 tasks before).1 ≡ true)
    × ((c : ℕ)
        → lookup c (apply_rules exact two_rules files quiet 2 tasks before).0.residency_overrides
          ≡ longest_residency exact two_rules path c tasks)
    × ((c : ℕ)
        → lookup c (apply_rules exact two_rules files quiet 2 tasks before).0.cohort_policy
          ≡ pinned_to 2 (last_pin exact two_rules path c tasks) (lookup c before.cohort_policy))
unfolding program
apply_rules_wants_example =
    apply_rules_wants exact two_rules files quiet 2 tasks before (λ e. cc e)
      (record { lookups = λ k. refl; updates = λ k. refl })
