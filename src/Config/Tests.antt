-- ===== src/Config/Tests.antt =====
-- Rules as in the sample of the unit tests, with globs that match themselves.
use Prim.Native.String.{String}
use text.Mathlib.Text.{◌==◌ as str_eq}
use scx_cohort.Base.{ℕ, ◌≡◌, refl, Option, none, some, List, [], ◌∷◌, if◌then◌else◌}
use scx_cohort.Config.Matching.{FirstFit, match_task-FirstFit}
use scx_cohort.Config.Rules.{ParsesTo, parse-ParsesTo}
use scx_cohort.Config.{
  OptionsTable, RuleFile, ConfigFile, Config, ok, err, no_criterion, Globs, joins_other,
  has_no_criterion, compile_rule, parse_rule, parse_rules, parse, load, comm_ok, cgroup_ok, matches,
  match_task,
}

program : Unit {0}
unfolding joins_other has_no_criterion compile_rule parse_rule parse_rules parse load comm_ok
    cgroup_ok matches match_task
program = tt

-- A glob is itself, but for "[", which is bad.
abbrev exact : Globs
exact = record {
  Glob = String;
  compile = λ g. if str_eq g "[" then none else some g;
  is_match = λ g path. str_eq g path;
}

abbrev no_options : OptionsTable ℕ
no_options = record {
  slice_us = none;
  interval_ms = none;
  steal_min = none;
  steal_delay_us = none;
  imbalance_pct = none;
  residency_ms = none;
  merge_wakes_per_sec = none;
  rt_priority = none;
  drop_privs = none;
}

abbrev wine : RuleFile
wine = record {
  match_comm = some ("wineserver" ∷ "wine64-preloader" ∷ []);
  match_cgroup = none;
  join_cohort_of = some "parent";
  pin_ccd = none;
  min_ccd_residency_ms = none;
}

abbrev game : RuleFile
game = record {
  match_comm = none;
  match_cgroup = some "app-steam";
  join_cohort_of = none;
  pin_ccd = none;
  min_ccd_residency_ms = some 5000;
}

abbrev bare : RuleFile
bare = record {
  match_comm = none;
  match_cgroup = none;
  join_cohort_of = none;
  pin_ccd = some 0;
  min_ccd_residency_ms = none;
}

abbrev file_of : List RuleFile → ConfigFile ℕ
file_of rules = record { options = no_options; rules = rules }

-- A parser that knows two texts.
abbrev from_str : String → Option (ConfigFile ℕ)
from_str text =
    if str_eq text "good"
    then some (file_of (wine ∷ game ∷ []))
    else if str_eq text "bad"
    then some (file_of (wine ∷ bare ∷ []))
    else none

abbrev config : Config ℕ String
config = record {
  options = no_options;
  rules =
      record { comms = wine.match_comm; cgroup = none; pin_ccd = none; min_ccd_residency_ms = none }
      ∷ record {
        comms = none;
        cgroup = some "app-steam";
        pin_ccd = none;
        min_ccd_residency_ms = some 5000;
      }
      ∷ [];
}

sample_is_parsed : parse exact from_str "good" ≡ ok config
unfolding program
sample_is_parsed = refl

parse-ParsesTo_example : ParsesTo exact (file_of (wine ∷ bare ∷ [])) (err (no_criterion 2))
unfolding program
parse-ParsesTo_example = parse-ParsesTo exact from_str "bad" (file_of (wine ∷ bare ∷ [])) refl

match_task-FirstFit_example : FirstFit exact "GameThread" "app-steam" config.rules (
    some (record {
      comms = none;
      cgroup = some "app-steam";
      pin_ccd = none;
      min_ccd_residency_ms = some 5000;
    }))
unfolding program
match_task-FirstFit_example = match_task-FirstFit exact config "GameThread" "app-steam"
