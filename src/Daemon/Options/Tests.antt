-- ===== src/Daemon/Options/Tests.antt =====
-- A run of `load_config`, and the theorem about it at a concrete input.
use scx_cohort.Base.{ℕ, ◌≡◌, refl, true, false, Option, some, []}
use scx_cohort.Config.{load, parse, parse_rules, ConfigFile}
use scx_cohort.Daemon.Options.{
  Opts, FromCli, fold, fold_options, no_options, loaded, with_config, load_config,
}
use scx_cohort.Daemon.Rules.Tests.{exact}
use Prim.Native.String.{String}

program : Unit {0}
unfolding load parse parse_rules fold fold_options with_config load_config
program = tt

abbrev pub opts : Opts ℕ
opts = record {
  slice_us = 20000;
  interval_ms = 100;
  steal_min = 2;
  steal_delay_us = 500;
  imbalance_pct = 20;
  residency_ms = 5000;
  merge_wakes_per_sec = 100_000;
  no_rt = false;
  drop_privs = false;
}

-- The slice is given on the command line.
abbrev sliced : FromCli
sliced = record {
  config = false;
  slice_us = true;
  interval_ms = false;
  steal_min = false;
  steal_delay_us = false;
  imbalance_pct = false;
  residency_ms = false;
  merge_wakes_per_sec = false;
}

-- The file names a slice and an interval.
abbrev from_str : String → Option (ConfigFile ℕ)
from_str text = some (record {
  options = record no_options { slice_us = some 1; interval_ms = some 50 };
  rules = [];
})

given_slice_and_interval_of_the_file :
    load_config exact from_str sliced opts (some (some "file"))
    ≡ loaded
        (record {
          options = record no_options { slice_us = some 1; interval_ms = some 50 };
          rules = [];
        })
        (record opts { interval_ms = 50 })
unfolding program
given_slice_and_interval_of_the_file = refl
