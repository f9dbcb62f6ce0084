-- ===== src/Daemon/Options.antt =====
-- scx_cohort/src/main.rs: the options of the daemon, with the configuration folded into them, and what
-- `init` makes of them. Which options stand on the command line is an argument, as the parser of the
-- command line is a library.
pub mod Sources
pub mod Tests
use Prim.Native.String.{String}
use scx_cohort.Base.Words.{mul64}
use scx_cohort.Base.{ℕ, ◌^◌, Bool, true, false, Option, none, some, [], if◌then◌else◌}
use scx_cohort.Common.{Tunables, default_tunables}
use scx_cohort.Config.{Globs, Config, ConfigFile, ConfigError, OptionsTable, Result, ok, err, load}

-- The fields of `Opts` that the daemon runs on; `rt_priority` and the rest are read in `main`.
pub record Opts (F64 : Type 0) : Type 0 where
  pub slice_us : ℕ
  pub interval_ms : ℕ
  pub steal_min : ℕ
  pub steal_delay_us : ℕ
  pub imbalance_pct : ℕ
  pub residency_ms : ℕ
  pub merge_wakes_per_sec : F64
  pub no_rt : Bool
  pub drop_privs : Bool

-- Which options have their value from the command line.
pub record FromCli : Type 0 where
  pub config : Bool
  pub slice_us : Bool
  pub interval_ms : Bool
  pub steal_min : Bool
  pub steal_delay_us : Bool
  pub imbalance_pct : Bool
  pub residency_ms : Bool
  pub merge_wakes_per_sec : Bool

-- The macro `apply!`: what the field becomes.
unfoldable pub fold : {A : Type 0} → Bool → Option A → A → A
fold from_cli none v = v
fold from_cli (some u) v = if from_cli then v else u

-- The options, with those of the file folded in; two are not folded but read in `main`.
unfoldable pub fold_options : {F64 : Type 0} → FromCli → OptionsTable F64 → Opts F64 → Opts F64
fold_options cli o opts = record opts {
  slice_us = fold cli.slice_us o.slice_us opts.slice_us;
  interval_ms = fold cli.interval_ms o.interval_ms opts.interval_ms;
  steal_min = fold cli.steal_min o.steal_min opts.steal_min;
  steal_delay_us = fold cli.steal_delay_us o.steal_delay_us opts.steal_delay_us;
  imbalance_pct = fold cli.imbalance_pct o.imbalance_pct opts.imbalance_pct;
  residency_ms = fold cli.residency_ms o.residency_ms opts.residency_ms;
  merge_wakes_per_sec = fold cli.merge_wakes_per_sec o.merge_wakes_per_sec opts.merge_wakes_per_sec;
}

-- `OptionsTable::default`, and `Config::default`.
abbrev pub no_options : {F64 : Type 0} → OptionsTable F64
no_options = record {
  slice_us = none;
  interval_ms = none;
  steal_min = none;
  steal_delay_us = none;
  imbalance_pct = none;
  residency_ms = none;
  merge_wakes_per_sec = none;
  rt_priority = none;
  drop_privs = none;
}

abbrev pub no_config : {F64 Glob : Type 0} → Config F64 Glob
no_config = record { options = no_options; rules = [] }

-- What can become of the configuration: it is loaded, its file is at fault, or an explicit file is missing.
pub data Loaded (F64 Glob : Type 0) : Type 0 where
  loaded : Config F64 Glob → Opts F64 → Loaded F64 Glob
  at_fault : ConfigError → Loaded F64 Glob
  not_found : Loaded F64 Glob

module _ (globs : Globs) {F64 : Type 0} (from_str : String → Option (ConfigFile F64)) where
  open globs use {Glob}

  -- From the configuration on.
  unfoldable pub with_config : FromCli → Opts F64 → Result (Config F64 Glob) → Loaded F64 Glob
  with_config cli opts (err e) = at_fault e
  with_config cli opts (ok cfg) = loaded cfg (fold_options cli cfg.options opts)

  -- The file is `none` if the path does not exist; it may exist and not be readable.
  unfoldable pub load_config : FromCli → Opts F64 → Option (Option String) → Loaded F64 Glob
  load_config cli opts (some text) = with_config cli opts (load globs from_str text)
  load_config cli opts none = if cli.config then not_found else with_config cli opts (ok no_config)

-- `Opts::tunables`.
unfoldable pub tunables : {F64 : Type 0} → Opts F64 → Tunables
tunables opts = record default_tunables {
  steal_min = opts.steal_min;
  steal_delay_ns = mul64 opts.steal_delay_us 1000;
}
