-- ===== src/Daemon/Options/Sources.antt =====
-- scx_cohort/src/main.rs, `load_config`: where the value of each option comes from.
use Prim.Native.String.{String}
use scx_cohort.Base.{◌≡◌, Bool, true, false, Option, none, some}
use scx_cohort.Config.{Globs, Config, ConfigFile, ConfigError, OptionsTable, ok, err, load}
use scx_cohort.Daemon.Options.{
  Opts, FromCli, no_config, no_options, Loaded, loaded, at_fault, not_found,
}

-- The first that there is, of a value on the command line, one in the file and the built-in one.
pub data Source {A : Type 0} (from_cli : Bool) (in_file : Option A) (given v : A) : Type 0 where
  of_command_line : from_cli ≡ true → v ≡ given → Source from_cli in_file given v
  of_file : from_cli ≡ false → in_file ≡ some v → Source from_cli in_file given v
  of_default : from_cli ≡ false → in_file ≡ none → v ≡ given → Source from_cli in_file given v

-- Each option has its source, and the two that are not folded are as they were.
pub record Sources {F64 : Type 0} (cli : FromCli) (o : OptionsTable F64) (given opts : Opts F64)
    : Type 0 where
  pub slice_us : Source cli.slice_us o.slice_us given.slice_us opts.slice_us
  pub interval_ms : Source cli.interval_ms o.interval_ms given.interval_ms opts.interval_ms
  pub steal_min : Source cli.steal_min o.steal_min given.steal_min opts.steal_min
  pub steal_delay_us :
      Source cli.steal_delay_us o.steal_delay_us given.steal_delay_us opts.steal_delay_us
  pub imbalance_pct :
      Source cli.imbalance_pct o.imbalance_pct given.imbalance_pct opts.imbalance_pct
  pub residency_ms : Source cli.residency_ms o.residency_ms given.residency_ms opts.residency_ms
  pub merge_wakes_per_sec :
      Source cli.merge_wakes_per_sec o.merge_wakes_per_sec given.merge_wakes_per_sec
        opts.merge_wakes_per_sec
  pub no_rt : opts.no_rt ≡ given.no_rt
  pub drop_privs : opts.drop_privs ≡ given.drop_privs

-- What `load_config` comes to, from the file.
pub data Account (globs : Globs) {F64 : Type 0} (from_str : String → Option (ConfigFile F64))
    (cli : FromCli) (given : Opts F64)
    : Option (Option String) → Loaded F64 globs.Glob → Type 0 where
  missing : cli.config ≡ true → Account globs from_str cli given none not_found
  absent :
      (opts : Opts F64)
      → cli.config ≡ false
      → Sources cli no_options given opts
      → Account globs from_str cli given none (loaded no_config opts)
  faulty :
      (text : Option String) (e : ConfigError)
      → load globs from_str text ≡ err e
      → Account globs from_str cli given (some text) (at_fault e)
  read :
      (text : Option String) (cfg : Config F64 globs.Glob) (opts : Opts F64)
      → load globs from_str text ≡ ok cfg
      → Sources cli cfg.options given opts
      → Account globs from_str cli given (some text) (loaded cfg opts)
