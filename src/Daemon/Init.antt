-- ===== src/Daemon/Init.antt =====
-- scx_cohort/src/main.rs, `init`: the checks on the machine, what is written for the BPF side, and the
-- scheduler that the daemon starts from. The topology, the user and the calls that open, load and attach
-- the BPF program are arguments.
pub mod Bounds
mod Tests
use Prim.Native.String.{String}
use scx_cohort.Balancer
use scx_cohort.Base.Floats.{Floats}
use scx_cohort.Base.Map.{Map, insert}
use scx_cohort.Base.Words.{u32_mod, add32, mul64}
use scx_cohort.Base.{
  ℕ, ◌+◌, ◌*◌, ◌/◌, ◌%◌, ◌^◌, Bool, true, false, not, Option, none, some, List, [], ◌∷◌, length,
  ltb, nat_key, if◌then◌else◌,
}
use scx_cohort.Common.{Tunables, max_cpus, max_llcs}
use scx_cohort.Config.{Globs, Config}
use scx_cohort.Daemon.Options.{Opts, tunables}
use scx_cohort.Daemon.World.{Setup, Scheduler}
use scx_cohort.Daemon.{CohortPolicy, CohortCounters, Value}
use scx_cohort.Spill
use scx_cohort.WakeGraph

-- What the topology library finds: the number of nodes, the LLCs with their numbers of CPUs, and the
-- CPUs with their LLCs.
pub record Topology : Type 0 where
  pub nr_nodes : ℕ
  pub all_llcs : Map ℕ ℕ
  pub all_cpus : List (ℕ × ℕ)

-- The constants and the tunables of the BPF side.
pub record Rodata : Type 0 where
  pub slice_ns : ℕ
  pub nr_llcs : ℕ
  pub nr_cpus : ℕ
  pub cpu_llc_id : Map ℕ ℕ
  pub tunables : Tunables

pub data Refusal : Type 0 where
  not_root no_topology many_nodes not_opened many_llcs many_cpus not_loaded not_attached : Refusal

-- The scheduler with what it runs on, a refusal, or a panic.
pub data Start (F64 Glob : Type 0) : Type 0 where
  started : Rodata → Setup F64 Glob → Scheduler F64 → Start F64 Glob
  refused : Refusal → Start F64 Glob
  panicked : Start F64 Glob

unfoldable pub max_cpu : ℕ → List (ℕ × ℕ) → ℕ
max_cpu greatest [] = greatest
max_cpu greatest ((cpu, llc) ∷ cpus) = max_cpu (if ltb greatest cpu then cpu else greatest) cpus

-- `max().unwrap_or(&0) as u32 + 1`.
unfoldable pub count_cpus : List (ℕ × ℕ) → ℕ
count_cpus cpus = add32 (max_cpu 0 cpus % u32_mod) 1

-- The writes to the array of LLC ids; one out of its range is a panic.
unfoldable pub write_llcs : List (ℕ × ℕ) → Map ℕ ℕ → Option (Map ℕ ℕ)
write_llcs [] array = some array
write_llcs ((cpu, llc) ∷ cpus) array =
    let rest = write_llcs cpus (insert cpu (llc % u32_mod) array) in
    if ltb cpu max_cpus then rest else none

-- `Duration::as_secs_f64` of whole milliseconds.
abbrev pub as_secs : (f : Floats) → ℕ → f.F64
as_secs f ms =
    f.add (f.of_nat (ms / 1000)) (f.div (f.of_nat (ms % 1000 * 1000000)) (f.of_nat 1000000000))

module _ (f : Floats) (globs : Globs) where
  open f use {F64}
  open globs use {Glob}

  abbrev pub setup : Opts F64 → Config F64 Glob → Topology → Setup F64 Glob
  setup opts config topo = record {
    tick_ns = opts.interval_ms * 1000000 % 2 ^ 64;
    dt_s = as_secs f opts.interval_ms;
    llc_cpus = topo.all_llcs;
    sample_mult = 2 ^ (tunables opts).sample_shift;
    config = config;
    spill_cfg = record Spill.default_cfg { tick_ns = mul64 opts.interval_ms 1000000 };
  }

  -- The fields of a fresh scheduler; the maps are those of a BPF program that is just loaded.
  abbrev pub fresh : Opts F64 → Scheduler F64
  fresh opts = record {
    balancer = Balancer.new (record {
      imbalance_pct = opts.imbalance_pct;
      confirm_ticks = 2;
      residency_ms = opts.residency_ms;
    });
    prev_load_sum = [];
    prev_llc_load = [];
    dead_cohorts = [];
    dead_tgids = [];
    wake_graph =
        WakeGraph.new
          (record (WakeGraph.default_cfg f) { merge_wakes_per_sec = opts.merge_wakes_per_sec });
    daemon_seq = 0;
    current_spills = [];
    prev_runtime = [];
    cgroup_cache = [];
    residency_overrides = [];
    nr_migrations = 0;
    nr_merges = 0;
    nr_splits = 0;
    last_tasks = [];
    cohort_policy = [];
    cohort_counters = [];
    tgid_cohort = [];
    spill_tasks = [];
  }

  -- The calls into the kernel, and the user.
  module _ (is_root opens loads attaches : Bool) (opts : Opts F64) (config : Config F64 Glob) where
    -- From the array of LLC ids on.
    unfoldable pub attach : Topology → Option (Map ℕ ℕ) → Start F64 Glob
    attach topo none = panicked
    attach topo (some array) =
        if not loads
        then refused not_loaded
        else if not attaches
        then refused not_attached
        else started
            (record {
              slice_ns = mul64 opts.slice_us 1000;
              nr_llcs = length topo.all_llcs;
              nr_cpus = count_cpus topo.all_cpus;
              cpu_llc_id = array;
              tunables = tunables opts;
            })
            (setup opts config topo) (fresh opts)

    -- From the checks of the topology on.
    unfoldable pub check : Option Topology → Start F64 Glob
    check none = refused no_topology
    check (some topo) =
        if ltb 1 topo.nr_nodes
        then refused many_nodes
        else if not opens
        then refused not_opened
        else if ltb max_llcs (length topo.all_llcs)
        then refused many_llcs
        else if ltb max_cpus (count_cpus topo.all_cpus)
        then refused many_cpus
        else attach topo (write_llcs topo.all_cpus [])

    unfoldable pub init : Option Topology → Start F64 Glob
    init topology = if is_root then check topology else refused not_root
