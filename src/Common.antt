-- ===== src/Common.antt =====
-- scx_cohort_common/src/lib.rs: the values and constants that the daemon shares with the BPF side, as
-- far as the daemon uses them. Padding has no field here.
use scx_cohort.Base.{ℕ, List}

abbrev pub max_cpus : ℕ
max_cpus = 512

abbrev pub max_llcs : ℕ
max_llcs = 8

-- The slots of the placement statistics.
abbrev pub stat_sync_local : ℕ
stat_sync_local = 0

abbrev pub stat_prev_idle : ℕ
stat_prev_idle = 1

abbrev pub stat_idle_core : ℕ
stat_idle_core = 2

abbrev pub stat_idle_smt : ℕ
stat_idle_smt = 3

abbrev pub stat_home_miss_clamp : ℕ
stat_home_miss_clamp = 4

abbrev pub stat_enq_home : ℕ
stat_enq_home = 5

abbrev pub stat_enq_spill : ℕ
stat_enq_spill = 6

abbrev pub stat_steal : ℕ
stat_steal = 7

abbrev pub stat_tctx_err : ℕ
stat_tctx_err = 8

abbrev pub nr_stats : ℕ
nr_stats = 9

pub record WakeEdgeKey : Type 0 where
  pub waker_tgid : ℕ
  pub wakee_tgid : ℕ

-- `comm` is 16 bytes.
pub record TaskStat : Type 0 where
  pub tgid : ℕ
  pub cohort_id : ℕ
  pub runtime_sum : ℕ
  pub runtime_home_sum : ℕ
  pub comm : List ℕ

pub record Tunables : Type 0 where
  pub steal_min : ℕ
  pub steal_delay_ns : ℕ
  pub credit_max_ns : ℕ
  pub credit_wake_freq_min : ℕ
  pub credit_runtime_max_ns : ℕ
  pub sample_shift : ℕ

abbrev pub default_tunables : Tunables
default_tunables = record {
  steal_min = 2;
  steal_delay_ns = 500000;
  credit_max_ns = 4000000;
  credit_wake_freq_min = 50;
  credit_runtime_max_ns = 2000000;
  sample_shift = 3;
}
