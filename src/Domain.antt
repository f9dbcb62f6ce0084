-- ===== src/Domain.antt =====
-- scx_cohort/src/domain.rs: the plain values that the planners read and return.
use scx_cohort.Base.{ℕ, Bool, Option}
use Prim.Native.String.{String}

pub record LlcLoad : Type 0 where
  pub llc : ℕ
  pub load_ns : ℕ
  pub capacity_ns : ℕ

pub record CohortSnapshot : Type 0 where
  pub id : ℕ
  pub home_llc : ℕ
  pub pinned : Bool
  pub nr_tasks : ℕ
  pub load_ns : ℕ
  pub residency_ms : Option ℕ

pub record TaskSnapshot : Type 0 where
  pub pid : ℕ
  pub tgid : ℕ
  pub cohort_id : ℕ
  pub duty_ns : ℕ
  pub home_ns : ℕ
  pub comm : String

pub data Decision : Type 0 where
  move_cohort : ℕ → ℕ → Decision
