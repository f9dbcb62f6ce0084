-- ===== src/Base/Floats.antt =====
-- f64 as an interface: the operations and the comparisons that the program uses. No law is assumed.
use Prim.Native.Nat.{ℕ, ◌+◌, ◌-◌, ◌*◌, ◌/◌}
use mathlib.Core.Bool.{Bool}
use scx_cohort.Base.Tests.{ltb, leb}

pub record Floats : Type 1 where
  pub F64 : Type 0
  -- A conversion by `as f64`, and the literals that are whole numbers.
  pub of_nat : ℕ → F64
  pub add : F64 → F64 → F64
  pub sub : F64 → F64 → F64
  pub mul : F64 → F64 → F64
  pub div : F64 → F64 → F64
  pub lt : F64 → F64 → Bool
  pub le : F64 → F64 → Bool

-- Numbers in thousandths, for concrete runs.
abbrev pub milli : Floats
milli = record {
  F64 = ℕ;
  of_nat = λ n. n * 1000;
  add = λ a b. a + b;
  sub = λ a b. a - b;
  mul = λ a b. a * b / 1000;
  div = λ a b. a * 1000 / b;
  lt = λ a b. ltb a b;
  le = λ a b. leb a b;
}
