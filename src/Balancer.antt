-- ===== src/Balancer.antt =====
-- scx_cohort/src/balancer.rs, `Balancer`: which whole cohort, if any, changes home this tick.
-- u64 and i64 arithmetic wraps, as in a release build.
pub mod Extremes
pub mod Choice
pub mod Moves
pub mod History
mod Tests
use scx_cohort.Base.{
  ℕ, ◌-◌, ◌/◌, Bool, true, not, ◌&&◌, ◌||◌, Option, none, some, List, [], ◌∷◌, ltb, leb, nat_beq,
  if◌then◌else◌, nat_key, keep,
}
use scx_cohort.Base.Map.{Map, lookup, insert, retain}
use scx_cohort.Base.Words.{add32, sub64, mul64, unsigned_abs}
use scx_cohort.Domain.{LlcLoad, CohortSnapshot, Decision, move_cohort}

pub record BalancerCfg : Type 0 where
  pub imbalance_pct : ℕ
  pub confirm_ticks : ℕ
  pub residency_ms : ℕ

-- `BalancerCfg::default`.
abbrev pub default_cfg : BalancerCfg
default_cfg = record { imbalance_pct = 20; confirm_ticks = 2; residency_ms = 2000 }

pub record Balancer : Type 0 where
  pub cfg : BalancerCfg
  pub last_move_at : Map ℕ ℕ
  pub streak : ℕ

-- `Balancer::new`.
unfoldable pub new : BalancerCfg → Balancer
new cfg = record { cfg = cfg; last_move_at = []; streak = 0 }

unfoldable pub retain_cohorts : Balancer → (ℕ → Bool) → Balancer
retain_cohorts b live = record b { last_move_at = retain (λ id _. live id) b.last_move_at }

-- `Iterator::max_by_key` by the load: of equals the last.
unfoldable pub max_by_load : LlcLoad → List LlcLoad → LlcLoad
max_by_load best [] = best
max_by_load best (l ∷ ls) = max_by_load (if leb best.load_ns l.load_ns then l else best) ls

-- `Iterator::min_by_key` by the load: of equals the first.
unfoldable pub min_by_load : LlcLoad → List LlcLoad → LlcLoad
min_by_load best [] = best
min_by_load best (l ∷ ls) = min_by_load (if ltb l.load_ns best.load_ns then l else best) ls

-- `(gap as i64 - 2 * load as i64).unsigned_abs()`.
unfoldable pub gap_after : ℕ → ℕ → ℕ
gap_after gap load = unsigned_abs (sub64 gap (mul64 2 load))

-- `c.residency_ms.unwrap_or(cfg.residency_ms)`.
unfoldable pub residency_of : BalancerCfg → CohortSnapshot → ℕ
residency_of cfg c = elim c.residency_ms [ none ↦ cfg.residency_ms | some ms ↦ ms ]

-- The `is_none_or` on the cohort's last move; the subtraction saturates.
unfoldable pub residency_over : BalancerCfg → Map ℕ ℕ → ℕ → CohortSnapshot → Bool
residency_over cfg moved now c = elim (lookup c.id moved) [
  | none ↦ true
  | some at ↦ leb (residency_of cfg c) (now - at)
]

-- The first `filter` of `plan`.
unfoldable pub movable : BalancerCfg → Map ℕ ℕ → ℕ → LlcLoad → LlcLoad → CohortSnapshot → Bool
movable cfg moved now max min c =
    nat_beq c.home_llc max.llc
    && not c.pinned
    && ltb 0 c.nr_tasks
    && ltb 0 c.load_ns
    && leb c.load_ns min.capacity_ns
    && residency_over cfg moved now c

-- The second `filter` of `plan`.
unfoldable pub narrows : ℕ → CohortSnapshot → Bool
narrows gap c = ltb (gap_after gap c.load_ns) gap

-- The order of the keys `(gap after, load)`.
unfoldable pub key_lt : ℕ → CohortSnapshot → CohortSnapshot → Bool
key_lt gap c d =
    ltb (gap_after gap c.load_ns) (gap_after gap d.load_ns)
    || (nat_beq (gap_after gap c.load_ns) (gap_after gap d.load_ns) && ltb c.load_ns d.load_ns)

-- `min_by_key`: of equals the first.
unfoldable pub best_from : ℕ → CohortSnapshot → List CohortSnapshot → CohortSnapshot
best_from gap best [] = best
best_from gap best (c ∷ cs) = best_from gap (if key_lt gap c best then c else best) cs

unfoldable pub min_by_key : ℕ → List CohortSnapshot → Option CohortSnapshot
min_by_key gap [] = none
min_by_key gap (c ∷ cs) = some (best_from gap c cs)

unfoldable pub candidates :
    BalancerCfg → Map ℕ ℕ → ℕ → LlcLoad → LlcLoad → List CohortSnapshot → List CohortSnapshot
candidates cfg moved now max min cohorts =
    keep (narrows (max.load_ns - min.load_ns)) (keep (movable cfg moved now max min) cohorts)

-- The `match best` of `plan`.
unfoldable pub conclude : Balancer → ℕ → ℕ → Option CohortSnapshot → Balancer × List Decision
conclude b now target none = (b, [])
conclude b now target (some c) = (
  record b { last_move_at = insert c.id now b.last_move_at; streak = 0 },
  move_cohort c.id target ∷ [],
)

-- `plan` from the streak's increment on.
unfoldable pub decide :
    Balancer → ℕ → LlcLoad → LlcLoad → List CohortSnapshot → Balancer × List Decision
decide b now max min cohorts =
    if ltb b.streak b.cfg.confirm_ticks
    then (b, [])
    else conclude b now min.llc (
        min_by_key (max.load_ns - min.load_ns)
          (candidates b.cfg b.last_move_at now max min cohorts))

-- `min.capacity_ns * imbalance_pct / 100`.
unfoldable pub threshold : BalancerCfg → LlcLoad → ℕ
threshold cfg min = mul64 min.capacity_ns cfg.imbalance_pct / 100

-- `plan` once the extremes are known.
unfoldable pub plan_between :
    Balancer → ℕ → LlcLoad → LlcLoad → List CohortSnapshot → Balancer × List Decision
plan_between b now max min cohorts =
    if leb (max.load_ns - min.load_ns) (threshold b.cfg min)
    then (record b { streak = 0 }, [])
    else decide (record b { streak = add32 b.streak 1 }) now max min cohorts

unfoldable pub plan : Balancer → ℕ → List LlcLoad → List CohortSnapshot → Balancer × List Decision
plan b now [] cohorts = (b, [])
plan b now (l ∷ []) cohorts = (b, [])
plan b now (l ∷ m ∷ ls) cohorts =
    plan_between b now (max_by_load l (m ∷ ls)) (min_by_load l (m ∷ ls)) cohorts
