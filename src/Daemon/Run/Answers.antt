-- ===== src/Daemon/Run/Answers.antt =====
-- scx_cohort/src/main.rs, `run`: the answers that the clients get.
use Prim.Native.String.{String}
use scx_cohort.Base.Floats.{Floats}
use scx_cohort.Base.Map.{Map}
use scx_cohort.Base.{ℕ, ◌≡◌, true, Option, some, List, All, nat_key}
use scx_cohort.Daemon.Metrics.{Tallies, get_metrics}
use scx_cohort.Daemon.Run.{Answer, metrics, procs, RunState, Progress}
use scx_cohort.Daemon.Tick.View.{Agree}
use scx_cohort.Daemon.World.{World}
use scx_cohort.Daemon.{Value}
use scx_cohort.Domain.{LlcLoad, CohortSnapshot, TaskSnapshot}
use scx_cohort.Stats.{procs_snapshot}

-- What an answer is made from: for the processes, cohorts that agree with the tasks that are shown
-- beside them.
pub data IsSound (f : Floats) (tick_ns : ℕ) : Answer f.F64 → Type 0 where
  of_counts :
      (s : Tallies) (lookups : ℕ → Option (Option (List (Value ℕ)))) (cohorts : List CohortSnapshot)
      (llcs : List LlcLoad)
      → IsSound f tick_ns (metrics (get_metrics f s lookups cohorts llcs))
  of_tasks :
      (cohorts : List CohortSnapshot) (tasks : List TaskSnapshot) (llcs : List LlcLoad)
      (spills : Map ℕ ℕ)
      → Agree cohorts tasks
      → IsSound f tick_ns (procs (procs_snapshot f cohorts tasks llcs spills tick_ns))

-- The view agrees with the tasks of the last tick.
abbrev IsCoherent : (f : Floats) → RunState f.F64 → Type 0
IsCoherent f s = Agree s.cohorts s.scheduler.last_tasks

-- A stretch of the loop does not panic, and its answers are sound; the view is coherent where the loop
-- goes on.
abbrev pub Goes : (f : Floats) → ℕ → Option (Progress f.F64) → Type 0
Goes f tick_ns r =
    (p : Progress f.F64) × (r ≡ some p)
    × All (IsSound f tick_ns) p.answers
    × (p.fine ≡ true → IsCoherent f p.state)
