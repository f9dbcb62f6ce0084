-- ===== src/Daemon/Run.antt =====
-- scx_cohort/src/main.rs, `run`: the loop that answers the clients and ticks. Each turn of the loop is
-- what the wait for a request ends with; the list of the turns ends where the loop's condition fails.
pub mod Answers
mod Tests
use Prim.Native.String.{String}
use scx_cohort.Base.Floats.{Floats}
use scx_cohort.Base.{ℕ, Bool, true, false, Option, none, some, List, [], ◌∷◌, ◌++◌, if◌then◌else◌}
use scx_cohort.Config.{Globs}
use scx_cohort.Daemon.Metrics.{get_metrics}
use scx_cohort.Daemon.Tick.{tick}
use scx_cohort.Daemon.World.{Setup, Scheduler, World}
use scx_cohort.Daemon.{Value}
use scx_cohort.Domain.{LlcLoad, CohortSnapshot}
use scx_cohort.Stats.{Metrics, ProcsSnapshot, procs_snapshot}

-- How a wait ends: a request, whose answer is taken or not, the timeout, or a channel that is gone.
pub data Turn : Type 0 where
  asked_metrics : (ℕ → Option (Option (List (Value ℕ)))) → Bool → Turn
  asked_procs : Bool → Turn
  timed_out : World → Turn
  disconnected : Turn

pub data Answer (F64 : Type 0) : Type 0 where
  metrics : Metrics F64 → Answer F64
  procs : ProcsSnapshot F64 → Answer F64

-- The scheduler, and `last_view`.
pub record RunState (F64 : Type 0) : Type 0 where
  pub scheduler : Scheduler F64
  pub cohorts : List CohortSnapshot
  pub llcs : List LlcLoad

-- What a stretch of the loop comes to: the state after, the answers, and whether it goes on.
pub record Progress (F64 : Type 0) : Type 0 where
  pub state : RunState F64
  pub answers : List (Answer F64)
  pub fine : Bool

module _ (f : Floats) (globs : Globs) (from_utf8_lossy : List ℕ → String)
    (order : ℕ → List (List (ℕ × ℕ)) → List (List (ℕ × ℕ))) (c : Setup f.F64 globs.Glob) where
  open f use {F64}

  -- An answer that is not taken ends the loop.
  unfoldable pub answer_with : RunState F64 → Answer F64 → Bool → Progress F64
  answer_with s a taken = record { state = s; answers = if taken then a ∷ [] else []; fine = taken }

  -- From the outcome of a tick on.
  unfoldable pub after_tick :
      RunState F64
      → Option (Scheduler F64 × Option (List CohortSnapshot × List LlcLoad))
      → Option (Progress F64)
  after_tick s none = none
  after_tick s (some (next, none)) =
      some (record { state = record s { scheduler = next }; answers = []; fine = false })
  after_tick s (some (next, some (cohorts, llcs))) = some (record {
    state = record { scheduler = next; cohorts = cohorts; llcs = llcs };
    answers = [];
    fine = true;
  })

  unfoldable pub turn : Turn → RunState F64 → Option (Progress F64)
  turn (asked_metrics lookups taken) s = some (
      answer_with s
        (metrics (
          get_metrics f
            (record {
              nr_migrations = s.scheduler.nr_migrations;
              nr_merges = s.scheduler.nr_merges;
              nr_splits = s.scheduler.nr_splits;
              current_spills = s.scheduler.current_spills;
            })
            lookups s.cohorts s.llcs))
        taken)
  turn (asked_procs taken) s = some (
      answer_with s
        (procs (
          procs_snapshot f s.cohorts s.scheduler.last_tasks s.llcs s.scheduler.current_spills
            c.tick_ns))
        taken)
  turn (timed_out world) s = after_tick s (tick f globs from_utf8_lossy order c world s.scheduler)
  turn disconnected s = some (record { state = s; answers = []; fine = false })

  -- The answers so far, before those of the rest.
  unfoldable pub answers_first : List (Answer F64) → Option (Progress F64) → Option (Progress F64)
  answers_first answers none = none
  answers_first answers (some q) = some (record q { answers = answers ++ q.answers })

  -- The rest of the loop, where it goes on.
  unfoldable pub go_on :
      (RunState F64 → Option (Progress F64)) → Progress F64 → Bool → Option (Progress F64)
  go_on rest p false = some p
  go_on rest p true = answers_first p.answers (rest p.state)

  -- From a turn on; `none` is a panic.
  unfoldable pub run_on :
      (RunState F64 → Option (Progress F64)) → Option (Progress F64) → Option (Progress F64)
  run_on rest none = none
  run_on rest (some p) = go_on rest p p.fine

  unfoldable pub run_from : List Turn → RunState F64 → Option (Progress F64)
  run_from [] s = some (record { state = s; answers = []; fine = true })
  run_from (t ∷ turns) s = run_on (run_from turns) (turn t s)

  -- The loop starts with an empty view.
  unfoldable pub run : List Turn → Scheduler F64 → Option (Progress F64)
  run turns s = run_from turns (record { scheduler = s; cohorts = []; llcs = [] })
