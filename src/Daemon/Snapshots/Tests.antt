-- ===== src/Daemon/Snapshots/Tests.antt =====
-- Runs of the snapshots, and the theorem on two of them at concrete inputs.
use Prim.Native.String.{String}
use scx_cohort.Base.Map.{lookup, lookup_or, insert}
use scx_cohort.Base.{ℕ, ◌≡◌, refl, some, List, [], ◌∷◌, nat_key}
use scx_cohort.Common.{TaskStat}
use scx_cohort.Daemon.Snapshots.Duty.{
  runtimes, grown, first_of, second_of, task_since, tasks_since, snapshot_tasks_since,
}
use scx_cohort.Daemon.Snapshots.{
  read_edges, snapshot_edges, until_nul, task_of, read_tasks, snapshot_tasks,
}
use scx_cohort.Daemon.{Value, sized, misfit}

program : Unit {0}
unfolding lookup lookup_or insert read_edges snapshot_edges until_nul task_of read_tasks
    snapshot_tasks runtimes grown first_of second_of task_since tasks_since
program = tt

-- A key of another size is passed over, and so is a count of zero.
some_edges :
    snapshot_edges (
      some (
        (misfit, misfit)
        ∷ (sized (record { waker_tgid = 1; wakee_tgid = 2 }), sized 0)
        ∷ (sized (record { waker_tgid = 3; wakee_tgid = 4 }), sized 5)
        ∷ []))
    ≡ some ((3, 4, 5) ∷ [])
unfolding program
some_edges = refl

-- A stand-in for the reading of bytes as text.
abbrev as_text : List ℕ → String
as_text bytes = ""

abbrev stat : ℕ → ℕ → Value TaskStat
stat total home = sized (record {
  tgid = 1;
  cohort_id = 1;
  runtime_sum = total;
  runtime_home_sum = home;
  comm = 97 ∷ 0 ∷ [];
})

abbrev first_batch : List (ℕ × Value TaskStat)
first_batch = (5, stat 100 50) ∷ (6, misfit) ∷ []

abbrev second_batch : List (ℕ × Value TaskStat)
second_batch = (5, stat 130 60) ∷ (6, stat 7 7) ∷ []

snapshot_tasks_since_example :
    (snapshot_tasks as_text (snapshot_tasks as_text [] (some first_batch)).0 (some second_batch)).1
    ≡ some (
        record { pid = 5; tgid = 1; cohort_id = 1; duty_ns = 30; home_ns = 10; comm = "" }
        ∷ record { pid = 6; tgid = 1; cohort_id = 1; duty_ns = 0; home_ns = 0; comm = "" }
        ∷ [])
unfolding program
snapshot_tasks_since_example =
    snapshot_tasks_since as_text [] first_batch second_batch (refl, (refl, tt))
