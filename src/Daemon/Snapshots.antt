-- ===== src/Daemon/Snapshots.antt =====
-- scx_cohort/src/main.rs: the snapshots of the wake edges, of the cohorts of processes and of the tasks.
-- What the kernel gives for a batch of a map is an argument, `none` where the call fails.
pub mod Duty
mod Tests
use Prim.Native.String.{String}
use scx_cohort.Base.Map.{Map, lookup_or, insert, from_list}
use scx_cohort.Base.{
  ℕ, ◌-◌, Bool, true, false, Option, none, some, List, [], ◌∷◌, ltb, nat_beq, nat_key,
  if◌then◌else◌, ◌>>=◌,
}
use scx_cohort.Common.{WakeEdgeKey, TaskStat}
use scx_cohort.Daemon.{Value, sized, misfit}
use scx_cohort.Domain.{TaskSnapshot}

-- The loop of `snapshot_edges`: a key of another size is passed over, a count of another size an error.
unfoldable pub read_edges : List (Value WakeEdgeKey × Value ℕ) → Option (List (ℕ × ℕ × ℕ))
read_edges [] = some []
read_edges ((misfit, val) ∷ batch) = read_edges batch
read_edges ((sized edge, misfit) ∷ batch) = none
read_edges ((sized edge, sized count) ∷ batch) = do
  deltas ← read_edges batch
  some (if ltb 0 count then (edge.waker_tgid, edge.wakee_tgid, count) ∷ deltas else deltas)

unfoldable pub snapshot_edges :
    Option (List (Value WakeEdgeKey × Value ℕ)) → Option (List (ℕ × ℕ × ℕ))
snapshot_edges drained = do batch ← drained; read_edges batch

-- The keys and the values have the sizes of the map.
unfoldable pub snapshot_tgid_cohort : Option (List (ℕ × ℕ)) → Option (Map ℕ ℕ)
snapshot_tgid_cohort batch = do entries ← batch; some (from_list entries [])

-- `comm[..comm_len]`: the bytes before the first zero.
unfoldable pub until_nul : List ℕ → List ℕ
until_nul [] = []
until_nul (b ∷ bytes) = if nat_beq b 0 then [] else b ∷ until_nul bytes

-- How `String::from_utf8_lossy` reads bytes is an argument.
module _ (from_utf8_lossy : List ℕ → String) where
  -- What is pushed for a task.
  unfoldable pub task_of : Map ℕ (ℕ × ℕ) → ℕ → TaskStat → TaskSnapshot
  task_of prev_runtime pid ts =
      let prev = lookup_or (ts.runtime_sum, ts.runtime_home_sum) pid prev_runtime in
      record {
        pid = pid;
        tgid = ts.tgid;
        cohort_id = ts.cohort_id;
        duty_ns = ts.runtime_sum - prev.0;
        home_ns = ts.runtime_home_sum - prev.1;
        comm = from_utf8_lossy (until_nul ts.comm);
      }

  -- The loop of `snapshot_tasks`, with `out` and `seen`; a value of another size is passed over.
  unfoldable pub read_tasks :
      Map ℕ (ℕ × ℕ) → List (ℕ × Value TaskStat) → Map ℕ (ℕ × ℕ) → Map ℕ (ℕ × ℕ) × List TaskSnapshot
  read_tasks prev_runtime [] seen = (seen, [])
  read_tasks prev_runtime ((pid, misfit) ∷ batch) seen = read_tasks prev_runtime batch seen
  read_tasks prev_runtime ((pid, sized ts) ∷ batch) seen =
      let rest =
        read_tasks prev_runtime batch (insert pid (ts.runtime_sum, ts.runtime_home_sum) seen) in
      (rest.0, task_of prev_runtime pid ts ∷ rest.1)

  -- The new `prev_runtime`, and the tasks.
  unfoldable pub snapshot_tasks :
      Map ℕ (ℕ × ℕ)
      → Option (List (ℕ × Value TaskStat))
      → Map ℕ (ℕ × ℕ) × Option (List TaskSnapshot)
  snapshot_tasks prev_runtime none = (prev_runtime, none)
  snapshot_tasks prev_runtime (some batch) =
      let read = read_tasks prev_runtime batch [] in (read.0, some read.1)
