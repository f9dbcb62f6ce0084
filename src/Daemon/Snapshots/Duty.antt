-- ===== src/Daemon/Snapshots/Duty.antt =====
-- scx_cohort/src/main.rs, `snapshot_tasks`: the duty of the tasks over two snapshots.
use Prim.Native.String.{String}
use scx_cohort.Base.Map.Laws.{lookup-insert, lookup_or-lookup}
use scx_cohort.Base.Map.{Map, lookup, insert, IsMap}
use scx_cohort.Base.{
  ℕ, ◌-◌, ◌≡◌, refl, ◌∙◌, ap, inl, inr, Option, none, some, List, [], ◌∷◌, arith, nat_beq,
  nat_beq_iff, nat_key, if◌then◌else◌, Bool-cases, Option-cases,
}
use scx_cohort.Common.{TaskStat}
use scx_cohort.Daemon.Snapshots.{until_nul, task_of, read_tasks, snapshot_tasks}
use scx_cohort.Daemon.{Value, sized, misfit}
use scx_cohort.Domain.{TaskSnapshot}

-- What a batch says of a task's runtimes.
unfoldable pub runtimes : Option (Value TaskStat) → Option (ℕ × ℕ)
runtimes none = none
runtimes (some misfit) = none
runtimes (some (sized ts)) = some (ts.runtime_sum, ts.runtime_home_sum)

-- How far a counter has grown; a task that is new has not run.
unfoldable pub grown : ℕ → Option ℕ → ℕ
grown now none = 0
grown now (some before) = now - before

unfoldable pub first_of : Option (ℕ × ℕ) → Option ℕ
first_of none = none
first_of (some p) = some p.0

unfoldable pub second_of : Option (ℕ × ℕ) → Option ℕ
second_of none = none
second_of (some p) = some p.1

-- The second of two, or else the first.
or_else : Option (ℕ × ℕ) → Option (ℕ × ℕ) → Option (ℕ × ℕ)
or_else o none = o
or_else o (some p) = some p

none-or_else : (o : Option (ℕ × ℕ)) → or_else none o ≡ o
unfolding or_else
none-or_else none = refl
none-or_else (some p) = refl

module _ (from_utf8_lossy : List ℕ → String) where
  -- A task, by what an earlier batch says of it.
  unfoldable pub task_since : List (ℕ × Value TaskStat) → ℕ → TaskStat → TaskSnapshot
  task_since earlier pid ts = record {
    pid = pid;
    tgid = ts.tgid;
    cohort_id = ts.cohort_id;
    duty_ns = grown ts.runtime_sum (first_of (runtimes (lookup pid earlier)));
    home_ns = grown ts.runtime_home_sum (second_of (runtimes (lookup pid earlier)));
    comm = from_utf8_lossy (until_nul ts.comm);
  }

  unfoldable pub tasks_since :
      List (ℕ × Value TaskStat) → List (ℕ × Value TaskStat) → List TaskSnapshot
  tasks_since earlier [] = []
  tasks_since earlier ((pid, misfit) ∷ batch) = tasks_since earlier batch
  tasks_since earlier ((pid, sized ts) ∷ batch) =
      task_since earlier pid ts ∷ tasks_since earlier batch

  lookup-read_tasks :
      (prev : Map ℕ (ℕ × ℕ)) (batch : List (ℕ × Value TaskStat)) (seen : Map ℕ (ℕ × ℕ)) (pid : ℕ)
      → IsMap batch
      → lookup pid (read_tasks from_utf8_lossy prev batch seen).0
        ≡ or_else (lookup pid seen) (runtimes (lookup pid batch))
  unfolding read_tasks lookup runtimes or_else
  lookup-read_tasks prev [] seen pid k = refl
  lookup-read_tasks prev ((p, misfit) ∷ batch) seen pid k =
      let ih = lookup-read_tasks prev batch seen pid k.1 in
      elim (Bool-cases (nat_beq pid p)) [
        | inl here ↦
            let gone : lookup pid batch ≡ none =
              ap (λ z. lookup z batch) ((nat_beq_iff pid p).0 here) ∙ k.0 in
            rw (here, if◌then◌else◌) (ih ∙ ap (λ o. or_else (lookup pid seen) (runtimes o)) gone)
        | inr there ↦ rw (there, if◌then◌else◌) ih
      ]
  lookup-read_tasks prev ((p, sized ts) ∷ batch) seen pid k =
      let now : ℕ × ℕ = (ts.runtime_sum, ts.runtime_home_sum) in
      let ih = lookup-read_tasks prev batch (insert p now seen) pid k.1 in
      let inserted = lookup-insert p pid now seen in
      elim (Bool-cases (nat_beq pid p)) [
        | inl here ↦
            let gone : lookup pid batch ≡ none =
              ap (λ z. lookup z batch) ((nat_beq_iff pid p).0 here) ∙ k.0 in
            rw (here, if◌then◌else◌)
              (ih
                ∙ ap (λ o. or_else (lookup pid (insert p now seen)) (runtimes o)) gone
                ∙ inserted
                ∙ rw (here, if◌then◌else◌) refl)
        | inr there ↦
            rw (there, if◌then◌else◌)
              (ih
                ∙ ap (λ o. or_else o (runtimes (lookup pid batch)))
                    (inserted ∙ rw (there, if◌then◌else◌) refl))
      ]

  task_of-since :
      (prev : Map ℕ (ℕ × ℕ)) (earlier : List (ℕ × Value TaskStat)) (pid : ℕ) (ts : TaskStat)
      → lookup pid prev ≡ runtimes (lookup pid earlier)
      → task_of from_utf8_lossy prev pid ts ≡ task_since earlier pid ts
  unfolding task_of task_since grown first_of second_of
  task_of-since prev earlier pid ts h =
      let found = lookup_or-lookup (ts.runtime_sum, ts.runtime_home_sum) pid prev in
      elim (Option-cases (runtimes (lookup pid earlier))) [
        | inl new ↦ rw (found, h ∙ new, new) (ground arith)
        | inr (p, old) ↦ rw (found, h ∙ old, old) refl
      ]

  read_tasks-since :
      (prev : Map ℕ (ℕ × ℕ)) (earlier batch : List (ℕ × Value TaskStat)) (seen : Map ℕ (ℕ × ℕ))
      → ((pid : ℕ) → lookup pid prev ≡ runtimes (lookup pid earlier))
      → (read_tasks from_utf8_lossy prev batch seen).1 ≡ tasks_since earlier batch
  unfolding read_tasks tasks_since
  read_tasks-since prev earlier [] seen h = refl
  read_tasks-since prev earlier ((p, misfit) ∷ batch) seen h =
      read_tasks-since prev earlier batch seen h
  read_tasks-since prev earlier ((p, sized ts) ∷ batch) seen h =
      let seen' = insert p (ts.runtime_sum, ts.runtime_home_sum) seen in
      rw (task_of-since prev earlier p ts (h p))
        (ap (λ l. task_since earlier p ts ∷ l) (read_tasks-since prev earlier batch seen' h))

-- Of two snapshots in a row, the first of a batch with one entry for each task, the second lists the
-- tasks of its batch whose value has the right size, in their order, each with the growth of its two
-- runtimes since the first, with nothing where a counter has fallen or the first had no such task.
pub snapshot_tasks_since :
    (from_utf8_lossy : List ℕ → String) (prev : Map ℕ (ℕ × ℕ))
    (earlier batch : List (ℕ × Value TaskStat))
    → IsMap earlier
    → (snapshot_tasks from_utf8_lossy
        (snapshot_tasks from_utf8_lossy prev (some earlier)).0
        (some batch)).1
      ≡ some (tasks_since from_utf8_lossy earlier batch)
unfolding snapshot_tasks lookup
snapshot_tasks_since from_utf8_lossy prev earlier batch k = ap some (
    read_tasks-since from_utf8_lossy (read_tasks from_utf8_lossy prev earlier []).0 earlier batch []
      (λ pid.
        lookup-read_tasks from_utf8_lossy prev earlier [] pid k
        ∙ none-or_else (runtimes (lookup pid earlier))))
