-- ===== src/Stats/Rows.antt =====
-- scx_cohort/src/stats.rs, `procs_snapshot`: the rows of cohorts and of their processes.
use scx_cohort.Base.Floats.{Floats}
use scx_cohort.Base.Map.Laws.{lookup-insert, lookup_or-lookup}
use scx_cohort.Base.Map.{Map, lookup, lookup_or, insert, contains_key}
use scx_cohort.Base.Words.{u64_mod, add64}
use scx_cohort.Base.{
  ℕ, ◌+◌, ◌%◌, ◌<◌, ◌≡◌, refl, sym, ap, ◌∙◌, inl, inr, true, false, ◌&&◌, none, some, List, [], ◌∷◌,
  arith, nat_beq, nat_key, if◌then◌else◌, Bool-cases, length, keep, any, In,
}
use scx_cohort.Domain.{LlcLoad, CohortSnapshot, TaskSnapshot}
use scx_cohort.Stats.{
  ProcRow, CohortRow, as_u64, tick_ns_of, new_row, add_thread, add_threads, finish_row, finish_rows,
  members_of, cohort_row, cohort_rows, procs_snapshot,
}

module _ (f : Floats) where
  open f use {F64}

  -- The counts of a process in the rows; a process without a row has none.
  abbrev pub threads_in : ℕ → Map ℕ (ProcRow F64) → ℕ
  threads_in g procs = elim (lookup g procs) [ none ↦ 0 | some row ↦ row.threads ]

  abbrev pub spilled_in : ℕ → Map ℕ (ProcRow F64) → ℕ
  spilled_in g procs = elim (lookup g procs) [ none ↦ 0 | some row ↦ row.spilled ]

  -- The threads of a process among tasks, and those of them that are spilled.
  abbrev pub threads_of : ℕ → List TaskSnapshot → List TaskSnapshot
  threads_of g tasks = keep (λ t. nat_beq g t.tgid) tasks

  abbrev pub spilled_of : Map ℕ ℕ → ℕ → List TaskSnapshot → List TaskSnapshot
  spilled_of spills g tasks = keep (λ t. nat_beq g t.tgid && contains_key t.pid spills) tasks

  threads_in-insert :
      (k : ℕ) (row : ProcRow F64) (procs : Map ℕ (ProcRow F64)) (g : ℕ)
      → threads_in g (insert k row procs)
        ≡ (if nat_beq g k then row.threads else threads_in g procs)
  threads_in-insert k row procs g = ground (arith, lookup-insert k g row procs)

  spilled_in-insert :
      (k : ℕ) (row : ProcRow F64) (procs : Map ℕ (ProcRow F64)) (g : ℕ)
      → spilled_in g (insert k row procs)
        ≡ (if nat_beq g k then row.spilled else spilled_in g procs)
  spilled_in-insert k row procs g = ground (arith, lookup-insert k g row procs)

  module _ (tick_ns : ℕ) (spills : Map ℕ ℕ) where
    -- The row of a task's process, the task counted.
    abbrev grown : TaskSnapshot → Map ℕ (ProcRow F64) → ProcRow F64
    grown t procs = add_thread f tick_ns spills t (lookup_or (new_row f t) t.tgid procs)

    grown_threads :
        (t : TaskSnapshot) (procs : Map ℕ (ProcRow F64))
        → (grown t procs).threads ≡ add64 (threads_in t.tgid procs) 1
    unfolding add_thread new_row
    grown_threads t procs = ground (arith, lookup_or-lookup (new_row f t) t.tgid procs)

    grown_spilled :
        (t : TaskSnapshot) (procs : Map ℕ (ProcRow F64))
        → (grown t procs).spilled
          ≡ add64 (spilled_in t.tgid procs) (as_u64 (contains_key t.pid spills))
    unfolding add_thread new_row
    grown_spilled t procs = ground (arith, lookup_or-lookup (new_row f t) t.tgid procs)

    -- The loop counts the threads of each process.
    add_threads-threads :
        (tasks : List TaskSnapshot) (procs : Map ℕ (ProcRow F64)) (g : ℕ)
        → threads_in g procs < u64_mod
        → threads_in g (add_threads f tick_ns spills tasks procs)
          ≡ (threads_in g procs + length (threads_of g tasks)) % u64_mod
    unfolding add_threads
    add_threads-threads [] procs g h = omega arith
    add_threads-threads (t ∷ tasks) procs g h =
        let e = threads_in-insert t.tgid (grown t procs) procs g in
        let ih = add_threads-threads tasks (insert t.tgid (grown t procs) procs) g in
        elim (Bool-cases (nat_beq g t.tgid)) [
          | inl here ↦
              let at : g ≡ t.tgid = ground arith in
              let now : threads_in g (insert t.tgid (grown t procs) procs)
                  ≡ add64 (threads_in g procs) 1 =
                e
                ∙ rw (here, if◌then◌else◌)
                    (grown_threads t procs ∙ ap (λ z. add64 (threads_in z procs) 1) (sym at)) in
              rw (here, if◌then◌else◌) (omega (arith, ih (omega (arith, now)), now))
          | inr other ↦
              let now : threads_in g (insert t.tgid (grown t procs) procs) ≡ threads_in g procs =
                e ∙ rw (other, if◌then◌else◌) refl in
              rw (other, if◌then◌else◌) (omega (arith, ih (omega (arith, now)), now))
        ]

    -- The loop counts the spilled threads of each process.
    add_threads-spilled :
        (tasks : List TaskSnapshot) (procs : Map ℕ (ProcRow F64)) (g : ℕ)
        → spilled_in g procs < u64_mod
        → spilled_in g (add_threads f tick_ns spills tasks procs)
          ≡ (spilled_in g procs + length (spilled_of spills g tasks)) % u64_mod
    unfolding add_threads
    add_threads-spilled [] procs g h = omega arith
    add_threads-spilled (t ∷ tasks) procs g h =
        let e = spilled_in-insert t.tgid (grown t procs) procs g in
        let ih = add_threads-spilled tasks (insert t.tgid (grown t procs) procs) g in
        elim (Bool-cases (nat_beq g t.tgid)) [
          | inl here ↦
              let at : g ≡ t.tgid = ground arith in
              let now : spilled_in g (insert t.tgid (grown t procs) procs)
                  ≡ add64 (spilled_in g procs) (as_u64 (contains_key t.pid spills)) =
                e
                ∙ rw (here, if◌then◌else◌)
                    (grown_spilled t procs
                      ∙ ap (λ z. add64 (spilled_in z procs) (as_u64 (contains_key t.pid spills)))
                          (sym at)) in
              elim (Bool-cases (contains_key t.pid spills)) [
                | inl away ↦
                    let now' = rw away at now in
                    rw (here, away, if◌then◌else◌) (omega (arith, ih (omega (arith, now')), now'))
                | inr home ↦
                    let now' = rw home at now in
                    rw (here, home, if◌then◌else◌) (omega (arith, ih (omega (arith, now')), now'))
              ]
          | inr other ↦
              let now : spilled_in g (insert t.tgid (grown t procs) procs) ≡ spilled_in g procs =
                e ∙ rw (other, if◌then◌else◌) refl in
              rw (other, if◌then◌else◌) (omega (arith, ih (omega (arith, now)), now))
        ]

    -- The last pass changes no count.
    finish_rows-threads :
        (procs : Map ℕ (ProcRow F64)) (g : ℕ)
        → threads_in g (finish_rows f tick_ns procs) ≡ threads_in g procs
    unfolding finish_rows finish_row lookup
    finish_rows-threads [] g = refl
    finish_rows-threads ((k, row) ∷ procs) g = ground (arith, finish_rows-threads procs g)

    finish_rows-spilled :
        (procs : Map ℕ (ProcRow F64)) (g : ℕ)
        → spilled_in g (finish_rows f tick_ns procs) ≡ spilled_in g procs
    unfolding finish_rows finish_row lookup
    finish_rows-spilled [] g = refl
    finish_rows-spilled ((k, row) ∷ procs) g = ground (arith, finish_rows-spilled procs g)

  -- What the row of a cohort says.
  pub record Describes (spills : Map ℕ ℕ) (tasks : List TaskSnapshot) (c : CohortSnapshot)
      (row : CohortRow F64) : Type 0 where
    pub home : row.home_llc ≡ c.home_llc
    pub pinned : row.pinned ≡ as_u64 c.pinned
    pub counted : row.tasks ≡ length (members_of f c tasks) % u64_mod
    pub threads :
        (g : ℕ) → threads_in g row.procs ≡ length (threads_of g (members_of f c tasks)) % u64_mod
    pub spilled :
        (g : ℕ)
        → spilled_in g row.procs ≡ length (spilled_of spills g (members_of f c tasks)) % u64_mod

  cohort_row-Describes :
      (tick_ns : ℕ) (spills : Map ℕ ℕ) (tasks : List TaskSnapshot) (c : CohortSnapshot)
      → Describes spills tasks c (cohort_row f tick_ns spills tasks c)
  unfolding cohort_row lookup
  cohort_row-Describes tick_ns spills tasks c = record {
    home = refl;
    pinned = refl;
    counted = refl;
    threads = λ g.
        finish_rows-threads tick_ns spills (add_threads f tick_ns spills (members_of f c tasks) [])
          g
        ∙ add_threads-threads tick_ns spills (members_of f c tasks) [] g (omega arith)
        ∙ omega arith;
    spilled = λ g.
        finish_rows-spilled tick_ns spills (add_threads f tick_ns spills (members_of f c tasks) [])
          g
        ∙ add_threads-spilled tick_ns spills (members_of f c tasks) [] g (omega arith)
        ∙ omega arith;
  }

  -- No id twice.
  abbrev pub HasDistinctIds : List CohortSnapshot → Type 0
  HasDistinctIds [] = Unit
  HasDistinctIds (c ∷ cohorts) =
      (any (λ d. nat_beq c.id d.id) cohorts ≡ false) × HasDistinctIds cohorts

  any-In :
      (c : CohortSnapshot) (cohorts : List CohortSnapshot) (k : ℕ)
      → In c cohorts
      → k ≡ c.id
      → any (λ d. nat_beq k d.id) cohorts ≡ true
  any-In c [] k i e = absurd i
  any-In c (d ∷ cohorts) k (inl h) e = let e' : k ≡ d.id = e ∙ ap (λ z. z.id) h in ground arith
  any-In c (d ∷ cohorts) k (inr i) e = ground (arith, any-In c cohorts k i e)

  module _ (tick_ns : ℕ) (spills : Map ℕ ℕ) (tasks : List TaskSnapshot) where
    cohort_rows-other :
        (cohorts : List CohortSnapshot) (rows : Map ℕ (CohortRow F64)) (k : ℕ)
        → any (λ d. nat_beq k d.id) cohorts ≡ false
        → lookup k (cohort_rows f tick_ns spills tasks cohorts rows) ≡ lookup k rows
    unfolding cohort_rows
    cohort_rows-other [] rows k h = refl
    cohort_rows-other (d ∷ cohorts) rows k h =
        let other : nat_beq k d.id ≡ false = ground arith in
        let rest : any (λ e. nat_beq k e.id) cohorts ≡ false = ground arith in
        cohort_rows-other cohorts (insert d.id (cohort_row f tick_ns spills tasks d) rows) k rest
        ∙ lookup-insert d.id k (cohort_row f tick_ns spills tasks d) rows
        ∙ rw (other, if◌then◌else◌) refl

    cohort_rows-lookup :
        (cohorts : List CohortSnapshot) (rows : Map ℕ (CohortRow F64)) (c : CohortSnapshot)
        → HasDistinctIds cohorts
        → In c cohorts
        → lookup c.id (cohort_rows f tick_ns spills tasks cohorts rows)
          ≡ some (cohort_row f tick_ns spills tasks c)
    unfolding cohort_rows
    cohort_rows-lookup [] rows c h i = absurd i
    cohort_rows-lookup (d ∷ cohorts) rows c h (inl e) = rw e (
        cohort_rows-other cohorts (insert d.id (cohort_row f tick_ns spills tasks d) rows) d.id h.0
        ∙ lookup-insert d.id d.id (cohort_row f tick_ns spills tasks d) rows
        ∙ ground arith)
    cohort_rows-lookup (d ∷ cohorts) rows c h (inr i) =
        cohort_rows-lookup cohorts (insert d.id (cohort_row f tick_ns spills tasks d) rows) c h.1 i

  -- When no cohort id occurs twice, each cohort has a row in the snapshot, which has its home and its
  -- pin, counts its tasks, and counts for each process its threads in the cohort and those of them
  -- that are spilled, all modulo 2^64.
  pub procs_snapshot-Describes :
      (cohorts : List CohortSnapshot) (tasks : List TaskSnapshot) (llcs : List LlcLoad)
      (spills : Map ℕ ℕ) (tick_nanos : ℕ) (c : CohortSnapshot)
      → HasDistinctIds cohorts
      → In c cohorts
      → (row : CohortRow F64) × (lookup c.id
            (procs_snapshot f cohorts tasks llcs spills tick_nanos).cohorts
          ≡ some row)
        × Describes spills tasks c row
  unfolding procs_snapshot
  procs_snapshot-Describes cohorts tasks llcs spills tick_nanos c distinct i = (
    cohort_row f (tick_ns_of tick_nanos) spills tasks c,
    cohort_rows-lookup (tick_ns_of tick_nanos) spills tasks cohorts [] c distinct i,
    cohort_row-Describes (tick_ns_of tick_nanos) spills tasks c,
  )
