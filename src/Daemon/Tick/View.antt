-- ===== src/Daemon/Tick/View.antt =====
-- scx_cohort/src/main.rs, `tick`: what the view that it returns has to do with the tasks that it keeps.
use Prim.Native.String.{String}
use scx_cohort.Base.Floats.{Floats}
use scx_cohort.Base.Map.{Map, lookup_or, values}
use scx_cohort.Base.Words.{u64_mod}
use scx_cohort.Base.{
  ℕ, ◌%◌, ◌≡◌, refl, ◌∙◌, sym, ap, subst, Option, none, some, List, [], arith, nat_key, length, In,
}
use scx_cohort.Config.{Globs}
use scx_cohort.Daemon.Collect.{tasks_of, count_tasks-tasks_of}
use scx_cohort.Daemon.Scanned.{scan_counters_out}
use scx_cohort.Daemon.Tick.{
  tasks_part, tgids_part, rules_part, cohorts_part, with_cohorts, gc_part, llcs_part, plan_part,
  moves_part, spills_part, relations_part, keep_tasks, from_spills, from_plan, from_cohorts,
  from_tgids, tick,
}
use scx_cohort.Daemon.World.{Setup, Scheduler, World, Part, ◌>>=◌, ◌>>◌, give, unless}
use scx_cohort.Daemon.{
  CohortPolicy, CohortCounters, Value, CohortState, snapshot_of, count_tasks, read_policies,
  is_gc_safe, nothing_yet, scan_of, snapshot_cohorts,
}
use scx_cohort.Domain.{LlcLoad, CohortSnapshot, TaskSnapshot}

-- Each cohort has as many tasks as the list of tasks has of it.
abbrev pub Agree : List CohortSnapshot → List TaskSnapshot → Type 0
Agree cohorts tasks =
    (c : CohortSnapshot) → In c cohorts → c.nr_tasks ≡ length (tasks_of c.id tasks) % u64_mod

-- One part after another gives what the second gives from where the first has come to.
pub bind_inv :
    {S A B : Type 0} (part : Part S A) (next : A → Part S B) (s s' : S) (b : B)
    → (part >>= next) s ≡ some (s', some b)
    → (a : A) × (t : S) × (part s ≡ some (t, some a)) × (next a t ≡ some (s', some b))
bind_inv {S} {A} part next s s' b h = by_result (part s) refl
  where
    by_result :
        (r : Option (S × Option A))
        → part s ≡ r
        → (a : A) × (t : S) × (part s ≡ some (t, some a)) × (next a t ≡ some (s', some b))
    by_result none e = absurd (cc (rw (e, ◌>>=◌) at h))
    by_result (some (t, none)) e = absurd (cc (rw (e, ◌>>=◌) at h))
    by_result (some (t, some a)) e = (a, t, e, rw (e, ◌>>=◌) at h)

same_result :
    {S A : Type 0} {s t : S} {a b : A}
    → ◌≡◌ {A = Option (S × Option A)} (some (s, some a)) (some (t, some b))
    → (s ≡ t) × (a ≡ b)
same_result h = (cc h, cc h)

snapshot_cohorts-Agree :
    (s kept : CohortState) (tasks : List TaskSnapshot) (tgid_cohort : Map ℕ ℕ)
    (policies : Option (List (ℕ × Value CohortPolicy)))
    (counters : Option (List (ℕ × Value CohortCounters))) (cohorts : List CohortSnapshot)
    (dead : List ℕ)
    → snapshot_cohorts s tasks tgid_cohort policies counters ≡ some (kept, cohorts, dead)
    → Agree cohorts tasks
unfolding snapshot_cohorts scan_of snapshot_of lookup_or
snapshot_cohorts-Agree s kept tasks tgid_cohort none counters cohorts dead h = absurd (cc h)
snapshot_cohorts-Agree s kept tasks tgid_cohort (some policies) none cohorts dead h = absurd (cc h)
snapshot_cohorts-Agree s kept tasks tgid_cohort (some policies) (some counters) cohorts dead h =
    let scan = scan_of s tasks tgid_cohort policies counters in
    let out : scan.out ≡ cohorts = cc h in
    λ c m.
      scan_counters_out s (count_tasks tasks []) (values tgid_cohort) (is_gc_safe tasks)
        (read_policies policies []) (λ c. c.nr_tasks ≡ length (tasks_of c.id tasks) % u64_mod)
        (λ id val. count_tasks-tasks_of tasks [] id (omega arith) ∙ omega arith) counters
        nothing_yet (λ e n. absurd n) c (subst (In c) (sym out) m)

module _ (f : Floats) (globs : Globs) (from_utf8_lossy : List ℕ → String)
    (order : ℕ → List (List (ℕ × ℕ)) → List (List (ℕ × ℕ))) (c : Setup f.F64 globs.Glob)
    (w : World) where
  with_cohorts_inv :
      (s s' : Scheduler f.F64) (cohorts : List CohortSnapshot)
      (o : Option (CohortState × List CohortSnapshot × List ℕ))
      → with_cohorts f globs from_utf8_lossy order c w s o ≡ (s', some cohorts)
      → (kept : CohortState) × (dead : List ℕ) × (o ≡ some (kept, cohorts, dead))
  unfolding with_cohorts
  with_cohorts_inv s s' cohorts none h = absurd (cc h)
  with_cohorts_inv s s' cohorts (some (kept, found, dead)) h =
      let same : found ≡ cohorts = cc h in (kept, dead, ap (λ l. some (kept, l, dead)) same)

  cohorts_part-Agree :
      (tasks : List TaskSnapshot) (tgid_cohort : Map ℕ ℕ) (s s' : Scheduler f.F64)
      (cohorts : List CohortSnapshot)
      → cohorts_part f globs from_utf8_lossy order c w tasks tgid_cohort s ≡ some (s', some cohorts)
      → Agree cohorts tasks
  unfolding cohorts_part
  cohorts_part-Agree tasks tgid_cohort s s' cohorts h =
      let before : CohortState = record {
        prev_load_sum = s.prev_load_sum;
        dead_cohorts = s.dead_cohorts;
        residency_overrides = s.residency_overrides;
        balancer = s.balancer;
      } in
      let policies = unless w.policy_batch_fails s.cohort_policy in
      let counters = unless w.counters_batch_fails s.cohort_counters in
      let (kept, dead, run) =
        with_cohorts_inv s s' cohorts (snapshot_cohorts before tasks tgid_cohort policies counters)
          (cc h) in
      snapshot_cohorts-Agree before kept tasks tgid_cohort policies counters cohorts dead run

  abbrev View : Type 0
  View = List CohortSnapshot × List LlcLoad

  -- The rest of a tick keeps the tasks and gives the cohorts that it has.
  from_spills_view :
      (tasks : List TaskSnapshot) (tgid_cohort : Map ℕ ℕ) (cohorts : List CohortSnapshot)
      (llcs : List LlcLoad) (s s' : Scheduler f.F64) (v : View)
      → from_spills f globs from_utf8_lossy order c w tasks tgid_cohort cohorts llcs s
        ≡ some (s', some v)
      → (v.0 ≡ cohorts) × (s'.last_tasks ≡ tasks)
  unfolding from_spills keep_tasks
  from_spills_view tasks tgid_cohort cohorts llcs s s' v h =
      let spills = spills_part f globs from_utf8_lossy order c w llcs cohorts tasks in
      let relations = relations_part f globs from_utf8_lossy order c w cohorts tasks tgid_cohort in
      let kept = keep_tasks f globs from_utf8_lossy order c w tasks in
      let last : Part (Scheduler f.F64) View = kept >> give (cohorts, llcs) in
      let (_, t, _, h1) = bind_inv spills (λ done. relations >> last) s s' v h in
      let (_, u, _, h2) = bind_inv relations (λ done. last) t s' v h1 in
      let (state, view) = same_result h2 in
      (sym (ap (λ (p : View). p.0) view), sym (ap (λ (r : Scheduler f.F64). r.last_tasks) state))

  from_plan_view :
      (tasks : List TaskSnapshot) (tgid_cohort : Map ℕ ℕ) (cohorts : List CohortSnapshot)
      (llcs : List LlcLoad) (s s' : Scheduler f.F64) (v : View)
      → from_plan f globs from_utf8_lossy order c w tasks tgid_cohort cohorts llcs s
        ≡ some (s', some v)
      → (v.0 ≡ cohorts) × (s'.last_tasks ≡ tasks)
  unfolding from_plan
  from_plan_view tasks tgid_cohort cohorts llcs s s' v h =
      let moves = moves_part f globs from_utf8_lossy order c w in
      let rest = from_spills f globs from_utf8_lossy order c w tasks tgid_cohort cohorts llcs in
      let (ds, t, _, h1) =
        bind_inv (plan_part f globs from_utf8_lossy order c w llcs cohorts) (λ ds. moves ds >> rest)
          s s' v h in
      let (_, u, _, h2) = bind_inv (moves ds) (λ done. rest) t s' v h1 in
      from_spills_view tasks tgid_cohort cohorts llcs u s' v h2

  from_cohorts_view :
      (tasks : List TaskSnapshot) (tgid_cohort : Map ℕ ℕ) (cohorts : List CohortSnapshot)
      (s s' : Scheduler f.F64) (v : View)
      → from_cohorts f globs from_utf8_lossy order c w tasks tgid_cohort cohorts s
        ≡ some (s', some v)
      → (v.0 ≡ cohorts) × (s'.last_tasks ≡ tasks)
  unfolding from_cohorts
  from_cohorts_view tasks tgid_cohort cohorts s s' v h =
      let loads = llcs_part f globs from_utf8_lossy order c w in
      let rest = from_plan f globs from_utf8_lossy order c w tasks tgid_cohort cohorts in
      let (_, t, _, h1) =
        bind_inv (gc_part f globs from_utf8_lossy order c w tasks tgid_cohort)
          (λ done. loads >>= rest) s s' v h in
      let (llcs, u, _, h2) = bind_inv loads rest t s' v h1 in
      from_plan_view tasks tgid_cohort cohorts llcs u s' v h2

  from_tgids_view :
      (tasks : List TaskSnapshot) (tgid_cohort : Map ℕ ℕ) (s s' : Scheduler f.F64) (v : View)
      → from_tgids f globs from_utf8_lossy order c w tasks tgid_cohort s ≡ some (s', some v)
      → Agree v.0 s'.last_tasks
  unfolding from_tgids
  from_tgids_view tasks tgid_cohort s s' v h =
      let snapshot = cohorts_part f globs from_utf8_lossy order c w tasks tgid_cohort in
      let rest = from_cohorts f globs from_utf8_lossy order c w tasks tgid_cohort in
      let (_, t, _, h1) =
        bind_inv (rules_part f globs from_utf8_lossy order c w tasks) (λ done. snapshot >>= rest) s
          s' v h in
      let (cohorts, u, made, h2) = bind_inv snapshot rest t s' v h1 in
      let (same, kept) = from_cohorts_view tasks tgid_cohort cohorts u s' v h2 in
      let all = cohorts_part-Agree tasks tgid_cohort t u cohorts made in
      subst (λ l. Agree l s'.last_tasks) (sym same) (subst (Agree cohorts) (sym kept) all)

-- A tick that is `Ok` returns a view that agrees with the tasks that it keeps: each cohort of the view
-- has as its number of tasks, up to 2 ^ 64, the number of the kept tasks that are of the cohort, whatever
-- else happens in the tick.
pub tick-Agree :
    (f : Floats) (globs : Globs) (from_utf8_lossy : List ℕ → String)
    (order : ℕ → List (List (ℕ × ℕ)) → List (List (ℕ × ℕ))) (c : Setup f.F64 globs.Glob) (w : World)
    (s s' : Scheduler f.F64) (cohorts : List CohortSnapshot) (llcs : List LlcLoad)
    → tick f globs from_utf8_lossy order c w s ≡ some (s', some (cohorts, llcs))
    → Agree cohorts s'.last_tasks
unfolding tick
tick-Agree f globs from_utf8_lossy order c w s s' cohorts llcs h =
    let tgids = tgids_part f globs from_utf8_lossy order c w in
    let rest = from_tgids f globs from_utf8_lossy order c w in
    let (tasks, t, _, h1) =
      bind_inv (tasks_part f globs from_utf8_lossy order c w) (λ tasks. tgids >>= rest tasks) s s'
        (cohorts, llcs) h in
    let (tgid_cohort, u, _, h2) = bind_inv tgids (rest tasks) t s' (cohorts, llcs) h1 in
    from_tgids_view f globs from_utf8_lossy order c w tasks tgid_cohort u s' (cohorts, llcs) h2
