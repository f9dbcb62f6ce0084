-- ===== src/Daemon/Collect.antt =====
-- scx_cohort/src/main.rs, `snapshot_cohorts`: which cohorts it deletes and which it suspects.
use scx_cohort.Base.Map.Laws.{lookup-insert, lookup_or-lookup}
use scx_cohort.Base.Map.{Map, lookup_or, insert, values}
use scx_cohort.Base.Words.{u64_mod, add64}
use scx_cohort.Base.{
  ℕ, ◌+◌, ◌%◌, ◌<◌, ◌≤◌, ◌≡◌, ◌≢◌, refl, sym, ap, subst, ◌∙◌, ◌⊎◌, inl, inr, Bool, true, false,
  Option, none, some, List, [], ◌∷◌, ◌++◌, arith, nat_beq, nat_key, if◌then◌else◌, Bool-cases,
  length, keep, any, In, In-append,
}
use scx_cohort.Daemon.{
  CohortPolicy, CohortCounters, Value, sized, misfit, CohortState, count_tasks, Sighting, skipped,
  collected, suspected, alive, sight, Scan, add_sighting, scan_counters, is_gc_safe, nothing_yet,
  scan_of, snapshot_cohorts, read_policies,
}
use scx_cohort.Domain.{CohortSnapshot, TaskSnapshot}

pub any-In : (id : ℕ) (l : List ℕ) → any (nat_beq id) l ≡ true → In id l
any-In id [] h = absurd (cc)
any-In id (x ∷ l) h = elim (Bool-cases (nat_beq id x)) [
  | inl here ↦ inl (ground arith)
  | inr other ↦ inr (any-In id l (rw other at h))
]

-- The tasks of a cohort.
abbrev pub tasks_of : ℕ → List TaskSnapshot → List TaskSnapshot
tasks_of id tasks = keep (λ t. nat_beq id t.cohort_id) tasks

pub count_tasks-tasks_of :
    (tasks : List TaskSnapshot) (counts : Map ℕ ℕ) (id : ℕ)
    → lookup_or 0 id counts < u64_mod
    → lookup_or 0 id (count_tasks tasks counts)
      ≡ (lookup_or 0 id counts + length (tasks_of id tasks)) % u64_mod
unfolding count_tasks
count_tasks-tasks_of [] counts id h = omega arith
count_tasks-tasks_of (t ∷ tasks) counts id h =
    let n = add64 (lookup_or 0 t.cohort_id counts) 1 in
    let now : lookup_or 0 id (insert t.cohort_id n counts)
        ≡ (if nat_beq id t.cohort_id then n else lookup_or 0 id counts) =
      ground (
        arith,
        lookup_or-lookup 0 id (insert t.cohort_id n counts),
        lookup_or-lookup 0 id counts,
        lookup-insert t.cohort_id id n counts,
      ) in
    let ih = count_tasks-tasks_of tasks (insert t.cohort_id n counts) id in
    elim (Bool-cases (nat_beq id t.cohort_id)) [
      | inl here ↦
          let at : id ≡ t.cohort_id = ground arith in
          let now' : lookup_or 0 id (insert t.cohort_id n counts)
              ≡ add64 (lookup_or 0 id counts) 1 =
            now ∙ rw (here, if◌then◌else◌) (ap (λ z. add64 (lookup_or 0 z counts) 1) (sym at)) in
          rw (here, if◌then◌else◌) (omega (arith, ih (omega (arith, now')), now'))
      | inr other ↦
          let now' : lookup_or 0 id (insert t.cohort_id n counts) ≡ lookup_or 0 id counts =
            now ∙ rw (other, if◌then◌else◌) refl in
          rw (other, if◌then◌else◌) (omega (arith, ih (omega (arith, now')), now'))
    ]

module _ (s : CohortState) (counts : Map ℕ ℕ) (referenced : List ℕ) (gc_safe : Bool)
    (policies : Map ℕ CohortPolicy) where
  -- No task and no process has the cohort, on a scan that can be trusted.
  abbrev pub Unused : ℕ → Type 0
  Unused id = (lookup_or 0 id counts ≡ 0) × (any (nat_beq id) referenced ≡ false) × (gc_safe ≡ true)

  data Verdict (id : ℕ) : Sighting → Type 0 where
    skips : Verdict id skipped
    collects : Unused id → In id s.dead_cohorts → Verdict id (collected id)
    suspects : Unused id → Verdict id (suspected id)
    lives : (c : CohortSnapshot) (load_sum : ℕ) → Verdict id (alive c load_sum)

  sight-Verdict :
      (id : ℕ) (val : Value CohortCounters)
      → Verdict id (sight s counts referenced gc_safe policies id val)
  unfolding sight
  sight-Verdict id misfit = skips
  sight-Verdict id (sized counters) = elim (Bool-cases (nat_beq (lookup_or 0 id counts) 0)) [
    | inr busy ↦ rw (busy, if◌then◌else◌) (lives _ counters.load_sum)
    | inl idle ↦ elim (Bool-cases (any (nat_beq id) referenced)) [
      | inl held ↦ rw (idle, held, if◌then◌else◌) (lives _ counters.load_sum)
      | inr free ↦ elim (Bool-cases gc_safe) [
        | inr unsafe ↦ rw (idle, free, unsafe, if◌then◌else◌) skips
        | inl safe ↦ elim (Bool-cases (any (nat_beq id) s.dead_cohorts)) [
          | inl again ↦
              rw (idle, free, safe, again, if◌then◌else◌)
                (collects (ground arith, free, refl) (any-In id s.dead_cohorts again))
          | inr first ↦
              rw (idle, free, safe, first, if◌then◌else◌) (suspects (ground arith, free, refl))
        ]
      ]
    ]
  ]

  add_sighting-Verdict :
      (scan : Scan) (id : ℕ) (g : Sighting)
      → Verdict id g
      → (k : ℕ)
      → (In k (add_sighting scan g).dead → In k scan.dead ⊎ (Unused k × In k s.dead_cohorts))
        × (In k (add_sighting scan g).dead_now → In k scan.dead_now ⊎ Unused k)
  unfolding add_sighting
  add_sighting-Verdict scan id _ skips k = (λ i. inl i, λ i. inl i)
  add_sighting-Verdict scan id _ (collects unused again) k = (found, λ i. inl i)
    where
      found : In k (scan.dead ++ id ∷ []) → In k scan.dead ⊎ (Unused k × In k s.dead_cohorts)
      found i = elim (In-append k scan.dead (id ∷ []) i) [
        | inl old ↦ inl old
        | inr (inl e) ↦ inr (subst (λ z. Unused z × In z s.dead_cohorts) (sym e) (unused, again))
        | inr (inr beyond) ↦ absurd beyond
      ]
  add_sighting-Verdict scan id _ (suspects unused) k = (λ i. inl i, found)
    where
      found : In k (id ∷ scan.dead_now) → In k scan.dead_now ⊎ Unused k
      found (inl e) = inr (subst (λ z. Unused z) (sym e) unused)
      found (inr i) = inl i
  add_sighting-Verdict scan id _ (lives c load_sum) k = (λ i. inl i, λ i. inl i)

  -- The loop collects and suspects unused cohorts only, and collects those that were suspected.
  scan_counters-Unused :
      (batch : List (ℕ × Value CohortCounters)) (scan : Scan) (k : ℕ)
      → (In k (scan_counters s counts referenced gc_safe policies batch scan).dead
          → In k scan.dead ⊎ (Unused k × In k s.dead_cohorts))
        × (In k (scan_counters s counts referenced gc_safe policies batch scan).dead_now
            → In k scan.dead_now ⊎ Unused k)
  unfolding scan_counters
  scan_counters-Unused [] scan k = (λ i. inl i, λ i. inl i)
  scan_counters-Unused ((id, val) ∷ batch) scan k =
      let now =
        add_sighting-Verdict scan id (sight s counts referenced gc_safe policies id val)
          (sight-Verdict id val) k in
      let later =
        scan_counters-Unused batch
          (add_sighting scan (sight s counts referenced gc_safe policies id val)) k in
      (
        λ i. elim (later.0 i) [ inl j ↦ now.0 j | inr u ↦ inr u ],
        λ i. elim (later.1 i) [ inl j ↦ now.1 j | inr u ↦ inr u ],
      )

-- A cohort is gone on a tick: some task was seen, none of the cohort, and no process refers to it.
pub record IsGone (tasks : List TaskSnapshot) (tgid_cohort : Map ℕ ℕ) (id : ℕ) : Type 0 where
  pub scanned : tasks ≢ []
  pub no_task : length (tasks_of id tasks) ≡ 0
  pub no_process : any (nat_beq id) (values tgid_cohort) ≡ false

tasks_of-le : (id : ℕ) (tasks : List TaskSnapshot) → length (tasks_of id tasks) ≤ length tasks
tasks_of-le id [] = omega arith
tasks_of-le id (t ∷ tasks) = ground (arith, tasks_of-le id tasks)

Unused-IsGone :
    (s : CohortState) (policies : Map ℕ CohortPolicy) (tasks : List TaskSnapshot)
    (tgid_cohort : Map ℕ ℕ) (id : ℕ)
    → length tasks < u64_mod
    → Unused s (count_tasks tasks []) (values tgid_cohort) (is_gc_safe tasks) policies id
    → IsGone tasks tgid_cohort id
unfolding is_gc_safe lookup_or
Unused-IsGone s policies tasks tgid_cohort id few (none_counted, free, safe) = record {
  scanned =
      λ e. let h : is_gc_safe [] ≡ true = subst (λ l. is_gc_safe l ≡ true) e safe in absurd (cc);
  no_task = omega (arith, count_tasks-tasks_of tasks [] id (omega arith), tasks_of-le id tasks);
  no_process = free;
}

-- The parts of a result.
abbrev dead_of : Option (CohortState × List CohortSnapshot × List ℕ) → List ℕ
dead_of none = []
dead_of (some (s, out, dead)) = dead

abbrev suspects_of : Option (CohortState × List CohortSnapshot × List ℕ) → List ℕ
suspects_of none = []
suspects_of (some (s, out, dead)) = s.dead_cohorts

-- What a snapshot collects and suspects.
snapshot_cohorts-IsGone :
    (s s' : CohortState) (tasks : List TaskSnapshot) (tgid_cohort : Map ℕ ℕ)
    (policy_map : Option (List (ℕ × Value CohortPolicy)))
    (counters_map : Option (List (ℕ × Value CohortCounters))) (out : List CohortSnapshot)
    (dead : List ℕ)
    → length tasks < u64_mod
    → snapshot_cohorts s tasks tgid_cohort policy_map counters_map ≡ some (s', out, dead)
    → (id : ℕ)
    → (In id dead → IsGone tasks tgid_cohort id × In id s.dead_cohorts)
      × (In id s'.dead_cohorts → IsGone tasks tgid_cohort id)
unfolding snapshot_cohorts scan_of
snapshot_cohorts-IsGone s s' tasks tgid_cohort none counters_map out dead few h id = absurd (cc)
snapshot_cohorts-IsGone s s' tasks tgid_cohort (some policy_batch) none out dead few h id =
    absurd (cc)
snapshot_cohorts-IsGone s s' tasks tgid_cohort (some policy_batch) (some counters_batch) out dead
      few h id =
    let policies = read_policies policy_batch [] in
    let scan =
      scan_counters s (count_tasks tasks []) (values tgid_cohort) (is_gc_safe tasks) policies
        counters_batch nothing_yet in
    let law =
      scan_counters-Unused s (count_tasks tasks []) (values tgid_cohort) (is_gc_safe tasks) policies
        counters_batch nothing_yet id in
    let same_dead : scan.dead ≡ dead = ap dead_of h in
    let same_now : scan.dead_now ≡ s'.dead_cohorts = ap suspects_of h in
    (
      λ i. elim (law.0 (subst (λ l. In id l) (sym same_dead) i)) [
        | inl beyond ↦ absurd beyond
        | inr (unused, again) ↦ (Unused-IsGone s policies tasks tgid_cohort id few unused, again)
      ],
      λ i. elim (law.1 (subst (λ l. In id l) (sym same_now) i)) [
        | inl beyond ↦ absurd beyond
        | inr unused ↦ Unused-IsGone s policies tasks tgid_cohort id few unused
      ],
    )

-- Of two snapshots in a row, each of fewer than 2^64 tasks, the second deletes a cohort only when
-- both saw some task, but none of the cohort, and found no process that refers to it.
pub snapshot_cohorts_twice :
    (s s1 s2 : CohortState) (tasks1 tasks2 : List TaskSnapshot) (tgids1 tgids2 : Map ℕ ℕ)
    (policies1 policies2 : Option (List (ℕ × Value CohortPolicy)))
    (counters1 counters2 : Option (List (ℕ × Value CohortCounters)))
    (out1 out2 : List CohortSnapshot) (dead1 dead2 : List ℕ) (id : ℕ)
    → length tasks1 < u64_mod
    → length tasks2 < u64_mod
    → snapshot_cohorts s tasks1 tgids1 policies1 counters1 ≡ some (s1, out1, dead1)
    → snapshot_cohorts s1 tasks2 tgids2 policies2 counters2 ≡ some (s2, out2, dead2)
    → In id dead2
    → IsGone tasks1 tgids1 id × IsGone tasks2 tgids2 id
snapshot_cohorts_twice s s1 s2 tasks1 tasks2 tgids1 tgids2 policies1 policies2 counters1 counters2
      out1 out2 dead1 dead2 id few1 few2 e1 e2 i =
    let (gone2, again) =
      (snapshot_cohorts-IsGone s1 s2 tasks2 tgids2 policies2 counters2 out2 dead2 few2 e2 id).0 i in
    (
      (snapshot_cohorts-IsGone s s1 tasks1 tgids1 policies1 counters1 out1 dead1 few1 e1 id).1
          again,
      gone2,
    )
