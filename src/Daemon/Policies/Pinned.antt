-- ===== src/Daemon/Policies/Pinned.antt =====
-- scx_cohort/src/main.rs: from the snapshot of the cohorts through the balancer's plan to `apply`, for a
-- cohort that is pinned.
use scx_cohort.Balancer.{
  Balancer, BalancerCfg, max_by_load, min_by_load, movable, narrows, min_by_key, candidates,
  conclude, decide, threshold, plan_between, plan,
}
use scx_cohort.Balancer.Choice.{min_by_key-some}
use scx_cohort.Base.Map.Laws.{lookup-insert, lookup_or-lookup}
use scx_cohort.Base.Map.{Map, lookup, lookup_or, insert, values, IsMap}
use scx_cohort.Base.{
  ℕ, ◌-◌, ◌≡◌, refl, ◌∙◌, sym, ap, inl, inr, true, false, Option, none, some, List, [], ◌∷◌, arith,
  nat_beq, nat_beq_iff, nat_key, ltb, leb, if◌then◌else◌, if_keeps, Bool-cases, In, In-keep, All,
  All-of_In, In_of_All, keep,
}
use scx_cohort.Base.Words.{add32}
use scx_cohort.Daemon.Kernel.Laws.{for_each-keeps_all}
use scx_cohort.Daemon.Kernel.{Outcome, update_present}
use scx_cohort.Daemon.Policies.{
  PolicyFaults, Policies, MoveState, after_move, move_found, apply_decision, apply,
}
use scx_cohort.Daemon.Scanned.{scan_counters_out}
use scx_cohort.Daemon.{
  CohortPolicy, CohortCounters, Value, sized, misfit, default_policy, is_pinned, CohortState,
  read_policies, snapshot_of, count_tasks, is_gc_safe, nothing_yet, scan_of,
}
use scx_cohort.Domain.{CohortSnapshot, Decision, move_cohort, LlcLoad, TaskSnapshot}

-- A decision about a cohort of the snapshot that is not pinned.
abbrev IsFree : List CohortSnapshot → Decision → Type 0
IsFree cohorts (move_cohort id to) =
    (c : CohortSnapshot) × In c cohorts × (c.id ≡ id) × (c.pinned ≡ false)

conclude-IsFree :
    (b : Balancer) (now target : ℕ) (o : Option CohortSnapshot) (cohorts : List CohortSnapshot)
    → ((c : CohortSnapshot) → o ≡ some c → In c cohorts × (c.pinned ≡ false))
    → All (IsFree cohorts) (conclude b now target o).1
unfolding conclude
conclude-IsFree b now target none cohorts h = tt
conclude-IsFree b now target (some c) cohorts h = ((c, (h c refl).0, refl, (h c refl).1), tt)

candidates_free :
    (cfg : BalancerCfg) (moved : Map ℕ ℕ) (now : ℕ) (max min : LlcLoad)
    (cohorts : List CohortSnapshot) (c : CohortSnapshot)
    → In c (candidates cfg moved now max min cohorts)
    → In c cohorts × (c.pinned ≡ false)
unfolding candidates movable
candidates_free cfg moved now max min cohorts c m =
    let first =
      In-keep (narrows (max.load_ns - min.load_ns)) (keep (movable cfg moved now max min) cohorts) c
        m in
    let second = In-keep (movable cfg moved now max min) cohorts c first.0 in
    (second.0, ground arith)

decide-IsFree :
    (b : Balancer) (now : ℕ) (max min : LlcLoad) (cohorts : List CohortSnapshot)
    → All (IsFree cohorts) (decide b now max min cohorts).1
unfolding decide
decide-IsFree b now max min cohorts =
    let gap = max.load_ns - min.load_ns in
    let cs = candidates b.cfg b.last_move_at now max min cohorts in
    elim (Bool-cases (ltb b.streak b.cfg.confirm_ticks)) [
      | inl wait ↦ rw (wait, if◌then◌else◌) tt
      | inr go ↦
          rw (go, if◌then◌else◌)
            (conclude-IsFree b now min.llc (min_by_key gap cs) cohorts (λ c e.
              candidates_free b.cfg b.last_move_at now max min cohorts c
                (min_by_key-some gap cs c e).0))
    ]

plan_between-IsFree :
    (b : Balancer) (now : ℕ) (max min : LlcLoad) (cohorts : List CohortSnapshot)
    → All (IsFree cohorts) (plan_between b now max min cohorts).1
unfolding plan_between
plan_between-IsFree b now max min cohorts =
    elim (Bool-cases (leb (max.load_ns - min.load_ns) (threshold b.cfg min))) [
      | inl balanced ↦ rw (balanced, if◌then◌else◌) tt
      | inr over ↦
          rw (over, if◌then◌else◌)
            (decide-IsFree (record b { streak = add32 b.streak 1 }) now max min cohorts)
    ]

plan-IsFree :
    (b : Balancer) (now : ℕ) (llcs : List LlcLoad) (cohorts : List CohortSnapshot)
    → All (IsFree cohorts) (plan b now llcs cohorts).1
unfolding plan
plan-IsFree b now [] cohorts = tt
plan-IsFree b now (l ∷ []) cohorts = tt
plan-IsFree b now (l ∷ m ∷ ls) cohorts =
    plan_between-IsFree b now (max_by_load l (m ∷ ls)) (min_by_load l (m ∷ ls)) cohorts

-- A snapshot of a cohort tells whether its policy is pinned.
abbrev IsTold : Map ℕ CohortPolicy → CohortSnapshot → Type 0
IsTold policies c = c.pinned ≡ is_pinned (lookup_or default_policy c.id policies)

-- The batch's own value for a cohort is what the snapshot goes by.
read_policies_keep :
    (batch : Policies) (policies : Map ℕ CohortPolicy) (id : ℕ)
    → lookup id batch ≡ none
    → lookup_or default_policy id (read_policies batch policies)
      ≡ lookup_or default_policy id policies
unfolding read_policies lookup
read_policies_keep [] policies id h = refl
read_policies_keep ((j, misfit) ∷ batch) policies id h =
    read_policies_keep batch policies id (ground arith)
read_policies_keep ((j, sized p) ∷ batch) policies id h =
    read_policies_keep batch (insert j p policies) id (ground arith)
    ∙ ground (
      arith,
      lookup_or-lookup default_policy id (insert j p policies),
      lookup_or-lookup default_policy id policies,
      lookup-insert j id p policies,
    )

lookup_or-read_policies :
    (batch : Policies) (policies : Map ℕ CohortPolicy) (id : ℕ) (policy : CohortPolicy)
    → IsMap batch
    → lookup id batch ≡ some (sized policy)
    → lookup_or default_policy id (read_policies batch policies) ≡ policy
unfolding read_policies lookup
lookup_or-read_policies [] policies id policy k h = absurd (cc)
lookup_or-read_policies ((j, misfit) ∷ batch) policies id policy k h =
    lookup_or-read_policies batch policies id policy k.1 (ground arith)
lookup_or-read_policies ((j, sized p) ∷ batch) policies id policy k h =
    elim (Bool-cases (nat_beq id j)) [
      | inl here ↦
          let e : id ≡ j = (nat_beq_iff id j).0 here in
          let gone : lookup id batch ≡ none = ap (λ z. lookup z batch) e ∙ k.0 in
          let same : p ≡ policy = ground arith in
          read_policies_keep batch (insert j p policies) id gone
          ∙ lookup_or-lookup default_policy id (insert j p policies)
          ∙ ground (arith, lookup-insert j id p policies)
      | inr there ↦ lookup_or-read_policies batch (insert j p policies) id policy k.1 (ground arith)
    ]

move_found_keeps :
    (faults : PolicyFaults) (c id to : ℕ) (v : Value CohortPolicy) (o : Option (Value CohortPolicy))
    (s : MoveState)
    → nat_beq c id ≡ false
    → lookup c s.cohort_policy ≡ some v
    → lookup c (move_found faults id to o s).0.cohort_policy ≡ some v
unfolding move_found after_move update_present
move_found_keeps faults c id to v none s other h = h
move_found_keeps faults c id to v (some misfit) s other h = h
move_found_keeps faults c id to v (some (sized policy)) s other h =
    ground (arith, lookup-insert id c (sized (record policy { home_llc = to })) s.cohort_policy)

decision_keeps :
    (faults : PolicyFaults) (c : ℕ) (v : Value CohortPolicy) (d : Decision) (s : MoveState)
    → ((id to : ℕ) → d ≡ move_cohort id to → nat_beq c id ≡ false)
    → lookup c s.cohort_policy ≡ some v
    → lookup c (apply_decision faults d s).0.cohort_policy ≡ some v
unfolding apply_decision
decision_keeps faults c v (move_cohort id to) s other h =
    if_keeps (λ (r : Outcome MoveState). lookup c r.0.cohort_policy ≡ some v)
      (faults.lookup_fails id) h
      (move_found_keeps faults c id to v (lookup id s.cohort_policy) s (other id to refl) h)

-- A free decision is not about a cohort that the policies pin.
free_other :
    (cohorts : List CohortSnapshot) (policies : Map ℕ CohortPolicy) (c : ℕ) (d : Decision)
    → ((e : CohortSnapshot) → In e cohorts → IsTold policies e)
    → is_pinned (lookup_or default_policy c policies) ≡ true
    → IsFree cohorts d
    → (id to : ℕ) → d ≡ move_cohort id to
    → nat_beq c id ≡ false
free_other cohorts policies c (move_cohort id' to') told pinned (e, m, named, free) id to same =
    let same_id : id' ≡ id = cc in
    elim (Bool-cases (nat_beq c id)) [
      | inl here ↦
          let at : e.id ≡ c = named ∙ same_id ∙ sym ((nat_beq_iff c id).0 here) in
          let true_false : true ≡ false =
            sym pinned
            ∙ ap (λ k. is_pinned (lookup_or default_policy k policies)) (sym at)
            ∙ sym (told e m)
            ∙ free in
          absurd (cc true_false)
      | inr there ↦ there
    ]

-- From the maps through the snapshot and the balancer to the map again: whichever calls of `apply` fail,
-- a cohort whose policy has the right size and is pinned, in a map with one entry for each cohort, has
-- the same policy after the balancer's decisions for that snapshot as before.
pub apply_pinned :
    (faults : PolicyFaults) (cs : CohortState) (tasks : List TaskSnapshot) (tgid_cohort : Map ℕ ℕ)
    (counters : List (ℕ × Value CohortCounters)) (b : Balancer) (now : ℕ) (llcs : List LlcLoad)
    (s : MoveState) (c : ℕ) (policy : CohortPolicy)
    → IsMap s.cohort_policy
    → lookup c s.cohort_policy ≡ some (sized policy)
    → is_pinned policy ≡ true
    → let cohorts = (scan_of cs tasks tgid_cohort s.cohort_policy counters).out in
      lookup c (apply faults (plan b now llcs cohorts).1 s).0.cohort_policy ≡ some (sized policy)
unfolding apply scan_of snapshot_of
apply_pinned faults cs tasks tgid_cohort counters b now llcs s c policy k found pinned =
    let policies = read_policies s.cohort_policy [] in
    let cohorts = (scan_of cs tasks tgid_cohort s.cohort_policy counters).out in
    let told : (e : CohortSnapshot) → In e cohorts → IsTold policies e =
      scan_counters_out cs (count_tasks tasks []) (values tgid_cohort) (is_gc_safe tasks) policies
        (IsTold policies) (λ id val. refl) counters nothing_yet (λ e m. absurd m) in
    let marked : is_pinned (lookup_or default_policy c policies) ≡ true =
      ap is_pinned (lookup_or-read_policies s.cohort_policy [] c policy k found) ∙ pinned in
    for_each-keeps_all (λ d. (id to : ℕ) → d ≡ move_cohort id to → nat_beq c id ≡ false)
      (λ r. lookup c r.cohort_policy ≡ some (sized policy)) (apply_decision faults)
      (λ d r other h. decision_keeps faults c (sized policy) d r other h)
      (plan b now llcs cohorts).1 s
      (All-of_In (λ d. (id to : ℕ) → d ≡ move_cohort id to → nat_beq c id ≡ false)
        (plan b now llcs cohorts).1
        (λ d m. free_other cohorts policies c d told marked (
          In_of_All (IsFree cohorts) (plan b now llcs cohorts).1 d (plan-IsFree b now llcs cohorts)
            m)))
      found
