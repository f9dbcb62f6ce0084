-- ===== src/WakeGraph/Splits/Streaks.antt =====
-- scx_cohort/src/wake_graph.rs, `splits`: the streaks in one run of the loop over the cohorts.

use scx_cohort.Base.Floats.{Floats}
use scx_cohort.Base.Map.Laws.{
  lookup-insert, lookup-remove, insert-IsMap, remove-IsMap, lookup_or-lookup, lookup-In,
}
use scx_cohort.Base.Map.{Map, lookup, lookup_or, values, IsMap, remove, insert}
use scx_cohort.Base.Words.{add32}
use scx_cohort.Base.{
  ℕ, ◌≤◌, ◌≡◌, refl, sym, ap, subst, ◌∙◌, inl, inr, Bool, true, false, none, some, List, nat_beq,
  nat_key, arith, ltb, if◌then◌else◌, In, In-append, Bool-cases,
}
use scx_cohort.WakeGraph.Splits.Outcomes.{in_parts, Outcome, together, apart, Run, done, step}
use scx_cohort.WakeGraph.Splits.Plans.{confirm-Plan}
use scx_cohort.WakeGraph.Splits.{Component, longer, confirm}
use scx_cohort.WakeGraph.{WakeGraphCfg, EdgeState, SplitPlan}

-- The streak of a cohort.
abbrev pub streak : ℕ → Map ℕ ℕ → ℕ
streak c streaks = lookup_or 0 c streaks

streak-insert :
    (k v c : ℕ) (m : Map ℕ ℕ) → streak c (insert k v m) ≡ (if nat_beq c k then v else streak c m)
streak-insert k v c m =
    ground
      (arith, lookup_or-lookup 0 c (insert k v m), lookup_or-lookup 0 c m, lookup-insert k c v m)

streak-remove :
    (k c : ℕ) (m : Map ℕ ℕ) → streak c (remove k m) ≡ (if nat_beq c k then 0 else streak c m)
streak-remove k c m =
    ground (arith, lookup_or-lookup 0 c (remove k m), lookup_or-lookup 0 c m, lookup-remove k c m)

module _ {F64 : Type 0} (cfg : WakeGraphCfg F64) where
  -- The streak after a call, from whether the cohort was in parts and the streak before.
  abbrev pub next_streak : Bool → ℕ → ℕ
  next_streak false n = 0
  next_streak true n = if ltb (add32 n 1) cfg.split_confirm_ticks then add32 n 1 else 0

  streak-confirm :
      (cohort : ℕ) (comps : List Component) (streaks : Map ℕ ℕ) (c : ℕ)
      → streak c (confirm cfg cohort comps streaks).0
        ≡ (if nat_beq c cohort then next_streak true (streak cohort streaks) else streak c streaks)
  unfolding confirm longer
  streak-confirm cohort comps streaks c =
      elim (Bool-cases (ltb (add32 (streak cohort streaks) 1) cfg.split_confirm_ticks)) [
        | inl early ↦
            rw (early, if◌then◌else◌)
              (streak-insert cohort (add32 (streak cohort streaks) 1) c streaks)
        | inr ripe ↦
            rw (ripe, if◌then◌else◌)
              (ground (
                arith,
                streak-remove cohort c (insert cohort (add32 (streak cohort streaks) 1) streaks),
                streak-insert cohort (add32 (streak cohort streaks) 1) c streaks,
              ))
      ]

  confirm-IsMap :
      (cohort : ℕ) (comps : List Component) (streaks : Map ℕ ℕ)
      → IsMap streaks
      → IsMap (confirm cfg cohort comps streaks).0
  unfolding confirm
  confirm-IsMap cohort comps streaks k =
      let longer_streaks = insert-IsMap cohort (longer cohort streaks) streaks k in
      elim (Bool-cases (ltb (longer cohort streaks) cfg.split_confirm_ticks)) [
        | inl early ↦ rw (early, if◌then◌else◌) longer_streaks
        | inr ripe ↦
            rw (ripe, if◌then◌else◌)
              (remove-IsMap cohort (insert cohort (longer cohort streaks) streaks) longer_streaks)
      ]

-- A cohort among the rest is not the first one.
In-other :
    (cohort c : ℕ) (ms : List (ℕ × ℕ)) (rest : Map ℕ (List (ℕ × ℕ)))
    → lookup cohort rest ≡ none
    → IsMap rest
    → In (c, ms) rest
    → nat_beq c cohort ≡ false
In-other cohort c ms rest fresh k i = elim (Bool-cases (nat_beq c cohort)) [
  | inl here ↦
      let e : c ≡ cohort = ground arith in
      let found : lookup cohort rest ≡ some ms =
        subst (λ z. lookup z rest ≡ some ms) e (lookup-In c ms rest k i) in
      absurd (cc)
  | inr other ↦ other
]

module _ (f : Floats) (cfg : WakeGraphCfg f.F64) (edges : Map (ℕ × ℕ) (EdgeState f.F64))
    (order : ℕ → List Component → List Component) where
  -- One cohort moves its own streak, and plans when it has lasted.
  Outcome-streak_self :
      (cohort : ℕ) (members : List (ℕ × ℕ)) (s0 s1 : Map ℕ ℕ) (out : List SplitPlan)
      → Outcome f cfg edges order cohort members s0 s1 out
      → streak cohort s1 ≡ next_streak cfg (in_parts f cfg edges members) (streak cohort s0)
  Outcome-streak_self cohort members s0 s1 out (together e removed empty) =
      rw (e, removed) (streak-remove cohort cohort s0 ∙ ground arith)
  Outcome-streak_self cohort members s0 s1 out (apart comps e part result) = rw e (
      ap (λ r. streak cohort r.0) result
      ∙ streak-confirm cfg cohort (order cohort (values comps)) s0 cohort
      ∙ ground arith)

  Outcome-streak_other :
      (cohort : ℕ) (members : List (ℕ × ℕ)) (s0 s1 : Map ℕ ℕ) (out : List SplitPlan)
      → Outcome f cfg edges order cohort members s0 s1 out
      → (c : ℕ) → nat_beq c cohort ≡ false
      → streak c s1 ≡ streak c s0
  Outcome-streak_other cohort members s0 s1 out (together e removed empty) c other =
      ap (λ m. streak c m) removed ∙ streak-remove cohort c s0 ∙ rw (other, if◌then◌else◌) refl
  Outcome-streak_other cohort members s0 s1 out (apart comps e part result) c other =
      ap (λ r. streak c r.0) result
      ∙ streak-confirm cfg cohort (order cohort (values comps)) s0 c
      ∙ rw (other, if◌then◌else◌) refl

  Outcome-IsMap :
      (cohort : ℕ) (members : List (ℕ × ℕ)) (s0 s1 : Map ℕ ℕ) (out : List SplitPlan)
      → Outcome f cfg edges order cohort members s0 s1 out
      → IsMap s0
      → IsMap s1
  Outcome-IsMap cohort members s0 s1 out (together e removed empty) k =
      rw removed (remove-IsMap cohort s0 k)
  Outcome-IsMap cohort members s0 s1 out (apart comps e part result) k =
      subst (λ r. IsMap r.0) (sym result)
        (confirm-IsMap cfg cohort (order cohort (values comps)) s0 k)

  Outcome-plan :
      (cohort : ℕ) (members : List (ℕ × ℕ)) (s0 s1 : Map ℕ ℕ) (out : List SplitPlan)
      → Outcome f cfg edges order cohort members s0 s1 out
      → (p : SplitPlan) → In p out
      → (p.cohort ≡ cohort)
        × (in_parts f cfg edges members ≡ true)
        × (cfg.split_confirm_ticks ≤ add32 (streak cohort s0) 1)
  unfolding longer
  Outcome-plan cohort members s0 s1 out (together e removed empty) p i =
      absurd (subst (λ l. In p l) empty i)
  Outcome-plan cohort members s0 s1 out (apart comps e part result) p i =
      let i' = subst (λ l. In p l) (ap (λ r. r.1) result) i in
      let (c, j, made, big, ripe) = confirm-Plan cfg cohort (order cohort (values comps)) s0 p i' in
      (ap (λ q. q.cohort) made, e, ripe)

  -- The loop leaves the streaks of cohorts that it does not meet.
  pub Run-absent :
      (cohort_tgids : Map ℕ (List (ℕ × ℕ))) (s0 s1 : Map ℕ ℕ) (out : List SplitPlan)
      → Run f cfg edges order cohort_tgids s0 s1 out
      → (c : ℕ) → lookup c cohort_tgids ≡ none
      → streak c s1 ≡ streak c s0
  unfolding lookup
  Run-absent _ s0 s1 out (done s) c h = refl
  Run-absent _ _ _ _ (step cohort members rest s0 s1 s2 out more outcome run) c h =
      elim (Bool-cases (nat_beq c cohort)) [
        | inl here ↦ absurd (cc (rw (here, if◌then◌else◌) at h))
        | inr other ↦
            Run-absent rest s1 s2 more run c (rw (other, if◌then◌else◌) at h)
            ∙ Outcome-streak_other cohort members s0 s1 out outcome c other
      ]

  pub Run-IsMap :
      (cohort_tgids : Map ℕ (List (ℕ × ℕ))) (s0 s1 : Map ℕ ℕ) (out : List SplitPlan)
      → Run f cfg edges order cohort_tgids s0 s1 out
      → IsMap s0
      → IsMap s1
  Run-IsMap _ s0 s1 out (done s) k = k
  Run-IsMap _ _ _ _ (step cohort members rest s0 s1 s2 out more outcome run) k =
      Run-IsMap rest s1 s2 more run (Outcome-IsMap cohort members s0 s1 out outcome k)

  -- The loop moves the streak of each cohort once.
  pub Run-streak :
      (cohort_tgids : Map ℕ (List (ℕ × ℕ))) (s0 s1 : Map ℕ ℕ) (out : List SplitPlan)
      → Run f cfg edges order cohort_tgids s0 s1 out
      → IsMap cohort_tgids
      → (c : ℕ) (members : List (ℕ × ℕ)) → In (c, members) cohort_tgids
      → streak c s1 ≡ next_streak cfg (in_parts f cfg edges members) (streak c s0)
  Run-streak _ s0 s1 out (done s) k c members i = absurd i
  Run-streak _ _ _ _ (step cohort members rest s0 s1 s2 out more outcome run) k c ms (inl e) =
      let c_here : c ≡ cohort = ap (λ z. z.0) e in
      let m_here : ms ≡ members = ap (λ z. z.1) e in
      rw (c_here, m_here)
        (Run-absent rest s1 s2 more run cohort k.0
          ∙ Outcome-streak_self cohort members s0 s1 out outcome)
  Run-streak _ _ _ _ (step cohort members rest s0 s1 s2 out more outcome run) k c ms (inr i) =
      let unmoved =
        Outcome-streak_other cohort members s0 s1 out outcome c
          (In-other cohort c ms rest k.0 k.1 i) in
      Run-streak rest s1 s2 more run k.1 c ms i
      ∙ ap (λ n. next_streak cfg (in_parts f cfg edges ms) n) unmoved

  -- A plan is for a cohort of the call that is in parts, and whose streak is long enough.
  pub Run-plan :
      (cohort_tgids : Map ℕ (List (ℕ × ℕ))) (s0 s1 : Map ℕ ℕ) (out : List SplitPlan)
      → Run f cfg edges order cohort_tgids s0 s1 out
      → IsMap cohort_tgids
      → (p : SplitPlan) → In p out
      → (members : List (ℕ × ℕ)) × In (p.cohort, members) cohort_tgids
        × (in_parts f cfg edges members ≡ true)
        × (cfg.split_confirm_ticks ≤ add32 (streak p.cohort s0) 1)
  Run-plan _ s0 s1 out (done s) k p i = absurd i
  Run-plan _ _ _ _ (step cohort members rest s0 s1 s2 out more outcome run) k p i =
      elim (In-append p out more i) [
        | inl now ↦
            let (at, e, ripe) = Outcome-plan cohort members s0 s1 out outcome p now in
            (
              members,
              inl (ap (λ z. (z, members)) at),
              e,
              subst (λ z. cfg.split_confirm_ticks ≤ add32 (streak z s0) 1) (sym at) ripe,
            )
        | inr later ↦
            let (ms, j, e, ripe) = Run-plan rest s1 s2 more run k.1 p later in
            let unmoved =
              Outcome-streak_other cohort members s0 s1 out outcome p.cohort
                (In-other cohort p.cohort ms rest k.0 k.1 j) in
            (ms, inr j, e, subst (λ n. cfg.split_confirm_ticks ≤ add32 n 1) unmoved ripe)
      ]
