-- ===== src/WakeGraph/Splits/Outcomes.antt =====
-- scx_cohort/src/wake_graph.rs, `splits`: the outcomes for one cohort, and the loop as steps.

use scx_cohort.Base.Floats.{Floats}
use scx_cohort.Base.Map.{Map, values, remove}
use scx_cohort.Base.{
  ℕ, ◌≡◌, refl, inl, inr, Bool, true, false, not, ◌&&◌, Option, none, some, List, [], ◌∷◌, ◌++◌,
  nat_key, length, ltb, Bool-cases,
}
use scx_cohort.WakeGraph.Splits.Components.{IsPartition, components-IsPartition}
use scx_cohort.WakeGraph.Splits.{Component, confirm, components, split_cohort, split_cohorts}
use scx_cohort.WakeGraph.UnionFind.Classes.{Between}
use scx_cohort.WakeGraph.UnionFind.Forest.{Joined}
use scx_cohort.WakeGraph.{WakeGraphCfg, EdgeState, SplitPlan}

module _ (f : Floats) (cfg : WakeGraphCfg f.F64) (edges : Map (ℕ × ℕ) (EdgeState f.F64)) where
  -- The members are more than one, and in more than one component.
  abbrev pub is_split : List (ℕ × ℕ) → Option (Map ℕ Component) → Bool
  is_split members none = false
  is_split members (some comps) = not (ltb (length members) 2) && not (ltb (length comps) 2)

  unfoldable pub in_parts : List (ℕ × ℕ) → Bool
  in_parts members = is_split members (components f cfg edges members)

  -- What one cohort makes of the streaks, and its plans.
  pub data Outcome (order : ℕ → List Component → List Component) (cohort : ℕ)
      (members : List (ℕ × ℕ)) (streaks streaks' : Map ℕ ℕ) (out : List SplitPlan) : Type 0 where
    together :
        in_parts members ≡ false
        → streaks' ≡ remove cohort streaks
        → out ≡ []
        → Outcome order cohort members streaks streaks' out
    apart :
        (comps : Map ℕ Component)
        → in_parts members ≡ true
        → IsPartition (Joined (Between f cfg edges members)) members comps
        → (streaks', out) ≡ confirm cfg cohort (order cohort (values comps)) streaks
        → Outcome order cohort members streaks streaks' out

  module _ (order : ℕ → List Component → List Component) where
    pub split_cohort-Outcome :
        (cohort : ℕ) (members : List (ℕ × ℕ)) (streaks : Map ℕ ℕ)
        → (streaks' : Map ℕ ℕ) × (out : List SplitPlan) × (split_cohort f order cfg edges cohort
              members streaks
            ≡ some (streaks', out))
          × Outcome order cohort members streaks streaks' out
    unfolding split_cohort in_parts
    split_cohort-Outcome cohort members streaks =
        let (comps, run, part) = components-IsPartition f cfg edges members in
        elim (Bool-cases (ltb (length members) 2)) [
          | inl few ↦
              (remove cohort streaks, [], rw few refl, together (rw (run, few) refl) refl refl)
          | inr many ↦ elim (Bool-cases (ltb (length comps) 2)) [
            | inl one ↦ (
              remove cohort streaks,
              [],
              rw (many, run, one) refl,
              together (rw (run, many, one) refl) refl refl,
            )
            | inr two ↦
                let c = confirm cfg cohort (order cohort (values comps)) streaks in
                (
                  c.0,
                  c.1,
                  rw (many, run, two) refl,
                  apart comps (rw (run, many, two) refl) part refl,
                )
          ]
        ]

    -- The loop over the cohorts, as steps.
    pub data Run : Map ℕ (List (ℕ × ℕ)) → Map ℕ ℕ → Map ℕ ℕ → List SplitPlan → Type 0 where
      done : (streaks : Map ℕ ℕ) → Run [] streaks streaks []
      step :
          (cohort : ℕ) (members : List (ℕ × ℕ)) (cohort_tgids : Map ℕ (List (ℕ × ℕ)))
          (s0 s1 s2 : Map ℕ ℕ) (out more : List SplitPlan)
          → Outcome order cohort members s0 s1 out
          → Run cohort_tgids s1 s2 more
          → Run ((cohort, members) ∷ cohort_tgids) s0 s2 (out ++ more)

    pub split_cohorts-Run :
        (cohort_tgids : Map ℕ (List (ℕ × ℕ))) (streaks : Map ℕ ℕ)
        → (streaks' : Map ℕ ℕ) × (out : List SplitPlan) × (split_cohorts f order cfg edges
              cohort_tgids streaks
            ≡ some (streaks', out))
          × Run cohort_tgids streaks streaks' out
    unfolding split_cohorts
    split_cohorts-Run [] streaks = (streaks, [], refl, done streaks)
    split_cohorts-Run ((cohort, members) ∷ cohort_tgids) streaks =
        let (s1, out, first, outcome) = split_cohort-Outcome cohort members streaks in
        let (s2, more, rest, run) = split_cohorts-Run cohort_tgids s1 in
        (
          s2,
          out ++ more,
          rw (first, rest) refl,
          step cohort members cohort_tgids streaks s1 s2 out more outcome run,
        )
