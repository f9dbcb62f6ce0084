-- ===== src/WakeGraph/Splits/Offcuts.antt =====
-- scx_cohort/src/wake_graph.rs, `splits`: what stands behind its plans.
use mathlib.Core.List.{Permᴰ}
use scx_cohort.Base.Floats.{Floats}
use scx_cohort.Base.Map.{Map, values, retain, contains_key}
use scx_cohort.Base.{
  ℕ, ◌≤◌, ◌≡◌, refl, sym, ap, subst, inl, inr, some, List, ◌∷◌, map, nat_key, In, In-append,
}
use scx_cohort.WakeGraph.Splits.Outcomes.{
  Outcome, together, apart, Run, done, step, split_cohorts-Run,
}
use scx_cohort.WakeGraph.Splits.Plans.{IsOffcut, sorted-IsOffcut, confirm-Plan}
use scx_cohort.WakeGraph.Splits.{Component, task_sum, splits}
use scx_cohort.WakeGraph.UnionFind.Classes.{Between}
use scx_cohort.WakeGraph.UnionFind.Forest.{Joined, same}
use scx_cohort.WakeGraph.{WakeGraphCfg, EdgeState, WakeGraph, SplitPlan}

-- What stands behind a plan.
pub record IsPlanned (f : Floats) (cfg : WakeGraphCfg f.F64) (edges : Map (ℕ × ℕ) (EdgeState f.F64))
    (cohort_tgids : Map ℕ (List (ℕ × ℕ))) (p : SplitPlan) : Type 0 where
  pub members : List (ℕ × ℕ)
  pub listed : In (p.cohort, members) cohort_tgids
  pub comp : Component
  pub offcut : IsOffcut (Joined (Between f cfg edges members)) members comp
  pub tgids : p.off_tgids ≡ map (λ m. m.0) comp
  pub sizeable : cfg.split_min_tasks ≤ task_sum comp

module _ (f : Floats) (order : ℕ → List Component → List Component)
    (permutes : (c : ℕ) (l : List Component) → Permᴰ l (order c l)) where
  Outcome-IsPlanned :
      (cfg : WakeGraphCfg f.F64) (edges : Map (ℕ × ℕ) (EdgeState f.F64)) (cohort : ℕ)
      (members : List (ℕ × ℕ)) (cohort_tgids : Map ℕ (List (ℕ × ℕ))) (s0 s1 : Map ℕ ℕ)
      (out : List SplitPlan)
      → Outcome f cfg edges order cohort members s0 s1 out
      → In (cohort, members) cohort_tgids
      → (p : SplitPlan) → In p out
      → IsPlanned f cfg edges cohort_tgids p
  Outcome-IsPlanned cfg edges cohort members cohort_tgids s0 s1 out (together e streaks empty)
        listed p i =
      absurd (subst (λ l. In p l) empty i)
  Outcome-IsPlanned cfg edges cohort members cohort_tgids s0 s1 out (apart comps e part result)
        listed p i =
      let i' = subst (λ l. In p l) (ap (λ r. r.1) result) i in
      let (c, j, made, big, ripe) = confirm-Plan cfg cohort (order cohort (values comps)) s0 p i' in
      record {
        members = members;
        listed = subst (λ z. In (z, members) cohort_tgids) (sym (ap (λ q. q.cohort) made)) listed;
        comp = c;
        offcut =
            sorted-IsOffcut (Joined (Between f cfg edges members)) members comps part (λ x. same x)
              (order cohort (values comps)) c (permutes cohort (values comps)) j;
        tgids = ap (λ q. q.off_tgids) made;
        sizeable = big;
      }

  IsPlanned-later :
      (cfg : WakeGraphCfg f.F64) (edges : Map (ℕ × ℕ) (EdgeState f.F64)) (entry : ℕ × List (ℕ × ℕ))
      (cohort_tgids : Map ℕ (List (ℕ × ℕ))) (p : SplitPlan)
      → IsPlanned f cfg edges cohort_tgids p
      → IsPlanned f cfg edges (entry ∷ cohort_tgids) p
  IsPlanned-later cfg edges entry cohort_tgids p h = record {
    members = h.members;
    listed = inr h.listed;
    comp = h.comp;
    offcut = h.offcut;
    tgids = h.tgids;
    sizeable = h.sizeable;
  }

  Run-IsPlanned :
      (cfg : WakeGraphCfg f.F64) (edges : Map (ℕ × ℕ) (EdgeState f.F64))
      (cohort_tgids : Map ℕ (List (ℕ × ℕ))) (s0 s1 : Map ℕ ℕ) (out : List SplitPlan)
      → Run f cfg edges order cohort_tgids s0 s1 out
      → (p : SplitPlan) → In p out
      → IsPlanned f cfg edges cohort_tgids p
  Run-IsPlanned cfg edges _ s0 s1 out (done s) p i = absurd i
  Run-IsPlanned cfg edges _ s0 s2 _ (step cohort members rest s0' s1 s2' out more outcome run) p i =
      elim (In-append p out more i) [
        | inl now ↦
            Outcome-IsPlanned cfg edges cohort members ((cohort, members) ∷ rest) s0' s1 out outcome
              (inl refl) p now
        | inr later ↦
            IsPlanned-later cfg edges (cohort, members) rest p
              (Run-IsPlanned cfg edges rest s1 s2' more run p later)
      ]

  -- When the order of iteration is a permutation, `splits` returns, and each of its plans takes the
  -- tgids of a whole component of a listed cohort, with at least `split_min_tasks` tasks, away from
  -- another component with at least as many tasks, that no live edge joins to it.
  pub splits-IsPlanned :
      (g : WakeGraph f.F64) (cohort_tgids : Map ℕ (List (ℕ × ℕ)))
      → (g' : WakeGraph f.F64) × (out : List SplitPlan) × (splits f order g cohort_tgids
          ≡ some (g', out))
        × ((p : SplitPlan) → In p out → IsPlanned f g.cfg g.edges cohort_tgids p)
  unfolding splits
  splits-IsPlanned g cohort_tgids =
      let kept = retain (λ cohort _. contains_key cohort cohort_tgids) g.split_streak in
      let (s, out, done_, run) = split_cohorts-Run f g.cfg g.edges order cohort_tgids kept in
      (
        record g { split_streak = s },
        out,
        rw done_ refl,
        Run-IsPlanned g.cfg g.edges cohort_tgids kept s out run,
      )
