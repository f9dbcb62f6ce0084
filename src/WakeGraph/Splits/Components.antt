-- ===== src/WakeGraph/Splits/Components.antt =====
-- scx_cohort/src/wake_graph.rs, `splits`: the components of a cohort as classes of its members.
use scx_cohort.Base.Floats.{Floats}
use scx_cohort.Base.Map.{Map, lookup, IsMap}
use scx_cohort.Base.{
  ℕ, suc, ◌≡◌, ◌↔◌, sym, subst, ◌∙◌, inl, inr, some, List, [], nat_key, arith, length, In,
}
use scx_cohort.WakeGraph.Splits.Group.{At, AllInhabited, Groups, group_lem}
use scx_cohort.WakeGraph.Splits.{Component, components}
use scx_cohort.WakeGraph.UnionFind.Classes.{
  IsMember, Between, classes, unite_edges-Classes, singletons-has,
}
use scx_cohort.WakeGraph.UnionFind.Forest.{Joined, Together}
use scx_cohort.WakeGraph.UnionFind.Roots.{Root, Root-unique}
use scx_cohort.WakeGraph.{WakeGraphCfg, EdgeState}

-- The components are the classes of an equivalence on the members.
pub record IsPartition (Same : ℕ → ℕ → Type 0) (members : List (ℕ × ℕ)) (comps : Map ℕ Component)
    : Type 0 where
  pub keyed : IsMap comps
  pub inhabited : AllInhabited comps
  pub covers : (x : ℕ × ℕ) → In x members → (r : ℕ) × At comps r x
  pub within : (r : ℕ) (x : ℕ × ℕ) → At comps r x → In x members
  pub agrees : (r s : ℕ) (x y : ℕ × ℕ) → At comps r x → At comps s y → (r ≡ s) ↔ Same x.0 y.0

module _ (f : Floats) (cfg : WakeGraphCfg f.F64) (edges : Map (ℕ × ℕ) (EdgeState f.F64))
    (members : List (ℕ × ℕ)) where
  Groups-IsPartition :
      (m : Map ℕ ℕ) (comps : Map ℕ Component)
      → Groups (Root m) members [] comps
      → ((x y : ℕ)
          → IsMember members x
          → (Together m x y) ↔ (Joined (Between f cfg edges members) x y))
      → IsPartition (Joined (Between f cfg edges members)) members comps
  unfolding lookup
  Groups-IsPartition m comps g same = record {
    keyed = g.keyed tt;
    inhabited = g.inhabited (λ r c h. absurd (cc));
    covers = λ x i. let w = g.placed x i in (w.0, w.2);
    within = λ r x at. (from r x at).0;
    agrees = λ r s x y at_x at_y.
        let member : IsMember members x.0 = (x.1, (from r x at_x).0) in
        let root_x = (from r x at_x).1 in
        let root_y = (from s y at_y).1 in
        (
          λ e. (same x.0 y.0 member).0 (r, root_x, subst (λ z. Root m y.0 z) (sym e) root_y),
          λ j.
              let t = (same x.0 y.0 member).1 j in
              Root-unique root_x t.0 t.1 ∙ sym (Root-unique root_y t.0 t.2),
        );
  }
    where
      from : (r : ℕ) (x : ℕ × ℕ) → At comps r x → In x members × Root m x.0 r
      from r x at = elim (g.origin r x at) [
        | inl i ↦ i
        | inr before ↦ absurd (let gone = before.stored in cc)
      ]

  -- `components` runs, and its components are the classes of the members under the least equivalence
  -- that holds the two ends of each edge between members, at or above the split rate, together: each
  -- member is in one, none is empty, and two members are in one component just when they are joined.
  pub components-IsPartition :
      (comps : Map ℕ Component) × (components f cfg edges members ≡ some comps)
      × IsPartition (Joined (Between f cfg edges members)) members comps
  unfolding components
  components-IsPartition =
      elim (unite_edges-Classes f cfg edges members (suc (length edges)) (omega arith)) [
        | classes m run forest merges same ↦
            let (comps, grouped, g) =
              group_lem (Root m) forest.rank (length edges) (suc (length edges)) (omega arith)
                members m [] forest.ranked
                (λ x i. let w = singletons-has members x.0 (x.1, i) in merges.keeps x.0 w.0 w.1)
                (λ t r root. root) in
            (comps, rw run grouped, Groups-IsPartition m comps g same)
      ]
