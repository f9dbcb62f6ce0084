-- ===== src/WakeGraph/Splits/Plans.antt =====
-- scx_cohort/src/wake_graph.rs, `splits`: the plans for one cohort.
use mathlib.Core.List.Permᴰ
use mathlib.Core.List.{Permᴰ}
use scx_cohort.Base.Map.Laws.{lookup-In}
use scx_cohort.Base.Map.{Map, lookup, values, IsMap}
use scx_cohort.Base.{
  ℕ, ◌≤◌, ◌≡◌, ◌↔◌, refl, sym, ap, subst, inl, inr, some, List, [], ◌∷◌, map, nat_key, arith, ltb,
  if◌then◌else◌, In, Bool-cases,
}
use scx_cohort.WakeGraph.Splits.Components.{IsPartition}
use scx_cohort.WakeGraph.Splits.Group.{At}
use scx_cohort.WakeGraph.Splits.Largest.{Perm-In, Apart, AllApart, Perm-AllApart, sorted-Stays}
use scx_cohort.WakeGraph.Splits.{
  Component, task_sum, sort_by_tasks, skip_largest, offcuts, longer, confirm,
}
use scx_cohort.WakeGraph.{WakeGraphCfg, SplitPlan}

values-In :
    (comps : Map ℕ Component) (c : Component) → In c (values comps) → (r : ℕ) × In (r, c) comps
values-In [] c i = absurd i
values-In ((k, d) ∷ comps) c (inl e) = (k, inl (ap (λ z. (k, z)) e))
values-In ((k, d) ∷ comps) c (inr i) = let w = values-In comps c i in (w.0, inr w.1)

values-AllApart :
    (comps : Map ℕ Component)
    → IsMap comps
    → ((r s : ℕ) (c d : Component) (x : ℕ × ℕ)
        → In (r, c) comps
        → In (s, d) comps
        → In x c
        → In x d
        → r ≡ s)
    → AllApart (values comps)
values-AllApart [] k one = tt
values-AllApart ((k, c) ∷ comps) (new, rest) one =
    (first, values-AllApart comps rest (λ r s c' d x i j. one r s c' d x (inr i) (inr j)))
  where
    first : (d : Component) → In d (values comps) → Apart c d
    first d i x j l =
        let w = values-In comps d i in
        let e = one k w.0 c d x (inl refl) (inr w.1) j l in
        let found = lookup-In w.0 d comps rest w.1 in
        let found' : lookup k comps ≡ some d = subst (λ z. lookup z comps ≡ some d) (sym e) found in
        absurd (cc)

-- A component that goes: a class of members, next to a class at least as large that stays.
pub record IsOffcut (Same : ℕ → ℕ → Type 0) (members : List (ℕ × ℕ)) (comp : Component)
    : Type 0 where
  pub inhabited : (x : ℕ × ℕ) × In x comp
  pub within : (x : ℕ × ℕ) → In x comp → In x members
  pub whole : (x y : ℕ × ℕ) → In x comp → In y members → In y comp ↔ Same x.0 y.0
  pub rest : Component
  pub rest_inhabited : (x : ℕ × ℕ) × In x rest
  pub rest_within : (x : ℕ × ℕ) → In x rest → In x members
  pub rest_apart : (x y : ℕ × ℕ) → In x comp → In y rest → Same x.0 y.0 → ⊥
  pub rest_larger : task_sum comp ≤ task_sum rest

module _ (Same : ℕ → ℕ → Type 0) (members : List (ℕ × ℕ)) (comps : Map ℕ Component)
    (part : IsPartition Same members comps) (reflexive : (x : ℕ) → Same x x) where
  open part use {keyed, inhabited, covers, within, agrees}

  In-At : (r : ℕ) (c : Component) (x : ℕ × ℕ) → In (r, c) comps → In x c → At comps r x
  In-At r c x i j = record { comp = c; stored = lookup-In r c comps keyed i; inside = j }

  In-class :
      (c : Component) (x y : ℕ × ℕ)
      → In c (values comps)
      → In x c
      → In y members
      → In y c ↔ Same x.0 y.0
  In-class c x y i j member =
      let (r, at) = values-In comps c i in
      let (s, at_y) = covers y member in
      let at_x = In-At r c x at j in
      (
        (λ l. (agrees r r x y at_x (In-At r c y at l)).0 refl),
        (λ l.
            let e = (agrees r s x y at_x at_y).1 l in
            let same_comp : c ≡ at_y.comp =
              cc (at_x.stored, at_y.stored, e, lookup-In r c comps keyed at) in
            subst (λ z. In y z) (sym same_comp) at_y.inside),
      )

  comps-AllApart : AllApart (values comps)
  comps-AllApart =
      values-AllApart comps keyed (λ r s c d x i j k l.
        (agrees r s x x (In-At r c x i k) (In-At s d x j l)).1 (reflexive x.0))

  pub sorted-IsOffcut :
      (ordered : List Component) (c : Component)
      → Permᴰ (values comps) ordered
      → In c (skip_largest (sort_by_tasks ordered))
      → IsOffcut Same members c
  sorted-IsOffcut ordered c perm i =
      let (listed, s) = sorted-Stays ordered c (Perm-AllApart perm comps-AllApart) i in
      let in_c = Perm-In c (Permᴰ.symm perm) listed in
      let in_d = Perm-In s.stays (Permᴰ.symm perm) s.listed in
      let at_c = values-In comps c in_c in
      let at_d = values-In comps s.stays in_d in
      let has_d = inhabited at_d.0 s.stays (lookup-In at_d.0 s.stays comps keyed at_d.1) in
      record {
        inhabited = inhabited at_c.0 c (lookup-In at_c.0 c comps keyed at_c.1);
        within = λ x j. within at_c.0 x (In-At at_c.0 c x at_c.1 j);
        whole = λ x y. In-class c x y in_c;
        rest = s.stays;
        rest_inhabited = has_d;
        rest_within = λ x j. within at_d.0 x (In-At at_d.0 s.stays x at_d.1 j);
        rest_apart = λ x y j l joined.
            s.apart y l (
              (In-class c x y in_c j (within at_d.0 y (In-At at_d.0 s.stays y at_d.1 l))).1 joined);
        rest_larger = s.largest;
      }

offcuts-Plan :
    {F64 : Type 0} (cfg : WakeGraphCfg F64) (cohort : ℕ) (comps : List Component) (p : SplitPlan)
    → In p (offcuts cfg cohort comps)
    → (c : Component) × In c comps
      × (p ≡ record { cohort = cohort; off_tgids = map (λ m. m.0) c })
      × (cfg.split_min_tasks ≤ task_sum c)
unfolding offcuts
offcuts-Plan cfg cohort [] p i = absurd i
offcuts-Plan cfg cohort (comp ∷ comps) p i =
    elim (Bool-cases (ltb (task_sum comp) cfg.split_min_tasks)) [
      | inl small ↦
          let (c, j, e, big) = offcuts-Plan cfg cohort comps p (rw (small, if◌then◌else◌) at i) in
          (c, inr j, e, big)
      | inr enough ↦ elim (rw (enough, if◌then◌else◌) at i) [
        | inl here ↦ (comp, inl refl, here, ground arith)
        | inr there ↦
            let (c, j, e, big) = offcuts-Plan cfg cohort comps p there in (c, inr j, e, big)
      ]
    ]

-- A plan of `confirm`.
pub confirm-Plan :
    {F64 : Type 0} (cfg : WakeGraphCfg F64) (cohort : ℕ) (comps : List Component)
    (streaks : Map ℕ ℕ) (p : SplitPlan)
    → In p (confirm cfg cohort comps streaks).1
    → (c : Component) × In c (skip_largest (sort_by_tasks comps))
      × (p ≡ record { cohort = cohort; off_tgids = map (λ m. m.0) c })
      × (cfg.split_min_tasks ≤ task_sum c)
      × (cfg.split_confirm_ticks ≤ longer cohort streaks)
unfolding confirm
confirm-Plan cfg cohort comps streaks p i =
    elim (Bool-cases (ltb (longer cohort streaks) cfg.split_confirm_ticks)) [
      | inl early ↦ absurd (rw (early, if◌then◌else◌) at i)
      | inr ripe ↦
          let (c, j, e, big) =
            offcuts-Plan cfg cohort (skip_largest (sort_by_tasks comps)) p
              (rw (ripe, if◌then◌else◌) at i) in
          (c, j, e, big, ground arith)
    ]
