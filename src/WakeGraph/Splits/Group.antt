-- ===== src/WakeGraph/Splits/Group.antt =====
-- scx_cohort/src/wake_graph.rs, `splits`: the grouping of the members by their roots.
use scx_cohort.Base.Map.Laws.{lookup-insert, lookup_or-lookup, insert-IsMap}
use scx_cohort.Base.Map.{Map, lookup, lookup_or, insert, IsMap}
use scx_cohort.Base.{
  ℕ, ◌<◌, ◌≡◌, refl, sym, subst, ◌∙◌, ◌⊎◌, inl, inr, false, some, List, [], ◌∷◌, ◌++◌, arith,
  nat_beq, nat_key, Bool-cases, Option-cases, In, In-append, append-In,
}
use scx_cohort.WakeGraph.Splits.{Component, group}
use scx_cohort.WakeGraph.UnionFind.Roots.{Root, IsRanked, found, find-Found}
use scx_cohort.WakeGraph.UnionFind.Union.{Root-back}

-- `x` is in the component at `r`.
pub record At (comps : Map ℕ Component) (r : ℕ) (x : ℕ × ℕ) : Type 0 where
  pub comp : Component
  pub stored : lookup r comps ≡ some comp
  pub inside : In x comp

-- Every component has a member.
abbrev pub AllInhabited : Map ℕ Component → Type 0
AllInhabited comps = (r : ℕ) (c : Component) → lookup r comps ≡ some c → (x : ℕ × ℕ) × In x c

-- What the loop makes of the components, with the roots as the relation `R` has them.
pub record Groups (R : ℕ → ℕ → Type 0) (members : List (ℕ × ℕ)) (comps comps' : Map ℕ Component)
    : Type 0 where
  pub keyed : IsMap comps → IsMap comps'
  pub inhabited : AllInhabited comps → AllInhabited comps'
  pub origin : (r : ℕ) (x : ℕ × ℕ) → At comps' r x → (In x members × R x.0 r) ⊎ At comps r x
  pub stays : (r : ℕ) (x : ℕ × ℕ) → At comps r x → At comps' r x
  pub placed : (x : ℕ × ℕ) → In x members → (r : ℕ) × R x.0 r × At comps' r x

lookup_or-At :
    (comps : Map ℕ Component) (r : ℕ) (x : ℕ × ℕ) → At comps r x → In x (lookup_or [] r comps)
lookup_or-At comps r x at =
    let e : lookup_or [] r comps ≡ at.comp = rw (lookup_or-lookup [] r comps, at.stored) refl in
    subst (λ z. In x z) (sym e) at.inside

At-lookup_or :
    (comps : Map ℕ Component) (r : ℕ) (x : ℕ × ℕ) → In x (lookup_or [] r comps) → At comps r x
At-lookup_or comps r x i = elim (Option-cases (lookup r comps)) [
  | inl e ↦
      let gone : lookup_or [] r comps ≡ [] = rw (lookup_or-lookup [] r comps, e) refl in
      absurd (subst (λ z. In x z) gone i)
  | inr (c, e) ↦
      let here : lookup_or [] r comps ≡ c = rw (lookup_or-lookup [] r comps, e) refl in
      record { comp = c; stored = e; inside = subst (λ z. In x z) here i }
]

-- One member, with its root.
abbrev pub add_to : ℕ → ℕ × ℕ → Map ℕ Component → Map ℕ Component
add_to root x comps = insert root (lookup_or [] root comps ++ x ∷ []) comps

module _ (root : ℕ) (x : ℕ × ℕ) (comps : Map ℕ Component) where
  add_to_self : lookup root (add_to root x comps) ≡ some (lookup_or [] root comps ++ x ∷ [])
  add_to_self = lookup-insert root root _ comps ∙ ground arith

  add_to-other : (r : ℕ) → nat_beq r root ≡ false → lookup r (add_to root x comps) ≡ lookup r comps
  add_to-other r n = lookup-insert root r _ comps ∙ ground arith

  add_to-here : At (add_to root x comps) root x
  add_to-here = record {
    comp = lookup_or [] root comps ++ x ∷ [];
    stored = add_to_self;
    inside = append-In x (lookup_or [] root comps) (x ∷ []) (inr (inl refl));
  }

  add_to-stays : (r : ℕ) (y : ℕ × ℕ) → At comps r y → At (add_to root x comps) r y
  add_to-stays r y at = elim (Bool-cases (nat_beq r root)) [
    | inl here ↦
        let e : r ≡ root = ground arith in
        subst (λ z. At (add_to root x comps) z y) (sym e)
          (record {
            comp = lookup_or [] root comps ++ x ∷ [];
            stored = add_to_self;
            inside =
                append-In y (lookup_or [] root comps) (x ∷ [])
                  (inl (lookup_or-At comps root y (subst (λ z. At comps z y) e at)));
          })
    | inr other ↦ record {
      comp = at.comp;
      stored = add_to-other r other ∙ at.stored;
      inside = at.inside;
    }
  ]

  add_to-origin :
      (r : ℕ) (y : ℕ × ℕ) → At (add_to root x comps) r y → ((y ≡ x) × (r ≡ root)) ⊎ At comps r y
  add_to-origin r y at = elim (Bool-cases (nat_beq r root)) [
    | inl here ↦
        let e : r ≡ root = ground arith in
        elim (In-append y (lookup_or [] root comps) (x ∷ []) (lookup_or-self e)) [
          | inl old ↦ inr (subst (λ z. At comps z y) (sym e) (At-lookup_or comps root y old))
          | inr (inl new) ↦ inl (new, e)
          | inr (inr beyond) ↦ absurd beyond
        ]
    | inr other ↦ inr (record {
      comp = at.comp;
      stored = sym (add_to-other r other) ∙ at.stored;
      inside = at.inside;
    })
  ]
    where
      lookup_or-self : r ≡ root → In y (lookup_or [] root comps ++ x ∷ [])
      lookup_or-self e =
          let found' : lookup root (add_to root x comps) ≡ some at.comp =
            subst (λ z. lookup z (add_to root x comps) ≡ some at.comp) e at.stored in
          let same : lookup_or [] root comps ++ x ∷ [] ≡ at.comp = cc add_to_self in
          subst (λ z. In y z) (sym same) at.inside

  add_to-inhabited : AllInhabited comps → AllInhabited (add_to root x comps)
  add_to-inhabited all r c h = elim (Bool-cases (nat_beq r root)) [
    | inl here ↦
        let e : r ≡ root = ground arith in
        let found' : lookup root (add_to root x comps) ≡ some c =
          subst (λ z. lookup z (add_to root x comps) ≡ some c) e h in
        let same : lookup_or [] root comps ++ x ∷ [] ≡ c = cc add_to_self in
        (
          x,
          subst (λ z. In x z) same
              (append-In x (lookup_or [] root comps) (x ∷ []) (inr (inl refl))),
        )
    | inr other ↦ all r c (sym (add_to-other r other) ∙ h)
  ]

-- The relation to which the roots of every map of the loop belong.
module _ (R : ℕ → ℕ → Type 0) (rank : ℕ → ℕ) (bound fuel : ℕ) (enough : bound < fuel) where
  Groups-nil : (comps : Map ℕ Component) → Groups R [] comps comps
  Groups-nil comps = record {
    keyed = λ d. d;
    inhabited = λ a. a;
    origin = λ r x at. inr at;
    stays = λ r x at. at;
    placed = λ x i. absurd i;
  }

  Groups-cons :
      (x : ℕ × ℕ) (root : ℕ) (members : List (ℕ × ℕ)) (comps comps' : Map ℕ Component)
      → R x.0 root
      → Groups R members (add_to root x comps) comps'
      → Groups R (x ∷ members) comps comps'
  Groups-cons x root members comps comps' at_root rest = record {
    keyed = λ d. rest.keyed (insert-IsMap root _ comps d);
    inhabited = λ a. rest.inhabited (add_to-inhabited root x comps a);
    origin = from;
    stays = λ r y at. rest.stays r y (add_to-stays root x comps r y at);
    placed = place;
  }
    where
      from : (r : ℕ) (y : ℕ × ℕ) → At comps' r y → (In y (x ∷ members) × R y.0 r) ⊎ At comps r y
      from r y at = elim (rest.origin r y at) [
        | inl i ↦ inl (inr i.0, i.1)
        | inr before ↦ elim (add_to-origin root x comps r y before) [
          | inl new ↦ inl (
            inl new.0,
            subst (λ z. R z.0 r) (sym new.0) (subst (λ z. R x.0 z) (sym new.1) at_root),
          )
          | inr old ↦ inr old
        ]
      ]

      place : (y : ℕ × ℕ) → In y (x ∷ members) → (r : ℕ) × R y.0 r × At comps' r y
      place y (inl e) =
          subst (λ z. (r : ℕ) × R z.0 r × At comps' r z) (sym e)
            (root, at_root, rest.stays root x (add_to-here root x comps))
      place y (inr i) = rest.placed y i

  -- The loop runs, and groups by the roots.
  pub group_lem :
      (members : List (ℕ × ℕ)) (m : Map ℕ ℕ) (comps : Map ℕ Component)
      → IsRanked m rank bound
      → ((x : ℕ × ℕ) → In x members → (p : ℕ) × (lookup x.0 m ≡ some p))
      → ((t r : ℕ) → Root m t r → R t r)
      → (comps' : Map ℕ Component) × (group fuel m members comps ≡ some comps')
        × Groups R members comps comps'
  unfolding group
  group_lem [] m comps k known roots = (comps, refl, Groups-nil comps)
  group_lem ((t, n) ∷ members) m comps k known roots =
      let key = known (t, n) (inl refl) in
      elim (find-Found rank bound fuel m t key.0 k key.1 (omega arith)) [
        | found root m' run reach same k' ↦
            let rest =
              group_lem members m' (add_to root (t, n) comps) k'
                (λ y i. let w = known y (inr i) in same.keeps y.0 w.0 w.1)
                (λ u r s. roots u r (Root-back same k u r s)) in
            (
              rest.0,
              rw run rest.1,
              Groups-cons (t, n) root members comps rest.0 (roots t root reach) rest.2,
            )
      ]
