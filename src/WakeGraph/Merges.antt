-- ===== src/WakeGraph/Merges.antt =====
-- The plans that `merges` returns on one tick.
use scx_cohort.Base.Floats.{Floats}
use scx_cohort.Base.Map.{Map, lookup, lookup_or}
use scx_cohort.Base.Words.{add32}
use scx_cohort.Base.{
  ℕ, ◌≤◌, ◌≡◌, ◌≢◌, ◌⊎◌, refl, sym, ap, ◌∙◌, inl, inr, true, false, Option, none, some, List, [],
  ◌∷◌, arith, nat_beq, nat_key, Bool-cases, Option-cases, any, In,
}
use scx_cohort.WakeGraph.{
  WakeGraph, WakeGraphCfg, EdgeState, MergePlan, is_hot, orient, merge_pair, merge_edge, note, push,
  merge_edges, merges,
}

-- The cohorts that the plans are about.
abbrev pub cohorts_of : List MergePlan → List ℕ
cohorts_of [] = []
cohorts_of (p ∷ ps) = p.into ∷ p.from ∷ cohorts_of ps

-- No number twice.
abbrev pub IsDistinct : List ℕ → Type 0
IsDistinct [] = Unit
IsDistinct (x ∷ xs) = (any (nat_beq x) xs ≡ false) × IsDistinct xs

push-In :
    (p : MergePlan) (o : Option MergePlan) (out : List MergePlan)
    → In p (push o out)
    → (o ≡ some p) ⊎ In p out
push-In p none out i = inr i
push-In p (some q) out (inl e) = inl (ap some (sym e))
push-In p (some q) out (inr i) = inr i

push-IsDistinct :
    (o : Option MergePlan) (merged : List ℕ) (out : List MergePlan)
    → IsDistinct (cohorts_of out)
    → ((x : ℕ) → any (nat_beq x) (note o merged) ≡ true → any (nat_beq x) (cohorts_of out) ≡ false)
    → ((p : MergePlan)
        → o ≡ some p
        → (p.into ≢ p.from)
          × (any (nat_beq p.into) merged ≡ false)
          × (any (nat_beq p.from) merged ≡ false))
    → IsDistinct (cohorts_of (push o out))
      × ((x : ℕ)
          → any (nat_beq x) merged ≡ true
          → any (nat_beq x) (cohorts_of (push o out)) ≡ false)
push-IsDistinct none merged out d h new = (d, h)
push-IsDistinct (some p) merged out d h new =
    let (ne, a, b) = new p refl in
    (
      (ground (arith, h p.into), (ground (arith, h p.from), d)),
      λ x e. elim (Bool-cases (nat_beq x p.into)) [
        | inl y ↦
            let s : x ≡ p.into = ground arith in
            absurd (ground (arith, ap (λ z. any (nat_beq z) merged) s))
        | inr n ↦ elim (Bool-cases (nat_beq x p.from)) [
          | inl y ↦
              let s : x ≡ p.from = ground arith in
              absurd (ground (arith, ap (λ z. any (nat_beq z) merged) s))
          | inr n' ↦ ground (arith, h x)
        ]
      ],
    )

module _ (f : Floats) where
  open f use {F64}

  -- Why an edge leads to a plan.
  pub record Causes (cfg : WakeGraphCfg F64) (tgid_cohort sizes : Map ℕ ℕ) (key : ℕ × ℕ)
      (st : EdgeState F64) (p : MergePlan) : Type 0 where
    pub waker_cohort : ℕ
    pub wakee_cohort : ℕ
    pub waker_known : lookup key.0 tgid_cohort ≡ some waker_cohort
    pub wakee_known : lookup key.1 tgid_cohort ≡ some wakee_cohort
    pub across : waker_cohort ≢ wakee_cohort
    pub hot : is_hot f cfg st ≡ true
    pub ripe : cfg.merge_confirm_ticks ≤ add32 st.over_ticks 1
    pub between :
        ((p.into ≡ waker_cohort) × (p.from ≡ wakee_cohort))
        ⊎ ((p.into ≡ wakee_cohort) × (p.from ≡ waker_cohort))
    pub bigger : lookup_or 0 p.from sizes ≤ lookup_or 0 p.into sizes

  module _ (cfg : WakeGraphCfg F64) (tgid_cohort sizes : Map ℕ ℕ) (merged : List ℕ) (key : ℕ × ℕ)
      (st : EdgeState F64) (p : MergePlan) where
    merge_pair-Causes :
        (ca cb : ℕ)
        → lookup key.0 tgid_cohort ≡ some ca
        → lookup key.1 tgid_cohort ≡ some cb
        → (merge_pair f cfg sizes merged ca cb st).1 ≡ some p
        → Causes cfg tgid_cohort sizes key st p
          × (any (nat_beq p.into) merged ≡ false)
          × (any (nat_beq p.from) merged ≡ false)
    unfolding merge_pair orient
    merge_pair-Causes ca cb ka kb h = (
      record {
        waker_cohort = ca;
        wakee_cohort = cb;
        waker_known = ka;
        wakee_known = kb;
        across = λ e. ground arith;
        hot = ground arith;
        ripe = ground arith;
        between = ground arith;
        bigger = ground arith;
      },
      ground arith,
      ground arith,
    )

    merge_edge-Causes :
        (merge_edge f cfg tgid_cohort sizes merged key st).1 ≡ some p
        → Causes cfg tgid_cohort sizes key st p
          × (any (nat_beq p.into) merged ≡ false)
          × (any (nat_beq p.from) merged ≡ false)
    unfolding merge_edge
    merge_edge-Causes h = elim (Option-cases (lookup key.0 tgid_cohort)) [
      | inl n ↦ absurd (unknown (rw (n, merge_edge) at h))
      | inr (ca, ka) ↦ elim (Option-cases (lookup key.1 tgid_cohort)) [
        | inl n ↦ absurd (unknown (rw (ka, n, merge_edge) at h))
        | inr (cb, kb) ↦ merge_pair-Causes ca cb ka kb (rw (ka, kb, merge_edge) at h)
      ]
    ]
      where
        unknown : ◌≡◌ {A = Option MergePlan} none (some p) → ⊥
        unknown e = cc

  Causes-ne :
      (cfg : WakeGraphCfg F64) (tgid_cohort sizes : Map ℕ ℕ) (key : ℕ × ℕ) (st : EdgeState F64)
      (p : MergePlan)
      → Causes cfg tgid_cohort sizes key st p
      → p.into ≢ p.from
  Causes-ne cfg tgid_cohort sizes key st p c e = elim c.between [
    | inl (i, o) ↦ c.across (sym i ∙ e ∙ o)
    | inr (i, o) ↦ c.across (sym o ∙ sym e ∙ i)
  ]

  merge_edges-Causes :
      (cfg : WakeGraphCfg F64) (tgid_cohort sizes : Map ℕ ℕ) (edges : Map (ℕ × ℕ) (EdgeState F64))
      (merged : List ℕ) (p : MergePlan)
      → In p (merge_edges f cfg tgid_cohort sizes edges merged).1
      → (key : ℕ × ℕ) × (st : EdgeState F64) × In (key, st) edges
        × Causes cfg tgid_cohort sizes key st p
  unfolding merge_edges
  merge_edges-Causes cfg tgid_cohort sizes [] merged p i = absurd i
  merge_edges-Causes cfg tgid_cohort sizes ((key, st) ∷ edges) merged p i =
      let r = merge_edge f cfg tgid_cohort sizes merged key st in
      elim (push-In p r.1 (merge_edges f cfg tgid_cohort sizes edges (note r.1 merged)).1 i) [
        | inl e ↦ (key, st, inl refl, (merge_edge-Causes cfg tgid_cohort sizes merged key st p e).0)
        | inr j ↦
            let (k, s, m, c) =
              merge_edges-Causes cfg tgid_cohort sizes edges (note r.1 merged) p j in
            (k, s, inr m, c)
      ]

  -- The plans of the rest concern no cohort that has merged already, and no cohort twice.
  merge_edges-IsDistinct :
      (cfg : WakeGraphCfg F64) (tgid_cohort sizes : Map ℕ ℕ) (edges : Map (ℕ × ℕ) (EdgeState F64))
      (merged : List ℕ)
      → let out = (merge_edges f cfg tgid_cohort sizes edges merged).1 in
        IsDistinct (cohorts_of out)
        × ((x : ℕ) → any (nat_beq x) merged ≡ true → any (nat_beq x) (cohorts_of out) ≡ false)
  unfolding merge_edges
  merge_edges-IsDistinct cfg tgid_cohort sizes [] merged = (tt, λ x h. refl)
  merge_edges-IsDistinct cfg tgid_cohort sizes ((key, st) ∷ edges) merged =
      let r = merge_edge f cfg tgid_cohort sizes merged key st in
      let out = (merge_edges f cfg tgid_cohort sizes edges (note r.1 merged)).1 in
      let (d, h) = merge_edges-IsDistinct cfg tgid_cohort sizes edges (note r.1 merged) in
      push-IsDistinct r.1 merged out d h (λ p e.
        let (c, a, b) = merge_edge-Causes cfg tgid_cohort sizes merged key st p e in
        (Causes-ne cfg tgid_cohort sizes key st p c, a, b))

  -- Every plan of a tick comes from an edge between two known, different cohorts, whose rate and
  -- whose traffic on this tick reach the merge rate, and whose count of such ticks is complete
  -- with this one; the cohort with more tasks absorbs the other. No cohort is in two plans.
  pub merges-Causes :
      (g : WakeGraph F64) (tgid_cohort sizes : Map ℕ ℕ)
      → ((p : MergePlan)
          → In p (merges f g tgid_cohort sizes).1
          → (key : ℕ × ℕ) × (st : EdgeState F64) × In (key, st) g.edges
            × Causes g.cfg tgid_cohort sizes key st p)
        × IsDistinct (cohorts_of (merges f g tgid_cohort sizes).1)
  unfolding merges
  merges-Causes g tgid_cohort sizes = (
    λ p i. merge_edges-Causes g.cfg tgid_cohort sizes g.edges [] p i,
    (merge_edges-IsDistinct g.cfg tgid_cohort sizes g.edges []).0,
  )
