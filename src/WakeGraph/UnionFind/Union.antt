-- ===== src/WakeGraph/UnionFind/Union.antt =====
-- scx_cohort/src/wake_graph.rs, the union-find: one root put under another.
use scx_cohort.Base.Map.Laws.{lookup-insert}
use scx_cohort.Base.Map.{Map, lookup, insert}
use scx_cohort.Base.{
  ℕ, suc, ◌≤◌, ◌<◌, ◌≡◌, ◌≢◌, refl, sym, ap, subst, ◌∙◌, inl, inr, ◌⊎◌, some, arith, nat_beq,
  nat_key, if◌then◌else◌, Bool-cases, Option-cases,
}
use scx_cohort.WakeGraph.UnionFind.Roots.{
  Root, top, up, IsRanked, SameRoots, Root-unique, found, find-Found,
}

-- Every key has a root.
pub Root-total :
    {m : Map ℕ ℕ} {rank : ℕ → ℕ} {bound : ℕ}
    → IsRanked m rank bound
    → (x p : ℕ) → lookup x m ≡ some p
    → (r : ℕ) × Root m x r
Root-total {m} {rank} {bound} k x p h =
    elim (find-Found rank bound (suc bound) m x p k h (omega arith)) [
      | found r m' run t s k' ↦ (r, t)
    ]

pub Root-key : {m : Map ℕ ℕ} {x r : ℕ} → Root m x r → (p : ℕ) × (lookup x m ≡ some p)
Root-key (top x r h e) = (x, h)
Root-key (up x r p h n t) = (p, h)

-- A key of a map with the same roots is a key of the first.
pub SameRoots-key :
    {m m' : Map ℕ ℕ}
    → SameRoots m m'
    → (x p : ℕ) → lookup x m' ≡ some p
    → (q : ℕ) × (lookup x m ≡ some q)
SameRoots-key {m} s x p h = elim (Option-cases (lookup x m)) [
  | inl e ↦ let gone = s.adds_none x e in absurd (cc)
  | inr e ↦ e
]

pub Root-back :
    {m m' : Map ℕ ℕ} {rank : ℕ → ℕ} {bound : ℕ}
    → SameRoots m m'
    → IsRanked m rank bound
    → (x r : ℕ) → Root m' x r
    → Root m x r
Root-back {m} s k x r t =
    let key' = Root-key t in
    let key = SameRoots-key s x key'.0 key'.1 in
    let w = Root-total k x key.0 key.1 in
    subst (λ z. Root m x z) (Root-unique (s.roots x w.0 w.1) r t) w.1

-- The root of a node after `a` is put under `b`, from the one before.
abbrev pub moved : ℕ → ℕ → ℕ → ℕ
moved a b s = if nat_beq s a then b else s

-- The root `a` put under the root `b`.
module _ (m : Map ℕ ℕ) (rank : ℕ → ℕ) (bound : ℕ) (k : IsRanked m rank bound) (a b : ℕ)
    (apart : b ≢ a) (a_top : lookup a m ≡ some a) (b_top : lookup b m ≡ some b) where
  hang-lookup_ne : (y : ℕ) → y ≢ a → lookup y (insert a b m) ≡ lookup y m
  hang-lookup_ne y n = lookup-insert a y b m ∙ ground arith

  hang-lookup_self : lookup a (insert a b m) ≡ some b
  hang-lookup_self = lookup-insert a a b m ∙ ground arith

  hang-top : Root (insert a b m) b b
  hang-top = top b b (hang-lookup_ne b apart ∙ b_top) refl

  hang-a : Root (insert a b m) a b
  hang-a = up a b b hang-lookup_self apart hang-top

  pub hang-Root : {y s : ℕ} → Root m y s → Root (insert a b m) y (moved a b s)
  hang-Root (top y s h e) = elim (Bool-cases (nat_beq y a)) [
    | inl same ↦
        let y_a : y ≡ a = ground arith in
        let s_a : s ≡ a = e ∙ y_a in
        let here : moved a b s ≡ b = ground (arith, s_a) in
        subst (λ z. Root (insert a b m) y z) (sym here)
          (subst (λ z. Root (insert a b m) z b) (sym y_a) hang-a)
    | inr other ↦
        let y_a : y ≢ a = ground arith in
        let here : moved a b s ≡ s = ground (arith, e) in
        subst (λ z. Root (insert a b m) y z) (sym here) (top y s (hang-lookup_ne y y_a ∙ h) e)
  ]
  hang-Root (up y s p h n t) =
      let n' : y ≢ a = λ e. n (
        let h' : lookup a m ≡ some p = subst (λ z. lookup z m ≡ some p) e h in
        let e' : p ≡ a = cc in e' ∙ sym e) in
      up y (moved a b s) p (hang-lookup_ne y n' ∙ h) n (hang-Root t)

  -- The ranks after.
  abbrev raised : ℕ → ℕ
  raised z = if nat_beq z b then suc bound else rank z

  pub hang-key : (y p : ℕ) → lookup y m ≡ some p → (q : ℕ) × (lookup y (insert a b m) ≡ some q)
  hang-key y p h = elim (Bool-cases (nat_beq y a)) [
    | inl same ↦ (b, subst (λ z. lookup z (insert a b m) ≡ some b) (ground arith) hang-lookup_self)
    | inr other ↦ (p, hang-lookup_ne y (ground arith) ∙ h)
  ]

  -- An entry of the map after: the new one, or one that was there.
  hang-entry :
      (y p : ℕ)
      → lookup y (insert a b m) ≡ some p
      → ((y ≡ a) × (p ≡ b)) ⊎ ((y ≢ a) × (lookup y m ≡ some p))
  hang-entry y p h = elim (Bool-cases (nat_beq y a)) [
    | inl same ↦
        let e : y ≡ a = ground arith in
        let h' : lookup a (insert a b m) ≡ some p =
          subst (λ z. lookup z (insert a b m) ≡ some p) e h in
        inl (e, cc hang-lookup_self)
    | inr other ↦ let n : y ≢ a = ground arith in inr (n, sym (hang-lookup_ne y n) ∙ h)
  ]

  hang-closed :
      (y p : ℕ) → lookup y (insert a b m) ≡ some p → (q : ℕ) × (lookup p (insert a b m) ≡ some q)
  hang-closed y p h = elim (hang-entry y p h) [
    | inl new ↦ hang-key p b (subst (λ z. lookup z m ≡ some b) (sym new.1) b_top)
    | inr old ↦ let w = k.closed y p old.1 in hang-key p w.0 w.1
  ]

  raised-le : (z p : ℕ) → lookup z m ≡ some p → raised z ≤ suc bound
  raised-le z p h = ground (arith, k.bounded z p h)

  rank-raised : (z p : ℕ) → lookup z m ≡ some p → rank z ≤ raised z
  rank-raised z p h = ground (arith, k.bounded z p h)

  raised_ne : (z : ℕ) → z ≢ b → raised z ≡ rank z
  raised_ne z n = ground arith

  raised_self : raised b ≡ suc bound
  raised_self = ground arith

  hang-bounded : (y p : ℕ) → lookup y (insert a b m) ≡ some p → raised y ≤ suc bound
  hang-bounded y p h = elim (hang-entry y p h) [
    | inl new ↦ raised-le y a (subst (λ z. lookup z m ≡ some a) (sym new.0) a_top)
    | inr old ↦ raised-le y p old.1
  ]

  hang-grows : (y p : ℕ) → lookup y (insert a b m) ≡ some p → p ≢ y → raised y < raised p
  hang-grows y p h n = elim (hang-entry y p h) [
    | inl new ↦
        let rank_p : raised p ≡ suc bound = ap raised new.1 ∙ raised_self in
        let rank_y : raised y ≡ rank a = ap raised new.0 ∙ raised_ne a (λ e. apart (sym e)) in
        omega (arith, k.bounded a a a_top)
    | inr old ↦
        let w = k.closed y p old.1 in
        let y_b : y ≢ b = λ e. n (
          let h' : lookup b m ≡ some p = subst (λ z. lookup z m ≡ some p) e old.1 in
          let e' : p ≡ b = cc in e' ∙ sym e) in
        omega (arith, raised_ne y y_b, rank-raised p w.0 w.1, k.grows y p old.1 n)
  ]

  pub hang-IsRanked : (ranks : ℕ → ℕ) × IsRanked (insert a b m) ranks (suc bound)
  hang-IsRanked =
      (raised, record { grows = hang-grows; bounded = hang-bounded; closed = hang-closed })

  pub hang-key_inv : (y p : ℕ) → lookup y (insert a b m) ≡ some p → (q : ℕ) × (lookup y m ≡ some q)
  hang-key_inv y p h = elim (hang-entry y p h) [
    | inl new ↦ (a, subst (λ z. lookup z m ≡ some a) (sym new.0) a_top)
    | inr old ↦ (p, old.1)
  ]

  -- A root after is the moved root from before.
  pub hang-Root_inv : (y s : ℕ) → Root (insert a b m) y s → (r : ℕ) × Root m y r × (s ≡ moved a b r)
  hang-Root_inv y s t =
      let key' = Root-key t in
      let key = hang-key_inv y key'.0 key'.1 in
      let w = Root-total k y key.0 key.1 in
      (w.0, w.1, Root-unique t (moved a b w.0) (hang-Root w.1))
