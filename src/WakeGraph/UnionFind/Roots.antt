-- ===== src/WakeGraph/UnionFind/Roots.antt =====
-- scx_cohort/src/wake_graph.rs, `find` of the union-find: the roots of a parent map.
use scx_cohort.Base.Map.Laws.{lookup-insert}
use scx_cohort.Base.Map.{Map, lookup, insert}
use scx_cohort.Base.{
  ℕ, zero, suc, ◌+◌, ◌≤◌, ◌<◌, ◌≡◌, ◌≢◌, refl, sym, ap, subst, ◌∙◌, inl, inr, true, false, none,
  some, arith, nat_beq, nat_key, Bool-cases,
}
use scx_cohort.WakeGraph.UnionFind.{find}

-- `r` is the root of `x`: the end of the path of parents.
pub data Root (m : Map ℕ ℕ) : ℕ → ℕ → Type 0 where
  top : (x r : ℕ) → lookup x m ≡ some x → r ≡ x → Root m x r
  up : (x r p : ℕ) → lookup x m ≡ some p → p ≢ x → Root m p r → Root m x r

-- The forest has no cycle: ranks grow along the paths, up to a bound, and no path leaves the map.
pub record IsRanked (m : Map ℕ ℕ) (rank : ℕ → ℕ) (bound : ℕ) : Type 0 where
  pub grows : (x p : ℕ) → lookup x m ≡ some p → p ≢ x → rank x < rank p
  pub bounded : (x p : ℕ) → lookup x m ≡ some p → rank x ≤ bound
  pub closed : (x p : ℕ) → lookup x m ≡ some p → (q : ℕ) × (lookup p m ≡ some q)

pub Root-unique : {m : Map ℕ ℕ} {x r : ℕ} → Root m x r → (s : ℕ) → Root m x s → r ≡ s
Root-unique (top x r h e) s (top y s' k e') = e ∙ sym e'
Root-unique (top x r h e) s (up y s' p k n t) = absurd (n (cc))
Root-unique (up x r p h n t) s (top y s' k e) = absurd (n (cc))
Root-unique {m} (up x r p h n t) s (up y s' q k n' t') =
    let same : q ≡ p = cc in Root-unique t s (subst (λ z. Root m z s) same t')

pub Root-self : {m : Map ℕ ℕ} {x r : ℕ} → Root m x r → lookup r m ≡ some r
Root-self {m} (top x r h e) = subst (λ z. lookup z m ≡ some z) (sym e) h
Root-self (up x r p h n t) = Root-self t

pub Root-rank :
    {m : Map ℕ ℕ} {x r : ℕ}
    → Root m x r
    → (rank : ℕ → ℕ) (bound : ℕ) → IsRanked m rank bound
    → rank x ≤ rank r
Root-rank (top x r h e) rank bound k = rw e (omega arith)
Root-rank (up x r p h n t) rank bound k = omega (arith, k.grows x p h n, Root-rank t rank bound k)

-- The map `m'` has the keys of `m`, and the same roots.
pub record SameRoots (m m' : Map ℕ ℕ) : Type 0 where
  pub keeps : (x p : ℕ) → lookup x m ≡ some p → (q : ℕ) × (lookup x m' ≡ some q)
  pub adds_none : (x : ℕ) → lookup x m ≡ none → lookup x m' ≡ none
  pub roots : (x r : ℕ) → Root m x r → Root m' x r

-- The path from `x` made short: no root changes.
module _ (m : Map ℕ ℕ) (x root : ℕ) (reach : Root m x root) (apart : root ≢ x) where
  shorten-lookup_ne : (y : ℕ) → y ≢ x → lookup y (insert x root m) ≡ lookup y m
  shorten-lookup_ne y n = lookup-insert x y root m ∙ ground arith

  shorten-lookup_self : lookup x (insert x root m) ≡ some root
  shorten-lookup_self = lookup-insert x x root m ∙ ground arith

  shorten_end : Root (insert x root m) root root
  shorten_end = top root root (shorten-lookup_ne root apart ∙ Root-self reach) refl

  shorten-Root_self : Root (insert x root m) x root
  shorten-Root_self = up x root root shorten-lookup_self apart shorten_end

  -- At the node itself.
  shorten-Root_here : {y s : ℕ} → y ≡ x → Root m y s → Root (insert x root m) y s
  shorten-Root_here {y} {s} e t =
      let ends : root ≡ s = Root-unique reach s (subst (λ z. Root m z s) e t) in
      subst (λ z. Root (insert x root m) z s) (sym e)
        (subst (λ z. Root (insert x root m) x z) ends shorten-Root_self)

  pub shorten-Root : {y s : ℕ} → Root m y s → Root (insert x root m) y s
  shorten-Root (top y s h e) = elim (Bool-cases (nat_beq y x)) [
    | inl same ↦ shorten-Root_here (ground arith) (top y s h e)
    | inr other ↦ top y s (shorten-lookup_ne y (ground arith) ∙ h) e
  ]
  shorten-Root (up y s p h n t) = elim (Bool-cases (nat_beq y x)) [
    | inl same ↦ shorten-Root_here (ground arith) (up y s p h n t)
    | inr other ↦ up y s p (shorten-lookup_ne y (ground arith) ∙ h) n (shorten-Root t)
  ]

  shorten-keeps : (y p : ℕ) → lookup y m ≡ some p → (q : ℕ) × (lookup y (insert x root m) ≡ some q)
  shorten-keeps y p h = elim (Bool-cases (nat_beq y x)) [
    | inl same ↦ (
      root,
      subst (λ z. lookup z (insert x root m) ≡ some root) (ground arith) shorten-lookup_self,
    )
    | inr other ↦ (p, shorten-lookup_ne y (ground arith) ∙ h)
  ]

  module _ (p : ℕ) (present : lookup x m ≡ some p) where
    shorten-adds_none : (y : ℕ) → lookup y m ≡ none → lookup y (insert x root m) ≡ none
    shorten-adds_none y h = elim (Bool-cases (nat_beq y x)) [
      | inl same ↦
          let e : y ≡ x = ground arith in
          let h' : lookup x m ≡ none = subst (λ z. lookup z m ≡ none) e h in absurd (cc)
      | inr other ↦ shorten-lookup_ne y (ground arith) ∙ h
    ]

    pub shorten-SameRoots : SameRoots m (insert x root m)
    shorten-SameRoots = record {
      keeps = shorten-keeps;
      adds_none = shorten-adds_none;
      roots = λ y s t. shorten-Root t;
    }

    module _ (rank : ℕ → ℕ) (bound : ℕ) (k : IsRanked m rank bound)
        (climbs : rank x < rank root) where
      shorten-closed :
          (y q : ℕ)
          → lookup y (insert x root m) ≡ some q
          → (w : ℕ) × (lookup q (insert x root m) ≡ some w)
      shorten-closed y q h = elim (Bool-cases (nat_beq y x)) [
        | inl same ↦
            let e : y ≡ x = ground arith in
            let h' : lookup x (insert x root m) ≡ some q =
              subst (λ z. lookup z (insert x root m) ≡ some q) e h in
            let e' : root ≡ q = cc shorten-lookup_self in
            shorten-keeps q root (subst (λ z. lookup z m ≡ some root) e' (Root-self reach))
        | inr other ↦
            let h' : lookup y m ≡ some q = sym (shorten-lookup_ne y (ground arith)) ∙ h in
            let w = k.closed y q h' in shorten-keeps q w.0 w.1
      ]

      shorten-grows : (y q : ℕ) → lookup y (insert x root m) ≡ some q → q ≢ y → rank y < rank q
      shorten-grows y q h n = elim (Bool-cases (nat_beq y x)) [
        | inl same ↦
            let e : y ≡ x = ground arith in
            let h' : lookup x (insert x root m) ≡ some q =
              subst (λ z. lookup z (insert x root m) ≡ some q) e h in
            let e' : root ≡ q = cc shorten-lookup_self in
            subst (λ z. rank z < rank q) (sym e) (subst (λ z. rank x < rank z) e' climbs)
        | inr other ↦ k.grows y q (sym (shorten-lookup_ne y (ground arith)) ∙ h) n
      ]

      shorten-bounded : (y q : ℕ) → lookup y (insert x root m) ≡ some q → rank y ≤ bound
      shorten-bounded y q h = elim (Bool-cases (nat_beq y x)) [
        | inl same ↦
            let e : y ≡ x = ground arith in
            subst (λ z. rank z ≤ bound) (sym e) (k.bounded x p present)
        | inr other ↦ k.bounded y q (sym (shorten-lookup_ne y (ground arith)) ∙ h)
      ]

      pub shorten-IsRanked : IsRanked (insert x root m) rank bound
      shorten-IsRanked = record {
        grows = shorten-grows;
        bounded = shorten-bounded;
        closed = shorten-closed;
      }

-- What a run of `find` at `x` gives.
pub data Found (m : Map ℕ ℕ) (rank : ℕ → ℕ) (bound : ℕ) (fuel x : ℕ) : Type 0 where
  found :
      (r : ℕ) (m' : Map ℕ ℕ)
      → find fuel m x ≡ some (r, m')
      → Root m x r
      → SameRoots m m'
      → IsRanked m' rank bound
      → Found m rank bound fuel x

SameRoots-refl : (m : Map ℕ ℕ) → SameRoots m m
SameRoots-refl m = record { keeps = λ x p h. (p, h); adds_none = λ x h. h; roots = λ x r t. t }

pub SameRoots-trans : {m n o : Map ℕ ℕ} → SameRoots m n → SameRoots n o → SameRoots m o
SameRoots-trans s t = record {
  keeps = λ x p h. t.keeps x (s.keeps x p h).0 (s.keeps x p h).1;
  adds_none = λ x h. t.adds_none x (s.adds_none x h);
  roots = λ x r h. t.roots x r (s.roots x r h);
}

find-stop :
    (fuel : ℕ) (m : Map ℕ ℕ) (x p : ℕ)
    → lookup x m ≡ some p
    → nat_beq p x ≡ true
    → find (suc fuel) m x ≡ some (x, m)
unfolding find
find-stop fuel m x p h same = rw (h, find, same)

find-step :
    (fuel : ℕ) (m : Map ℕ ℕ) (x p r : ℕ) (m' : Map ℕ ℕ)
    → lookup x m ≡ some p
    → nat_beq p x ≡ false
    → find fuel m p ≡ some (r, m')
    → find (suc fuel) m x ≡ some (r, insert x r m')
unfolding find
find-step fuel m x p r m' h other run = rw (h, find, other, run)

-- One call, where the parent is another node and the call there is done.
Found-step :
    (rank : ℕ → ℕ) (bound fuel : ℕ) (m : Map ℕ ℕ) (x p r : ℕ) (m' : Map ℕ ℕ)
    → IsRanked m rank bound
    → lookup x m ≡ some p
    → p ≢ x
    → find fuel m p ≡ some (r, m')
    → Root m p r
    → SameRoots m m'
    → IsRanked m' rank bound
    → Found m rank bound (suc fuel) x
Found-step rank bound fuel m x p r m' k h n run t s k' =
    let other : nat_beq p x ≡ false = ground arith in
    let climbs : rank x < rank r = omega (arith, k.grows x p h n, Root-rank t rank bound k) in
    let apart : r ≢ x = λ e. absurd (omega (arith, ap rank e)) in
    let reach : Root m x r = up x r p h n t in
    let w = s.keeps x p h in
    let reach' = s.roots x r reach in
    found r (insert x r m') (find-step fuel m x p r m' h other run) reach
      (SameRoots-trans s (shorten-SameRoots m' x r reach' apart w.0 w.1))
      (shorten-IsRanked m' x r reach' apart w.0 w.1 rank bound k' climbs)

pub find-Found :
    (rank : ℕ → ℕ) (bound fuel : ℕ) (m : Map ℕ ℕ) (x p : ℕ)
    → IsRanked m rank bound
    → lookup x m ≡ some p
    → bound < fuel + rank x
    → Found m rank bound fuel x
find-Found rank bound zero m x p k h enough = absurd (omega (arith, k.bounded x p h))
find-Found rank bound (suc fuel) m x p k h enough = elim (Bool-cases (nat_beq p x)) [
  | inl same ↦
      let e : p ≡ x = ground arith in
      found x m (find-stop fuel m x p h same) (top x x (subst (λ z. lookup x m ≡ some z) e h) refl)
        (SameRoots-refl m) k
  | inr other ↦
      let w = k.closed x p h in
      let n : p ≢ x = ground arith in
      elim (find-Found rank bound fuel m p w.0 k w.1 (omega (arith, k.grows x p h n))) [
        | found r m' run t s k' ↦ Found-step rank bound fuel m x p r m' k h n run t s k'
      ]
]
