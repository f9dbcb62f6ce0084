-- ===== src/WakeGraph/UnionFind/Sweep.antt =====
-- scx_cohort/src/wake_graph.rs, the union-find: the loop over the edges, from any parent map.
use scx_cohort.Base.Map.Laws.{contains_key-some, contains_key_of_some}
use scx_cohort.Base.Floats.{Floats}
use scx_cohort.Base.Map.{Map, contains_key}
use scx_cohort.Base.{
  ℕ, suc, ◌+◌, ◌<◌, ◌≡◌, refl, sym, subst, inl, inr, true, false, some, [], ◌∷◌, arith, nat_key,
  Bool-cases, length, In,
}
use scx_cohort.WakeGraph.{WakeGraphCfg, EdgeState}
use scx_cohort.WakeGraph.UnionFind.{unite_edge, unite_edges}
use scx_cohort.WakeGraph.UnionFind.Forest.{
  link, Together, IsForest, Merges, Merges-refl, Merges-trans, united, unite_lem, IsForest-suc,
}

Merges-key :
    {m m' : Map ℕ ℕ} → Merges m m' → (x : ℕ) → contains_key x m ≡ true → contains_key x m' ≡ true
Merges-key {m} {m'} s x h =
    let p = contains_key-some x m h in
    let q = s.keeps x p.0 p.1 in contains_key_of_some x q.0 m' q.1

Merges-key_inv :
    {m m' : Map ℕ ℕ} → Merges m m' → (x : ℕ) → contains_key x m' ≡ true → contains_key x m ≡ true
Merges-key_inv {m} {m'} s x h =
    let p = contains_key-some x m' h in
    let q = s.adds_none x p.0 p.1 in contains_key_of_some x q.0 m q.1

-- What the loop from the map `m` gives, on the edges left.
module _ (f : Floats) (cfg : WakeGraphCfg f.F64) where
  open f use {F64, lt}

  abbrev pub Edges : Type 0
  Edges = Map (ℕ × ℕ) (EdgeState F64)

  -- An edge that is loud enough to hold its two processes together.
  pub IsLive : Edges → ℕ → ℕ → Type 0
  IsLive edges a b =
      (st : EdgeState F64) × In ((a, b), st) edges
      × (lt st.rate cfg.split_min_wakes_per_sec ≡ false)

  pub data Swept (Link : ℕ → ℕ → Type 0) (fuel bound : ℕ) (edges : Edges) (m : Map ℕ ℕ)
      : Type 0 where
    swept :
        (m' : Map ℕ ℕ)
        → unite_edges f fuel cfg edges m ≡ some m'
        → IsForest Link m' (bound + length edges)
        → Merges m m'
        → ((a b : ℕ)
            → IsLive edges a b
            → contains_key a m ≡ true
            → contains_key b m ≡ true
            → Together m' a b)
        → Swept Link fuel bound edges m

  module _ (Link : ℕ → ℕ → Type 0) (fuel : ℕ) where
    -- One edge.
    pub data Stepped (bound : ℕ) (key : ℕ × ℕ) (st : EdgeState F64) (m : Map ℕ ℕ) : Type 0 where
      stepped :
          (m' : Map ℕ ℕ)
          → unite_edge f fuel cfg key st m ≡ some m'
          → IsForest Link m' (suc bound)
          → Merges m m'
          → (lt st.rate cfg.split_min_wakes_per_sec ≡ false
              → contains_key key.0 m ≡ true
              → contains_key key.1 m ≡ true
              → Together m' key.0 key.1)
          → Stepped bound key st m

    step-Stepped :
        (bound a b : ℕ) (st : EdgeState F64) (m : Map ℕ ℕ)
        → IsForest Link m bound
        → bound < fuel
        → (lt st.rate cfg.split_min_wakes_per_sec ≡ false
            → contains_key a m ≡ true
            → contains_key b m ≡ true
            → Link a b)
        → Stepped bound (a, b) st m
    unfolding unite_edge
    step-Stepped bound a b st m forest enough links =
        elim (Bool-cases (lt st.rate cfg.split_min_wakes_per_sec)) [
          | inl quiet ↦
              stepped m (rw quiet refl) (IsForest-suc Link forest) (Merges-refl m)
                (λ e i j. absurd (cc))
          | inr loud ↦ elim (Bool-cases (contains_key a m)) [
            | inr no_a ↦
                stepped m (rw (loud, no_a) refl) (IsForest-suc Link forest) (Merges-refl m)
                  (λ e i j. absurd (cc))
            | inl has_a ↦ elim (Bool-cases (contains_key b m)) [
              | inr no_b ↦
                  stepped m (rw (loud, has_a, no_b) refl) (IsForest-suc Link forest) (Merges-refl m)
                    (λ e i j. absurd (cc))
              | inl has_b ↦
                  let p = contains_key-some a m has_a in
                  let q = contains_key-some b m has_b in
                  elim (unite_lem Link m fuel bound a b p.0 q.0 forest
                    (link a b (links loud has_a has_b)) p.1 q.1 enough) [
                      | united m' run forest' merges' pair ↦
                          stepped m' (rw (loud, has_a, has_b) run) forest' merges' (λ e i j. pair)
                    ]
            ]
          ]
        ]

    -- The pairs of the first edge, and those of the rest.
    pairs_after :
        (a b : ℕ) (st : EdgeState F64) (edges : Edges) (m m1 m2 : Map ℕ ℕ)
        → Merges m m1
        → Merges m1 m2
        → (lt st.rate cfg.split_min_wakes_per_sec ≡ false
            → contains_key a m ≡ true
            → contains_key b m ≡ true
            → Together m1 a b)
        → ((x y : ℕ)
            → IsLive edges x y
            → contains_key x m1 ≡ true
            → contains_key y m1 ≡ true
            → Together m2 x y)
        → (x y : ℕ) → IsLive (((a, b), st) ∷ edges) x y
        → contains_key x m ≡ true
        → contains_key y m ≡ true
        → Together m2 x y
    unfolding IsLive
    pairs_after a b st edges m m1 m2 merges1 merges2 pair pairs x y (st', inl e, loud) i j =
        let e_x : x ≡ a = cc in
        let e_y : y ≡ b = cc in
        let e_st : st' ≡ st = cc in
        let both = merges2.together a b (
          pair (subst (λ z. lt z.rate cfg.split_min_wakes_per_sec ≡ false) e_st loud)
            (subst (λ z. contains_key z m ≡ true) e_x i)
            (subst (λ z. contains_key z m ≡ true) e_y j)) in
        subst (λ z. Together m2 z y) (sym e_x) (subst (λ z. Together m2 a z) (sym e_y) both)
    pairs_after a b st edges m m1 m2 merges1 merges2 pair pairs x y (st', inr rest, loud) i j =
        pairs x y (st', rest, loud) (Merges-key merges1 x i) (Merges-key merges1 y j)

    pub sweep :
        (edges : Edges) (bound : ℕ) (m : Map ℕ ℕ)
        → IsForest Link m bound
        → bound + length edges < fuel
        → ((a b : ℕ)
            → IsLive edges a b
            → contains_key a m ≡ true
            → contains_key b m ≡ true
            → Link a b)
        → Swept Link fuel bound edges m
    unfolding unite_edges IsLive
    sweep [] bound m forest enough links =
        swept m refl (subst (λ n. IsForest Link m n) (omega arith) forest) (Merges-refl m)
          (λ a b live i j. absurd live.1)
    sweep (((a, b), st) ∷ edges) bound m forest enough links =
        elim (step-Stepped bound a b st m forest (omega arith)
          (λ e i j. links a b (st, inl refl, e) i j)) [
            | stepped m1 run1 forest1 merges1 pair ↦
                elim (sweep edges (suc bound) m1 forest1 (omega arith) (λ x y live i j.
                  links x y (live.0, inr live.1, live.2) (Merges-key_inv merges1 x i)
                    (Merges-key_inv merges1 y j))) [
                      | swept m2 run2 forest2 merges2 pairs ↦
                          swept m2 (rw run1 run2)
                            (subst (λ n. IsForest Link m2 n) (omega arith) forest2)
                            (Merges-trans merges1 merges2)
                            (pairs_after a b st edges m m1 m2 merges1 merges2 pair pairs)
                    ]
          ]
