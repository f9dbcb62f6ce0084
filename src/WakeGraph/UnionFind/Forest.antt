-- ===== src/WakeGraph/UnionFind/Forest.antt =====
-- scx_cohort/src/wake_graph.rs, the union-find: one union, against the closure of the links.
use scx_cohort.Base.Map.{Map, lookup, insert}
use scx_cohort.Base.{
  ℕ, suc, ◌<◌, ◌≡◌, ◌≢◌, sym, subst, ◌∙◌, inl, inr, some, arith, nat_beq, nat_key, if◌then◌else◌,
  Bool-cases,
}
use scx_cohort.WakeGraph.UnionFind.{find, unite}
use scx_cohort.WakeGraph.UnionFind.Roots.{
  Root, IsRanked, SameRoots, SameRoots-trans, Root-self, found, find-Found,
}
use scx_cohort.WakeGraph.UnionFind.Union.{
  Root-back, SameRoots-key, hang-key_inv, moved, hang-Root, hang-IsRanked, hang-Root_inv, hang-key,
}

-- The least equivalence that has the links.
pub data Joined (Link : ℕ → ℕ → Type 0) : ℕ → ℕ → Type 0 where
  same : (x : ℕ) → Joined Link x x
  link : (x y : ℕ) → Link x y → Joined Link x y
  back : (x y : ℕ) → Joined Link y x → Joined Link x y
  chain : (x y z : ℕ) → Joined Link x y → Joined Link y z → Joined Link x z

-- Two nodes with one root.
abbrev pub Together : Map ℕ ℕ → ℕ → ℕ → Type 0
Together m x y = (r : ℕ) × Root m x r × Root m y r

-- A forest whose trees lie within the classes of the links.
pub record IsForest (Link : ℕ → ℕ → Type 0) (m : Map ℕ ℕ) (bound : ℕ) : Type 0 where
  pub rank : ℕ → ℕ
  pub ranked : IsRanked m rank bound
  pub sound : (x r : ℕ) → Root m x r → Joined Link x r

-- What a step makes of a map: it keeps the keys, and keeps together what was.
pub record Merges (m m' : Map ℕ ℕ) : Type 0 where
  pub keeps : (x p : ℕ) → lookup x m ≡ some p → (q : ℕ) × (lookup x m' ≡ some q)
  pub adds_none : (x p : ℕ) → lookup x m' ≡ some p → (q : ℕ) × (lookup x m ≡ some q)
  pub together : (x y : ℕ) → Together m x y → Together m' x y

pub Merges-refl : (m : Map ℕ ℕ) → Merges m m
Merges-refl m = record {
  keeps = λ x p h. (p, h);
  adds_none = λ x p h. (p, h);
  together = λ x y t. t;
}

pub Merges-trans : {m n o : Map ℕ ℕ} → Merges m n → Merges n o → Merges m o
Merges-trans s t = record {
  keeps = λ x p h. t.keeps x (s.keeps x p h).0 (s.keeps x p h).1;
  adds_none = λ x p h. s.adds_none x (t.adds_none x p h).0 (t.adds_none x p h).1;
  together = λ x y h. t.together x y (s.together x y h);
}

SameRoots-Merges : {m m' : Map ℕ ℕ} → SameRoots m m' → Merges m m'
SameRoots-Merges s = record {
  keeps = s.keeps;
  adds_none = SameRoots-key s;
  together = λ x y t. (t.0, s.roots x t.0 t.1, s.roots y t.0 t.2);
}

-- What a run of `unite` gives.
pub data United (Link : ℕ → ℕ → Type 0) (m : Map ℕ ℕ) (fuel bound a b : ℕ) : Type 0 where
  united :
      (m' : Map ℕ ℕ)
      → unite fuel m a b ≡ some m'
      → IsForest Link m' (suc bound)
      → Merges m m'
      → Together m' a b
      → United Link m fuel bound a b

unite-run :
    (m m1 m2 : Map ℕ ℕ) (fuel a b ra rb : ℕ)
    → find fuel m a ≡ some (ra, m1)
    → find fuel m1 b ≡ some (rb, m2)
    → unite fuel m a b ≡ some (if nat_beq ra rb then m2 else insert ra rb m2)
unfolding unite
unite-run m m1 m2 fuel a b ra rb run_a run_b = rw (run_a, run_b)

module _ (Link : ℕ → ℕ → Type 0) where
  IsForest-SameRoots :
      {m m' : Map ℕ ℕ} {bound : ℕ} (forest : IsForest Link m bound)
      → SameRoots m m'
      → IsRanked m' forest.rank bound
      → IsForest Link m' bound
  IsForest-SameRoots forest s k = record {
    rank = forest.rank;
    ranked = k;
    sound = λ x r t. forest.sound x r (Root-back s forest.ranked x r t);
  }

  pub IsForest-suc : {m : Map ℕ ℕ} {bound : ℕ} → IsForest Link m bound → IsForest Link m (suc bound)
  IsForest-suc {m} {bound} forest = record {
    rank = forest.rank;
    ranked = record {
      grows = forest.ranked.grows;
      bounded = λ x p h. omega (arith, forest.ranked.bounded x p h);
      closed = forest.ranked.closed;
    };
    sound = forest.sound;
  }

  -- Two trees with linked roots made one.
  module _ (m : Map ℕ ℕ) (bound a b : ℕ) (forest : IsForest Link m bound) (apart : b ≢ a)
      (a_self : lookup a m ≡ some a) (b_self : lookup b m ≡ some b) (joined : Joined Link a b) where
    open forest use {ranked, sound}

    hang_sound : (x r : ℕ) → Root (insert a b m) x r → Joined Link x r
    hang_sound x r t =
        let w = hang-Root_inv m forest.rank bound ranked a b apart a_self b_self x r t in
        let within = sound x w.0 w.1 in
        elim (Bool-cases (nat_beq w.0 a)) [
          | inl here ↦
              let at : w.0 ≡ a = ground arith in
              let ends : r ≡ b = ground (arith, w.2) in
              subst (λ z. Joined Link x z) (sym ends)
                (chain x a b (subst (λ z. Joined Link x z) at within) joined)
          | inr other ↦
              let ends : r ≡ w.0 = ground (arith, w.2) in
              subst (λ z. Joined Link x z) (sym ends) within
        ]

    hang-IsForest : IsForest Link (insert a b m) (suc bound)
    hang-IsForest = record {
      rank = (hang-IsRanked m forest.rank bound ranked a b apart a_self b_self).0;
      ranked = (hang-IsRanked m forest.rank bound ranked a b apart a_self b_self).1;
      sound = hang_sound;
    }

    hang_keeps_pairs : (x y : ℕ) → Together m x y → Together (insert a b m) x y
    hang_keeps_pairs x y t = (
      moved a b t.0,
      hang-Root m forest.rank bound ranked a b apart a_self b_self t.1,
      hang-Root m forest.rank bound ranked a b apart a_self b_self t.2,
    )

    hang-Merges : Merges m (insert a b m)
    hang-Merges = record {
      keeps = hang-key m forest.rank bound ranked a b apart a_self b_self;
      adds_none = hang-key_inv m forest.rank bound ranked a b apart a_self b_self;
      together = hang_keeps_pairs;
    }

    -- A node under `a` and one under `b` come together.
    hang-pair : (x y : ℕ) → Root m x a → Root m y b → Together (insert a b m) x y
    hang-pair x y s t =
        let at_a : moved a b a ≡ b = ground arith in
        let at_b : moved a b b ≡ b = ground arith in
        (
          b,
          subst (λ z. Root (insert a b m) x z) at_a
              (hang-Root m forest.rank bound ranked a b apart a_self b_self s),
          subst (λ z. Root (insert a b m) y z) at_b
              (hang-Root m forest.rank bound ranked a b apart a_self b_self t),
        )

  -- `unite` where both searches are done.
  unite-United :
      (m m1 m2 : Map ℕ ℕ) (fuel bound a b ra rb : ℕ) (forest : IsForest Link m bound)
      → Joined Link a b
      → find fuel m a ≡ some (ra, m1)
      → find fuel m1 b ≡ some (rb, m2)
      → Root m a ra
      → Root m1 b rb
      → SameRoots m m1
      → SameRoots m1 m2
      → IsRanked m1 forest.rank bound
      → IsRanked m2 forest.rank bound
      → United Link m fuel bound a b
  unite-United m m1 m2 fuel bound a b ra rb forest joined run_a run_b root_a root_b s1 s2 k1 k2 =
      let both = SameRoots-trans s1 s2 in
      let forest2 = IsForest-SameRoots forest both k2 in
      let a_root = both.roots a ra root_a in
      let b_root = s2.roots b rb root_b in
      elim (Bool-cases (nat_beq ra rb)) [
        | inl one ↦
            united m2 (unite-run m m1 m2 fuel a b ra rb run_a run_b ∙ ground arith)
              (IsForest-suc forest2) (SameRoots-Merges both)
              (rb, subst (λ z. Root m2 a z) (ground arith) a_root, b_root)
        | inr two ↦
            let apart : rb ≢ ra = ground arith in
            let a_self = Root-self a_root in
            let b_self = Root-self b_root in
            let ends =
              chain ra a rb (back ra a (forest2.sound a ra a_root))
                (chain a b rb joined (forest2.sound b rb b_root)) in
            united (insert ra rb m2) (unite-run m m1 m2 fuel a b ra rb run_a run_b ∙ ground arith)
              (hang-IsForest m2 bound ra rb forest2 apart a_self b_self ends)
              (Merges-trans (SameRoots-Merges both)
                (hang-Merges m2 bound ra rb forest2 apart a_self b_self ends))
              (hang-pair m2 bound ra rb forest2 apart a_self b_self ends a b a_root b_root)
      ]

  pub unite_lem :
      (m : Map ℕ ℕ) (fuel bound a b p q : ℕ)
      → IsForest Link m bound
      → Joined Link a b
      → lookup a m ≡ some p
      → lookup b m ≡ some q
      → bound < fuel
      → United Link m fuel bound a b
  unite_lem m fuel bound a b p q forest joined has_a has_b enough =
      elim (find-Found forest.rank bound fuel m a p forest.ranked has_a (omega arith)) [
        | found ra m1 run_a root_a s1 k1 ↦
            let w = s1.keeps b q has_b in
            elim (find-Found forest.rank bound fuel m1 b w.0 k1 w.1 (omega arith)) [
              | found rb m2 run_b root_b s2 k2 ↦
                  unite-United m m1 m2 fuel bound a b ra rb forest joined run_a run_b root_a root_b
                    s1 s2 k1 k2
            ]
      ]
