-- ===== src/WakeGraph/UnionFind/Classes.antt =====
-- scx_cohort/src/wake_graph.rs, the union-find: the loop over the edges, from each member on its own.
use scx_cohort.Base.Map.Laws.{lookup-insert, contains_key-some, contains_key_of_some}
use scx_cohort.Base.Floats.{Floats}
use scx_cohort.Base.Map.{Map, lookup, insert, contains_key, from_list}
use scx_cohort.Base.{
  ℕ, ◌+◌, ◌<◌, ◌≡◌, refl, sym, subst, ◌∙◌, ◌↔◌, inl, inr, ◌⊎◌, true, some, List, [], ◌∷◌, map,
  arith, nat_beq, nat_key, Bool-cases, length, In,
}
use scx_cohort.WakeGraph.{WakeGraphCfg, EdgeState}
use scx_cohort.WakeGraph.UnionFind.{singletons, unite_edges}
use scx_cohort.WakeGraph.UnionFind.Roots.{Root, top, up, Root-unique}
use scx_cohort.WakeGraph.UnionFind.Union.{Root-total}
use scx_cohort.WakeGraph.UnionFind.Forest.{
  Joined, same, link, back, chain, Together, IsForest, Merges,
}
use scx_cohort.WakeGraph.UnionFind.Sweep.{IsLive, swept, sweep}

abbrev pub IsMember : List (ℕ × ℕ) → ℕ → Type 0
IsMember members t = (n : ℕ) × In (t, n) members

-- Every node its own parent: what `singletons` gives.
from_list-diagonal :
    (members : List (ℕ × ℕ)) (m : Map ℕ ℕ)
    → ((x p : ℕ) → lookup x m ≡ some p → p ≡ x)
    → (x p : ℕ) → lookup x (from_list (map (λ t. (t.0, t.0)) members) m) ≡ some p
    → p ≡ x
unfolding from_list
from_list-diagonal [] m d = d
from_list-diagonal ((t, n) ∷ members) m d = from_list-diagonal members (insert t t m) next
  where
    next : (x p : ℕ) → lookup x (insert t t m) ≡ some p → p ≡ x
    next x p h =
        let e = lookup-insert t x t m in
        elim (Bool-cases (nat_beq x t)) [
          | inl here ↦ let e' : some p ≡ some t = sym h ∙ e ∙ ground arith in ground arith
          | inr there ↦ d x p (sym (e ∙ ground arith) ∙ h)
        ]

from_list-keeps :
    (members : List (ℕ × ℕ)) (m : Map ℕ ℕ) (x p : ℕ)
    → lookup x m ≡ some p
    → (q : ℕ) × (lookup x (from_list (map (λ t. (t.0, t.0)) members) m) ≡ some q)
unfolding from_list
from_list-keeps [] m x p h = (p, h)
from_list-keeps ((t, n) ∷ members) m x p h = elim (Bool-cases (nat_beq x t)) [
  | inl here ↦ from_list-keeps members (insert t t m) x t (lookup-insert t x t m ∙ ground arith)
  | inr there ↦ from_list-keeps members (insert t t m) x p (lookup-insert t x t m ∙ ground arith)
]

from_list-has :
    (members : List (ℕ × ℕ)) (m : Map ℕ ℕ) (x n : ℕ)
    → In (x, n) members
    → (q : ℕ) × (lookup x (from_list (map (λ t. (t.0, t.0)) members) m) ≡ some q)
unfolding from_list
from_list-has [] m x n i = absurd i
from_list-has ((t, k) ∷ members) m x n (inl e) =
    from_list-keeps members (insert t t m) x t (lookup-insert t x t m ∙ ground arith)
from_list-has ((t, k) ∷ members) m x n (inr i) = from_list-has members (insert t t m) x n i

from_list-only :
    (members : List (ℕ × ℕ)) (m : Map ℕ ℕ) (x p : ℕ)
    → lookup x (from_list (map (λ t. (t.0, t.0)) members) m) ≡ some p
    → (lookup x m ≡ some p) ⊎ IsMember members x
unfolding from_list
from_list-only [] m x p h = inl h
from_list-only ((t, n) ∷ members) m x p h = elim (from_list-only members (insert t t m) x p h) [
  | inl i ↦ elim (Bool-cases (nat_beq x t)) [
    | inl here ↦ inr (n, inl (ground arith))
    | inr there ↦ inl (sym (lookup-insert t x t m ∙ ground arith) ∙ i)
  ]
  | inr i ↦ inr (i.0, inr i.1)
]

singletons-IsMember :
    (members : List (ℕ × ℕ)) (x : ℕ)
    → contains_key x (singletons members) ≡ true
    → IsMember members x
unfolding singletons lookup
singletons-IsMember members x h =
    let p = contains_key-some x (singletons members) h in
    elim (from_list-only members [] x p.0 p.1) [ inl none_yet ↦ absurd (cc) | inr m ↦ m ]

pub singletons-has :
    (members : List (ℕ × ℕ)) (x : ℕ)
    → IsMember members x
    → (q : ℕ) × (lookup x (singletons members) ≡ some q)
unfolding singletons
singletons-has members x m = from_list-has members [] x m.0 m.1

singletons_self :
    (members : List (ℕ × ℕ)) (x p : ℕ) → lookup x (singletons members) ≡ some p → p ≡ x
unfolding singletons lookup
singletons_self members = from_list-diagonal members [] (λ x p h. absurd (cc))

singletons_sound :
    (Link : ℕ → ℕ → Type 0) (members : List (ℕ × ℕ)) (x r : ℕ)
    → Root (singletons members) x r
    → Joined Link x r
singletons_sound Link members x r (top y s h e) = subst (λ z. Joined Link x z) (sym e) (same x)
singletons_sound Link members x r (up y s p h n t) = absurd (n (singletons_self members x p h))

singletons-IsForest :
    (Link : ℕ → ℕ → Type 0) (members : List (ℕ × ℕ)) → IsForest Link (singletons members) 0
singletons-IsForest Link members = record {
  rank = λ x. 0;
  ranked = record {
    grows = λ x p h n. absurd (n (singletons_self members x p h));
    bounded = λ x p h. omega arith;
    closed = λ x p h.
        let e = singletons_self members x p h in
        (
          x,
          subst (λ z. lookup z (singletons members) ≡ some x) (sym e)
              (subst (λ z. lookup x (singletons members) ≡ some z) e h),
        );
  };
  sound = λ x r t. singletons_sound Link members x r t;
}

-- Of one tree, from a chain of links.
Joined-Together :
    {Link : ℕ → ℕ → Type 0} (m : Map ℕ ℕ)
    → ((a b : ℕ) → Link a b → Together m a b)
    → (x y : ℕ) → Joined Link x y
    → (x ≡ y) ⊎ Together m x y
Joined-Together m links x y (same z) = inl refl
Joined-Together m links x y (link a b l) = inr (links a b l)
Joined-Together m links x y (back a b j) = elim (Joined-Together m links b a j) [
  | inl e ↦ inl (sym e)
  | inr t ↦ inr (t.0, t.2, t.1)
]
Joined-Together {Link} m links x y (chain a b c i j) = elim (Joined-Together m links a b i) [
  | inl e ↦ elim (Joined-Together m links b c j) [
    | inl e' ↦ inl (e ∙ e')
    | inr t ↦ inr (subst (λ z. Together m z c) (sym e) t)
  ]
  | inr t ↦ elim (Joined-Together m links b c j) [
    | inl e' ↦ inr (subst (λ z. Together m a z) e' t)
    | inr t' ↦ inr (t.0, t.1, subst (λ z. Root m c z) (Root-unique t'.1 t.0 t.2) t'.2)
  ]
]

module _ (f : Floats) (cfg : WakeGraphCfg f.F64) (edges : Map (ℕ × ℕ) (EdgeState f.F64))
    (members : List (ℕ × ℕ)) where
  -- A live edge between members.
  abbrev pub Between : ℕ → ℕ → Type 0
  Between a b = IsMember members a × IsMember members b × IsLive f cfg edges a b

  pub data Classes (fuel : ℕ) : Type 0 where
    classes :
        (m : Map ℕ ℕ)
        → unite_edges f fuel cfg edges (singletons members) ≡ some m
        → IsForest Between m (length edges)
        → Merges (singletons members) m
        → ((x y : ℕ) → IsMember members x → (Together m x y) ↔ (Joined Between x y))
        → Classes fuel

  Together-Joined :
      (m : Map ℕ ℕ) (x y bound : ℕ) → IsForest Between m bound → Together m x y → Joined Between x y
  Together-Joined m x y bound forest t =
      chain x t.0 y (forest.sound x t.0 t.1) (back t.0 y (forest.sound y t.0 t.2))

  linked_pairs :
      (m : Map ℕ ℕ) {bound : ℕ}
      → Merges (singletons members) m
      → IsForest Between m bound
      → ((a b : ℕ)
          → IsLive f cfg edges a b
          → contains_key a (singletons members) ≡ true
          → contains_key b (singletons members) ≡ true
          → Together m a b)
      → (x y : ℕ) → IsMember members x
      → Joined Between x y
      → Together m x y
  linked_pairs m merges forest pairs x y member joined =
      let w = singletons-has members x member in
      let v = merges.keeps x w.0 w.1 in
      let root = Root-total forest.ranked x v.0 v.1 in
      elim (Joined-Together m (λ a b l. pairs a b l.2 (member-key a l.0) (member-key b l.1)) x y
        joined) [ inl e ↦ subst (λ z. Together m x z) e (root.0, root.1, root.1) | inr t ↦ t ]
    where
      member-key : (a : ℕ) → IsMember members a → contains_key a (singletons members) ≡ true
      member-key a i =
          let q = singletons-has members a i in contains_key_of_some a q.0 (singletons members) q.1

  pub unite_edges-Classes : (fuel : ℕ) → length edges < fuel → Classes fuel
  unite_edges-Classes fuel enough =
      elim (sweep f cfg Between fuel edges 0 (singletons members)
        (singletons-IsForest Between members) (omega arith)
        (λ a b live i j.
          (singletons-IsMember members a i, singletons-IsMember members b j, live))) [
            | swept m run forest merges pairs ↦
                classes m run (subst (λ n. IsForest Between m n) (omega arith) forest) merges
                  (λ x y member. (
                    Together-Joined m x y (0 + length edges) forest,
                    linked_pairs m merges forest pairs x y member,
                  ))
          ]
