-- ===== src/Balancer/Choice.antt =====
-- The cohort that `plan` picks among the candidates.
use scx_cohort.Balancer.{gap_after, key_lt, best_from, min_by_key}
use scx_cohort.Base.{
  ℕ, ◌-◌, ◌*◌, ◌^◌, ◌≤◌, ◌<◌, ◌≡◌, ◌⊎◌, refl, inl, inr, List, [], ◌∷◌, some, arith, leb,
  if◌then◌else◌, if_keeps, In,
}
use mathlib.Core.Path.{subst}
use scx_cohort.Domain.{CohortSnapshot}

-- What is left of a gap when a load crosses it.
abbrev pub distance : ℕ → ℕ → ℕ
distance gap load = if leb (2 * load) gap then gap - 2 * load else 2 * load - gap

-- The i64 arithmetic of the source is exact on loads below 2^62 and gaps below 2^63 nanoseconds.
pub gap_after-distance :
    (gap load : ℕ) → gap < 2 ^ 63 → load < 2 ^ 62 → gap_after gap load ≡ distance gap load
unfolding gap_after
gap_after-distance gap load g l = ground arith

-- `c` comes before `d`, or beside it, in the order of the keys.
abbrev pub NoWorse : ℕ → CohortSnapshot → CohortSnapshot → Type 0
NoWorse gap c d =
    (gap_after gap c.load_ns < gap_after gap d.load_ns)
    ⊎ ((gap_after gap c.load_ns ≡ gap_after gap d.load_ns) × (c.load_ns ≤ d.load_ns))

best_from_keeps :
    (P : CohortSnapshot → Type 0) (gap : ℕ) (c : CohortSnapshot) (cs : List CohortSnapshot)
    → P c
    → ((x : CohortSnapshot) → In x cs → P x)
    → P (best_from gap c cs)
unfolding best_from
best_from_keeps P gap c [] p h = p
best_from_keeps P gap c (x ∷ cs) p h =
    best_from_keeps P gap (if key_lt gap x c then x else c) cs
      (if_keeps P (key_lt gap x c) (h x (inl refl)) p) (λ y m. h y (inr m))

NoWorse-trans :
    (gap : ℕ) (a b c : CohortSnapshot) → NoWorse gap a b → NoWorse gap b c → NoWorse gap a c
NoWorse-trans gap a b c p q = ground arith

step_NoWorse :
    (gap : ℕ) (x c : CohortSnapshot)
    → NoWorse gap (if key_lt gap x c then x else c) c
      × NoWorse gap (if key_lt gap x c then x else c) x
unfolding key_lt
step_NoWorse gap x c = ground arith

best_from-NoWorse_self :
    (gap : ℕ) (c : CohortSnapshot) (cs : List CohortSnapshot) → NoWorse gap (best_from gap c cs) c
unfolding best_from
best_from-NoWorse_self gap c [] = ground arith
best_from-NoWorse_self gap c (x ∷ cs) =
    NoWorse-trans gap (best_from gap c (x ∷ cs)) (if key_lt gap x c then x else c) c
      (best_from-NoWorse_self gap (if key_lt gap x c then x else c) cs) (step_NoWorse gap x c).0

best_from-NoWorse :
    (gap : ℕ) (c : CohortSnapshot) (cs : List CohortSnapshot) (d : CohortSnapshot)
    → In d (c ∷ cs)
    → NoWorse gap (best_from gap c cs) d
unfolding best_from
best_from-NoWorse gap c cs d (inl e) = rw e (best_from-NoWorse_self gap c cs)
best_from-NoWorse gap c [] d (inr m) = elim m [ ]
best_from-NoWorse gap c (x ∷ cs) d (inr (inl e)) = rw e (
    NoWorse-trans gap (best_from gap c (x ∷ cs)) (if key_lt gap x c then x else c) x
      (best_from-NoWorse_self gap (if key_lt gap x c then x else c) cs) (step_NoWorse gap x c).1)
best_from-NoWorse gap c (x ∷ cs) d (inr (inr m)) =
    best_from-NoWorse gap (if key_lt gap x c then x else c) cs d (inr m)

-- What `min_by_key` returns is listed, and no other comes before it.
pub min_by_key-some :
    (gap : ℕ) (cs : List CohortSnapshot) (c : CohortSnapshot)
    → min_by_key gap cs ≡ some c
    → In c cs × ((d : CohortSnapshot) → In d cs → NoWorse gap c d)
unfolding min_by_key
min_by_key-some gap [] c h = absurd (cc)
min_by_key-some gap (x ∷ cs) c h =
    let e : best_from gap x cs ≡ c = cc in
    (
      subst (λ y. In y (x ∷ cs)) e
          (best_from_keeps (λ y. In y (x ∷ cs)) gap x cs (inl refl) (λ y m. inr m)),
      λ d md. subst (λ y. NoWorse gap y d) e (best_from-NoWorse gap x cs d md),
    )

-- It returns something of every list with an element.
pub min_by_key_total :
    (gap : ℕ) (cs : List CohortSnapshot) (d : CohortSnapshot)
    → In d cs
    → (c : CohortSnapshot) × (min_by_key gap cs ≡ some c)
unfolding min_by_key
min_by_key_total gap [] d m = absurd m
min_by_key_total gap (x ∷ cs) d m = (best_from gap x cs, refl)
