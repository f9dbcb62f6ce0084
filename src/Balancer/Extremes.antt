-- ===== src/Balancer/Extremes.antt =====
-- The most and the least loaded LLC that `plan` works between.
use scx_cohort.Balancer.{max_by_load, min_by_load}
use scx_cohort.Base.{
  ◌≤◌, refl, inl, inr, List, [], ◌∷◌, arith, ltb, leb, if◌then◌else◌, if_keeps, In,
}
use scx_cohort.Domain.{LlcLoad}

max_by_load_keeps :
    (P : LlcLoad → Type 0) (l : LlcLoad) (ls : List LlcLoad)
    → P l
    → ((x : LlcLoad) → In x ls → P x)
    → P (max_by_load l ls)
unfolding max_by_load
max_by_load_keeps P l [] p h = p
max_by_load_keeps P l (x ∷ ls) p h =
    max_by_load_keeps P (if leb l.load_ns x.load_ns then x else l) ls
      (if_keeps P (leb l.load_ns x.load_ns) (h x (inl refl)) p) (λ y m. h y (inr m))

min_by_load_keeps :
    (P : LlcLoad → Type 0) (l : LlcLoad) (ls : List LlcLoad)
    → P l
    → ((x : LlcLoad) → In x ls → P x)
    → P (min_by_load l ls)
unfolding min_by_load
min_by_load_keeps P l [] p h = p
min_by_load_keeps P l (x ∷ ls) p h =
    min_by_load_keeps P (if ltb x.load_ns l.load_ns then x else l) ls
      (if_keeps P (ltb x.load_ns l.load_ns) (h x (inl refl)) p) (λ y m. h y (inr m))

pub max_by_load-In : (l : LlcLoad) (ls : List LlcLoad) → In (max_by_load l ls) (l ∷ ls)
max_by_load-In l ls = max_by_load_keeps (λ y. In y (l ∷ ls)) l ls (inl refl) (λ x m. inr m)

pub min_by_load-In : (l : LlcLoad) (ls : List LlcLoad) → In (min_by_load l ls) (l ∷ ls)
min_by_load-In l ls = min_by_load_keeps (λ y. In y (l ∷ ls)) l ls (inl refl) (λ x m. inr m)

max_by_load-ge_self : (l : LlcLoad) (ls : List LlcLoad) → l.load_ns ≤ (max_by_load l ls).load_ns
unfolding max_by_load
max_by_load-ge_self l [] = omega arith
max_by_load-ge_self l (x ∷ ls) =
    ground (arith, max_by_load-ge_self (if leb l.load_ns x.load_ns then x else l) ls)

min_by_load-le_self : (l : LlcLoad) (ls : List LlcLoad) → (min_by_load l ls).load_ns ≤ l.load_ns
unfolding min_by_load
min_by_load-le_self l [] = omega arith
min_by_load-le_self l (x ∷ ls) =
    ground (arith, min_by_load-le_self (if ltb x.load_ns l.load_ns then x else l) ls)

-- Every load lies below the greatest and above the least.
pub max_by_load-ge :
    (l : LlcLoad) (ls : List LlcLoad) (x : LlcLoad)
    → In x (l ∷ ls)
    → x.load_ns ≤ (max_by_load l ls).load_ns
unfolding max_by_load
max_by_load-ge l ls x (inl e) = rw e (max_by_load-ge_self l ls)
max_by_load-ge l [] x (inr m) = elim m [ ]
max_by_load-ge l (y ∷ ls) x (inr (inl e)) =
    ground (arith, max_by_load-ge_self (if leb l.load_ns y.load_ns then y else l) ls)
max_by_load-ge l (y ∷ ls) x (inr (inr m)) =
    max_by_load-ge (if leb l.load_ns y.load_ns then y else l) ls x (inr m)

pub min_by_load-le :
    (l : LlcLoad) (ls : List LlcLoad) (x : LlcLoad)
    → In x (l ∷ ls)
    → (min_by_load l ls).load_ns ≤ x.load_ns
unfolding min_by_load
min_by_load-le l ls x (inl e) = rw e (min_by_load-le_self l ls)
min_by_load-le l [] x (inr m) = elim m [ ]
min_by_load-le l (y ∷ ls) x (inr (inl e)) =
    ground (arith, min_by_load-le_self (if ltb y.load_ns l.load_ns then y else l) ls)
min_by_load-le l (y ∷ ls) x (inr (inr m)) =
    min_by_load-le (if ltb y.load_ns l.load_ns then y else l) ls x (inr m)
