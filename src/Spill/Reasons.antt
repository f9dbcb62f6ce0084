-- ===== src/Spill/Reasons.antt =====
-- Why a task is in the new spill set.
use scx_cohort.Balancer.Extremes.{min_by_load-In, min_by_load-le}
use scx_cohort.Balancer.{min_by_load}
use scx_cohort.Base.Map.Laws.{lookup-insert}
use scx_cohort.Base.Map.{Map, insert, lookup, contains_key}
use scx_cohort.Base.Words.{add64}
use scx_cohort.Base.{
  ℕ, ◌≤◌, ◌<◌, ◌≡◌, ◌≢◌, refl, sym, subst, inl, inr, ◌&&◌, not, some, List, [], ◌∷◌, arith, nat_beq,
  nat_key, Bool-cases, Option-cases, if◌then◌else◌, if_keeps, In, In-keep, In-map_inv, keep-In,
  keep, any, leb, ltb,
}
use scx_cohort.Domain.{LlcLoad, CohortSnapshot, TaskSnapshot}
use scx_cohort.Spill.Loop.{
  spill_all_keeps, Iteration, homeless, calm, held, grown, spill_cohort-Iteration,
}
use scx_cohort.Spill.{
  SpillCfg, capacities, first_llc, already_spilled, cold_members, insert_by_duty, sort_by_duty,
  spill_target, keep_spilled, grow, spill_more, plan_spills, mark, shed_by,
}

-- A least loaded LLC other than the home.
pub record IsRefuge (llcs : List LlcLoad) (c : CohortSnapshot) (llc : ℕ) : Type 0 where
  pub place : LlcLoad
  pub listed : In place llcs
  pub named : place.llc ≡ llc
  pub away : place.llc ≢ c.home_llc
  pub least : (l : LlcLoad) → In l llcs → l.llc ≢ c.home_llc → place.load_ns ≤ l.load_ns

-- A task stays spilled to the LLC where it is, as a member of a cohort that is not calm; or it is
-- newly spilled, as a cold member of an overloaded cohort, to a least loaded LLC away from home.
pub data Reason (cfg : SpillCfg) (llcs : List LlcLoad) (cohorts : List CohortSnapshot)
    (tasks : List TaskSnapshot) (current : Map ℕ ℕ) (pid llc : ℕ) : Type 0 where
  stays :
      (c : CohortSnapshot) (t : TaskSnapshot) (room : ℕ)
      → In c cohorts
      → In t tasks
      → t.pid ≡ pid
      → t.cohort_id ≡ c.id
      → lookup c.home_llc (capacities llcs) ≡ some room
      → mark room cfg.low_pct ≤ c.load_ns
      → lookup pid current ≡ some llc
      → Reason cfg llcs cohorts tasks current pid llc
  leaves :
      (c : CohortSnapshot) (t : TaskSnapshot) (room : ℕ)
      → In c cohorts
      → In t tasks
      → t.pid ≡ pid
      → t.cohort_id ≡ c.id
      → lookup c.home_llc (capacities llcs) ≡ some room
      → mark room cfg.low_pct ≤ c.load_ns
      → mark room cfg.high_pct ≤ c.load_ns
      → t.duty_ns < mark cfg.tick_ns cfg.cold_max_pct
      → IsRefuge llcs c llc
      → Reason cfg llcs cohorts tasks current pid llc

first_llc-some :
    (ls : List LlcLoad) (llc : ℕ)
    → first_llc ls ≡ some llc
    → (l : LlcLoad) × In l ls × (l.llc ≡ llc) × ((x : LlcLoad) → In x ls → l.load_ns ≤ x.load_ns)
first_llc-some [] llc e = absurd (cc)
first_llc-some (l ∷ ls) llc e = (min_by_load l ls, min_by_load-In l ls, cc, min_by_load-le l ls)

pub spill_target-IsRefuge :
    (c : CohortSnapshot) (llcs : List LlcLoad) (llc : ℕ)
    → spill_target c llcs ≡ some llc
    → IsRefuge llcs c llc
unfolding spill_target
spill_target-IsRefuge c llcs llc e =
    let other = λ (l : LlcLoad). not (nat_beq l.llc c.home_llc) in
    let (l, i, named, least) = first_llc-some (keep other llcs) llc e in
    let (listed, away) = In-keep other llcs l i in
    record {
      place = l;
      listed = listed;
      named = named;
      away = ground arith;
      least = λ x ix ne. least x (keep-In other llcs x ix (ground arith));
    }

not-some : (pid llc : ℕ) (m : Map ℕ ℕ) → [] ≡ m → lookup pid m ≡ some llc → ⊥
unfolding lookup
not-some pid llc [] e f = cc
not-some pid llc (x ∷ m) e f = cc

module _ (P : ℕ → ℕ → Type 0) where
  -- Each entry of the set has the property.
  abbrev Each : Map ℕ ℕ → Type 0
  Each m = (pid llc : ℕ) → lookup pid m ≡ some llc → P pid llc

  insert-Each : (k v : ℕ) (m : Map ℕ ℕ) → P k v → Each m → Each (insert k v m)
  insert-Each k v m p h pid llc e = elim (Bool-cases (nat_beq k pid)) [
    | inl y ↦
        let same : k ≡ pid = ground arith in
        let value : v ≡ llc = ground (arith, lookup-insert k pid v m) in
        subst (λ x. P x llc) same (subst (λ x. P k x) value p)
    | inr n ↦ h pid llc (ground (arith, lookup-insert k pid v m))
  ]

  keep_spilled-Each :
      (current : Map ℕ ℕ) (pids : List ℕ) (m m' : Map ℕ ℕ)
      → ((pid llc : ℕ) → In pid pids → lookup pid current ≡ some llc → P pid llc)
      → Each m
      → keep_spilled current pids m ≡ some m'
      → Each m'
  unfolding keep_spilled
  keep_spilled-Each current [] m m' p h e = let e' : m ≡ m' = cc in subst Each e' h
  keep_spilled-Each current (k ∷ pids) m m' p h e = elim (Option-cases (lookup k current)) [
    | inl n ↦ absurd (ground arith)
    | inr (v, f) ↦
        keep_spilled-Each current pids (insert k v m) m' (λ pid llc i. p pid llc (inr i))
          (insert-Each k v m (p k v (inl refl) f) h) (ground arith)
  ]

  grow-Each :
      (target excess shed : ℕ) (ts : List TaskSnapshot) (m : Map ℕ ℕ)
      → ((t : TaskSnapshot) → In t ts → P t.pid target)
      → Each m
      → Each (grow target excess shed ts m)
  unfolding grow
  grow-Each target excess shed [] m p h = h
  grow-Each target excess shed (t ∷ ts) m p h = if_keeps Each (leb excess shed) h (
      grow-Each target excess (add64 shed (shed_by t)) ts (insert t.pid target m)
        (λ u i. p u (inr i)) (insert-Each t.pid target m (p t (inl refl)) h))

insert_by_duty-In :
    (x t : TaskSnapshot) (ts : List TaskSnapshot) → In x (insert_by_duty t ts) → In x (t ∷ ts)
unfolding insert_by_duty
insert_by_duty-In x t [] i = i
insert_by_duty-In x t (u ∷ us) i = elim (Bool-cases (leb t.duty_ns u.duty_ns)) [
  | inl y ↦ rw y at i
  | inr n ↦ elim (rw (n, if◌then◌else◌) at i) [
    | inl here ↦ inr (inl here)
    | inr there ↦ elim (insert_by_duty-In x t us there) [ inl e ↦ inl e | inr j ↦ inr (inr j) ]
  ]
]

sort_by_duty-In : (x : TaskSnapshot) (ts : List TaskSnapshot) → In x (sort_by_duty ts) → In x ts
unfolding sort_by_duty
sort_by_duty-In x [] i = i
sort_by_duty-In x (t ∷ ts) i = elim (insert_by_duty-In x t (sort_by_duty ts) i) [
  | inl e ↦ inl e
  | inr j ↦ inr (sort_by_duty-In x ts j)
]

module _ (cfg : SpillCfg) (llcs : List LlcLoad) (cohorts : List CohortSnapshot)
    (tasks : List TaskSnapshot) (current : Map ℕ ℕ) where
  already_spilled-stays :
      (c : CohortSnapshot) (room pid llc : ℕ)
      → In c cohorts
      → lookup c.home_llc (capacities llcs) ≡ some room
      → mark room cfg.low_pct ≤ c.load_ns
      → In pid (already_spilled c tasks current)
      → lookup pid current ≡ some llc
      → Reason cfg llcs cohorts tasks current pid llc
  unfolding already_spilled
  already_spilled-stays c room pid llc ic known low i e =
      let mine = λ (t : TaskSnapshot). nat_beq t.cohort_id c.id && contains_key t.pid current in
      let (t, it, same) = In-map_inv (λ (t : TaskSnapshot). t.pid) (keep mine tasks) pid i in
      let (listed, test) = In-keep mine tasks t it in
      stays c t room ic listed (sym same) (ground arith) known low e

  cold_members-leaves :
      (c : CohortSnapshot) (room target : ℕ) (already : List ℕ) (t : TaskSnapshot)
      → In c cohorts
      → lookup c.home_llc (capacities llcs) ≡ some room
      → mark room cfg.low_pct ≤ c.load_ns
      → mark room cfg.high_pct ≤ c.load_ns
      → spill_target c llcs ≡ some target
      → In t (cold_members c tasks already (mark cfg.tick_ns cfg.cold_max_pct))
      → Reason cfg llcs cohorts tasks current t.pid target
  unfolding cold_members
  cold_members-leaves c room target already t ic known low high goal i =
      let test = λ (t : TaskSnapshot).
        nat_beq t.cohort_id c.id
        && not (any (nat_beq t.pid) already)
        && ltb t.duty_ns (mark cfg.tick_ns cfg.cold_max_pct) in
      let (listed, passed) = In-keep test tasks t i in
      leaves c t room ic listed refl (ground arith) known low high (ground arith)
        (spill_target-IsRefuge c llcs target goal)

  Iteration-Reason :
      (c : CohortSnapshot) (m m' : Map ℕ ℕ)
      → In c cohorts
      → Each (Reason cfg llcs cohorts tasks current) m
      → Iteration cfg llcs tasks current c m m'
      → Each (Reason cfg llcs cohorts tasks current) m'
  unfolding spill_more
  Iteration-Reason c m m' ic h (homeless n e) = rw e h
  Iteration-Reason c m m' ic h (calm room k b e) = rw e h
  Iteration-Reason c m m' ic h (held room target k lo hi t s) =
      keep_spilled-Each (Reason cfg llcs cohorts tasks current) current
        (already_spilled c tasks current) m m'
        (λ pid llc. already_spilled-stays c room pid llc ic k lo) h s
  Iteration-Reason c m m' ic h (grown room target sticky k lo hi t s e) = rw e (
      grow-Each (Reason cfg llcs cohorts tasks current) target _ 0 _ sticky
        (λ u i. cold_members-leaves c room target _ u ic k lo hi t (sort_by_duty-In u _ i))
        (keep_spilled-Each (Reason cfg llcs cohorts tasks current) current
          (already_spilled c tasks current) m sticky
          (λ pid llc. already_spilled-stays c room pid llc ic k lo) h s))

-- Every entry of the new set has its reason.
pub plan_spills-Reason :
    (cfg : SpillCfg) (llcs : List LlcLoad) (cohorts : List CohortSnapshot)
    (tasks : List TaskSnapshot) (current m : Map ℕ ℕ)
    → plan_spills cfg llcs cohorts tasks current ≡ some m
    → (pid llc : ℕ) → lookup pid m ≡ some llc
    → Reason cfg llcs cohorts tasks current pid llc
unfolding plan_spills lookup
plan_spills-Reason cfg [] cohorts tasks current m e pid llc f =
    let e' : [] ≡ m = cc in absurd (not-some pid llc m e' f)
plan_spills-Reason cfg (l ∷ []) cohorts tasks current m e pid llc f =
    let e' : [] ≡ m = cc in absurd (not-some pid llc m e' f)
plan_spills-Reason cfg (l ∷ k ∷ ls) cohorts tasks current m e pid llc f =
    let llcs = l ∷ k ∷ ls in
    spill_all_keeps cfg llcs tasks current (Each (Reason cfg llcs cohorts tasks current)) cohorts
      (λ c i n n' h s.
        Iteration-Reason cfg llcs cohorts tasks current c n n' i h
          (spill_cohort-Iteration cfg llcs tasks current c n n' s))
      [] m (λ p v x. absurd (cc)) e pid llc f
