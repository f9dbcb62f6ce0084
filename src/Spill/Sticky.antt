-- ===== src/Spill/Sticky.antt =====
-- scx_cohort/src/balancer.rs, `plan_spills`: the tasks that are spilled already.
use scx_cohort.Base.Map.Laws.{contains_key-insert}
use scx_cohort.Base.Map.{Map, insert, lookup, contains_key}
use scx_cohort.Base.Words.{add64}
use scx_cohort.Base.{
  ℕ, ◌≤◌, ◌≡◌, subst, inl, inr, ◌&&◌, true, some, List, [], ◌∷◌, arith, nat_beq, nat_key,
  Option-cases, In, In-map, keep-In,
}
use scx_cohort.Domain.{LlcLoad, CohortSnapshot, TaskSnapshot}
use scx_cohort.Spill.Loop.{
  spill_all_reaches, Iteration, homeless, calm, held, grown, spill_cohort-Iteration,
}
use scx_cohort.Spill.{
  SpillCfg, capacities, already_spilled, keep_spilled, grow, spill_more, spill_cohort, plan_spills,
  mark, shed_by,
}

-- The set only grows: `m'` holds every task that `m` holds.
abbrev pub Extends : Map ℕ ℕ → Map ℕ ℕ → Type 0
Extends m m' = (pid : ℕ) → contains_key pid m ≡ true → contains_key pid m' ≡ true

pub insert-Extends : (k v : ℕ) (m : Map ℕ ℕ) → Extends m (insert k v m)
insert-Extends k v m pid h = ground (arith, contains_key-insert k pid v m)

pub keep_spilled-Extends :
    (current : Map ℕ ℕ) (pids : List ℕ) (m m' : Map ℕ ℕ)
    → keep_spilled current pids m ≡ some m'
    → Extends m m'
unfolding keep_spilled
keep_spilled-Extends current [] m m' e pid h =
    let e' : m ≡ m' = cc in subst (λ n. contains_key pid n ≡ true) e' h
keep_spilled-Extends current (p ∷ pids) m m' e pid h = elim (Option-cases (lookup p current)) [
  | inl n ↦ absurd (ground arith)
  | inr (llc, f) ↦
      keep_spilled-Extends current pids (insert p llc m) m' (ground arith) pid
        (insert-Extends p llc m pid h)
]

keep_spilled-contains :
    (current : Map ℕ ℕ) (pids : List ℕ) (m m' : Map ℕ ℕ) (pid : ℕ)
    → In pid pids
    → keep_spilled current pids m ≡ some m'
    → contains_key pid m' ≡ true
unfolding keep_spilled
keep_spilled-contains current [] m m' pid i e = absurd i
keep_spilled-contains current (p ∷ pids) m m' pid (inl same) e =
    elim (Option-cases (lookup p current)) [
      | inl n ↦ absurd (ground arith)
      | inr (llc, f) ↦
          keep_spilled-Extends current pids (insert p llc m) m' (ground arith) pid
            (ground (arith, contains_key-insert p pid llc m))
    ]
keep_spilled-contains current (p ∷ pids) m m' pid (inr i) e =
    elim (Option-cases (lookup p current)) [
      | inl n ↦ absurd (ground arith)
      | inr (llc, f) ↦ keep_spilled-contains current pids (insert p llc m) m' pid i (ground arith)
    ]

pub grow-Extends :
    (target excess shed : ℕ) (ts : List TaskSnapshot) (m : Map ℕ ℕ)
    → Extends m (grow target excess shed ts m)
unfolding grow
grow-Extends target excess shed [] m pid h = h
grow-Extends target excess shed (t ∷ ts) m pid h = ground (
  arith,
  grow-Extends target excess (add64 shed (shed_by t)) ts (insert t.pid target m) pid,
  insert-Extends t.pid target m pid h,
)

module _ (cfg : SpillCfg) (llcs : List LlcLoad) (tasks : List TaskSnapshot)
    (current : Map ℕ ℕ) where
  Iteration-Extends :
      (c : CohortSnapshot) (m m' : Map ℕ ℕ) → Iteration cfg llcs tasks current c m m' → Extends m m'
  unfolding spill_more
  Iteration-Extends c m m' (homeless n e) pid h = rw e h
  Iteration-Extends c m m' (calm room k b e) pid h = rw e h
  Iteration-Extends c m m' (held room target k lo hi t s) pid h =
      keep_spilled-Extends current _ m m' s pid h
  Iteration-Extends c m m' (grown room target sticky k lo hi t s e) pid h =
      rw e (grow-Extends target _ 0 _ sticky pid (keep_spilled-Extends current _ m sticky s pid h))

  pub spill_cohort-Extends :
      (c : CohortSnapshot) (m m' : Map ℕ ℕ)
      → spill_cohort cfg llcs tasks current c m ≡ some m'
      → Extends m m'
  spill_cohort-Extends c m m' e =
      Iteration-Extends c m m' (spill_cohort-Iteration cfg llcs tasks current c m m' e)

  already_spilled-In :
      (c : CohortSnapshot) (t : TaskSnapshot)
      → In t tasks
      → t.cohort_id ≡ c.id
      → contains_key t.pid current ≡ true
      → In t.pid (already_spilled c tasks current)
  unfolding already_spilled
  already_spilled-In c t i mine h =
      In-map (λ (u : TaskSnapshot). u.pid) _ t
        (keep-In (λ (u : TaskSnapshot). nat_beq u.cohort_id c.id && contains_key u.pid current)
          tasks t i (ground arith))

  Iteration-sticky :
      (c : CohortSnapshot) (m m' : Map ℕ ℕ) (room : ℕ) (t : TaskSnapshot)
      → Iteration cfg llcs tasks current c m m'
      → lookup c.home_llc (capacities llcs) ≡ some room
      → mark room cfg.low_pct ≤ c.load_ns
      → In t.pid (already_spilled c tasks current)
      → contains_key t.pid m' ≡ true
  unfolding spill_more
  Iteration-sticky c m m' room t (homeless n e) known low i = absurd (cc)
  Iteration-sticky c m m' room t (calm r k b e) known low i =
      let same : r ≡ room = cc in absurd (ground arith)
  Iteration-sticky c m m' room t (held r target k lo hi tt' s) known low i =
      keep_spilled-contains current _ m m' t.pid i s
  Iteration-sticky c m m' room t (grown r target sticky k lo hi tt' s e) known low i =
      rw e (
        grow-Extends target _ 0 _ sticky t.pid (keep_spilled-contains current _ m sticky t.pid i s))

-- While a cohort's load is at or above the low mark of its home LLC, each of its tasks that is
-- spilled stays spilled.
pub plan_spills_sticky :
    (cfg : SpillCfg) (l k : LlcLoad) (ls : List LlcLoad) (cohorts : List CohortSnapshot)
    (tasks : List TaskSnapshot) (current m : Map ℕ ℕ)
    → plan_spills cfg (l ∷ k ∷ ls) cohorts tasks current ≡ some m
    → (c : CohortSnapshot) (room : ℕ) (t : TaskSnapshot) → In c cohorts
    → lookup c.home_llc (capacities (l ∷ k ∷ ls)) ≡ some room
    → mark room cfg.low_pct ≤ c.load_ns
    → In t tasks
    → t.cohort_id ≡ c.id
    → contains_key t.pid current ≡ true
    → contains_key t.pid m ≡ true
unfolding plan_spills
plan_spills_sticky cfg l k ls cohorts tasks current m e c room t ic known low it mine spilled =
    spill_all_reaches cfg (l ∷ k ∷ ls) tasks current (λ n. contains_key t.pid n ≡ true) cohorts
      (λ d _ n n' h s. spill_cohort-Extends cfg (l ∷ k ∷ ls) tasks current d n n' s t.pid h) c ic
      (λ n n' s.
        Iteration-sticky cfg (l ∷ k ∷ ls) tasks current c n n' room t
          (spill_cohort-Iteration cfg (l ∷ k ∷ ls) tasks current c n n' s) known low
          (already_spilled-In cfg (l ∷ k ∷ ls) tasks current c t it mine spilled))
      [] m e
