-- ===== src/Spill/Growth.antt =====
-- scx_cohort/src/balancer.rs, `plan_spills`: how far the spill set of an overloaded cohort grows.
use scx_cohort.Base.Map.Laws.{contains_key-insert}
use scx_cohort.Base.Map.{Map, insert, lookup, contains_key}
use scx_cohort.Base.Words.{add64}
use scx_cohort.Base.{
  ℕ, ◌+◌, ◌-◌, ◌^◌, ◌≤◌, ◌<◌, ◌≡◌, ◌⊎◌, refl, inl, inr, true, some, List, [], ◌∷◌, arith, nat_key,
  Bool-cases, if◌then◌else◌, In, leb,
}
use scx_cohort.Domain.{LlcLoad, CohortSnapshot, TaskSnapshot}
use scx_cohort.Spill.Loop.{
  spill_all_reaches, Iteration, homeless, calm, held, grown, spill_cohort-Iteration,
}
use scx_cohort.Spill.Sticky.{Extends, grow-Extends, spill_cohort-Extends}
use scx_cohort.Spill.{
  SpillCfg, capacities, already_spilled, cold_members, insert_by_duty, sort_by_duty, grow,
  spill_more, plan_spills, mark, shed_by,
}

-- What the listed tasks shed when all run elsewhere.
unfoldable pub demand : List TaskSnapshot → ℕ
demand [] = 0
demand (t ∷ ts) = shed_by t + demand ts

-- What those of the listed tasks shed that the set holds.
unfoldable pub shed_sum : Map ℕ ℕ → List TaskSnapshot → ℕ
shed_sum m [] = 0
shed_sum m (t ∷ ts) = (if contains_key t.pid m then shed_by t else 0) + shed_sum m ts

abbrev pub AllSpilled : Map ℕ ℕ → List TaskSnapshot → Type 0
AllSpilled m ts = (t : TaskSnapshot) → In t ts → contains_key t.pid m ≡ true

-- Enough is shed, or nothing cold is left at home.
abbrev pub Relieved : ℕ → Map ℕ ℕ → List TaskSnapshot → Type 0
Relieved excess m ts = (excess ≤ shed_sum m ts) ⊎ AllSpilled m ts

shed_sum-insert_by_duty :
    (m : Map ℕ ℕ) (t : TaskSnapshot) (ts : List TaskSnapshot)
    → shed_sum m (insert_by_duty t ts) ≡ shed_sum m (t ∷ ts)
unfolding insert_by_duty shed_sum
shed_sum-insert_by_duty m t [] = refl
shed_sum-insert_by_duty m t (u ∷ us) = ground (arith, shed_sum-insert_by_duty m t us)

shed_sum-sort_by_duty :
    (m : Map ℕ ℕ) (ts : List TaskSnapshot) → shed_sum m (sort_by_duty ts) ≡ shed_sum m ts
unfolding sort_by_duty shed_sum
shed_sum-sort_by_duty m [] = refl
shed_sum-sort_by_duty m (t ∷ ts) =
    omega (arith, shed_sum-insert_by_duty m t (sort_by_duty ts), shed_sum-sort_by_duty m ts)

demand-insert_by_duty :
    (t : TaskSnapshot) (ts : List TaskSnapshot) → demand (insert_by_duty t ts) ≡ demand (t ∷ ts)
unfolding insert_by_duty demand
demand-insert_by_duty t [] = refl
demand-insert_by_duty t (u ∷ us) = ground (arith, demand-insert_by_duty t us)

demand-sort_by_duty : (ts : List TaskSnapshot) → demand (sort_by_duty ts) ≡ demand ts
unfolding sort_by_duty demand
demand-sort_by_duty [] = refl
demand-sort_by_duty (t ∷ ts) =
    omega (arith, demand-insert_by_duty t (sort_by_duty ts), demand-sort_by_duty ts)

pub In-insert_by_duty :
    (x t : TaskSnapshot) (ts : List TaskSnapshot) → In x (t ∷ ts) → In x (insert_by_duty t ts)
unfolding insert_by_duty
In-insert_by_duty x t [] i = i
In-insert_by_duty x t (u ∷ us) i = elim (Bool-cases (leb t.duty_ns u.duty_ns)) [
  | inl y ↦ rw y i
  | inr n ↦ rw n (elim i [
    | inl here ↦ inr (In-insert_by_duty x t us (inl here))
    | inr (inl next) ↦ inl next
    | inr (inr there) ↦ inr (In-insert_by_duty x t us (inr there))
  ])
]

In-sort_by_duty : (x : TaskSnapshot) (ts : List TaskSnapshot) → In x ts → In x (sort_by_duty ts)
unfolding sort_by_duty
In-sort_by_duty x [] i = i
In-sort_by_duty x (t ∷ ts) (inl e) = In-insert_by_duty x t (sort_by_duty ts) (inl e)
In-sort_by_duty x (t ∷ ts) (inr i) =
    In-insert_by_duty x t (sort_by_duty ts) (inr (In-sort_by_duty x ts i))

shed_sum_mono :
    (m m' : Map ℕ ℕ) (ts : List TaskSnapshot) → Extends m m' → shed_sum m ts ≤ shed_sum m' ts
unfolding shed_sum
shed_sum_mono m m' [] x = omega arith
shed_sum_mono m m' (t ∷ ts) x = ground (arith, shed_sum_mono m m' ts x, x t.pid)

Relieved-mono :
    (excess : ℕ) (m m' : Map ℕ ℕ) (ts : List TaskSnapshot)
    → Extends m m'
    → Relieved excess m ts
    → Relieved excess m' ts
Relieved-mono excess m m' ts x (inl h) = inl (omega (arith, shed_sum_mono m m' ts x))
Relieved-mono excess m m' ts x (inr h) = inr (λ t i. x t.pid (h t i))

shed_sum_held :
    (m : Map ℕ ℕ) (t : TaskSnapshot) (ts : List TaskSnapshot)
    → contains_key t.pid m ≡ true
    → shed_sum m (t ∷ ts) ≡ shed_by t + shed_sum m ts
unfolding shed_sum
shed_sum_held m t ts h = rw h

grow_step :
    (target excess shed : ℕ) (t : TaskSnapshot) (ts : List TaskSnapshot) (m : Map ℕ ℕ)
    → grow target excess shed (t ∷ ts) m ≡ (
        if leb excess shed
        then m
        else grow target excess (add64 shed (shed_by t)) ts (insert t.pid target m))
unfolding grow
grow_step target excess shed t ts m = refl

grow-Relieved :
    (target excess shed : ℕ) (ts : List TaskSnapshot) (m : Map ℕ ℕ)
    → shed + demand ts < 2 ^ 64
    → Relieved (excess - shed) (grow target excess shed ts m) ts
unfolding demand
grow-Relieved target excess shed [] m fits = inr (λ t i. absurd i)
grow-Relieved target excess shed (t ∷ ts) m fits = elim (Bool-cases (leb excess shed)) [
  | inl y ↦ inl (ground arith)
  | inr n ↦
      let shed' : add64 shed (shed_by t) ≡ shed + shed_by t = ground arith in
      let r = grow target excess (add64 shed (shed_by t)) ts (insert t.pid target m) in
      let here : contains_key t.pid r ≡ true =
        grow-Extends target excess (add64 shed (shed_by t)) ts (insert t.pid target m) t.pid
          (ground (arith, contains_key-insert t.pid t.pid target m)) in
      rw (grow_step target excess shed t ts m, n)
        (elim (grow-Relieved target excess (add64 shed (shed_by t)) ts (insert t.pid target m)
          (omega arith)) [
            | inl enough ↦ inl (omega (arith, shed_sum_held r t ts here))
            | inr all ↦ inr (λ u i. elim i [ inl e ↦ rw e here | inr j ↦ all u j ])
          ])
]

-- The members of a cohort that may be newly spilled.
abbrev pub candidates : SpillCfg → List TaskSnapshot → Map ℕ ℕ → CohortSnapshot → List TaskSnapshot
candidates cfg tasks current c =
    cold_members c tasks (already_spilled c tasks current) (mark cfg.tick_ns cfg.cold_max_pct)

module _ (cfg : SpillCfg) (llcs : List LlcLoad) (tasks : List TaskSnapshot) (current : Map ℕ ℕ)
    (c : CohortSnapshot) where
  Iteration-Relieved :
      (m m' : Map ℕ ℕ) (room : ℕ)
      → Iteration cfg llcs tasks current c m m'
      → lookup c.home_llc (capacities llcs) ≡ some room
      → mark room cfg.low_pct ≤ c.load_ns
      → mark room cfg.high_pct ≤ c.load_ns
      → demand (candidates cfg tasks current c) < 2 ^ 64
      → Relieved (c.load_ns - mark room cfg.high_pct) m' (candidates cfg tasks current c)
  unfolding spill_more
  Iteration-Relieved m m' room (homeless n e) known low high fits = absurd (cc)
  Iteration-Relieved m m' room (calm r k b e) known low high fits =
      let same : r ≡ room = cc in absurd (ground arith)
  Iteration-Relieved m m' room (held r target k lo hi t s) known low high fits =
      let same : r ≡ room = cc in absurd (ground arith)
  Iteration-Relieved m m' room (grown r target sticky k lo hi t s e) known low high fits =
      let same : room ≡ r = cc in
      let g =
        grow-Relieved target (c.load_ns - mark r cfg.high_pct) 0
          (sort_by_duty (candidates cfg tasks current c)) sticky
          (omega (arith, demand-sort_by_duty (candidates cfg tasks current c))) in
      rw (same, e)
        (elim g [
          | inl enough ↦ inl (
              omega (
                arith,
                shed_sum-sort_by_duty
                    (grow target (c.load_ns - mark r cfg.high_pct) 0
                      (sort_by_duty (candidates cfg tasks current c)) sticky)
                    (candidates cfg tasks current c),
              ))
          | inr all ↦ inr (λ u i. all u (In-sort_by_duty u (candidates cfg tasks current c) i))
        ])

-- An overloaded cohort, at or above both marks of its home LLC, is relieved: the cold members in
-- the new set shed the excess over the high mark, or every cold member is in the set. The members'
-- duties add up to less than 2^64.
pub plan_spills_relieves :
    (cfg : SpillCfg) (l k : LlcLoad) (ls : List LlcLoad) (cohorts : List CohortSnapshot)
    (tasks : List TaskSnapshot) (current m : Map ℕ ℕ)
    → plan_spills cfg (l ∷ k ∷ ls) cohorts tasks current ≡ some m
    → (c : CohortSnapshot) (room : ℕ) → In c cohorts
    → lookup c.home_llc (capacities (l ∷ k ∷ ls)) ≡ some room
    → mark room cfg.low_pct ≤ c.load_ns
    → mark room cfg.high_pct ≤ c.load_ns
    → demand (candidates cfg tasks current c) < 2 ^ 64
    → Relieved (c.load_ns - mark room cfg.high_pct) m (candidates cfg tasks current c)
unfolding plan_spills
plan_spills_relieves cfg l k ls cohorts tasks current m e c room ic known low high fits =
    let llcs = l ∷ k ∷ ls in
    let cs = candidates cfg tasks current c in
    spill_all_reaches cfg llcs tasks current
      (λ n. Relieved (c.load_ns - mark room cfg.high_pct) n cs) cohorts
      (λ d _ n n' h s.
        Relieved-mono _ n n' cs (spill_cohort-Extends cfg llcs tasks current d n n' s) h)
      c ic
      (λ n n' s.
        Iteration-Relieved cfg llcs tasks current c n n' room
          (spill_cohort-Iteration cfg llcs tasks current c n n' s) known low high fits)
      [] m e
