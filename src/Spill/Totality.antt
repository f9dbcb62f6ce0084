-- ===== src/Spill/Totality.antt =====
-- scx_cohort/src/balancer.rs, `plan_spills`: its `unwrap`s, and the panics that they stand for.
use scx_cohort.Base.Map.Laws.{contains_key-some}
use scx_cohort.Base.Map.{Map, insert, lookup, contains_key}
use scx_cohort.Base.{
  ℕ, ◌≡◌, ◌≢◌, refl, inl, inr, ◌&&◌, not, some, List, [], ◌∷◌, arith, nat_beq, nat_key, Bool-cases,
  Option-cases, if◌then◌else◌, In, keep-In, ltb,
}
use scx_cohort.Domain.{LlcLoad, CohortSnapshot, TaskSnapshot}
use scx_cohort.Spill.Loop.{spill_all_total}
use scx_cohort.Spill.{
  SpillCfg, capacities, already_spilled, spill_target, keep_spilled, spill_more, spill_at,
  spill_cohort, plan_spills, first_llc, mark,
}

keep_spilled_total :
    (cohort : CohortSnapshot) (ts : List TaskSnapshot) (current desired : Map ℕ ℕ)
    → (m : Map ℕ ℕ) × (keep_spilled current (already_spilled cohort ts current) desired ≡ some m)
unfolding keep_spilled already_spilled
keep_spilled_total cohort [] current desired = (desired, refl)
keep_spilled_total cohort (t ∷ ts) current desired =
    elim (Bool-cases (nat_beq t.cohort_id cohort.id && contains_key t.pid current)) [
      | inl y ↦
          let (llc, found) = contains_key-some t.pid current (ground arith) in
          let (m, r) = keep_spilled_total cohort ts current (insert t.pid llc desired) in
          (m, ground arith)
      | inr n ↦ let (m, r) = keep_spilled_total cohort ts current desired in (m, ground arith)
    ]

first_llc_total : (l : LlcLoad) (ls : List LlcLoad) → In l ls → (t : ℕ) × (first_llc ls ≡ some t)
first_llc_total l [] m = absurd m
first_llc_total l (x ∷ ls) m = (_, refl)

spill_target_total :
    (cohort : CohortSnapshot) (llcs : List LlcLoad) (a b : LlcLoad)
    → In a llcs
    → In b llcs
    → a.llc ≢ b.llc
    → (t : ℕ) × (spill_target cohort llcs ≡ some t)
unfolding spill_target
spill_target_total cohort llcs a b ma mb ne =
    let other = λ (l : LlcLoad). not (nat_beq l.llc cohort.home_llc) in
    elim (Bool-cases (nat_beq a.llc cohort.home_llc)) [
      | inl y ↦ first_llc_total b _ (keep-In other llcs b mb (ground arith))
      | inr n ↦ first_llc_total a _ (keep-In other llcs a ma (ground arith))
    ]

spill_at_total :
    (cfg : SpillCfg) (llcs : List LlcLoad) (tasks : List TaskSnapshot) (current : Map ℕ ℕ)
    (cohort : CohortSnapshot) (cap : ℕ) (a b : LlcLoad)
    → In a llcs
    → In b llcs
    → a.llc ≢ b.llc
    → (desired : Map ℕ ℕ)
    → (m : Map ℕ ℕ) × (spill_at cfg llcs tasks current cohort cap desired ≡ some m)
unfolding spill_at
spill_at_total cfg llcs tasks current cohort cap a b ma mb ne desired =
    let (target, t) = spill_target_total cohort llcs a b ma mb ne in
    let (sticky, s) = keep_spilled_total cohort tasks current desired in
    elim (Bool-cases (ltb cohort.load_ns (mark cap cfg.low_pct))) [
      | inl y ↦ (desired, ground arith)
      | inr n ↦ (
        if ltb cohort.load_ns (mark cap cfg.high_pct)
            then sticky
            else spill_more cfg cohort tasks (already_spilled cohort tasks current)
                (mark cap cfg.high_pct) target sticky,
        rw (n, t, s) refl,
      )
    ]

spill_cohort_total :
    (cfg : SpillCfg) (llcs : List LlcLoad) (tasks : List TaskSnapshot) (current : Map ℕ ℕ)
    (cohort : CohortSnapshot) (a b : LlcLoad)
    → In a llcs
    → In b llcs
    → a.llc ≢ b.llc
    → (desired : Map ℕ ℕ)
    → (m : Map ℕ ℕ) × (spill_cohort cfg llcs tasks current cohort desired ≡ some m)
unfolding spill_cohort
spill_cohort_total cfg llcs tasks current cohort a b ma mb ne desired =
    elim (Option-cases (lookup cohort.home_llc (capacities llcs))) [
      | inl e ↦ (desired, rw (e, spill_cohort))
      | inr (cap, e) ↦
          let (m, r) = spill_at_total cfg llcs tasks current cohort cap a b ma mb ne desired in
          (m, rw (e, spill_cohort) r)
    ]

-- `plan_spills` returns a spill set whenever the LLC ids are not all the same.
pub plan_spills_total :
    (cfg : SpillCfg) (llcs : List LlcLoad) (cohorts : List CohortSnapshot)
    (tasks : List TaskSnapshot) (current : Map ℕ ℕ) (a b : LlcLoad)
    → In a llcs
    → In b llcs
    → a.llc ≢ b.llc
    → (m : Map ℕ ℕ) × (plan_spills cfg llcs cohorts tasks current ≡ some m)
unfolding plan_spills
plan_spills_total cfg [] cohorts tasks current a b ma mb ne = ([], refl)
plan_spills_total cfg (l ∷ []) cohorts tasks current a b ma mb ne = ([], refl)
plan_spills_total cfg (l ∷ m ∷ ls) cohorts tasks current a b ma mb ne =
    spill_all_total cfg (l ∷ m ∷ ls) tasks current cohorts
      (λ c d. spill_cohort_total cfg (l ∷ m ∷ ls) tasks current c a b ma mb ne d) []
