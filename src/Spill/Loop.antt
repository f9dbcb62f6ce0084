-- ===== src/Spill/Loop.antt =====
-- Rules for the loop of `plan_spills` over the cohorts.
use scx_cohort.Base.Map.{Map, lookup}
use scx_cohort.Base.{
  ℕ, ◌≤◌, ◌<◌, ◌≡◌, refl, ◌∙◌, subst, inl, inr, none, some, arith, ltb, nat_key, Bool-cases,
  Option-cases, List, [], ◌∷◌, >>=-eq-some, In,
}
use scx_cohort.Domain.{LlcLoad, CohortSnapshot, TaskSnapshot}
use scx_cohort.Spill.{
  SpillCfg, capacities, already_spilled, spill_target, keep_spilled, mark, spill_more, spill_at,
  spill_cohort, spill_all,
}

module _ (cfg : SpillCfg) (llcs : List LlcLoad) (tasks : List TaskSnapshot)
    (current : Map ℕ ℕ) where
  -- What each iteration keeps, the loop keeps.
  pub spill_all_keeps {κ} :
      (P : Map ℕ ℕ → Type κ) (cohorts : List CohortSnapshot)
      → ((c : CohortSnapshot)
          → In c cohorts
          → (m m' : Map ℕ ℕ) → P m
          → spill_cohort cfg llcs tasks current c m ≡ some m'
          → P m')
      → (m m' : Map ℕ ℕ) → P m
      → spill_all cfg llcs tasks current cohorts m ≡ some m'
      → P m'
  unfolding spill_all
  spill_all_keeps P [] step m m' p e = subst P (cc) p
  spill_all_keeps P (c ∷ cs) step m m' p e =
      let (n, first, rest) = >>=-eq-some (spill_cohort cfg llcs tasks current c m) _ e in
      spill_all_keeps P cs (λ d i. step d (inr i)) n m' (step c (inl refl) m n p first) rest

  -- If every iteration keeps `P` and the one for `c` makes it hold, it holds at the end.
  pub spill_all_reaches {κ} :
      (P : Map ℕ ℕ → Type κ) (cohorts : List CohortSnapshot)
      → ((d : CohortSnapshot)
          → In d cohorts
          → (m m' : Map ℕ ℕ) → P m
          → spill_cohort cfg llcs tasks current d m ≡ some m'
          → P m')
      → (c : CohortSnapshot) → In c cohorts
      → ((m m' : Map ℕ ℕ) → spill_cohort cfg llcs tasks current c m ≡ some m' → P m')
      → (m m' : Map ℕ ℕ) → spill_all cfg llcs tasks current cohorts m ≡ some m'
      → P m'
  unfolding spill_all
  spill_all_reaches P [] step c i make m m' e = absurd i
  spill_all_reaches P (d ∷ cs) step c (inl same) make m m' e =
      let (n, first, rest) = >>=-eq-some (spill_cohort cfg llcs tasks current d m) _ e in
      spill_all_keeps P cs (λ x i. step x (inr i)) n m' (make m n (rw same first)) rest
  spill_all_reaches P (d ∷ cs) step c (inr i) make m m' e =
      let (n, first, rest) = >>=-eq-some (spill_cohort cfg llcs tasks current d m) _ e in
      spill_all_reaches P cs (λ x j. step x (inr j)) c i make n m' rest

  -- If no iteration panics, the loop does not.
  pub spill_all_total :
      (cohorts : List CohortSnapshot)
      → ((c : CohortSnapshot) (m : Map ℕ ℕ)
          → (m' : Map ℕ ℕ) × (spill_cohort cfg llcs tasks current c m ≡ some m'))
      → (m : Map ℕ ℕ) → (m' : Map ℕ ℕ) × (spill_all cfg llcs tasks current cohorts m ≡ some m')
  unfolding spill_all
  spill_all_total [] step m = (m, refl)
  spill_all_total (c ∷ cs) step m =
      let (n, first) = step c m in let (m', rest) = spill_all_total cs step n in (m', rw first rest)

-- What one iteration of the loop does to the set, by its four branches.
pub data Iteration (cfg : SpillCfg) (llcs : List LlcLoad) (tasks : List TaskSnapshot)
    (current : Map ℕ ℕ) (c : CohortSnapshot) (m m' : Map ℕ ℕ) : Type 0 where
  homeless :
      lookup c.home_llc (capacities llcs) ≡ none → m' ≡ m → Iteration cfg llcs tasks current c m m'
  calm :
      (room : ℕ)
      → lookup c.home_llc (capacities llcs) ≡ some room
      → c.load_ns < mark room cfg.low_pct
      → m' ≡ m
      → Iteration cfg llcs tasks current c m m'
  held :
      (room target : ℕ)
      → lookup c.home_llc (capacities llcs) ≡ some room
      → mark room cfg.low_pct ≤ c.load_ns
      → c.load_ns < mark room cfg.high_pct
      → spill_target c llcs ≡ some target
      → keep_spilled current (already_spilled c tasks current) m ≡ some m'
      → Iteration cfg llcs tasks current c m m'
  grown :
      (room target : ℕ) (sticky : Map ℕ ℕ)
      → lookup c.home_llc (capacities llcs) ≡ some room
      → mark room cfg.low_pct ≤ c.load_ns
      → mark room cfg.high_pct ≤ c.load_ns
      → spill_target c llcs ≡ some target
      → keep_spilled current (already_spilled c tasks current) m ≡ some sticky
      → m'
        ≡ spill_more cfg c tasks
            (already_spilled c tasks current)
            (mark room cfg.high_pct)
            target
            sticky
      → Iteration cfg llcs tasks current c m m'

module _ (cfg : SpillCfg) (llcs : List LlcLoad) (tasks : List TaskSnapshot) (current : Map ℕ ℕ)
    (c : CohortSnapshot) (m m' : Map ℕ ℕ) where
  spill_at-Iteration :
      (room : ℕ)
      → lookup c.home_llc (capacities llcs) ≡ some room
      → spill_at cfg llcs tasks current c room m ≡ some m'
      → Iteration cfg llcs tasks current c m m'
  unfolding spill_at
  spill_at-Iteration room known e = elim (Bool-cases (ltb c.load_ns (mark room cfg.low_pct))) [
    | inl y ↦ calm room known (ground arith) (ground arith)
    | inr n ↦
        let (target, t, e') = >>=-eq-some (spill_target c llcs) _ (rw n at e) in
        let (sticky, s, e'') =
          >>=-eq-some (keep_spilled current (already_spilled c tasks current) m) _ e' in
        elim (Bool-cases (ltb c.load_ns (mark room cfg.high_pct))) [
          | inl y' ↦ held room target known (ground arith) (ground arith) t (s ∙ (rw y' at e''))
          | inr n' ↦
              grown room target sticky known (ground arith) (ground arith) t s (cc (rw n' at e''))
        ]
  ]

  pub spill_cohort-Iteration :
      spill_cohort cfg llcs tasks current c m ≡ some m' → Iteration cfg llcs tasks current c m m'
  unfolding spill_cohort
  spill_cohort-Iteration e = elim (Option-cases (lookup c.home_llc (capacities llcs))) [
    | inl n ↦ homeless n (ground arith)
    | inr (room, known) ↦ spill_at-Iteration room known (rw (known, spill_cohort) at e)
  ]
