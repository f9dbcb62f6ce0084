-- ===== src/Balancer/Moves.antt =====
-- When `plan` moves a cohort, which one, and where to.
use scx_cohort.Balancer.Choice.{
  gap_after-distance, distance, NoWorse, min_by_key-some, min_by_key_total,
}
use scx_cohort.Balancer.Extremes.{max_by_load-In, min_by_load-In, max_by_load-ge, min_by_load-le}
use scx_cohort.Balancer.{
  Balancer, BalancerCfg, max_by_load, min_by_load, residency_of, residency_over, movable, narrows,
  min_by_key, candidates, conclude, decide, threshold, plan_between, plan,
}
use scx_cohort.Base.Map.{Map, lookup}
use scx_cohort.Base.Words.{add32}
use scx_cohort.Base.{
  ℕ, ◌+◌, ◌-◌, ◌^◌, ◌≤◌, ◌<◌, ◌≡◌, ◌⊎◌, refl, sym, inl, inr, Option-cases, List, [], ◌∷◌, false,
  true, Option, some, none, arith, keep, In, In-keep, keep-In, nat_key,
}
use scx_cohort.Domain.{LlcLoad, CohortSnapshot, Decision, move_cohort}

-- What makes a cohort movable, in the terms of the design: it lives on the loaded side, is not
-- pinned, has tasks and load, fits the target, has rested, and carries less than the gap.
pub record IsEligible (cfg : BalancerCfg) (moved : Map ℕ ℕ) (now : ℕ) (max min : LlcLoad)
    (c : CohortSnapshot) : Type 0 where
  pub home : c.home_llc ≡ max.llc
  pub unpinned : c.pinned ≡ false
  pub peopled : 0 < c.nr_tasks
  pub loaded : 0 < c.load_ns
  pub fits : c.load_ns ≤ min.capacity_ns
  pub rested : (at : ℕ) → lookup c.id moved ≡ some at → residency_of cfg c ≤ now - at
  pub smaller : c.load_ns < max.load_ns - min.load_ns

residency_over-rested :
    (cfg : BalancerCfg) (moved : Map ℕ ℕ) (now : ℕ) (c : CohortSnapshot)
    → residency_over cfg moved now c ≡ true
    → (at : ℕ) → lookup c.id moved ≡ some at
    → residency_of cfg c ≤ now - at
unfolding residency_over
residency_over-rested cfg moved now c h at e = ground arith

rested-residency_over :
    (cfg : BalancerCfg) (moved : Map ℕ ℕ) (now : ℕ) (c : CohortSnapshot)
    → ((at : ℕ) → lookup c.id moved ≡ some at → residency_of cfg c ≤ now - at)
    → residency_over cfg moved now c ≡ true
unfolding residency_over
rested-residency_over cfg moved now c h = elim (Option-cases (lookup c.id moved)) [
  | inl e ↦ rw (e, residency_over)
  | inr (at, e) ↦ let r = h at e in rw (e, residency_over) (ground arith)
]

module _ (cfg : BalancerCfg) (moved : Map ℕ ℕ) (now : ℕ) (max min : LlcLoad)
    (bounded : max.load_ns < 2 ^ 63) where
  IsEligible-of_tests :
      (c : CohortSnapshot)
      → c.load_ns < 2 ^ 62
      → movable cfg moved now max min c ≡ true
      → narrows (max.load_ns - min.load_ns) c ≡ true
      → IsEligible cfg moved now max min c
  unfolding movable narrows
  IsEligible-of_tests c light m n = record {
    home = ground arith;
    unpinned = ground arith;
    peopled = ground arith;
    loaded = ground arith;
    fits = ground arith;
    rested = residency_over-rested cfg moved now c (ground arith);
    smaller = ground (arith, gap_after-distance (max.load_ns - min.load_ns) c.load_ns);
  }

  tests_of_IsEligible :
      (c : CohortSnapshot)
      → c.load_ns < 2 ^ 62
      → IsEligible cfg moved now max min c
      → (movable cfg moved now max min c ≡ true) × (narrows (max.load_ns - min.load_ns) c ≡ true)
  unfolding movable narrows
  tests_of_IsEligible c light e = (
    ground (arith, rested-residency_over cfg moved now c e.rested),
    ground (arith, gap_after-distance (max.load_ns - min.load_ns) c.load_ns),
  )

  module _ (cohorts : List CohortSnapshot)
      (light : (c : CohortSnapshot) → In c cohorts → c.load_ns < 2 ^ 62) where
    -- Among the candidates are the eligible cohorts, and no others.
    candidates-IsEligible :
        (c : CohortSnapshot)
        → In c (candidates cfg moved now max min cohorts)
        → In c cohorts × IsEligible cfg moved now max min c
    unfolding candidates
    candidates-IsEligible c m =
        let (m', n) =
          In-keep (narrows (max.load_ns - min.load_ns))
            (keep (movable cfg moved now max min) cohorts) c m in
        let (m'', t) = In-keep (movable cfg moved now max min) cohorts c m' in
        (m'', IsEligible-of_tests c (light c m'') t n)

    IsEligible-candidates :
        (c : CohortSnapshot)
        → In c cohorts
        → IsEligible cfg moved now max min c
        → In c (candidates cfg moved now max min cohorts)
    unfolding candidates
    IsEligible-candidates c m e =
        let (t, n) = tests_of_IsEligible c (light c m) e in
        keep-In (narrows (max.load_ns - min.load_ns)) _ c
          (keep-In (movable cfg moved now max min) cohorts c m t) n

-- Loads that a tick can produce: the i64 arithmetic of `plan` is exact on them.
pub record InRange (llcs : List LlcLoad) (cohorts : List CohortSnapshot) : Type 0 where
  pub llc_loads : (l : LlcLoad) → In l llcs → l.load_ns < 2 ^ 63
  pub cohort_loads : (c : CohortSnapshot) → In c cohorts → c.load_ns < 2 ^ 62

-- The source and the target of a move: a most and a least loaded LLC of the snapshot.
pub record AreExtremes (llcs : List LlcLoad) (max min : LlcLoad) : Type 0 where
  pub max_In : In max llcs
  pub min_In : In min llcs
  pub greatest : (l : LlcLoad) → In l llcs → l.load_ns ≤ max.load_ns
  pub least : (l : LlcLoad) → In l llcs → min.load_ns ≤ l.load_ns

pub extremes :
    (l m : LlcLoad) (ls : List LlcLoad)
    → AreExtremes (l ∷ m ∷ ls) (max_by_load l (m ∷ ls)) (min_by_load l (m ∷ ls))
extremes l m ls = record {
  max_In = max_by_load-In l (m ∷ ls);
  min_In = min_by_load-In l (m ∷ ls);
  greatest = max_by_load-ge l (m ∷ ls);
  least = min_by_load-le l (m ∷ ls);
}

-- The first cohort comes before the second, or beside it: it leaves less of the gap, or as much
-- and carries no more load.
abbrev pub Preferred : ℕ → CohortSnapshot → CohortSnapshot → Type 0
Preferred gap c d =
    (distance gap c.load_ns < distance gap d.load_ns)
    ⊎ ((distance gap c.load_ns ≡ distance gap d.load_ns) × (c.load_ns ≤ d.load_ns))

Preferred-of_NoWorse :
    (gap : ℕ) (c d : CohortSnapshot)
    → gap < 2 ^ 63
    → c.load_ns < 2 ^ 62
    → d.load_ns < 2 ^ 62
    → NoWorse gap c d
    → Preferred gap c d
Preferred-of_NoWorse gap c d g hc hd n =
    rw (← gap_after-distance gap c.load_ns g hc, ← gap_after-distance gap d.load_ns g hd) n

-- Why a tick moves the cohort `id` to the LLC `to`.
pub record Justifies (b : Balancer) (now : ℕ) (max min : LlcLoad) (cohorts : List CohortSnapshot)
    (id to : ℕ) : Type 0 where
  pub cohort : CohortSnapshot
  pub over : threshold b.cfg min < max.load_ns - min.load_ns
  pub confirmed : b.cfg.confirm_ticks ≤ add32 b.streak 1
  pub listed : In cohort cohorts
  pub named : id ≡ cohort.id
  pub target : to ≡ min.llc
  pub eligible : IsEligible b.cfg b.last_move_at now max min cohort
  pub best :
      (d : CohortSnapshot)
      → In d cohorts
      → IsEligible b.cfg b.last_move_at now max min d
      → Preferred (max.load_ns - min.load_ns) cohort d

conclude_inv :
    (b : Balancer) (now target : ℕ) (o : Option CohortSnapshot) (id to : ℕ) (ds : List Decision)
    → (conclude b now target o).1 ≡ move_cohort id to ∷ ds
    → (c : CohortSnapshot) × (o ≡ some c) × (id ≡ c.id) × (to ≡ target)
unfolding conclude
conclude_inv b now target none id to ds h = absurd (cc)
conclude_inv b now target (some c) id to ds h = (c, refl, cc, cc)

module _ (b : Balancer) (now : ℕ) (max min : LlcLoad) (cohorts : List CohortSnapshot)
    (bounded : max.load_ns < 2 ^ 63)
    (light : (c : CohortSnapshot) → In c cohorts → c.load_ns < 2 ^ 62) where
  plan_between-Justifies :
      (id to : ℕ) (ds : List Decision)
      → (plan_between b now max min cohorts).1 ≡ move_cohort id to ∷ ds
      → Justifies b now max min cohorts id to
  unfolding plan_between decide
  plan_between-Justifies id to ds h =
      let gap = max.load_ns - min.load_ns in
      let b' : Balancer = record b { streak = add32 b.streak 1 } in
      let cs = candidates b.cfg b.last_move_at now max min cohorts in
      let over : threshold b.cfg min < gap = ground arith in
      let confirmed : b.cfg.confirm_ticks ≤ add32 b.streak 1 = ground arith in
      let (c, found, named, target) =
        conclude_inv b' now min.llc (min_by_key gap cs) id to ds (ground arith) in
      let (m, best) = min_by_key-some gap cs c found in
      let (listed, eligible) =
        candidates-IsEligible b.cfg b.last_move_at now max min bounded cohorts light c m in
      record {
        cohort = c;
        over = over;
        confirmed = confirmed;
        listed = listed;
        named = named;
        target = target;
        eligible = eligible;
        best = λ d md ed. Preferred-of_NoWorse gap c d (omega arith) (light c listed) (light d md) (
            best d (
              IsEligible-candidates b.cfg b.last_move_at now max min bounded cohorts light d md
                ed));
      }

  -- A confirmed imbalance with an eligible cohort leads to a move.
  plan_between_total :
      (d : CohortSnapshot)
      → In d cohorts
      → IsEligible b.cfg b.last_move_at now max min d
      → threshold b.cfg min < max.load_ns - min.load_ns
      → b.cfg.confirm_ticks ≤ add32 b.streak 1
      → (id : ℕ) × ((plan_between b now max min cohorts).1 ≡ move_cohort id min.llc ∷ [])
  unfolding plan_between decide conclude
  plan_between_total d md ed over confirmed =
      let cs = candidates b.cfg b.last_move_at now max min cohorts in
      let (c, found) =
        min_by_key_total (max.load_ns - min.load_ns) cs d
          (IsEligible-candidates b.cfg b.last_move_at now max min bounded cohorts light d md ed) in
      (c.id, ground arith)

-- A decision of `plan` moves a listed, eligible cohort from a most loaded LLC to a least loaded
-- one, over the threshold and confirmed, and no eligible cohort is preferred to it. This needs
-- loads in the range of the i64 arithmetic.
pub plan-Justifies :
    (b : Balancer) (now : ℕ) (llcs : List LlcLoad) (cohorts : List CohortSnapshot)
    → InRange llcs cohorts
    → (id to : ℕ) (ds : List Decision) → (plan b now llcs cohorts).1 ≡ move_cohort id to ∷ ds
    → (max : LlcLoad) × (min : LlcLoad) × AreExtremes llcs max min
      × Justifies b now max min cohorts id to
unfolding plan
plan-Justifies b now [] cohorts r id to ds h = absurd (cc)
plan-Justifies b now (l ∷ []) cohorts r id to ds h = absurd (cc)
plan-Justifies b now (l ∷ m ∷ ls) cohorts r id to ds h = (
  max_by_load l (m ∷ ls),
  min_by_load l (m ∷ ls),
  extremes l m ls,
  plan_between-Justifies b now (max_by_load l (m ∷ ls)) (min_by_load l (m ∷ ls)) cohorts
      (r.llc_loads _ (max_by_load-In l (m ∷ ls))) r.cohort_loads id to ds h,
)

-- A move leaves the two LLCs closer: source and target differ by less than before, whichever of
-- them is then the more loaded.
plan_narrows :
    (b : Balancer) (now : ℕ) (llcs : List LlcLoad) (cohorts : List CohortSnapshot)
    → InRange llcs cohorts
    → (id to : ℕ) (ds : List Decision) → (plan b now llcs cohorts).1 ≡ move_cohort id to ∷ ds
    → (source : LlcLoad) × (target : LlcLoad) × (c : CohortSnapshot) × In source llcs
      × In target llcs
      × In c cohorts
      × (c.id ≡ id)
      × (c.home_llc ≡ source.llc)
      × (target.llc ≡ to)
      × (source.load_ns - c.load_ns
          < target.load_ns + c.load_ns + (source.load_ns - target.load_ns))
      × (target.load_ns + c.load_ns
          < source.load_ns - c.load_ns + (source.load_ns - target.load_ns))
plan_narrows b now llcs cohorts r id to ds h =
    let (max, min, x, j) = plan-Justifies b now llcs cohorts r id to ds h in
    let small : j.cohort.load_ns < max.load_ns - min.load_ns = j.eligible.smaller in
    let loaded : 0 < j.cohort.load_ns = j.eligible.loaded in
    (
      max,
      min,
      j.cohort,
      x.max_In,
      x.min_In,
      j.listed,
      sym j.named,
      j.eligible.home,
      sym j.target,
      omega arith,
      omega arith,
    )

-- The converse: over the threshold, confirmed, and with an eligible cohort, `plan` moves one.
pub plan_total :
    (b : Balancer) (now : ℕ) (l m : LlcLoad) (ls : List LlcLoad) (cohorts : List CohortSnapshot)
    → InRange (l ∷ m ∷ ls) cohorts
    → (d : CohortSnapshot) → In d cohorts
    → let max = max_by_load l (m ∷ ls) in
      let min = min_by_load l (m ∷ ls) in
      IsEligible b.cfg b.last_move_at now max min d
      → threshold b.cfg min < max.load_ns - min.load_ns
      → b.cfg.confirm_ticks ≤ add32 b.streak 1
      → (id : ℕ) × ((plan b now (l ∷ m ∷ ls) cohorts).1 ≡ move_cohort id min.llc ∷ [])
unfolding plan
plan_total b now l m ls cohorts r d md e over confirmed =
    plan_between_total b now (max_by_load l (m ∷ ls)) (min_by_load l (m ∷ ls)) cohorts
      (r.llc_loads _ (max_by_load-In l (m ∷ ls))) r.cohort_loads d md e over confirmed
