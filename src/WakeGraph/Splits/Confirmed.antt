-- ===== src/WakeGraph/Splits/Confirmed.antt =====
-- scx_cohort/src/wake_graph.rs, `splits`: the streaks after a call, and over a history of calls.
use scx_cohort.Base.Floats.{Floats}
use scx_cohort.Base.Map.Laws.{
  lookup-retain, retain-IsMap, lookup_or-lookup, contains_key_of_some, contains_key-lookup,
  lookup-In,
}
use scx_cohort.Base.Map.{Map, lookup, lookup_or, IsMap, retain, contains_key}
use scx_cohort.Base.Words.{add32}
use scx_cohort.Base.{
  ℕ, suc, ◌≤◌, ◌≡◌, refl, sym, ap, subst, ◌∙◌, inl, inr, Bool, true, false, Option, none, some,
  List, [], ◌∷◌, nat_key, arith, nat_beq, if◌then◌else◌, In, All, Option-cases, Bool-cases,
}
use scx_cohort.WakeGraph.Splits.Outcomes.{in_parts, Run, split_cohorts-Run}
use scx_cohort.WakeGraph.Splits.Streaks.{
  streak, next_streak, Run-streak, Run-plan, Run-absent, Run-IsMap,
}
use scx_cohort.WakeGraph.Splits.{Component, splits}
use scx_cohort.WakeGraph.{WakeGraphCfg, EdgeState, WakeGraph, SplitPlan}

In-lookup : {V : Type 0} (k : ℕ) (v : V) (m : Map ℕ V) → lookup k m ≡ some v → In (k, v) m
unfolding lookup
In-lookup k v [] h = absurd (cc)
In-lookup k v ((j, w) ∷ m) h = elim (Bool-cases (nat_beq k j)) [
  | inl here ↦
      let e : k ≡ j = ground arith in
      let e' : w ≡ v = cc (rw (here, if◌then◌else◌) at h) in inl (cc)
  | inr other ↦ inr (In-lookup k v m (rw (other, if◌then◌else◌) at h))
]

-- The streak that is left by the collection of cohorts that are gone.
streak_retained :
    {V : Type 0} (c : ℕ) (v : V) (live : Map ℕ V) (m : Map ℕ ℕ)
    → IsMap m
    → lookup c live ≡ some v
    → streak c (retain (λ k _. contains_key k live) m) ≡ streak c m
streak_retained c v live m k h =
    let p = (λ (k : ℕ) (n : ℕ). contains_key k live) in
    ground (
      arith,
      lookup_or-lookup 0 c (retain p m),
      lookup_or-lookup 0 c m,
      lookup-retain p c m k,
      contains_key_of_some c v live h,
    )

streak_collected :
    {V : Type 0} (c : ℕ) (live : Map ℕ V) (m : Map ℕ ℕ)
    → IsMap m
    → lookup c live ≡ none
    → streak c (retain (λ k _. contains_key k live) m) ≡ 0
streak_collected c live m k h =
    let p = (λ (k : ℕ) (n : ℕ). contains_key k live) in
    ground (
      arith,
      lookup_or-lookup 0 c (retain p m),
      lookup_or-lookup 0 c m,
      lookup-retain p c m k,
      (contains_key-lookup c live).1 h,
    )

module _ (f : Floats) (order : ℕ → List Component → List Component) where
  -- A cohort of the call that is in parts.
  abbrev pub parted :
      WakeGraphCfg f.F64 → Map (ℕ × ℕ) (EdgeState f.F64) → Option (List (ℕ × ℕ)) → Bool
  parted cfg edges none = false
  parted cfg edges (some members) = in_parts f cfg edges members

  -- A call of `splits` as a run of the loop.
  splits-Run :
      (g g' : WakeGraph f.F64) (cohort_tgids : Map ℕ (List (ℕ × ℕ))) (out : List SplitPlan)
      → splits f order g cohort_tgids ≡ some (g', out)
      → Run f g.cfg g.edges order cohort_tgids
          (retain (λ k _. contains_key k cohort_tgids) g.split_streak)
          g'.split_streak
          out
  unfolding splits
  splits-Run g g' cohort_tgids out h =
      let (s, o, e, run) =
        split_cohorts-Run f g.cfg g.edges order cohort_tgids
          (retain (λ k _. contains_key k cohort_tgids) g.split_streak) in
      let same : some (record g { split_streak = s }, o) ≡ some (g', out) = sym (rw e refl) ∙ h in
      let same_g : record g { split_streak = s } ≡ g' = cc in
      let same_out : o ≡ out = cc in
      subst (λ z. Run f g.cfg g.edges order cohort_tgids kept_streaks z out)
        (ap (λ z. z.split_streak) same_g)
        (subst (λ z. Run f g.cfg g.edges order cohort_tgids kept_streaks s z) same_out run)
    where
      kept_streaks : Map ℕ ℕ
      kept_streaks = retain (λ k _. contains_key k cohort_tgids) g.split_streak

  -- One call, on maps with one entry for each key: the streak of a cohort that is listed and in parts
  -- grows by one, or starts anew when that completes it, and any other cohort is left without one.
  pub splits-streak :
      (g g' : WakeGraph f.F64) (cohort_tgids : Map ℕ (List (ℕ × ℕ))) (out : List SplitPlan)
      → IsMap g.split_streak
      → IsMap cohort_tgids
      → splits f order g cohort_tgids ≡ some (g', out)
      → (c : ℕ)
      → streak c g'.split_streak
        ≡ next_streak g.cfg (parted g.cfg g.edges (lookup c cohort_tgids)) (streak c g.split_streak)
  splits-streak g g' cohort_tgids out k distinct h c =
      let run = splits-Run g g' cohort_tgids out h in
      elim (Option-cases (lookup c cohort_tgids)) [
        | inl gone ↦ rw gone (
            Run-absent f g.cfg g.edges order cohort_tgids _ g'.split_streak out run c gone
            ∙ streak_collected c cohort_tgids g.split_streak k gone)
        | inr (members, here) ↦ rw here (
            Run-streak f g.cfg g.edges order cohort_tgids _ g'.split_streak out run distinct c
              members (In-lookup c members cohort_tgids here)
            ∙ ap (λ n. next_streak g.cfg (in_parts f g.cfg g.edges members) n)
                (streak_retained c members cohort_tgids g.split_streak k here))
      ]

  splits-IsMap :
      (g g' : WakeGraph f.F64) (cohort_tgids : Map ℕ (List (ℕ × ℕ))) (out : List SplitPlan)
      → IsMap g.split_streak
      → splits f order g cohort_tgids ≡ some (g', out)
      → IsMap g'.split_streak
  splits-IsMap g g' cohort_tgids out k h =
      Run-IsMap f g.cfg g.edges order cohort_tgids _ g'.split_streak out
        (splits-Run g g' cohort_tgids out h) (retain-IsMap _ g.split_streak k)

  splits-plan :
      (g g' : WakeGraph f.F64) (cohort_tgids : Map ℕ (List (ℕ × ℕ))) (out : List SplitPlan)
      → IsMap g.split_streak
      → IsMap cohort_tgids
      → splits f order g cohort_tgids ≡ some (g', out)
      → (p : SplitPlan) → In p out
      → (parted g.cfg g.edges (lookup p.cohort cohort_tgids) ≡ true)
        × (g.cfg.split_confirm_ticks ≤ add32 (streak p.cohort g.split_streak) 1)
  splits-plan g g' cohort_tgids out k distinct h p i =
      let (members, listed, e, ripe) =
        Run-plan f g.cfg g.edges order cohort_tgids _ g'.split_streak out
          (splits-Run g g' cohort_tgids out h) distinct p i in
      let here = lookup-In p.cohort members cohort_tgids distinct listed in
      (
        rw here e,
        subst (λ n. g.cfg.split_confirm_ticks ≤ add32 n 1)
            (streak_retained p.cohort members cohort_tgids g.split_streak k here) ripe,
      )

-- What a call of `splits` finds: the edges of that tick, and the cohorts.
pub record Call (F64 : Type 0) : Type 0 where
  pub edges : Map (ℕ × ℕ) (EdgeState F64)
  pub cohort_tgids : Map ℕ (List (ℕ × ℕ))

module _ (f : Floats) (order : ℕ → List Component → List Component) (cfg : WakeGraphCfg f.F64) where
  -- The streaks that a history of calls leads to, the latest call first.
  pub data Reaches : List (Call f.F64) → Map ℕ ℕ → Type 0 where
    start : Reaches [] []
    call :
        (t : Call f.F64) (h : List (Call f.F64)) (streaks : Map ℕ ℕ) (g' : WakeGraph f.F64)
        (out : List SplitPlan)
        → Reaches h streaks
        → splits f order
            (record { cfg = cfg; edges = t.edges; split_streak = streaks })
            t.cohort_tgids
          ≡ some (g', out)
        → Reaches (t ∷ h) g'.split_streak

  -- On how many of the latest calls, in a row, the cohort was in parts.
  unfoldable pub parts_run : List (Call f.F64) → ℕ → ℕ
  parts_run [] c = 0
  parts_run (t ∷ h) c =
      let run = parts_run h c in
      if parted f order cfg t.edges (lookup c t.cohort_tgids) then suc run else 0

  -- The cohorts of each call have one entry each.
  abbrev pub AllMaps : List (Call f.F64) → Type 0
  AllMaps h = All (λ t. IsMap t.cohort_tgids) h

  Reaches-IsMap : (h : List (Call f.F64)) (streaks : Map ℕ ℕ) → Reaches h streaks → IsMap streaks
  Reaches-IsMap _ _ start = tt
  Reaches-IsMap _ _ (call t h streaks g' out before e) =
      splits-IsMap f order _ g' t.cohort_tgids out (Reaches-IsMap h streaks before) e

  next_streak-le : (b : Bool) (n m : ℕ) → n ≤ m → next_streak cfg b n ≤ (if b then suc m else 0)
  next_streak-le false n m h = omega arith
  next_streak-le true n m h = ground (arith)

  streak-parts_run :
      (h : List (Call f.F64)) (streaks : Map ℕ ℕ)
      → Reaches h streaks
      → AllMaps h
      → (c : ℕ) → streak c streaks ≤ parts_run h c
  unfolding parts_run lookup_or
  streak-parts_run _ _ start all c = omega arith
  streak-parts_run _ _ (call t h streaks g' out before e) all c =
      let law =
        splits-streak f order _ g' t.cohort_tgids out (Reaches-IsMap h streaks before) all.0 e c in
      let bound =
        next_streak-le (parted f order cfg t.edges (lookup c t.cohort_tgids)) (streak c streaks)
          (parts_run h c) (streak-parts_run h streaks before all.1 c) in
      rw law bound

  -- A lull does not split a cohort: whatever the history of calls that listed each cohort once, a plan
  -- is for a cohort that was in parts on `split_confirm_ticks` calls in a row, this one included.
  pub splits_confirmed :
      (h : List (Call f.F64)) (streaks : Map ℕ ℕ) (t : Call f.F64) (g' : WakeGraph f.F64)
      (out : List SplitPlan)
      → Reaches h streaks
      → AllMaps (t ∷ h)
      → splits f order
          (record { cfg = cfg; edges = t.edges; split_streak = streaks })
          t.cohort_tgids
        ≡ some (g', out)
      → (p : SplitPlan) → In p out
      → cfg.split_confirm_ticks ≤ parts_run (t ∷ h) p.cohort
  unfolding parts_run
  splits_confirmed h streaks t g' out before all e p i =
      let (parts, ripe) =
        splits-plan f order _ g' t.cohort_tgids out (Reaches-IsMap h streaks before) all.0 e p i in
      let bound = streak-parts_run h streaks before all.1 p.cohort in
      rw parts (omega (arith, bound, ripe))
