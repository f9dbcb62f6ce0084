-- ===== src/Balancer/History.antt =====
-- The balancer over many ticks: confirmation of an imbalance, and the residency of a moved cohort.
use scx_cohort.Balancer.{
  Balancer, BalancerCfg, new, retain_cohorts, max_by_load, min_by_load, conclude, decide, threshold,
  plan_between, plan,
}
use scx_cohort.Base.Map.Laws.{lookup-insert, lookup-retain, insert-IsMap, retain-IsMap, kept}
use scx_cohort.Base.Map.{lookup, IsMap}
use scx_cohort.Base.Words.{add32}
use scx_cohort.Base.{
  ℕ, suc, ◌-◌, ◌≤◌, ◌≡◌, refl, ◌∙◌, Bool, true, false, ◌||◌, Option, none, some, List, [], ◌∷◌,
  arith, ltb, nat_beq, nat_key, if◌then◌else◌, if_keeps,
}
use scx_cohort.Domain.{LlcLoad, CohortSnapshot, Decision, move_cohort}

-- What the daemon asks of the balancer: a plan at a time, or to forget the dead cohorts.
pub data Event : Type 0 where
  tick : ℕ → List LlcLoad → List CohortSnapshot → Event
  collect : (ℕ → Bool) → Event

-- The balancer after a history, the latest event first.
unfoldable pub after : BalancerCfg → List Event → Balancer
after cfg [] = new cfg
after cfg (tick now llcs cohorts ∷ h) = (plan (after cfg h) now llcs cohorts).0
after cfg (collect live ∷ h) = retain_cohorts (after cfg h) live

-- The loads of a tick differ by more than the threshold.
unfoldable pub is_over : BalancerCfg → LlcLoad → LlcLoad → Bool
is_over cfg max min = ltb (threshold cfg min) (max.load_ns - min.load_ns)

abbrev quiet : List Decision → Bool
quiet [] = true
quiet (d ∷ ds) = false

-- How many of the latest ticks with two LLCs were over the threshold and moved nothing.
unfoldable pub waiting : BalancerCfg → List Event → ℕ
waiting cfg [] = 0
waiting cfg (collect live ∷ h) = waiting cfg h
waiting cfg (tick now [] cohorts ∷ h) = waiting cfg h
waiting cfg (tick now (l ∷ []) cohorts ∷ h) = waiting cfg h
waiting cfg (tick now (l ∷ m ∷ ls) cohorts ∷ h) =
    if is_over cfg (max_by_load l (m ∷ ls)) (min_by_load l (m ∷ ls))
    then if quiet (plan (after cfg h) now (l ∷ m ∷ ls) cohorts).1 then suc (waiting cfg h) else 0
    else 0

-- `id` is among the cohorts that the decisions move.
abbrev moves : ℕ → List Decision → Bool
moves id [] = false
moves id (move_cohort i to ∷ ds) = nat_beq i id || moves id ds

-- When the history last moved a cohort, as far as it was not forgotten since.
unfoldable pub last_moved : BalancerCfg → List Event → ℕ → Option ℕ
last_moved cfg [] id = none
last_moved cfg (collect live ∷ h) id = if live id then last_moved cfg h id else none
last_moved cfg (tick now llcs cohorts ∷ h) id =
    if moves id (plan (after cfg h) now llcs cohorts).1 then some now else last_moved cfg h id

conclude-cfg :
    (b : Balancer) (now target : ℕ) (o : Option CohortSnapshot)
    → (conclude b now target o).0.cfg ≡ b.cfg
unfolding conclude
conclude-cfg b now target none = refl
conclude-cfg b now target (some c) = refl

plan-cfg :
    (b : Balancer) (now : ℕ) (llcs : List LlcLoad) (cohorts : List CohortSnapshot)
    → (plan b now llcs cohorts).0.cfg ≡ b.cfg
unfolding plan plan_between decide conclude
plan-cfg b now [] cohorts = refl
plan-cfg b now (l ∷ []) cohorts = refl
plan-cfg b now (l ∷ m ∷ ls) cohorts = ground arith

after-cfg : (cfg : BalancerCfg) (h : List Event) → (after cfg h).cfg ≡ cfg
unfolding after new retain_cohorts
after-cfg cfg [] = refl
after-cfg cfg (tick now llcs cohorts ∷ h) =
    plan-cfg (after cfg h) now llcs cohorts ∙ after-cfg cfg h
after-cfg cfg (collect live ∷ h) = after-cfg cfg h

plan_between-streak :
    (b : Balancer) (now : ℕ) (max min : LlcLoad) (cohorts : List CohortSnapshot) (n : ℕ)
    → b.streak ≤ n
    → (plan_between b now max min cohorts).0.streak ≤ (
        if is_over b.cfg max min
        then if quiet (plan_between b now max min cohorts).1 then suc n else 0
        else 0)
unfolding plan_between decide conclude is_over
plan_between-streak b now max min cohorts n h = ground arith

streak-waiting : (cfg : BalancerCfg) (h : List Event) → (after cfg h).streak ≤ waiting cfg h
unfolding after waiting new retain_cohorts plan
streak-waiting cfg [] = omega arith
streak-waiting cfg (collect live ∷ h) = streak-waiting cfg h
streak-waiting cfg (tick now [] cohorts ∷ h) = streak-waiting cfg h
streak-waiting cfg (tick now (l ∷ []) cohorts ∷ h) = streak-waiting cfg h
streak-waiting cfg (tick now (l ∷ m ∷ ls) cohorts ∷ h) = rw after-cfg at (
    plan_between-streak (after cfg h) now (max_by_load l (m ∷ ls)) (min_by_load l (m ∷ ls)) cohorts
      (waiting cfg h) (streak-waiting cfg h))

plan_between-confirmed :
    (b : Balancer) (now : ℕ) (max min : LlcLoad) (cohorts : List CohortSnapshot) (d : Decision)
    (ds : List Decision)
    → (plan_between b now max min cohorts).1 ≡ d ∷ ds
    → (b.cfg.confirm_ticks ≤ suc b.streak) × (is_over b.cfg max min ≡ true)
unfolding plan_between decide is_over
plan_between-confirmed b now max min cohorts d ds h = ground arith

-- A move needs confirmation: it comes only on a tick over the threshold, when the ticks before it,
-- back to the last calm tick or move, make `confirm_ticks` with it.
pub move-waiting :
    (cfg : BalancerCfg) (h : List Event) (now : ℕ) (l m : LlcLoad) (ls : List LlcLoad)
    (cohorts : List CohortSnapshot) (d : Decision) (ds : List Decision)
    → (plan (after cfg h) now (l ∷ m ∷ ls) cohorts).1 ≡ d ∷ ds
    → (cfg.confirm_ticks ≤ suc (waiting cfg h))
      × (is_over cfg (max_by_load l (m ∷ ls)) (min_by_load l (m ∷ ls)) ≡ true)
unfolding plan
move-waiting cfg h now l m ls cohorts d ds e =
    let (c, o) = rw after-cfg at (
      plan_between-confirmed (after cfg h) now (max_by_load l (m ∷ ls)) (min_by_load l (m ∷ ls))
        cohorts d ds e) in
    (omega (arith, streak-waiting cfg h), o)

-- A property of the outcomes of `plan_between`: calm, unconfirmed, and concluded.
plan_between_keeps :
    (P : Balancer × List Decision → Type 0) (b : Balancer) (now : ℕ) (max min : LlcLoad)
    (cohorts : List CohortSnapshot)
    → P (record b { streak = 0 }, [])
    → P (record b { streak = add32 b.streak 1 }, [])
    → ((b' : Balancer)
        → b'.last_move_at ≡ b.last_move_at
        → (o : Option CohortSnapshot) → P (conclude b' now min.llc o))
    → P (plan_between b now max min cohorts)
unfolding plan_between decide
plan_between_keeps P b now max min cohorts calm unconfirmed concluded =
    if_keeps P _ calm (if_keeps P _ unconfirmed (concluded _ refl _))

conclude-last_move :
    (b : Balancer) (now target : ℕ) (o : Option CohortSnapshot) (id : ℕ)
    → lookup id (conclude b now target o).0.last_move_at
      ≡ (if moves id (conclude b now target o).1 then some now else lookup id b.last_move_at)
unfolding conclude
conclude-last_move b now target none id = refl
conclude-last_move b now target (some c) id =
    ground (arith, lookup-insert c.id id now b.last_move_at)

plan-last_move :
    (b : Balancer) (now : ℕ) (llcs : List LlcLoad) (cohorts : List CohortSnapshot) (id : ℕ)
    → lookup id (plan b now llcs cohorts).0.last_move_at
      ≡ (if moves id (plan b now llcs cohorts).1 then some now else lookup id b.last_move_at)
unfolding plan plan_between decide
plan-last_move b now [] cohorts id = refl
plan-last_move b now (l ∷ []) cohorts id = refl
plan-last_move b now (l ∷ m ∷ ls) cohorts id =
    plan_between_keeps
      (λ r.
        lookup id r.0.last_move_at ≡ (if moves id r.1 then some now else lookup id b.last_move_at))
      b now _ _ cohorts refl refl (λ b' e o. rw (← e) (conclude-last_move b' now _ o id))

conclude-IsMap :
    (b : Balancer) (now target : ℕ) (o : Option CohortSnapshot)
    → IsMap b.last_move_at
    → IsMap (conclude b now target o).0.last_move_at
unfolding conclude
conclude-IsMap b now target none i = i
conclude-IsMap b now target (some c) i = insert-IsMap c.id now b.last_move_at i

plan-IsMap :
    (b : Balancer) (now : ℕ) (llcs : List LlcLoad) (cohorts : List CohortSnapshot)
    → IsMap b.last_move_at
    → IsMap (plan b now llcs cohorts).0.last_move_at
unfolding plan plan_between decide
plan-IsMap b now [] cohorts i = i
plan-IsMap b now (l ∷ []) cohorts i = i
plan-IsMap b now (l ∷ m ∷ ls) cohorts i =
    plan_between_keeps (λ r. IsMap r.0.last_move_at) b now _ _ cohorts i i
      (λ b' e o. conclude-IsMap b' now _ o (rw e i))

after-IsMap : (cfg : BalancerCfg) (h : List Event) → IsMap (after cfg h).last_move_at
unfolding after new retain_cohorts
after-IsMap cfg [] = tt
after-IsMap cfg (tick now llcs cohorts ∷ h) =
    plan-IsMap (after cfg h) now llcs cohorts (after-IsMap cfg h)
after-IsMap cfg (collect live ∷ h) = retain-IsMap _ (after cfg h).last_move_at (after-IsMap cfg h)

kept-live :
    (live : ℕ → Bool) (id : ℕ) (o : Option ℕ)
    → kept (λ i _. live i) id o ≡ (if live id then o else none)
kept-live live id none = ground arith
kept-live live id (some at) = refl

-- The map of move times holds what the history says.
pub last_move_at-last_moved :
    (cfg : BalancerCfg) (h : List Event) (id : ℕ)
    → lookup id (after cfg h).last_move_at ≡ last_moved cfg h id
unfolding after last_moved new retain_cohorts lookup
last_move_at-last_moved cfg [] id = refl
last_move_at-last_moved cfg (tick now llcs cohorts ∷ h) id =
    rw (← last_move_at-last_moved cfg h id) (plan-last_move (after cfg h) now llcs cohorts id)
last_move_at-last_moved cfg (collect live ∷ h) id = rw (← last_move_at-last_moved cfg h id) (
    lookup-retain (λ i _. live i) id (after cfg h).last_move_at (after-IsMap cfg h)
    ∙ kept-live live id (lookup id (after cfg h).last_move_at))
