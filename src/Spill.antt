-- ===== src/Spill.antt =====
-- scx_cohort/src/balancer.rs, `SpillCfg` and `plan_spills`: which tasks of an oversized cohort run
-- off their home LLC. `none` stands for a panic of an `unwrap`. u64 arithmetic wraps.
pub mod Loop
pub mod Totality
pub mod Sticky
pub mod Growth
pub mod Reasons
mod Tests
use scx_cohort.Balancer.{min_by_load}
use scx_cohort.Base.Map.{Map, lookup, insert, contains_key, from_list}
use scx_cohort.Base.Words.{add64, mul64}
use scx_cohort.Base.{
  ℕ, ◌-◌, ◌/◌, Bool, not, ◌&&◌, Option, none, some, List, [], ◌∷◌, map, ltb, leb, nat_beq, nat_key,
  if◌then◌else◌, ◌>>=◌, keep, any,
}
use scx_cohort.Domain.{LlcLoad, CohortSnapshot, TaskSnapshot}

pub record SpillCfg : Type 0 where
  pub high_pct : ℕ
  pub low_pct : ℕ
  pub cold_max_pct : ℕ
  pub tick_ns : ℕ

-- `SpillCfg::default`.
abbrev pub default_cfg : SpillCfg
default_cfg = record { high_pct = 95; low_pct = 75; cold_max_pct = 25; tick_ns = 200_000_000 }

-- `capacity`: LLC id to capacity.
unfoldable pub capacities : List LlcLoad → Map ℕ ℕ
capacities llcs = from_list (map (λ l. (l.llc, l.capacity_ns)) llcs) []

-- `already`: the members that the current set holds.
unfoldable pub already_spilled : CohortSnapshot → List TaskSnapshot → Map ℕ ℕ → List ℕ
already_spilled cohort tasks current =
    map (λ t. t.pid) (keep (λ t. nat_beq t.cohort_id cohort.id && contains_key t.pid current) tasks)

-- `target`: the least loaded LLC other than the home.
abbrev first_llc : List LlcLoad → Option ℕ
first_llc [] = none
first_llc (l ∷ ls) = some (min_by_load l ls).llc

unfoldable pub spill_target : CohortSnapshot → List LlcLoad → Option ℕ
spill_target cohort llcs = first_llc (keep (λ l. not (nat_beq l.llc cohort.home_llc)) llcs)

-- The loop that keeps what is already spilled.
unfoldable pub keep_spilled : Map ℕ ℕ → List ℕ → Map ℕ ℕ → Option (Map ℕ ℕ)
keep_spilled current [] desired = some desired
keep_spilled current (pid ∷ pids) desired = elim (lookup pid current) [
  | none ↦ none
  | some llc ↦ keep_spilled current pids (insert pid llc desired)
]

-- `members`: the cold members that are not spilled yet, before the sort.
unfoldable pub cold_members : CohortSnapshot → List TaskSnapshot → List ℕ → ℕ → List TaskSnapshot
cold_members cohort tasks already ceiling =
    keep
      (λ t.
        nat_beq t.cohort_id cohort.id && not (any (nat_beq t.pid) already) && ltb t.duty_ns ceiling)
      tasks

-- `sort_by_key` on the duty, which is stable.
unfoldable pub insert_by_duty : TaskSnapshot → List TaskSnapshot → List TaskSnapshot
insert_by_duty t [] = t ∷ []
insert_by_duty t (u ∷ us) = if leb t.duty_ns u.duty_ns then t ∷ u ∷ us else u ∷ insert_by_duty t us

unfoldable pub sort_by_duty : List TaskSnapshot → List TaskSnapshot
sort_by_duty [] = []
sort_by_duty (t ∷ ts) = insert_by_duty t (sort_by_duty ts)

-- `t.duty_ns.max(1)`.
abbrev pub shed_by : TaskSnapshot → ℕ
shed_by t = if ltb t.duty_ns 1 then 1 else t.duty_ns

-- The loop that spills members until enough is shed.
unfoldable pub grow : ℕ → ℕ → ℕ → List TaskSnapshot → Map ℕ ℕ → Map ℕ ℕ
grow target excess shed [] desired = desired
grow target excess shed (t ∷ ts) desired =
    let rest = grow target excess (add64 shed (shed_by t)) ts (insert t.pid target desired) in
    if leb excess shed then desired else rest

-- `cap * pct / 100`.
unfoldable pub mark : ℕ → ℕ → ℕ
mark cap pct = mul64 cap pct / 100

-- The part of an iteration above the high mark.
unfoldable pub spill_more :
    SpillCfg → CohortSnapshot → List TaskSnapshot → List ℕ → ℕ → ℕ → Map ℕ ℕ → Map ℕ ℕ
spill_more cfg cohort tasks already high target desired =
    grow target (cohort.load_ns - high) 0
      (sort_by_duty (cold_members cohort tasks already (mark cfg.tick_ns cfg.cold_max_pct))) desired

-- One iteration of the loop over the cohorts, once the home's capacity is known.
unfoldable pub spill_at :
    SpillCfg
    → List LlcLoad
    → List TaskSnapshot
    → Map ℕ ℕ
    → CohortSnapshot
    → ℕ
    → Map ℕ ℕ
    → Option (Map ℕ ℕ)
spill_at cfg llcs tasks current cohort cap desired =
    let already = already_spilled cohort tasks current in
    if ltb cohort.load_ns (mark cap cfg.low_pct) then some desired else do
      target ← spill_target cohort llcs
      sticky ← keep_spilled current already desired
      some (
          if ltb cohort.load_ns (mark cap cfg.high_pct)
          then sticky
          else spill_more cfg cohort tasks already (mark cap cfg.high_pct) target sticky)

unfoldable pub spill_cohort :
    SpillCfg
    → List LlcLoad
    → List TaskSnapshot
    → Map ℕ ℕ
    → CohortSnapshot
    → Map ℕ ℕ
    → Option (Map ℕ ℕ)
spill_cohort cfg llcs tasks current cohort desired =
    elim (lookup cohort.home_llc (capacities llcs)) [
      | none ↦ some desired
      | some cap ↦ spill_at cfg llcs tasks current cohort cap desired
    ]

-- The loop over the cohorts.
unfoldable pub spill_all :
    SpillCfg
    → List LlcLoad
    → List TaskSnapshot
    → Map ℕ ℕ
    → List CohortSnapshot
    → Map ℕ ℕ
    → Option (Map ℕ ℕ)
spill_all cfg llcs tasks current [] desired = some desired
spill_all cfg llcs tasks current (c ∷ cs) desired =
    spill_cohort cfg llcs tasks current c desired >>= spill_all cfg llcs tasks current cs

unfoldable pub plan_spills :
    SpillCfg → List LlcLoad → List CohortSnapshot → List TaskSnapshot → Map ℕ ℕ → Option (Map ℕ ℕ)
plan_spills cfg [] cohorts tasks current = some []
plan_spills cfg (l ∷ []) cohorts tasks current = some []
plan_spills cfg (l ∷ m ∷ ls) cohorts tasks current =
    spill_all cfg (l ∷ m ∷ ls) tasks current cohorts []
