-- ===== src/WakeGraph/Splits.antt =====
-- scx_cohort/src/wake_graph.rs, `splits`: the cohorts that have come apart. The order in which
-- `components.into_values()` meets the components of a cohort is an argument, `order`. `none` stands
-- for a panic, and for want of the fuel of the union-find, one more than the number of edges.
pub mod Group
pub mod Components
pub mod Largest
pub mod Plans
pub mod Outcomes
pub mod Offcuts
pub mod Streaks
pub mod Confirmed
use scx_cohort.Base.Floats.{Floats}
use scx_cohort.Base.Map.{Map, values, lookup_or, insert, remove, retain, contains_key}
use scx_cohort.Base.Words.{add32, add64}
use scx_cohort.Base.{
  ℕ, suc, Bool, Option, none, some, List, [], ◌∷◌, ◌++◌, map, ltb, leb, nat_key, if◌then◌else◌,
  ◌>>=◌, length,
}
use scx_cohort.WakeGraph.UnionFind.{singletons, find, unite_edges}
use scx_cohort.WakeGraph.{WakeGraphCfg, EdgeState, WakeGraph, SplitPlan}

-- The members of a component: tgids with their task counts.
abbrev pub Component : Type 0
Component = List (ℕ × ℕ)

-- The loop that groups the members by their roots.
unfoldable pub group : ℕ → Map ℕ ℕ → List (ℕ × ℕ) → Map ℕ Component → Option (Map ℕ Component)
group fuel parent [] comps = some comps
group fuel parent ((t, n) ∷ members) comps = do
  (root, shorter) ← find fuel parent t
  group fuel shorter members (insert root (lookup_or [] root comps ++ (t, n) ∷ []) comps)

-- `sum::<u64>` over the task counts, on top of a start.
unfoldable pub sum_from : ℕ → Component → ℕ
sum_from acc [] = acc
sum_from acc ((t, n) ∷ comp) = sum_from (add64 acc n) comp

unfoldable pub task_sum : Component → ℕ
task_sum comp = sum_from 0 comp

-- `sort_by_key` on `Reverse` of the sum: the largest first, and stable.
unfoldable pub insert_by_tasks : Component → List Component → List Component
insert_by_tasks c [] = c ∷ []
insert_by_tasks c (d ∷ comps) =
    if leb (task_sum d) (task_sum c) then c ∷ d ∷ comps else d ∷ insert_by_tasks c comps

unfoldable pub sort_by_tasks : List Component → List Component
sort_by_tasks [] = []
sort_by_tasks (c ∷ comps) = insert_by_tasks c (sort_by_tasks comps)

-- `skip(1)`.
unfoldable pub skip_largest : List Component → List Component
skip_largest [] = []
skip_largest (c ∷ comps) = comps

-- The streak after a tick on which the cohort was in parts.
unfoldable pub longer : ℕ → Map ℕ ℕ → ℕ
longer cohort streaks = add32 (lookup_or 0 cohort streaks) 1

module _ {F64 : Type 0} (cfg : WakeGraphCfg F64) where
  -- The loop over the components that go.
  unfoldable pub offcuts : ℕ → List Component → List SplitPlan
  offcuts cohort [] = []
  offcuts cohort (comp ∷ comps) =
      if ltb (task_sum comp) cfg.split_min_tasks
      then offcuts cohort comps
      else record { cohort = cohort; off_tgids = map (λ m. m.0) comp } ∷ offcuts cohort comps

  -- What follows for a cohort in two or more components.
  unfoldable pub confirm : ℕ → List Component → Map ℕ ℕ → Map ℕ ℕ × List SplitPlan
  confirm cohort comps streaks =
      let longer_streaks = insert cohort (longer cohort streaks) streaks in
      if ltb (longer cohort streaks) cfg.split_confirm_ticks
      then (longer_streaks, [])
      else (remove cohort longer_streaks, offcuts cohort (skip_largest (sort_by_tasks comps)))

module _ (f : Floats) where
  open f use {F64}

  -- `components`: union-find over the members, then the grouping.
  unfoldable pub components :
      WakeGraphCfg F64 → Map (ℕ × ℕ) (EdgeState F64) → List (ℕ × ℕ) → Option (Map ℕ Component)
  components cfg edges members = do
    parent ← unite_edges f (suc (length edges)) cfg edges (singletons members)
    group (suc (length edges)) parent members []

module _ (f : Floats) (order : ℕ → List Component → List Component) where
  open f use {F64}

  -- The body of the loop over the cohorts.
  unfoldable pub split_cohort :
      WakeGraphCfg F64
      → Map (ℕ × ℕ) (EdgeState F64)
      → ℕ
      → List (ℕ × ℕ)
      → Map ℕ ℕ
      → Option (Map ℕ ℕ × List SplitPlan)
  split_cohort cfg edges cohort members streaks =
      if ltb (length members) 2 then some (remove cohort streaks, []) else do
        comps ← components f cfg edges members
        some (
            if ltb (length comps) 2
            then (remove cohort streaks, [])
            else confirm cfg cohort (order cohort (values comps)) streaks)

  unfoldable pub split_cohorts :
      WakeGraphCfg F64
      → Map (ℕ × ℕ) (EdgeState F64)
      → Map ℕ (List (ℕ × ℕ))
      → Map ℕ ℕ
      → Option (Map ℕ ℕ × List SplitPlan)
  split_cohorts cfg edges [] streaks = some (streaks, [])
  split_cohorts cfg edges ((cohort, members) ∷ cohort_tgids) streaks = do
    (kept, out) ← split_cohort cfg edges cohort members streaks
    (rest, more) ← split_cohorts cfg edges cohort_tgids kept
    some (rest, out ++ more)

  unfoldable pub splits :
      WakeGraph F64 → Map ℕ (List (ℕ × ℕ)) → Option (WakeGraph F64 × List SplitPlan)
  splits g cohort_tgids = do
    (streaks, out) ←
        split_cohorts g.cfg g.edges cohort_tgids
          (retain (λ cohort _. contains_key cohort cohort_tgids) g.split_streak)
    some (record g { split_streak = streaks }, out)
