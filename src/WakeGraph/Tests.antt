-- ===== src/WakeGraph/Tests.antt =====
-- Runs of the wake graph in thousandths, and its theorems at concrete inputs.
use mathlib.Core.List.Permᴰ
use scx_cohort.Base.Floats.{milli}
use scx_cohort.Base.Map.{Map, lookup, lookup_or, insert, remove, retain, contains_key, from_list}
use scx_cohort.Base.{ℕ, suc, ◌≤◌, ◌≡◌, refl, inl, some, List, [], ◌∷◌, nat_key, pair_key, In}
use scx_cohort.WakeGraph.Bursts.{Tick, observed, after, hot_run, merges_confirmed}
use scx_cohort.WakeGraph.Merges.{Causes, IsDistinct, cohorts_of, merges-Causes}
use scx_cohort.WakeGraph.Observe.{report, is_reported, wakes, lookup-observe}
use scx_cohort.WakeGraph.Splits.Components.{IsPartition, components-IsPartition}
use scx_cohort.WakeGraph.Splits.Confirmed.{
  Call, Reaches, start, call, parted, parts_run, splits-streak, splits_confirmed,
}
use scx_cohort.WakeGraph.Splits.Offcuts.{IsPlanned, splits-IsPlanned}
use scx_cohort.WakeGraph.Splits.Outcomes.{in_parts}
use scx_cohort.WakeGraph.Splits.Streaks.{streak, next_streak}
use scx_cohort.WakeGraph.Splits.{
  Component, group, sum_from, task_sum, insert_by_tasks, sort_by_tasks, skip_largest, longer,
  offcuts, confirm, components, split_cohort, split_cohorts, splits,
}
use scx_cohort.WakeGraph.UnionFind.Classes.{Between}
use scx_cohort.WakeGraph.UnionFind.Forest.{Joined}
use scx_cohort.WakeGraph.UnionFind.{singletons, find, unite, unite_edge, unite_edges}
use scx_cohort.WakeGraph.{
  WakeGraph, WakeGraphCfg, EdgeState, MergePlan, SplitPlan, default_cfg, new, ekey, sum_fresh,
  blend, decay_state, decay, fresh_state, enter_fresh, audible, observe, is_hot, orient, merge_pair,
  merge_edge, merge_edges, merges,
}

program : Unit {0}
unfolding new ekey sum_fresh blend decay_state decay fresh_state enter_fresh audible observe is_hot
    orient merge_pair merge_edge merge_edges merges lookup lookup_or insert remove retain
    contains_key from_list observed after hot_run group sum_from task_sum insert_by_tasks
    sort_by_tasks skip_largest longer offcuts confirm components split_cohort split_cohorts splits
    singletons find unite unite_edge unite_edges in_parts parts_run report is_reported wakes
program = tt

abbrev cfg : WakeGraphCfg ℕ
cfg = default_cfg milli

-- A tick of one second with 1000 wakes between the processes 1 and 2, of the cohorts 10 and 20.
abbrev busy : Tick ℕ
busy = record {
  deltas = (2, 1, 1000) ∷ [];
  dt_s = 1000;
  sample_mult = 1;
  tgid_cohort = (1, 10) ∷ (2, 20) ∷ [];
  sizes = (10, 5) ∷ (20, 3) ∷ [];
}

abbrev two_ticks : List (Tick ℕ)
two_ticks = busy ∷ busy ∷ []

abbrev twice : WakeGraph ℕ
twice = after milli cfg two_ticks

abbrev into_the_larger : MergePlan
into_the_larger = record { into = 10; from = 20 }

third_tick_merges :
    (merges milli (observed milli twice busy) busy.tgid_cohort busy.sizes).1 ≡ into_the_larger ∷ []
unfolding program
third_tick_merges = refl

lookup-observe_example :
    lookup (1, 2) (observe milli twice ((2, 1, 1000) ∷ []) 1000 1).edges
    ≡ some (record { rate = 875_000; inst = 1_000_000; over_ticks = 2 })
unfolding program
lookup-observe_example =
    lookup-observe milli twice ((2, 1, 1000) ∷ []) 1000 1 (1, 2) (refl, tt) refl

merges-Causes_example :
    ((p : MergePlan)
      → In p (merges milli (observed milli twice busy) busy.tgid_cohort busy.sizes).1
      → (key : ℕ × ℕ) × (st : EdgeState ℕ) × In (key, st) (observed milli twice busy).edges
        × Causes milli (observed milli twice busy).cfg busy.tgid_cohort busy.sizes key st p)
    × IsDistinct
        (cohorts_of (merges milli (observed milli twice busy) busy.tgid_cohort busy.sizes).1)
merges-Causes_example = merges-Causes milli (observed milli twice busy) busy.tgid_cohort busy.sizes

merges_confirmed_example :
    (key : ℕ × ℕ) × (st : EdgeState ℕ) × (lookup key (observed milli twice busy).edges ≡ some st)
    × Causes milli cfg busy.tgid_cohort busy.sizes key st into_the_larger
    × (3 ≤ suc (hot_run milli cfg two_ticks key))
unfolding program
merges_confirmed_example = merges_confirmed milli cfg two_ticks busy into_the_larger (inl refl)

-- A cohort of three processes, of which two talk.
abbrev talking : Map (ℕ × ℕ) (EdgeState ℕ)
talking =
    ((1, 2), record { rate = 50_000; inst = 50_000; over_ticks = 0 })
    ∷ ((2, 3), record { rate = 5_000; inst = 0; over_ticks = 0 })
    ∷ []

abbrev trio : List (ℕ × ℕ)
trio = (1, 4) ∷ (2, 4) ∷ (3, 2) ∷ []

abbrev prompt : WakeGraphCfg ℕ
prompt = record cfg { split_confirm_ticks = 2 }

abbrev lonely : WakeGraph ℕ
lonely = record { cfg = prompt; edges = talking; split_streak = (7, 1) ∷ [] }

abbrev cohorts : Map ℕ (List (ℕ × ℕ))
cohorts = (7, trio) ∷ []

abbrev pub as_listed : ℕ → List Component → List Component
as_listed cohort comps = comps

abbrev third_goes : SplitPlan
third_goes = record { cohort = 7; off_tgids = 3 ∷ [] }

silent_process_is_split :
    splits milli as_listed lonely cohorts
    ≡ some (record lonely { split_streak = [] }, third_goes ∷ [])
unfolding program
silent_process_is_split = refl

components-IsPartition_example :
    (comps : Map ℕ Component) × (components milli prompt talking trio ≡ some comps)
    × IsPartition (Joined (Between milli prompt talking trio)) trio comps
components-IsPartition_example = components-IsPartition milli prompt talking trio

splits-IsPlanned_example :
    (g' : WakeGraph ℕ) × (out : List SplitPlan) × (splits milli as_listed lonely cohorts
      ≡ some (g', out))
    × ((p : SplitPlan) → In p out → IsPlanned milli prompt talking cohorts p)
splits-IsPlanned_example =
    splits-IsPlanned milli as_listed (λ cohort comps. Permᴰ.refl comps) lonely cohorts

splits-streak_example :
    streak 7 []
    ≡ next_streak prompt
        (parted milli as_listed prompt talking (lookup 7 cohorts))
        (streak 7 ((7, 1) ∷ []))
unfolding program
splits-streak_example =
    splits-streak milli as_listed lonely (record lonely { split_streak = [] }) cohorts
      (third_goes ∷ []) (refl, tt) (refl, tt) refl 7

abbrev first_call : Call ℕ
first_call = record { edges = talking; cohort_tgids = cohorts }

first_call-Reaches : Reaches milli as_listed prompt (first_call ∷ []) ((7, 1) ∷ [])
unfolding program
first_call-Reaches = call first_call [] [] lonely [] start refl

splits_confirmed_example : 2 ≤ parts_run milli as_listed prompt (first_call ∷ first_call ∷ []) 7
unfolding program
splits_confirmed_example =
    splits_confirmed milli as_listed prompt (first_call ∷ []) ((7, 1) ∷ []) first_call
      (record lonely { split_streak = [] }) (third_goes ∷ []) first_call-Reaches
      ((refl, tt), ((refl, tt), tt)) refl third_goes (inl refl)
