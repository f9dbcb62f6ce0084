-- ===== src/WakeGraph.antt =====
-- scx_cohort/src/wake_graph.rs: wake edges between processes, and the merges and splits of cohorts
-- that follow from them. Rates are f64, an interface here.
pub mod Tests
pub mod Observe
pub mod Merges
pub mod Bursts
pub mod UnionFind
pub mod Splits
use scx_cohort.Base.Floats.{Floats}
use scx_cohort.Base.Map.{Map, lookup, insert, retain, lookup_or, contains_key}
use scx_cohort.Base.Words.{add32, add64, mul64}
use scx_cohort.Base.{
  ℕ, Bool, not, ◌||◌, Option, none, some, List, [], ◌∷◌, ltb, leb, nat_beq, nat_key, pair_key,
  if◌then◌else◌, any,
}

-- An undirected edge key: tgids in sorted order.
unfoldable pub ekey : ℕ → ℕ → ℕ × ℕ
ekey a b = if ltb a b then (a, b) else (b, a)

pub record WakeGraphCfg (F64 : Type 0) : Type 0 where
  pub merge_wakes_per_sec : F64
  pub merge_confirm_ticks : ℕ
  pub split_min_wakes_per_sec : F64
  pub split_confirm_ticks : ℕ
  pub split_min_tasks : ℕ
  pub rate_tau_s : F64

pub record MergePlan : Type 0 where
  pub into : ℕ
  pub from : ℕ

pub record SplitPlan : Type 0 where
  pub cohort : ℕ
  pub off_tgids : List ℕ

pub record EdgeState (F64 : Type 0) : Type 0 where
  pub rate : F64
  pub inst : F64
  pub over_ticks : ℕ

pub record WakeGraph (F64 : Type 0) : Type 0 where
  pub cfg : WakeGraphCfg F64
  pub edges : Map (ℕ × ℕ) (EdgeState F64)
  pub split_streak : Map ℕ ℕ

-- `WakeGraph::new`.
unfoldable pub new : {F64 : Type 0} → WakeGraphCfg F64 → WakeGraph F64
new cfg = record { cfg = cfg; edges = []; split_streak = [] }

-- The loop of `observe` over the deltas: this tick's wakes by edge.
unfoldable pub sum_fresh : ℕ → List (ℕ × ℕ × ℕ) → Map (ℕ × ℕ) ℕ → Map (ℕ × ℕ) ℕ
sum_fresh mult [] fresh = fresh
sum_fresh mult ((a, b, count) ∷ deltas) fresh =
    sum_fresh mult deltas
      (insert (ekey a b) (add64 (lookup_or 0 (ekey a b) fresh) (mul64 count mult)) fresh)

-- The cohorts that have merged on this tick, after a plan or none.
abbrev pub note : Option MergePlan → List ℕ → List ℕ
note none merged = merged
note (some p) merged = p.into ∷ p.from ∷ merged

abbrev pub push : Option MergePlan → List MergePlan → List MergePlan
push none out = out
push (some p) out = p ∷ out

module _ (f : Floats) where
  open f use {F64, of_nat, add, sub, mul, div, lt, le}

  -- `WakeGraphCfg::default`.
  abbrev pub default_cfg : WakeGraphCfg F64
  default_cfg = record {
    merge_wakes_per_sec = of_nat 300;
    merge_confirm_ticks = 3;
    split_min_wakes_per_sec = of_nat 10;
    split_confirm_ticks = 25;
    split_min_tasks = 2;
    rate_tau_s = of_nat 1;
  }

  -- `dt_s / (dt_s + rate_tau_s)`.
  unfoldable pub blend : WakeGraphCfg F64 → F64 → F64
  blend cfg dt_s = div dt_s (add dt_s cfg.rate_tau_s)

  -- The update of a known edge by a count.
  unfoldable pub decay_state : F64 → F64 → ℕ → EdgeState F64 → EdgeState F64
  decay_state alpha dt_s count st =
      let inst = div (of_nat count) dt_s in
      record st { inst = inst; rate = add st.rate (mul alpha (sub inst st.rate)) }

  -- The loop over the known edges.
  unfoldable pub decay :
      F64 → F64 → Map (ℕ × ℕ) ℕ → Map (ℕ × ℕ) (EdgeState F64) → Map (ℕ × ℕ) (EdgeState F64)
  decay alpha dt_s fresh [] = []
  decay alpha dt_s fresh ((key, st) ∷ edges) =
      (key, decay_state alpha dt_s (lookup_or 0 key fresh) st) ∷ decay alpha dt_s fresh edges

  -- The state of an edge that was not known.
  unfoldable pub fresh_state : F64 → F64 → ℕ → EdgeState F64
  fresh_state alpha dt_s count =
      let inst = div (of_nat count) dt_s in
      record { rate = mul alpha inst; inst = inst; over_ticks = 0 }

  -- The loop that enters the vacant edges.
  unfoldable pub enter_fresh :
      F64 → F64 → Map (ℕ × ℕ) ℕ → Map (ℕ × ℕ) (EdgeState F64) → Map (ℕ × ℕ) (EdgeState F64)
  enter_fresh alpha dt_s [] edges = edges
  enter_fresh alpha dt_s ((key, count) ∷ fresh) edges =
      enter_fresh alpha dt_s fresh
        (if contains_key key edges then edges else insert key (fresh_state alpha dt_s count) edges)

  -- The final `retain`.
  unfoldable pub audible : WakeGraphCfg F64 → EdgeState F64 → Bool
  audible cfg st = le (div cfg.split_min_wakes_per_sec (of_nat 10)) st.rate

  unfoldable pub observe : WakeGraph F64 → List (ℕ × ℕ × ℕ) → F64 → ℕ → WakeGraph F64
  observe g deltas dt_s mult =
      let fresh = sum_fresh mult deltas [] in
      let alpha = blend g.cfg dt_s in
      if le dt_s (of_nat 0) then g else record g {
        edges =
            retain (λ _ st. audible g.cfg st)
              (enter_fresh alpha dt_s fresh (decay alpha dt_s fresh g.edges));
      }

  -- The rate tests of `merges`.
  unfoldable pub is_hot : WakeGraphCfg F64 → EdgeState F64 → Bool
  is_hot cfg st = not (lt st.rate cfg.merge_wakes_per_sec || lt st.inst cfg.merge_wakes_per_sec)

  -- The plan for two cohorts: the one with more tasks absorbs the other.
  unfoldable pub orient : Map ℕ ℕ → ℕ → ℕ → MergePlan
  orient sizes ca cb =
      if leb (lookup_or 0 cb sizes) (lookup_or 0 ca sizes)
      then record { into = ca; from = cb }
      else record { into = cb; from = ca }

  -- The body of the loop of `merges` for an edge between two known cohorts.
  unfoldable pub merge_pair :
      WakeGraphCfg F64 → Map ℕ ℕ → List ℕ → ℕ → ℕ → EdgeState F64 → EdgeState F64 × Option MergePlan
  merge_pair cfg sizes merged ca cb st =
      let calm = record st { over_ticks = 0 } in
      let over = record st { over_ticks = add32 st.over_ticks 1 } in
      if nat_beq ca cb
      then (calm, none)
      else if is_hot cfg st
      then (if ltb over.over_ticks cfg.merge_confirm_ticks
          then (over, none)
          else if any (nat_beq ca) merged || any (nat_beq cb) merged
          then (over, none)
          else (calm, some (orient sizes ca cb)))
      else (calm, none)

  unfoldable pub merge_edge :
      WakeGraphCfg F64
      → Map ℕ ℕ
      → Map ℕ ℕ
      → List ℕ
      → ℕ × ℕ
      → EdgeState F64
      → EdgeState F64 × Option MergePlan
  merge_edge cfg tgid_cohort sizes merged key st = elim (lookup key.0 tgid_cohort) [
    | none ↦ (st, none)
    | some ca ↦ elim (lookup key.1 tgid_cohort) [
      | none ↦ (st, none)
      | some cb ↦ merge_pair cfg sizes merged ca cb st
    ]
  ]

  -- The loop of `merges` over the edges.
  unfoldable pub merge_edges :
      WakeGraphCfg F64
      → Map ℕ ℕ
      → Map ℕ ℕ
      → Map (ℕ × ℕ) (EdgeState F64)
      → List ℕ
      → Map (ℕ × ℕ) (EdgeState F64) × List MergePlan
  merge_edges cfg tgid_cohort sizes [] merged = ([], [])
  merge_edges cfg tgid_cohort sizes ((key, st) ∷ edges) merged =
      let r = merge_edge cfg tgid_cohort sizes merged key st in
      let rest = merge_edges cfg tgid_cohort sizes edges (note r.1 merged) in
      ((key, r.0) ∷ rest.0, push r.1 rest.1)

  unfoldable pub merges : WakeGraph F64 → Map ℕ ℕ → Map ℕ ℕ → WakeGraph F64 × List MergePlan
  merges g tgid_cohort sizes =
      let r = merge_edges g.cfg tgid_cohort sizes g.edges [] in (record g { edges = r.0 }, r.1)
