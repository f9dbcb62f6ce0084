-- ===== src/WakeGraph/UnionFind.antt =====
-- scx_cohort/src/wake_graph.rs, the union-find of `splits`: processes of a cohort, joined by the
-- edges that are loud enough. `none` stands for a panic of `parent[&x]`, and for want of fuel.
pub mod Roots
pub mod Union
pub mod Forest
pub mod Sweep
pub mod Classes
use scx_cohort.Base.Floats.{Floats}
use scx_cohort.Base.Map.{Map, lookup, insert, contains_key, from_list}
use scx_cohort.Base.{
  ℕ, zero, suc, Bool, true, false, ◌&&◌, Option, none, some, List, [], ◌∷◌, ◌++◌, map, nat_beq,
  nat_key, if◌then◌else◌, ◌>>=◌,
}
use scx_cohort.WakeGraph.{WakeGraphCfg, EdgeState}

-- `parent` at the start: each member is its own parent.
unfoldable pub singletons : List (ℕ × ℕ) → Map ℕ ℕ
singletons members = from_list (map (λ m. (m.0, m.0)) members) []

-- `find`: the root, and the map with the path to it made short.
unfoldable pub find : ℕ → Map ℕ ℕ → ℕ → Option (ℕ × Map ℕ ℕ)
find zero parent x = none
find (suc fuel) parent x = elim (lookup x parent) [
  | none ↦ none
  | some p ↦ elim (nat_beq p x) [
    | true ↦ some (x, parent)
    | false ↦ do (root, shorter) ← find fuel parent p; some (root, insert x root shorter)
  ]
]

-- The body of the loop over the edges, for an edge between members.
unfoldable pub unite : ℕ → Map ℕ ℕ → ℕ → ℕ → Option (Map ℕ ℕ)
unite fuel parent a b = do
  (ra, p) ← find fuel parent a
  (rb, q) ← find fuel p b
  some (if nat_beq ra rb then q else insert ra rb q)

module _ (f : Floats) where
  open f use {F64, lt}

  unfoldable pub unite_edge :
      ℕ → WakeGraphCfg F64 → ℕ × ℕ → EdgeState F64 → Map ℕ ℕ → Option (Map ℕ ℕ)
  unite_edge fuel cfg key st parent =
      if lt st.rate cfg.split_min_wakes_per_sec
      then some parent
      else if contains_key key.0 parent && contains_key key.1 parent
      then unite fuel parent key.0 key.1
      else some parent

  -- The loop over the edges.
  unfoldable pub unite_edges :
      ℕ → WakeGraphCfg F64 → Map (ℕ × ℕ) (EdgeState F64) → Map ℕ ℕ → Option (Map ℕ ℕ)
  unite_edges fuel cfg [] parent = some parent
  unite_edges fuel cfg ((key, st) ∷ edges) parent =
      unite_edge fuel cfg key st parent >>= unite_edges fuel cfg edges
