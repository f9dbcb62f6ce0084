-- ===== src/Daemon/Upkeep.antt =====
-- scx_cohort/src/main.rs, `llc_loads` and `gc_tgid_map`. What a lookup of the load counter of an LLC
-- gives is an argument: the call fails, there is no entry, or a value that has 8 bytes or not. The
-- deletes of processes, whose outcome is ignored, are the last part of the result.
pub mod Laws
use scx_cohort.Base.Map.{Map, insert, lookup_or}
use scx_cohort.Base.Words.{mul64}
use scx_cohort.Base.{
  ℕ, ◌-◌, Bool, true, false, Option, none, some, List, [], ◌∷◌, map, nat_beq, nat_key,
  if◌then◌else◌, any, ◌>>=◌,
}
use scx_cohort.Daemon.{Value, sized, misfit}
use scx_cohort.Domain.{LlcLoad, TaskSnapshot}

-- `map(..).unwrap_or(0)`, where a value of another size counts for 0.
unfoldable pub counter_of : Option (Value ℕ) → ℕ
counter_of none = 0
counter_of (some misfit) = 0
counter_of (some (sized n)) = n

unfoldable pub load_of : ℕ → Map ℕ ℕ → ℕ → ℕ → ℕ → LlcLoad
load_of tick_ns prev llc cpus cur = record {
  llc = llc;
  load_ns = cur - lookup_or cur llc prev;
  capacity_ns = mul64 cpus tick_ns;
}

-- The loop over `llc_cpus`, which holds each LLC once. The readings so far are kept when a lookup fails.
unfoldable pub llc_loads :
    ℕ → (ℕ → Option (Option (Value ℕ))) → Map ℕ ℕ → Map ℕ ℕ → Map ℕ ℕ × Option (List LlcLoad)
llc_loads tick_ns lookups [] prev = (prev, some [])
llc_loads tick_ns lookups ((llc, cpus) ∷ llc_cpus) prev = elim (lookups llc) [
  | none ↦ (prev, none)
  | some found ↦
      let cur = counter_of found in
      let rest = llc_loads tick_ns lookups llc_cpus (insert llc cur prev) in
      (rest.0, (do loads ← rest.1; some (load_of tick_ns prev llc cpus cur ∷ loads)))
]

-- The loop of `gc_tgid_map`: the processes to delete, and those to suspect.
unfoldable pub gc_scan : List ℕ → List ℕ → Map ℕ ℕ → List ℕ × List ℕ
gc_scan dead_tgids live_tgids [] = ([], [])
gc_scan dead_tgids live_tgids ((tgid, cohort) ∷ tgid_cohort) =
    let rest = gc_scan dead_tgids live_tgids tgid_cohort in
    if any (nat_beq tgid) live_tgids
    then rest
    else if any (nat_beq tgid) dead_tgids
    then (tgid ∷ rest.0, rest.1)
    else (rest.0, tgid ∷ rest.1)

-- From `dead_tgids`: the new `dead_tgids`, and the processes that are deleted from the map.
unfoldable pub gc_tgid_map : List ℕ → Map ℕ ℕ → List TaskSnapshot → List ℕ × List ℕ
gc_tgid_map dead_tgids tgid_cohort tasks =
    let r = gc_scan dead_tgids (map (λ t. t.tgid) tasks) tgid_cohort in (r.1, r.0)
