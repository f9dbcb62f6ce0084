-- ===== src/Daemon/Scanned.antt =====
-- scx_cohort/src/main.rs, `snapshot_cohorts`: what the cohorts of the snapshot are made from.
use scx_cohort.Base.Map.{Map, lookup_or}
use scx_cohort.Base.{
  ℕ, ◌≡◌, sym, ap, inl, inr, Bool, List, [], ◌∷◌, arith, nat_key, subst, In, In-append,
}
use scx_cohort.Daemon.{
  CohortPolicy, CohortCounters, Value, sized, misfit, default_policy, CohortState, Sighting,
  skipped, collected, suspected, alive, snapshot_of, sight, Scan, add_sighting, scan_counters,
}
use scx_cohort.Domain.{CohortSnapshot}

module _ (s : CohortState) (counts : Map ℕ ℕ) (referenced : List ℕ) (gc_safe : Bool)
    (policies : Map ℕ CohortPolicy) (P : CohortSnapshot → Type 0)
    (made : (id : ℕ) (counters : CohortCounters)
      → P (
          snapshot_of s id
            (lookup_or default_policy id policies)
            (lookup_or 0 id counts)
            counters)) where
  add_sighting_out :
      (scan : Scan) (seen : Sighting)
      → ((c : CohortSnapshot) → In c scan.out → P c)
      → ((c : CohortSnapshot) (load : ℕ) → seen ≡ alive c load → P c)
      → (c : CohortSnapshot) → In c (add_sighting scan seen).out
      → P c
  unfolding add_sighting
  add_sighting_out scan skipped told now c m = told c m
  add_sighting_out scan (collected id) told now c m = told c m
  add_sighting_out scan (suspected id) told now c m = told c m
  add_sighting_out scan (alive d load) told now c m = elim (In-append c scan.out (d ∷ []) m) [
    | inl old ↦ told c old
    | inr (inl e) ↦ now c load (ap (λ x. alive x load) (sym e))
    | inr (inr none_left) ↦ absurd none_left
  ]

  sight_alive :
      (id : ℕ) (val : Value CohortCounters) (c : CohortSnapshot) (load : ℕ)
      → sight s counts referenced gc_safe policies id val ≡ alive c load
      → P c
  unfolding sight
  sight_alive id misfit c load h = absurd (cc)
  sight_alive id (sized counters) c load h =
      let it =
        snapshot_of s id (lookup_or default_policy id policies) (lookup_or 0 id counts) counters in
      let same : it ≡ c = ground arith in subst P same (made id counters)

  -- What holds of every snapshot that the loop can make holds of the cohorts that it lists.
  pub scan_counters_out :
      (batch : List (ℕ × Value CohortCounters)) (scan : Scan)
      → ((c : CohortSnapshot) → In c scan.out → P c)
      → (c : CohortSnapshot)
      → In c (scan_counters s counts referenced gc_safe policies batch scan).out
      → P c
  unfolding scan_counters
  scan_counters_out [] scan told c m = told c m
  scan_counters_out ((id, val) ∷ batch) scan told c m =
      let seen = sight s counts referenced gc_safe policies id val in
      scan_counters_out batch (add_sighting scan seen)
        (add_sighting_out scan seen told (sight_alive id val)) c m
