-- ===== src/Daemon/Upkeep/Laws.antt =====
-- scx_cohort/src/main.rs, `gc_tgid_map` over two calls, and the loads that `llc_loads` returns.
use scx_cohort.Base.Map.{Map}
use scx_cohort.Base.{
  ℕ, ◌≡◌, sym, subst, inl, inr, false, Option, List, [], ◌∷◌, map, nat_beq, nat_key, if◌then◌else◌,
  Bool-cases, any, In,
}
use scx_cohort.Daemon.Collect.{any-In}
use scx_cohort.Daemon.Upkeep.{counter_of, load_of, gc_scan, gc_tgid_map}
use scx_cohort.Daemon.{Value}
use scx_cohort.Domain.{LlcLoad, TaskSnapshot}

gc_scan-dead :
    (dead live : List ℕ) (tgid_cohort : Map ℕ ℕ) (t : ℕ)
    → (In t (gc_scan dead live tgid_cohort).0 → (any (nat_beq t) live ≡ false) × In t dead)
      × (In t (gc_scan dead live tgid_cohort).1 → any (nat_beq t) live ≡ false)
unfolding gc_scan
gc_scan-dead dead live [] t = (λ i. absurd i, λ i. absurd i)
gc_scan-dead dead live ((tgid, cohort) ∷ tgid_cohort) t =
    let ih = gc_scan-dead dead live tgid_cohort t in
    elim (Bool-cases (any (nat_beq tgid) live)) [
      | inl seen ↦ rw (seen, if◌then◌else◌) ih
      | inr unseen ↦ elim (Bool-cases (any (nat_beq tgid) dead)) [
        | inl again ↦
            rw (unseen, again, if◌then◌else◌) (deleted unseen (any-In tgid dead again) ih, ih.1)
        | inr first ↦ rw (unseen, first, if◌then◌else◌) (ih.0, suspected unseen ih)
      ]
    ]
  where
    deleted :
        any (nat_beq tgid) live ≡ false
        → In tgid dead
        → ((In t (gc_scan dead live tgid_cohort).0 → (any (nat_beq t) live ≡ false) × In t dead)
            × (In t (gc_scan dead live tgid_cohort).1 → any (nat_beq t) live ≡ false))
        → In t (tgid ∷ (gc_scan dead live tgid_cohort).0)
        → (any (nat_beq t) live ≡ false) × In t dead
    deleted unseen again ih (inl e) =
        subst (λ z. (any (nat_beq z) live ≡ false) × In z dead) (sym e) (unseen, again)
    deleted unseen again ih (inr i) = ih.0 i

    suspected :
        any (nat_beq tgid) live ≡ false
        → ((In t (gc_scan dead live tgid_cohort).0 → (any (nat_beq t) live ≡ false) × In t dead)
            × (In t (gc_scan dead live tgid_cohort).1 → any (nat_beq t) live ≡ false))
        → In t (tgid ∷ (gc_scan dead live tgid_cohort).1)
        → any (nat_beq t) live ≡ false
    suspected unseen ih (inl e) = subst (λ z. any (nat_beq z) live ≡ false) (sym e) unseen
    suspected unseen ih (inr i) = ih.1 i

-- Of two calls of `gc_tgid_map` in a row, the second deletes a process only when neither saw a task
-- of it.
pub gc_tgid_map_twice :
    (dead : List ℕ) (tgids1 tgids2 : Map ℕ ℕ) (tasks1 tasks2 : List TaskSnapshot) (t : ℕ)
    → In t (gc_tgid_map (gc_tgid_map dead tgids1 tasks1).0 tgids2 tasks2).1
    → (any (nat_beq t) (map (λ u. u.tgid) tasks1) ≡ false)
      × (any (nat_beq t) (map (λ u. u.tgid) tasks2) ≡ false)
unfolding gc_tgid_map
gc_tgid_map_twice dead tgids1 tgids2 tasks1 tasks2 t i =
    let (unseen2, again) =
      (gc_scan-dead (gc_scan dead (map (λ u. u.tgid) tasks1) tgids1).1 (map (λ u. u.tgid) tasks2)
          tgids2 t).0
        i in
    ((gc_scan-dead dead (map (λ u. u.tgid) tasks1) tgids1 t).1 again, unseen2)

-- The load of each LLC from the readings `prev`.
abbrev pub loads_from : ℕ → (ℕ → Option (Value ℕ)) → Map ℕ ℕ → Map ℕ ℕ → List LlcLoad
loads_from tick_ns answers prev [] = []
loads_from tick_ns answers prev ((llc, cpus) ∷ llc_cpus) =
    load_of tick_ns prev llc cpus (counter_of (answers llc))
    ∷ loads_from tick_ns answers prev llc_cpus
