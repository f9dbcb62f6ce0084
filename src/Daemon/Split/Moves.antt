-- ===== src/Daemon/Split/Moves.antt =====
-- scx_cohort/src/main.rs, `apply_split`: the maps after it.
use scx_cohort.Base.Map.Laws.{lookup-insert, contains_key-lookup}
use scx_cohort.Base.Map.{Map, lookup, insert, contains_key}
use scx_cohort.Base.Words.{add64}
use scx_cohort.Base.{
  ℕ, ◌+◌, ◌^◌, ◌<◌, ◌≡◌, refl, ◌∙◌, inl, inr, true, false, Option, none, some, List, [], ◌∷◌, arith,
  nat_beq, nat_beq_iff, nat_key, if◌then◌else◌, Bool-cases, any, ap,
}
use scx_cohort.Daemon.Kernel.Laws.{update_absent_lem, update_present_lem}
use scx_cohort.Daemon.Kernel.{after, for_each}
use scx_cohort.Daemon.Split.Ids.{HasFreshIds, new_id_lem}
use scx_cohort.Daemon.Split.{
  SplitFaults, SplitState, daemon_cohort_base, default_counters, move_off, move_all_off,
  finish_split, after_counters, after_policy, same_home, split_from, apply_split,
}
use scx_cohort.Daemon.{CohortPolicy, sized}
use scx_cohort.WakeGraph.{SplitPlan}

-- No call fails for the kernel's own reasons.
pub record IsSound (faults : SplitFaults) : Type 0 where
  pub policy_lookup : faults.policy_lookup_fails ≡ false
  pub policy_update : faults.policy_update_fails ≡ false
  pub counters_update : faults.counters_update_fails ≡ false
  pub lookups : (k : ℕ) → faults.lookup_fails k ≡ false
  pub updates : (k : ℕ) → faults.update_fails k ≡ false

-- Where a process goes, from its cohort in the map: those that are listed to the new cohort.
unfoldable pub split_destination : ℕ → List ℕ → ℕ → Option ℕ → Option ℕ
split_destination id off_tgids t none = none
split_destination id off_tgids t (some c) = if any (nat_beq t) off_tgids then some id else some c

module _ (faults : SplitFaults) (sound : IsSound faults) (id : ℕ) where
  move_off_lem :
      (tgid : ℕ) (m : Map ℕ ℕ)
      → move_off faults id tgid m ≡ ((if contains_key tgid m then insert tgid id m else m), true)
  unfolding move_off
  move_off_lem tgid m = elim (Bool-cases (contains_key tgid m)) [
    | inl there ↦
        rw
          (
            sound.lookups tgid,
            sound.updates tgid,
            there,
            update_present_lem tgid id m there,
            if◌then◌else◌,
          )
          refl
    | inr gone ↦ rw (sound.lookups tgid, gone, if◌then◌else◌) refl
  ]

  lookup-moved :
      (tgid t : ℕ) (m : Map ℕ ℕ)
      → lookup t (if contains_key tgid m then insert tgid id m else m)
        ≡ split_destination id (tgid ∷ []) t (lookup t m)
  unfolding split_destination
  lookup-moved tgid t m =
      ground (arith, lookup-insert tgid t id m, contains_key-lookup tgid m, nat_beq_iff t tgid)

  split_destination_step :
      (tgid t : ℕ) (off_tgids : List ℕ) (o : Option ℕ)
      → split_destination id off_tgids t (split_destination id (tgid ∷ []) t o)
        ≡ split_destination id (tgid ∷ off_tgids) t o
  unfolding split_destination
  split_destination_step tgid t off_tgids none = refl
  split_destination_step tgid t off_tgids (some c) = ground arith

  split_destination_none : (t : ℕ) (o : Option ℕ) → o ≡ split_destination id [] t o
  unfolding split_destination
  split_destination_none t none = refl
  split_destination_none t (some c) = refl

  lookup-move_all_off :
      (off_tgids : List ℕ) (m : Map ℕ ℕ)
      → ((move_all_off faults id off_tgids m).1 ≡ true)
        × ((t : ℕ)
            → lookup t (move_all_off faults id off_tgids m).0
              ≡ split_destination id off_tgids t (lookup t m))
  unfolding move_all_off for_each after
  lookup-move_all_off [] m = (refl, λ t. split_destination_none t (lookup t m))
  lookup-move_all_off (tgid ∷ off_tgids) m =
      let m' = (if contains_key tgid m then insert tgid id m else m) in
      let rest = lookup-move_all_off off_tgids m' in
      rw (move_off_lem tgid m) (
        rest.0,
        λ t.
            rest.1 t
            ∙ ap (split_destination id off_tgids t) (lookup-moved tgid t m)
            ∙ split_destination_step tgid t off_tgids (lookup t m),
      )

finish_split_lem :
    (faults : SplitFaults) (id : ℕ) (off_tgids : List ℕ) (s : SplitState)
    → IsSound faults
    → finish_split faults id off_tgids s ≡ (
      record s {
        tgid_cohort = (move_all_off faults id off_tgids s.tgid_cohort).0;
        nr_splits = add64 s.nr_splits 1;
      },
      true,
    )
unfolding finish_split
finish_split_lem faults id off_tgids s sound =
    rw ((lookup-move_all_off faults sound id off_tgids s.tgid_cohort).0, if◌then◌else◌) refl

-- The state after a split whose calls all succeed.
abbrev split_state : SplitFaults → SplitPlan → CohortPolicy → SplitState → SplitState
split_state faults plan old s =
    let id = daemon_cohort_base + s.daemon_seq in
    record {
      cohort_policy = insert id (sized (same_home old)) s.cohort_policy;
      cohort_counters = insert id (sized default_counters) s.cohort_counters;
      tgid_cohort = (move_all_off faults id plan.off_tgids s.tgid_cohort).0;
      daemon_seq = add64 s.daemon_seq 1;
      nr_splits = add64 s.nr_splits 1;
    }

apply_split_lem :
    (faults : SplitFaults) (plan : SplitPlan) (s : SplitState) (old : CohortPolicy)
    → IsSound faults
    → daemon_cohort_base + s.daemon_seq < 2 ^ 64
    → HasFreshIds s
    → lookup plan.cohort s.cohort_policy ≡ some (sized old)
    → apply_split faults plan s ≡ (split_state faults plan old s, true)
unfolding apply_split split_from after_policy after_counters
apply_split_lem faults plan s old sound room fresh found =
    let id = daemon_cohort_base + s.daemon_seq in
    let policies = insert id (sized (same_home old)) s.cohort_policy in
    let counters = insert id (sized default_counters) s.cohort_counters in
    rw
      (
        sound.policy_lookup,
        found,
        new_id_lem s.daemon_seq room,
        sound.policy_update,
        update_absent_lem id (sized (same_home old)) s.cohort_policy
            (fresh.policies id (omega arith)),
        sound.counters_update,
        update_absent_lem id (sized default_counters) s.cohort_counters
            (fresh.counters id (omega arith)),
        if◌then◌else◌,
      )
      (finish_split_lem
        (record faults {
          policy_lookup_fails = false;
          policy_update_fails = false;
          counters_update_fails = false;
        })
        id plan.off_tgids
        (record s {
          cohort_policy = policies;
          cohort_counters = counters;
          daemon_seq = add64 s.daemon_seq 1;
        })
        (record {
          policy_lookup = refl;
          policy_update = refl;
          counters_update = refl;
          lookups = sound.lookups;
          updates = sound.updates;
        }))

-- When no call fails of itself, no cohort has an id that the daemon has still to make, and the cohort
-- of the plan has a policy of the right size, `apply_split` is `Ok` and counts a split: each listed
-- process that the map knows resolves to the new cohort and every other as before; the new cohort,
-- whose id is 2 ^ 32 plus the sequence number, has the old one's home, no flags and zero counters, and
-- all other policies and counters stay.
pub apply_split_moves :
    (faults : SplitFaults) (plan : SplitPlan) (s : SplitState) (old : CohortPolicy)
    → IsSound faults
    → daemon_cohort_base + s.daemon_seq < 2 ^ 64
    → HasFreshIds s
    → lookup plan.cohort s.cohort_policy ≡ some (sized old)
    → ((apply_split faults plan s).1 ≡ true)
      × ((apply_split faults plan s).0.nr_splits ≡ add64 s.nr_splits 1)
      × ((t : ℕ)
          → lookup t (apply_split faults plan s).0.tgid_cohort
            ≡ split_destination
                (daemon_cohort_base + s.daemon_seq)
                plan.off_tgids
                t
                (lookup t s.tgid_cohort))
      × ((c : ℕ)
          → lookup c (apply_split faults plan s).0.cohort_policy ≡ (
              if nat_beq c (daemon_cohort_base + s.daemon_seq)
              then some (sized (record { home_llc = old.home_llc; flags = 0 }))
              else lookup c s.cohort_policy))
      × ((c : ℕ)
          → lookup c (apply_split faults plan s).0.cohort_counters ≡ (
              if nat_beq c (daemon_cohort_base + s.daemon_seq)
              then some (sized default_counters)
              else lookup c s.cohort_counters))
apply_split_moves faults plan s old sound room fresh found =
    let id = daemon_cohort_base + s.daemon_seq in
    rw (apply_split_lem faults plan s old sound room fresh found) (
      refl,
      refl,
      (lookup-move_all_off faults sound id plan.off_tgids s.tgid_cohort).1,
      λ c. lookup-insert id c (sized (same_home old)) s.cohort_policy,
      λ c. lookup-insert id c (sized default_counters) s.cohort_counters,
    )
