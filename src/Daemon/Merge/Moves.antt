-- ===== src/Daemon/Merge/Moves.antt =====
-- scx_cohort/src/main.rs, `apply_merge`: the maps after it.
use scx_cohort.Base.Map.Laws.{
  lookup-insert, lookup-remove, contains_key-lookup, contains_key_of_some,
}
use scx_cohort.Base.Map.{Map, lookup, contains_key, IsMap}
use scx_cohort.Base.Words.{add64}
use scx_cohort.Base.{
  ℕ, ◌≡◌, refl, sym, ap, ◌∙◌, inl, inr, true, false, Option, none, some, [], ◌∷◌, arith, nat_beq,
  nat_key, if◌then◌else◌, Bool-cases, Option-cases,
}
use scx_cohort.Daemon.Merge.{
  Faults, MergeState, update_existing, move_member, move_members, delete_unless, merge_into,
  apply_merge,
}
use scx_cohort.WakeGraph.{MergePlan}

-- No call fails.
pub record IsSound (faults : Faults) : Type 0 where
  pub lookups : (k : ℕ) → faults.lookup_fails k ≡ false
  pub updates : (k : ℕ) → faults.update_fails k ≡ false
  pub counters_deletes : (k : ℕ) → faults.counters_delete_fails k ≡ false
  pub policy_deletes : (k : ℕ) → faults.policy_delete_fails k ≡ false

-- Where a process goes, from its cohort in the snapshot and its cohort in the map.
unfoldable pub destination : MergePlan → Option ℕ → Option ℕ → Option ℕ
destination plan none was = was
destination plan (some c) none = none
destination plan (some c) (some d) = if nat_beq c plan.from then some plan.into else some d

module _ (faults : Faults) (sound : IsSound faults) (plan : MergePlan) where
  destination-other :
      (cohort : ℕ) (o : Option ℕ)
      → nat_beq cohort plan.from ≡ false
      → destination plan (some cohort) o ≡ o
  unfolding destination
  destination-other cohort none h = refl
  destination-other cohort (some d) h = rw (h, if◌then◌else◌) refl

  lookup-update_existing :
      (cohort tgid : ℕ) (m : Map ℕ ℕ) (t : ℕ)
      → nat_beq cohort plan.from ≡ true
      → lookup t (update_existing tgid plan.into m)
        ≡ (if nat_beq t tgid then destination plan (some cohort) (lookup t m) else lookup t m)
  unfolding update_existing destination
  lookup-update_existing cohort tgid m t h = elim (Option-cases (lookup tgid m)) [
    | inl gone ↦
        let absent = (contains_key-lookup tgid m).1 gone in
        elim (Bool-cases (nat_beq t tgid)) [
          | inl here ↦
              let e : t ≡ tgid = ground arith in
              let gone' : lookup t m ≡ none = ap (λ z. lookup z m) e ∙ gone in
              rw (absent, here, gone', if◌then◌else◌) refl
          | inr there ↦ rw (absent, there, if◌then◌else◌) refl
        ]
    | inr (d, there_is) ↦
        let present = contains_key_of_some tgid d m there_is in
        elim (Bool-cases (nat_beq t tgid)) [
          | inl here ↦
              let e : t ≡ tgid = ground arith in
              let here' : lookup t m ≡ some d = ap (λ z. lookup z m) e ∙ there_is in
              rw (present, here, here', h, if◌then◌else◌)
                (lookup-insert tgid t plan.into m ∙ rw (here, if◌then◌else◌) refl)
          | inr there ↦
              rw (present, there, if◌then◌else◌)
                (lookup-insert tgid t plan.into m ∙ rw (there, if◌then◌else◌) refl)
        ]
  ]

  lookup-move_member :
      (tgid cohort : ℕ) (m : Map ℕ ℕ) (t : ℕ)
      → lookup t (move_member faults plan tgid cohort m)
        ≡ (if nat_beq t tgid then destination plan (some cohort) (lookup t m) else lookup t m)
  unfolding move_member
  lookup-move_member tgid cohort m t = elim (Bool-cases (nat_beq cohort plan.from)) [
    | inl moves ↦
        rw (moves, sound.updates tgid, if◌then◌else◌) (lookup-update_existing cohort tgid m t moves)
    | inr stays ↦ elim (Bool-cases (nat_beq t tgid)) [
      | inl here ↦
          rw (stays, here, if◌then◌else◌) (sym (destination-other cohort (lookup t m) stays))
      | inr there ↦ rw (stays, there, if◌then◌else◌) refl
    ]
  ]

  lookup-move_members :
      (snapshot m : Map ℕ ℕ) (t : ℕ)
      → IsMap snapshot
      → lookup t (move_members faults plan snapshot m)
        ≡ destination plan (lookup t snapshot) (lookup t m)
  unfolding move_members destination lookup
  lookup-move_members [] m t k = refl
  lookup-move_members ((tgid, cohort) ∷ snapshot) m t k =
      let ih = lookup-move_members snapshot (move_member faults plan tgid cohort m) t k.1 in
      let now = lookup-move_member tgid cohort m t in
      elim (Bool-cases (nat_beq t tgid)) [
        | inl here ↦
            let e : t ≡ tgid = ground arith in
            let gone : lookup t snapshot ≡ none = ap (λ z. lookup z snapshot) e ∙ k.0 in
            rw (here, if◌then◌else◌)
              (ih
                ∙ ap (λ o. destination plan o (lookup t (move_member faults plan tgid cohort m)))
                    gone
                ∙ now
                ∙ rw (here, if◌then◌else◌) refl)
        | inr there ↦
            rw (there, if◌then◌else◌)
              (ih
                ∙ ap (λ w. destination plan (lookup t snapshot) w)
                    (now ∙ rw (there, if◌then◌else◌) refl))
      ]

-- When no call fails, both cohorts exist and the snapshot has one entry for each process, `apply_merge`
-- is `Ok` and counts a merge; every process that the snapshot has in the absorbed cohort, and that the
-- map still knows, then resolves to the other cohort, every other process resolves as before, and the
-- absorbed cohort has left the maps of counters and policies, which keep all others.
pub apply_merge_moves :
    (faults : Faults) (s : MergeState) (plan : MergePlan) (snapshot : Map ℕ ℕ)
    → IsSound faults
    → IsMap snapshot
    → contains_key plan.into s.cohort_counters ≡ true
    → contains_key plan.from s.cohort_counters ≡ true
    → ((apply_merge faults s plan snapshot).1 ≡ true)
      × ((apply_merge faults s plan snapshot).0.nr_merges ≡ add64 s.nr_merges 1)
      × ((t : ℕ)
          → lookup t (apply_merge faults s plan snapshot).0.tgid_cohort
            ≡ destination plan (lookup t snapshot) (lookup t s.tgid_cohort))
      × ((c : ℕ)
          → lookup c (apply_merge faults s plan snapshot).0.cohort_counters
            ≡ (if nat_beq c plan.from then none else lookup c s.cohort_counters))
      × ((c : ℕ)
          → lookup c (apply_merge faults s plan snapshot).0.cohort_policy
            ≡ (if nat_beq c plan.from then none else lookup c s.cohort_policy))
unfolding apply_merge merge_into delete_unless
apply_merge_moves faults s plan snapshot sound k has_into has_from =
    let run : apply_merge faults s plan snapshot ≡ (merge_into faults s plan snapshot, true) =
      rw (sound.lookups plan.into, sound.lookups plan.from, has_into, has_from, if◌then◌else◌)
        refl in
    rw run (
      refl,
      refl,
      λ t. lookup-move_members faults sound plan snapshot s.tgid_cohort t k,
      λ c.
          rw (sound.counters_deletes plan.from, if◌then◌else◌)
            (lookup-remove plan.from c s.cohort_counters),
      λ c.
          rw (sound.policy_deletes plan.from, if◌then◌else◌)
            (lookup-remove plan.from c s.cohort_policy),
    )
