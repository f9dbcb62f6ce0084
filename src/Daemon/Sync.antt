-- ===== src/Daemon/Sync.antt =====
-- scx_cohort/src/main.rs, `apply_spills`: the spill map after it.
use scx_cohort.Base.Map.Laws.{
  lookup-insert, lookup-remove, contains_key-lookup, contains_key_of_some,
}
use scx_cohort.Base.Map.{Map, lookup, insert, remove, contains_key, IsMap}
use scx_cohort.Base.{
  ℕ, ◌≡◌, refl, ap, ◌∙◌, inl, inr, Bool, true, false, not, ◌&&◌, ◌||◌, Option, none, some, [], ◌∷◌,
  arith, nat_beq, nat_key, if◌then◌else◌, Bool-cases, Option-cases,
}
use scx_cohort.Daemon.{is_recorded, update_spills, delete_spills, SpillState, apply_spills}

module _ (never : ℕ → Bool) (sure : (pid : ℕ) → never pid ≡ false) where
  -- What the first loop leaves for a task, from what is wanted and what there was.
  abbrev updated_to : Map ℕ ℕ → ℕ → Option ℕ → Option ℕ → Option ℕ
  updated_to current pid none was = was
  updated_to current pid (some llc) was = if is_recorded current pid llc then was else some llc

  lookup-update_spills :
      (current desired m : Map ℕ ℕ)
      → IsMap desired
      → ((update_spills never current desired m).1 ≡ true)
        × ((pid : ℕ)
            → lookup pid (update_spills never current desired m).0
              ≡ updated_to current pid (lookup pid desired) (lookup pid m))
  unfolding update_spills lookup
  lookup-update_spills current [] m k = (refl, λ pid. refl)
  lookup-update_spills current ((p, llc) ∷ desired) m k =
      elim (Bool-cases (is_recorded current p llc)) [
        | inl same ↦
            let ih = lookup-update_spills current desired m k.1 in
            let run : update_spills never current ((p, llc) ∷ desired) m
                ≡ update_spills never current desired m =
              rw (same, update_spills) refl in
            (
              rw run ih.0,
              λ pid. elim (Bool-cases (nat_beq pid p)) [
                | inl here ↦
                    let e : pid ≡ p = ground arith in
                    let gone : lookup pid desired ≡ none = ap (λ z. lookup z desired) e ∙ k.0 in
                    let kept : is_recorded current pid llc ≡ true =
                      ap (λ z. is_recorded current z llc) e ∙ same in
                    rw (run, here, kept, if◌then◌else◌)
                      (ih.1 pid ∙ ap (λ o. updated_to current pid o (lookup pid m)) gone)
                | inr there ↦ rw (run, there, if◌then◌else◌) (ih.1 pid)
              ],
            )
        | inr other ↦
            let ih = lookup-update_spills current desired (insert p llc m) k.1 in
            let run : update_spills never current ((p, llc) ∷ desired) m
                ≡ update_spills never current desired (insert p llc m) =
              rw (other, update_spills, sure p) refl in
            (
              rw run ih.0,
              λ pid. elim (Bool-cases (nat_beq pid p)) [
                | inl here ↦
                    let e : pid ≡ p = ground arith in
                    let gone : lookup pid desired ≡ none = ap (λ z. lookup z desired) e ∙ k.0 in
                    let fresh : is_recorded current pid llc ≡ false =
                      ap (λ z. is_recorded current z llc) e ∙ other in
                    rw (run, here, fresh, if◌then◌else◌)
                      (ih.1 pid
                        ∙ ap (λ o. updated_to current pid o (lookup pid (insert p llc m))) gone
                        ∙ lookup-insert p pid llc m
                        ∙ rw (here, if◌then◌else◌) refl)
                | inr there ↦
                    rw (run, there, if◌then◌else◌)
                      (ih.1 pid
                        ∙ ap (λ w. updated_to current pid (lookup pid desired) w)
                            (lookup-insert p pid llc m ∙ rw (there, if◌then◌else◌) refl))
              ],
            )
      ]

  -- One turn of the second loop.
  lookup-removed :
      (desired m : Map ℕ ℕ) (p pid : ℕ)
      → lookup pid (if contains_key p desired || never p then m else remove p m)
        ≡ (if nat_beq pid p && not (contains_key pid desired) then none else lookup pid m)
  lookup-removed desired m p pid = elim (Bool-cases (nat_beq pid p)) [
    | inl here ↦
        let e : pid ≡ p = ground arith in
        let same = ap (λ z. contains_key z desired) e in
        ground (arith, lookup-remove p pid m, sure p, same)
    | inr there ↦ ground (arith, lookup-remove p pid m, sure p)
  ]

  lookup-delete_spills :
      (desired current m : Map ℕ ℕ) (pid : ℕ)
      → lookup pid (delete_spills never desired current m) ≡ (
          if contains_key pid current && not (contains_key pid desired) then none else lookup pid m)
  unfolding delete_spills contains_key
  lookup-delete_spills desired [] m pid = refl
  lookup-delete_spills desired ((p, llc) ∷ current) m pid =
      let m' = if contains_key p desired || never p then m else remove p m in
      lookup-delete_spills desired current m' pid
      ∙ ap (λ w. if contains_key pid current && not (contains_key pid desired) then none else w)
          (lookup-removed desired m p pid)
      ∙ ground arith

is_recorded-lookup :
    (current : Map ℕ ℕ) (pid llc : ℕ)
    → is_recorded current pid llc ≡ true
    → lookup pid current ≡ some llc
unfolding is_recorded
is_recorded-lookup current pid llc h = elim (Option-cases (lookup pid current)) [
  | inl none_there ↦ absurd (cc (rw (none_there, is_recorded) at h))
  | inr (l, there) ↦ there ∙ ap some (ground (arith, rw (there, is_recorded) at h))
]

-- What is left for a task after both loops.
settled_value :
    (desired current : Map ℕ ℕ) (pid : ℕ) (never : ℕ → Bool) (sure : (pid : ℕ) → never pid ≡ false)
    → (if contains_key pid current && not (contains_key pid desired)
        then none
        else updated_to never sure current pid (lookup pid desired) (lookup pid current))
      ≡ lookup pid desired
settled_value desired current pid never sure = elim (Option-cases (lookup pid desired)) [
  | inl unwanted ↦
      let absent = (contains_key-lookup pid desired).1 unwanted in
      elim (Option-cases (lookup pid current)) [
        | inl gone ↦ rw (unwanted, absent, (contains_key-lookup pid current).1 gone, gone) refl
        | inr (l, there) ↦ rw (unwanted, absent, contains_key_of_some pid l current there) refl
      ]
  | inr (l, wanted) ↦
      let present = contains_key_of_some pid l desired wanted in
      elim (Bool-cases (is_recorded current pid l)) [
        | inl kept ↦ ground (arith, present, wanted, kept, is_recorded-lookup current pid l kept)
        | inr fresh ↦ ground (arith, present, wanted, fresh)
      ]
]

-- When the map agrees with what is recorded, and no update or delete fails, `apply_spills` is `Ok`,
-- records the spill set that is wanted, and the map then agrees with it for every task.
pub apply_spills_agrees :
    (fails : ℕ → Bool) (s : SpillState) (desired : Map ℕ ℕ)
    → ((pid : ℕ) → fails pid ≡ false)
    → IsMap desired
    → ((pid : ℕ) → lookup pid s.spill_tasks ≡ lookup pid s.current_spills)
    → ((apply_spills fails fails s desired).1 ≡ true)
      × ((apply_spills fails fails s desired).0.current_spills ≡ desired)
      × ((pid : ℕ)
          → lookup pid (apply_spills fails fails s desired).0.spill_tasks ≡ lookup pid desired)
unfolding apply_spills
apply_spills_agrees fails s desired sure k agrees =
    let (done, updated) =
      lookup-update_spills fails sure s.current_spills desired s.spill_tasks k in
    (rw done refl, rw done refl, λ pid. rw done (settled pid))
  where
    settled :
        (pid : ℕ)
        → lookup pid (
            delete_spills fails desired s.current_spills
              (update_spills fails s.current_spills desired s.spill_tasks).0)
          ≡ lookup pid desired
    settled pid =
        let value =
          (lookup-update_spills fails sure s.current_spills desired s.spill_tasks k).1 pid
          ∙ ap (λ w. updated_to fails sure s.current_spills pid (lookup pid desired) w)
              (agrees pid) in
        lookup-delete_spills fails sure desired s.current_spills
          (update_spills fails s.current_spills desired s.spill_tasks).0 pid
        ∙ ap
            (λ w.
              if contains_key pid s.current_spills && not (contains_key pid desired)
              then none
              else w)
            value
        ∙ settled_value desired s.current_spills pid fails sure
