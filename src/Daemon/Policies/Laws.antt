-- ===== src/Daemon/Policies/Laws.antt =====
-- scx_cohort/src/main.rs, `apply` and the pins of `apply_rules`: the policies after them.
use scx_cohort.Base.Map.Laws.{lookup-insert, contains_key_of_some}
use scx_cohort.Base.Map.{Map, lookup, insert, IsMap}
use scx_cohort.Base.{
  ℕ, ◌^◌, ◌<◌, ◌≡◌, refl, ◌∙◌, sym, ap, subst, inl, inr, true, false, not, ◌||◌, Option, none, some,
  List, [], ◌∷◌, arith, nat_beq, nat_beq_iff, nat_key, if◌then◌else◌, Bool-cases,
}
use scx_cohort.Daemon.Kernel.Laws.{update_present_lem}
use scx_cohort.Daemon.Kernel.{after, for_each}
use scx_cohort.Daemon.Policies.{
  PolicyFaults, Policies, MoveState, after_move, move_found, apply_decision, apply, with_pin,
  want_home, after_pin, pin_found, apply_pin, apply_pins,
}
use scx_cohort.Daemon.{CohortPolicy, Value, sized, misfit, is_pinned}
use scx_cohort.Domain.{Decision, move_cohort}

-- No call fails for the kernel's own reasons.
pub record IsSound (faults : PolicyFaults) : Type 0 where
  pub lookups : (k : ℕ) → faults.lookup_fails k ≡ false
  pub updates : (k : ℕ) → faults.update_fails k ≡ false

-- A policy of the right size is rewritten, anything else left.
unfoldable pub rewritten :
    (CohortPolicy → CohortPolicy) → Option (Value CohortPolicy) → Option (Value CohortPolicy)
rewritten g none = none
rewritten g (some misfit) = some misfit
rewritten g (some (sized policy)) = some (sized (g policy))

-- The policy of a cohort `c` once that of the cohort `id` is rewritten.
abbrev pub rewritten_at :
    ℕ
    → ℕ
    → (CohortPolicy → CohortPolicy)
    → Option (Value CohortPolicy)
    → Option (Value CohortPolicy)
rewritten_at id c g o = if nat_beq c id then rewritten g o else o

lookup-untouched :
    (g : CohortPolicy → CohortPolicy) (id c : ℕ) (m : Policies)
    → rewritten g (lookup id m) ≡ lookup id m
    → lookup c m ≡ rewritten_at id c g (lookup c m)
lookup-untouched g id c m h = elim (Bool-cases (nat_beq c id)) [
  | inl here ↦
      let e : c ≡ id = (nat_beq_iff c id).0 here in
      rw (here, if◌then◌else◌) (sym (subst (λ k. rewritten g (lookup k m) ≡ lookup k m) (sym e) h))
  | inr there ↦ rw (there, if◌then◌else◌) refl
]

lookup-replaced :
    (g : CohortPolicy → CohortPolicy) (id c : ℕ) (policy : CohortPolicy) (m : Policies)
    → lookup id m ≡ some (sized policy)
    → lookup c (insert id (sized (g policy)) m) ≡ rewritten_at id c g (lookup c m)
unfolding rewritten
lookup-replaced g id c policy m h = elim (Bool-cases (nat_beq c id)) [
  | inl here ↦
      let e : c ≡ id = (nat_beq_iff c id).0 here in
      let h' : lookup c m ≡ some (sized policy) = ap (λ k. lookup k m) e ∙ h in
      rw (here, h', if◌then◌else◌)
        (lookup-insert id c (sized (g policy)) m ∙ rw (here, if◌then◌else◌) refl)
  | inr there ↦
      rw (there, if◌then◌else◌)
        (lookup-insert id c (sized (g policy)) m ∙ rw (there, if◌then◌else◌) refl)
]

abbrev pub to_home : ℕ → CohortPolicy → CohortPolicy
to_home home policy = record policy { home_llc = home }

abbrev pub to_pinned : ℕ → CohortPolicy → CohortPolicy
to_pinned home policy = record { home_llc = home; flags = with_pin policy.flags }

-- The policy of a cohort once the decisions are carried out in their order.
unfoldable pub moved_by :
    ℕ → List Decision → Option (Value CohortPolicy) → Option (Value CohortPolicy)
moved_by c [] o = o
moved_by c (move_cohort id to ∷ decisions) o =
    moved_by c decisions (rewritten_at id c (to_home to) o)

-- The policy of a cohort once the pins are.
unfoldable pub pinned_by :
    ℕ → ℕ → Map ℕ ℕ → Option (Value CohortPolicy) → Option (Value CohortPolicy)
pinned_by nr_llcs c [] o = o
pinned_by nr_llcs c ((id, ccd) ∷ pins) o =
    pinned_by nr_llcs c pins (rewritten_at id c (to_pinned (want_home nr_llcs ccd)) o)

with_pin_fixed :
    (home : ℕ) (policy : CohortPolicy)
    → (not (is_pinned policy) || not (nat_beq policy.home_llc home)) ≡ false
    → to_pinned home policy ≡ policy
unfolding is_pinned
with_pin_fixed home policy h = ground arith

module _ (faults : PolicyFaults) (sound : IsSound faults) where
  move_found_lem :
      (id to : ℕ) (o : Option (Value CohortPolicy)) (s : MoveState)
      → lookup id s.cohort_policy ≡ o
      → ((move_found faults id to o s).1 ≡ true)
        × ((c : ℕ)
            → lookup c (move_found faults id to o s).0.cohort_policy
              ≡ rewritten_at id c (to_home to) (lookup c s.cohort_policy))
  unfolding move_found after_move rewritten
  move_found_lem id to none s found =
      (refl, λ c. lookup-untouched (to_home to) id c s.cohort_policy (rw found refl))
  move_found_lem id to (some misfit) s found =
      (refl, λ c. lookup-untouched (to_home to) id c s.cohort_policy (rw found refl))
  move_found_lem id to (some (sized policy)) s found =
      rw
        (
          sound.updates id,
          update_present_lem id (sized (to_home to policy)) s.cohort_policy
              (contains_key_of_some id (sized policy) s.cohort_policy found),
        )
        (refl, λ c. lookup-replaced (to_home to) id c policy s.cohort_policy found)

  pin_found_lem :
      (id home : ℕ) (o : Option (Value CohortPolicy)) (m : Policies)
      → lookup id m ≡ o
      → ((pin_found faults id home o m).1 ≡ true)
        × ((c : ℕ)
            → lookup c (pin_found faults id home o m).0
              ≡ rewritten_at id c (to_pinned home) (lookup c m))
  unfolding pin_found after_pin rewritten
  pin_found_lem id home none m found =
      (refl, λ c. lookup-untouched (to_pinned home) id c m (rw found refl))
  pin_found_lem id home (some misfit) m found =
      (refl, λ c. lookup-untouched (to_pinned home) id c m (rw found refl))
  pin_found_lem id home (some (sized policy)) m found =
      elim (Bool-cases (not (is_pinned policy) || not (nat_beq policy.home_llc home))) [
        | inl new ↦
            rw
              (
                new,
                if◌then◌else◌,
                sound.updates id,
                update_present_lem id (sized (to_pinned home policy)) m
                    (contains_key_of_some id (sized policy) m found),
              )
              (refl, λ c. lookup-replaced (to_pinned home) id c policy m found)
        | inr old ↦
            rw (old, if◌then◌else◌)
              (
                refl,
                λ c.
                    lookup-untouched (to_pinned home) id c m
                      (rw found (ap (λ p. some (sized p)) (with_pin_fixed home policy old))),
              )
      ]

  -- When no call fails of itself, `apply` is `Ok` and every policy becomes what the decisions make of it
  -- in their order: the home of a moved cohort is the target, its flags stay, and values of another
  -- size, cohorts without a policy and cohorts that no decision names are left alone.
  pub apply_moves :
      (decisions : List Decision) (s : MoveState)
      → ((apply faults decisions s).1 ≡ true)
        × ((c : ℕ)
            → lookup c (apply faults decisions s).0.cohort_policy
              ≡ moved_by c decisions (lookup c s.cohort_policy))
  unfolding apply apply_decision for_each after moved_by
  apply_moves [] s = (refl, λ c. refl)
  apply_moves (move_cohort id to ∷ decisions) s =
      let found = lookup id s.cohort_policy in
      let now = move_found_lem id to found s refl in
      let rest = apply_moves decisions (move_found faults id to found s).0 in
      rw (sound.lookups id, if◌then◌else◌, now.0)
        (rest.0, λ c. rest.1 c ∙ ap (moved_by c decisions) (now.1 c))

  apply_pins_lem :
      (nr_llcs : ℕ) (pins : Map ℕ ℕ) (m : Policies)
      → ((apply_pins faults nr_llcs pins m).1 ≡ true)
        × ((c : ℕ)
            → lookup c (apply_pins faults nr_llcs pins m).0 ≡ pinned_by nr_llcs c pins (lookup c m))
  unfolding apply_pins apply_pin for_each after pinned_by
  apply_pins_lem nr_llcs [] m = (refl, λ c. refl)
  apply_pins_lem nr_llcs ((id, ccd) ∷ pins) m =
      let home = want_home nr_llcs ccd in
      let found = lookup id m in
      let now = pin_found_lem id home found m refl in
      let rest = apply_pins_lem nr_llcs pins (pin_found faults id home found m).0 in
      rw (sound.lookups id, if◌then◌else◌, now.0)
        (rest.0, λ c. rest.1 c ∙ ap (pinned_by nr_llcs c pins) (now.1 c))

-- The home that a pin gives is an LLC of the machine.
pub want_home-lt :
    (nr_llcs ccd : ℕ) → 0 < nr_llcs → nr_llcs < 2 ^ 32 → want_home nr_llcs ccd < nr_llcs
unfolding want_home
want_home-lt nr_llcs ccd some_llc fits = ground arith

with_pin-is_pinned : (home : ℕ) (policy : CohortPolicy) → is_pinned (to_pinned home policy) ≡ true
unfolding is_pinned
with_pin-is_pinned home policy = ground arith

-- The policy of a cohort from its pin, if it has one.
unfoldable pub pinned_to : ℕ → Option ℕ → Option (Value CohortPolicy) → Option (Value CohortPolicy)
pinned_to nr_llcs none o = o
pinned_to nr_llcs (some ccd) o = rewritten (to_pinned (want_home nr_llcs ccd)) o

pinned_by_lem :
    (nr_llcs c : ℕ) (pins : Map ℕ ℕ) (o : Option (Value CohortPolicy))
    → IsMap pins
    → pinned_by nr_llcs c pins o ≡ pinned_to nr_llcs (lookup c pins) o
unfolding pinned_by pinned_to lookup
pinned_by_lem nr_llcs c [] o k = refl
pinned_by_lem nr_llcs c ((id, ccd) ∷ pins) o k = elim (Bool-cases (nat_beq c id)) [
  | inl here ↦
      let e : c ≡ id = (nat_beq_iff c id).0 here in
      let gone : lookup c pins ≡ none = ap (λ z. lookup z pins) e ∙ k.0 in
      let home = want_home nr_llcs ccd in
      rw (here, if◌then◌else◌)
        (pinned_by_lem nr_llcs c pins (rewritten (to_pinned home) o) k.1
          ∙ ap (λ p. pinned_to nr_llcs p (rewritten (to_pinned home) o)) gone)
  | inr there ↦ rw (there, if◌then◌else◌) (pinned_by_lem nr_llcs c pins o k.1)
]

-- When no call fails of itself, the loop over the pins is `Ok`; a cohort with a pin and a policy of the
-- right size is then marked as pinned, with its other flags and with the wanted LLC, or the last one,
-- as its home, and all other policies stay.
pub apply_pins_pins :
    (faults : PolicyFaults) (nr_llcs : ℕ) (pins : Map ℕ ℕ) (m : Policies)
    → IsSound faults
    → IsMap pins
    → ((apply_pins faults nr_llcs pins m).1 ≡ true)
      × ((c : ℕ)
          → lookup c (apply_pins faults nr_llcs pins m).0
            ≡ pinned_to nr_llcs (lookup c pins) (lookup c m))
apply_pins_pins faults nr_llcs pins m sound k =
    let all = apply_pins_lem faults sound nr_llcs pins m in
    (all.0, λ c. all.1 c ∙ pinned_by_lem nr_llcs c pins (lookup c m) k)
