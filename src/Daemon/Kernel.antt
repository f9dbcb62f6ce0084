-- ===== src/Daemon/Kernel.antt =====
-- scx_cohort/src/main.rs: the loops with `?` in their body, and the updates of a map under
-- `MapFlags::EXIST` and `MapFlags::NO_EXIST`. A state that was changed before a failure stays changed.
pub mod Laws
use scx_cohort.Base.Map.{Map, insert, contains_key}
use scx_cohort.Base.{
  ℕ, Bool, true, false, not, ◌||◌, Option, none, some, List, [], ◌∷◌, nat_key, if◌then◌else◌,
}

-- The state after, and whether it is `Ok`.
abbrev pub Outcome : Type 0 → Type 0
Outcome S = S × Bool

-- The rest of a body after a call with `?`.
unfoldable pub after : {S : Type 0} → Outcome S → (S → Outcome S) → Outcome S
after r next = elim r.1 [ true ↦ next r.0 | false ↦ r ]

-- `for item in items { body? }`.
unfoldable pub for_each : {A S : Type 0} → (A → S → Outcome S) → List A → S → Outcome S
for_each body [] s = (s, true)
for_each body (a ∷ items) s = after (body a s) (for_each body items)

-- `none` where the call fails, be it for the kernel's own reasons.
unfoldable pub update_present : {V : Type 0} → Bool → ℕ → V → Map ℕ V → Option (Map ℕ V)
update_present fails k v m = if fails || not (contains_key k m) then none else some (insert k v m)

unfoldable pub update_absent : {V : Type 0} → Bool → ℕ → V → Map ℕ V → Option (Map ℕ V)
update_absent fails k v m = if fails || contains_key k m then none else some (insert k v m)
