-- ===== src/Daemon/Kernel/Laws.antt =====
-- scx_cohort/src/main.rs: what the loops with `?` and the updates under a flag leave.

use scx_cohort.Base.Map.{Map, insert, contains_key}
use scx_cohort.Base.{
  ℕ, ◌≡◌, refl, inl, inr, true, false, some, List, [], ◌∷◌, nat_key, if◌then◌else◌, Bool-cases, All,
}
use scx_cohort.Daemon.Kernel.{Outcome, after, for_each, update_present, update_absent}

-- What each body keeps, the loop keeps, wherever it stops.
pub for_each-keeps :
    {A S : Type 0} (P : S → Type 0) (body : A → S → Outcome S)
    → ((a : A) (s : S) → P s → P (body a s).0)
    → (items : List A) (s : S) → P s
    → P (for_each body items s).0
unfolding for_each after
for_each-keeps P body keep [] s p = p
for_each-keeps P body keep (a ∷ items) s p = elim (Bool-cases (body a s).1) [
  | inl fine ↦ rw fine (for_each-keeps P body keep items (body a s).0 (keep a s p))
  | inr stop ↦ rw stop (keep a s p)
]

pub update_absent_lem :
    {V : Type 0} (k : ℕ) (v : V) (m : Map ℕ V)
    → contains_key k m ≡ false
    → update_absent false k v m ≡ some (insert k v m)
unfolding update_absent
update_absent_lem k v m h = rw (h, if◌then◌else◌) refl

pub update_present_lem :
    {V : Type 0} (k : ℕ) (v : V) (m : Map ℕ V)
    → contains_key k m ≡ true
    → update_present false k v m ≡ some (insert k v m)
unfolding update_present
update_present_lem k v m h = rw (h, if◌then◌else◌) refl

-- The same for bodies that keep it on items of a kind.
pub for_each-keeps_all :
    {A S : Type 0} (Q : A → Type 0) (P : S → Type 0) (body : A → S → Outcome S)
    → ((a : A) (s : S) → Q a → P s → P (body a s).0)
    → (items : List A) (s : S) → All Q items
    → P s
    → P (for_each body items s).0
unfolding for_each after
for_each-keeps_all Q P body keep [] s q p = p
for_each-keeps_all Q P body keep (a ∷ items) s q p = elim (Bool-cases (body a s).1) [
  | inl fine ↦ rw fine (for_each-keeps_all Q P body keep items (body a s).0 q.1 (keep a s q.0 p))
  | inr stop ↦ rw stop (keep a s q.0 p)
]
