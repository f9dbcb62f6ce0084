-- ===== src/Daemon/Rules/Wants.antt =====
-- scx_cohort/src/main.rs, `apply_rules`: its effects, told from the tasks.
use Prim.Native.String.{String}
use scx_cohort.Base.Map.Laws.{lookup-insert, lookup_or-lookup, insert-IsMap}
use scx_cohort.Base.Map.{Map, lookup, lookup_or, IsMap}
use scx_cohort.Base.{
  ℕ, ◌≡◌, refl, ◌∙◌, sym, ap, inl, inr, Option, none, some, List, [], ◌∷◌, arith, nat_beq,
  nat_beq_iff, nat_key, if◌then◌else◌, Bool-cases,
}
use scx_cohort.Config.{Globs, Config, Rule, match_task}
use scx_cohort.Daemon.Cgroup.{cached_or_read, read_cgroup}
use scx_cohort.Daemon.Rules.{Effects, larger, add_residency, add_pin, add_rule}
use scx_cohort.Domain.{TaskSnapshot}

-- The path that a task's process has: the cached one, or the one that its file gives.
unfoldable pub path_or_read : (ℕ → Option String) → ℕ → Option String → String
path_or_read procfs tgid none = read_cgroup (procfs tgid)
path_or_read procfs tgid (some path) = path

abbrev pub path_of : (ℕ → Option String) → Map ℕ String → ℕ → String
path_of procfs cache tgid = path_or_read procfs tgid (lookup tgid cache)

-- The larger of two that may be missing.
unfoldable pub at_least : Option ℕ → Option ℕ → Option ℕ
at_least none o = o
at_least (some a) none = some a
at_least (some a) (some b) = some (larger a b)

-- The second, or else the first.
unfoldable pub last_of : Option ℕ → Option ℕ → Option ℕ
last_of o none = o
last_of o (some b) = some b

-- The path is cached as it is read.
module _ (procfs : ℕ → Option String) where
  pub cached_or_read_path :
      (tgid : ℕ) (cache : Map ℕ String) (o : Option String)
      → (cached_or_read procfs tgid cache o).1 ≡ path_or_read procfs tgid o
  unfolding cached_or_read path_or_read
  cached_or_read_path tgid cache none = refl
  cached_or_read_path tgid cache (some path) = refl

  pub path_of-cached_or_read :
      (tgid t : ℕ) (cache : Map ℕ String) (o : Option String)
      → lookup tgid cache ≡ o
      → path_of procfs (cached_or_read procfs tgid cache o).0 t ≡ path_of procfs cache t
  unfolding cached_or_read path_or_read
  path_of-cached_or_read tgid t cache (some path) found = refl
  path_of-cached_or_read tgid t cache none found =
      let inserted = lookup-insert tgid t (read_cgroup (procfs tgid)) cache in
      elim (Bool-cases (nat_beq t tgid)) [
        | inl here ↦
            let e : t ≡ tgid = (nat_beq_iff t tgid).0 here in
            let gone : lookup t cache ≡ none = ap (λ z. lookup z cache) e ∙ found in
            rw (inserted, here, gone, if◌then◌else◌) (ap (λ z. read_cgroup (procfs z)) (sym e))
        | inr there ↦ rw (inserted, there, if◌then◌else◌) refl
      ]

pub at_least-none : (o : Option ℕ) → at_least o none ≡ o
unfolding at_least
at_least-none none = refl
at_least-none (some a) = refl

pub at_least_assoc : (o p q : Option ℕ) → at_least (at_least o p) q ≡ at_least o (at_least p q)
unfolding at_least
at_least_assoc none p q = refl
at_least_assoc (some a) none q = refl
at_least_assoc (some a) (some b) none = refl
at_least_assoc (some a) (some b) (some c) = ground arith

pub last_of-none : (o : Option ℕ) → last_of o none ≡ o
unfolding last_of
last_of-none o = refl

pub last_of_assoc : (o p q : Option ℕ) → last_of (last_of o p) q ≡ last_of o (last_of p q)
unfolding last_of
last_of_assoc o p none = refl
last_of_assoc o p (some c) = refl

lookup-add_residency :
    (k c : ℕ) (o : Option ℕ) (m : Map ℕ ℕ)
    → lookup c (add_residency k o m) ≡ (if nat_beq c k then at_least (lookup c m) o else lookup c m)
unfolding add_residency at_least
lookup-add_residency k c none m = elim (Bool-cases (nat_beq c k)) [
  | inl here ↦ rw (here, if◌then◌else◌) (sym (at_least-none (lookup c m)))
  | inr there ↦ rw (there, if◌then◌else◌) refl
]
lookup-add_residency k c (some ms) m = ground (
  arith,
  lookup-insert k c (larger (lookup_or ms k m) ms) m,
  lookup_or-lookup ms k m,
  nat_beq_iff c k,
)

lookup-add_pin :
    (k c : ℕ) (o : Option ℕ) (m : Map ℕ ℕ)
    → lookup c (add_pin k o m) ≡ (if nat_beq c k then last_of (lookup c m) o else lookup c m)
unfolding add_pin last_of
lookup-add_pin k c none m = ground arith
lookup-add_pin k c (some ccd) m = ground (arith, lookup-insert k c ccd m)

add_pin-IsMap : (k : ℕ) (o : Option ℕ) (m : Map ℕ ℕ) → IsMap m → IsMap (add_pin k o m)
unfolding add_pin
add_pin-IsMap k none m d = d
add_pin-IsMap k (some ccd) m d = insert-IsMap k ccd m d

-- A field of a rule that may be missing.
unfoldable pub field_of : {R : Type 0} → (R → Option ℕ) → Option R → Option ℕ
field_of f none = none
field_of f (some r) = f r

module _ (globs : Globs) {F64 : Type 0} (config : Config F64 globs.Glob) (path : ℕ → String) where
  -- The rule that a task matches.
  abbrev pub rule_of : TaskSnapshot → Option (Rule globs.Glob)
  rule_of t = match_task globs config t.comm (path t.tgid)

  -- The longest residency that the rules of a cohort's tasks name.
  unfoldable pub longest_residency : ℕ → List TaskSnapshot → Option ℕ
  longest_residency c [] = none
  longest_residency c (t ∷ tasks) =
      if nat_beq c t.cohort_id
      then at_least (field_of (λ r. r.min_ccd_residency_ms) (rule_of t)) (longest_residency c tasks)
      else longest_residency c tasks

  -- The pin of the last of a cohort's tasks whose rule names one.
  unfoldable pub last_pin : ℕ → List TaskSnapshot → Option ℕ
  last_pin c [] = none
  last_pin c (t ∷ tasks) =
      if nat_beq c t.cohort_id
      then last_of (field_of (λ r. r.pin_ccd) (rule_of t)) (last_pin c tasks)
      else last_pin c tasks

module _ (globs : Globs) where
  pub add_rule_cache :
      (k : ℕ) (o : Option (Rule globs.Glob)) (fx : Effects)
      → (add_rule globs k o fx).cache ≡ fx.cache
  unfolding add_rule
  add_rule_cache k none fx = refl
  add_rule_cache k (some r) fx = refl

  pub add_rule_overrides :
      (k c : ℕ) (o : Option (Rule globs.Glob)) (fx : Effects)
      → lookup c (add_rule globs k o fx).overrides ≡ (
          if nat_beq c k
          then at_least (lookup c fx.overrides) (field_of (λ r. r.min_ccd_residency_ms) o)
          else lookup c fx.overrides)
  unfolding add_rule field_of add_residency
  add_rule_overrides k c none fx = lookup-add_residency k c none fx.overrides
  add_rule_overrides k c (some r) fx = lookup-add_residency k c r.min_ccd_residency_ms fx.overrides

  pub add_rule_pins :
      (k c : ℕ) (o : Option (Rule globs.Glob)) (fx : Effects)
      → lookup c (add_rule globs k o fx).pins ≡ (
          if nat_beq c k
          then last_of (lookup c fx.pins) (field_of (λ r. r.pin_ccd) o)
          else lookup c fx.pins)
  unfolding add_rule field_of add_pin
  add_rule_pins k c none fx = lookup-add_pin k c none fx.pins
  add_rule_pins k c (some r) fx = lookup-add_pin k c r.pin_ccd fx.pins

  pub add_rule-IsMap :
      (k : ℕ) (o : Option (Rule globs.Glob)) (fx : Effects)
      → IsMap fx.pins
      → IsMap (add_rule globs k o fx).pins
  unfolding add_rule
  add_rule-IsMap k none fx d = d
  add_rule-IsMap k (some r) fx d = add_pin-IsMap k r.pin_ccd fx.pins d
