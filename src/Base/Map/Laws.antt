-- ===== src/Base/Map/Laws.antt =====
-- Laws of the association lists that stand for the program's maps.
use mathlib.Core.Bool.{Bool, true, false}
use mathlib.Core.List.{[], ◌∷◌}
use mathlib.Core.Logic.{◌↔◌, inl, inr}
use mathlib.Core.Option.{Option, none, some}
use mathlib.Core.Path.{◌≡◌, refl, sym, ap, ◌∙◌}
use native.Mathlib.Omega.{arith}
use scx_cohort.Base.Lists.{In}
use scx_cohort.Base.Map.{Map, retain, lookup, insert, remove, contains_key, lookup_or, IsMap}
use scx_cohort.Base.Tests.{Key, ◌==◌, if◌then◌else◌, Bool-cases}

module _ {ℓ κ} {K : Type ℓ} {V : Type κ} ⦃key : Key K⦄ where
  pub lookup-insert :
      (k j : K) (v : V) (m : Map K V)
      → lookup j (insert k v m) ≡ (if j == k then some v else lookup j m)
  unfolding lookup insert
  lookup-insert k j v [] = refl
  lookup-insert k j v ((i, w) ∷ m) =
      ground (arith, key.same_iff j k, key.same_iff k i, key.same_iff j i, lookup-insert k j v m)

  pub lookup-insert_self : (k : K) (v : V) (m : Map K V) → lookup k (insert k v m) ≡ some v
  lookup-insert_self k v m = ground (arith, lookup-insert k k v m, key.same_iff k k)

  pub lookup-remove :
      (k j : K) (m : Map K V) → lookup j (remove k m) ≡ (if j == k then none else lookup j m)
  unfolding lookup remove
  lookup-remove k j [] = ground arith
  lookup-remove k j ((i, w) ∷ m) =
      ground (arith, key.same_iff j k, key.same_iff k i, key.same_iff j i, lookup-remove k j m)

  pub contains_key-lookup : (k : K) (m : Map K V) → (contains_key k m ≡ false) ↔ (lookup k m ≡ none)
  unfolding lookup contains_key
  contains_key-lookup k [] = ground arith
  contains_key-lookup k ((i, w) ∷ m) = ground (arith, contains_key-lookup k m)

  pub contains_key-insert :
      (k j : K) (v : V) (m : Map K V)
      → contains_key j (insert k v m) ≡ (if j == k then true else contains_key j m)
  unfolding contains_key insert
  contains_key-insert k j v [] = refl
  contains_key-insert k j v ((i, w) ∷ m) =
      ground
        (arith, key.same_iff j k, key.same_iff k i, key.same_iff j i, contains_key-insert k j v m)

  pub insert-IsMap : (k : K) (v : V) (m : Map K V) → IsMap m → IsMap (insert k v m)
  unfolding lookup insert
  insert-IsMap k v [] d = ground arith
  insert-IsMap k v ((i, w) ∷ m) d =
      ground
        (arith, key.same_iff i k, key.same_iff k i, insert-IsMap k v m d.1, lookup-insert k i v m)

  lookup-retain-none :
      (p : K → V → Bool) (k : K) (m : Map K V) → lookup k m ≡ none → lookup k (retain p m) ≡ none
  unfolding lookup retain
  lookup-retain-none p k [] h = refl
  lookup-retain-none p k ((i, w) ∷ m) h = ground (arith, lookup-retain-none p k m)

  pub retain-IsMap : (p : K → V → Bool) (m : Map K V) → IsMap m → IsMap (retain p m)
  unfolding retain
  retain-IsMap p [] d = ground arith
  retain-IsMap p ((i, w) ∷ m) d = ground (arith, retain-IsMap p m d.1, lookup-retain-none p i m d.0)

  pub remove-IsMap : (k : K) (m : Map K V) → IsMap m → IsMap (remove k m)
  unfolding remove
  remove-IsMap k [] d = ground arith
  remove-IsMap k ((i, w) ∷ m) d = ground (arith, remove-IsMap k m d.1, lookup-remove k i m)

  -- What a filter by key and value leaves of a map.
  abbrev pub kept : (K → V → Bool) → K → Option V → Option V
  kept p k none = none
  kept p k (some v) = if p k v then some v else none

  pub lookup-retain :
      (p : K → V → Bool) (k : K) (m : Map K V)
      → IsMap m
      → lookup k (retain p m) ≡ kept p k (lookup k m)
  unfolding lookup retain
  lookup-retain p k [] d = refl
  lookup-retain p k ((i, w) ∷ m) d =
      ground (arith, key.same_iff k i, lookup-retain p k m d.1, lookup-retain-none p k m)

  pub lookup_or-lookup :
      (d : V) (k : K) (m : Map K V)
      → lookup_or d k m ≡ (elim (lookup k m) [ none ↦ d | some v ↦ v ])
  unfolding lookup lookup_or
  lookup_or-lookup d k [] = refl
  lookup_or-lookup d k ((i, w) ∷ m) = ground (arith, lookup_or-lookup d k m)

  pub contains_key-some :
      (k : K) (m : Map K V) → contains_key k m ≡ true → (v : V) × (lookup k m ≡ some v)
  unfolding lookup contains_key
  contains_key-some k [] h = absurd (cc)
  contains_key-some k ((i, w) ∷ m) h = elim (Bool-cases (k == i)) [
    | inl y ↦ (w, rw y)
    | inr n ↦ let (v, r) = contains_key-some k m (rw n at h) in (v, rw n r)
  ]

  pub contains_key_of_some :
      (k : K) (v : V) (m : Map K V) → lookup k m ≡ some v → contains_key k m ≡ true
  unfolding lookup contains_key
  contains_key_of_some k v [] h = absurd (cc)
  contains_key_of_some k v ((i, w) ∷ m) h = ground (arith, contains_key_of_some k v m)

module _ {K V : Type 0} ⦃key : Key K⦄ where
  -- An entry of a map without double keys is what a lookup finds.
  pub lookup-In : (k : K) (v : V) (m : Map K V) → IsMap m → In (k, v) m → lookup k m ≡ some v
  unfolding lookup
  lookup-In k v ((i, w) ∷ m) d (inl e) =
      rw ((key.same_iff k i).1 (ap (λ p. p.0) e)) (ap some (sym (ap (λ p. p.1) e)))
  lookup-In k v ((i, w) ∷ m) d (inr n) =
      let found = lookup-In k v m d.1 n in
      elim (Bool-cases (k == i)) [
        | inl y ↦
            let same : lookup i m ≡ some v =
              ap (λ j. lookup j m) (sym ((key.same_iff k i).0 y)) ∙ found in
            absurd (cc (same, d.0))
        | inr other ↦ rw other found
      ]
  lookup-In k v [] d i = absurd i
