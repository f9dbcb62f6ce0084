-- ===== src/Base/Lists.antt =====
-- Lists measured by native numbers, and the predicates and searches that the planners use.
use Prim.Native.Nat.{ℕ, suc}
use mathlib.Core.Bool.{Bool, true, false, ◌||◌}
use mathlib.Core.List.{List, [], ◌∷◌, ◌++◌, map}
use mathlib.Core.Logic.{◌⊎◌, inl, inr}
use mathlib.Core.Option.{Option, none, some}
use mathlib.Core.Path.{◌≡◌, refl, sym, ap, ◌∙◌}
use scx_cohort.Base.Tests.{if◌then◌else◌, if_keeps, Bool-cases}

module _ {ℓ} {A : Type ℓ} where
  abbrev pub length : List A → ℕ
  length [] = 0
  length (x ∷ xs) = suc (length xs)

  -- `Iterator::filter`, by a Boolean test.
  abbrev pub keep : (A → Bool) → List A → List A
  keep p [] = []
  keep p (x ∷ xs) = if p x then x ∷ keep p xs else keep p xs

  -- `Iterator::any`.
  abbrev pub any : (A → Bool) → List A → Bool
  any p [] = false
  any p (x ∷ xs) = p x || any p xs

  -- `Iterator::find`.
  abbrev pub find : (A → Bool) → List A → Option A
  find p [] = none
  find p (x ∷ xs) = if p x then some x else find p xs

  abbrev pub All {κ} : (A → Type κ) → List A → Type κ
  All P [] = Unit
  All P (x ∷ xs) = P x × All P xs

-- Membership with the place kept, by recursion.
abbrev pub In : {A : Type 0} → A → List A → Type 0
In a [] = ⊥
In a (x ∷ xs) = (a ≡ x) ⊎ In a xs

pub All-of_In {κ} :
    {A : Type 0} (P : A → Type κ) (xs : List A) → ((a : A) → In a xs → P a) → All P xs
All-of_In P [] h = tt
All-of_In P (x ∷ xs) h = (h x (inl refl), All-of_In P xs (λ a m. h a (inr m)))

pub In_of_All {κ} : {A : Type 0} (P : A → Type κ) (xs : List A) (a : A) → All P xs → In a xs → P a
In_of_All P [] a h m = absurd m
In_of_All P (x ∷ xs) a h (inl e) = rw e h.0
In_of_All P (x ∷ xs) a h (inr m) = In_of_All P xs a h.1 m

-- What `filter` keeps: the elements that pass the test.
pub In-keep :
    {A : Type 0} (p : A → Bool) (xs : List A) (a : A) → In a (keep p xs) → In a xs × (p a ≡ true)
In-keep p [] a m = absurd m
In-keep p (x ∷ xs) a m = elim (Bool-cases (p x)) [
  | inl e ↦ elim (rw (e, if◌then◌else◌) at m) [
    | inl here ↦ (inl here, rw here e)
    | inr there ↦ let r = In-keep p xs a there in (inr r.0, r.1)
  ]
  | inr e ↦ let r = In-keep p xs a (rw e at m) in (inr r.0, r.1)
]

pub keep-In :
    {A : Type 0} (p : A → Bool) (xs : List A) (a : A) → In a xs → p a ≡ true → In a (keep p xs)
keep-In p [] a m h = absurd m
keep-In p (x ∷ xs) a (inl e) h = rw (ap p (sym e) ∙ h) (inl e)
keep-In p (x ∷ xs) a (inr m) h =
    if_keeps (In a) (p x) (inr (keep-In p xs a m h)) (keep-In p xs a m h)

pub In-map : {A B : Type 0} (f : A → B) (xs : List A) (a : A) → In a xs → In (f a) (map f xs)
In-map f (x ∷ xs) a (inl e) = inl (ap f e)
In-map f (x ∷ xs) a (inr m) = inr (In-map f xs a m)
In-map f [] a m = absurd m

pub In-map_inv :
    {A B : Type 0} (f : A → B) (xs : List A) (b : B)
    → In b (map f xs)
    → (a : A) × In a xs × (b ≡ f a)
In-map_inv f [] b m = absurd m
In-map_inv f (x ∷ xs) b (inl e) = (x, inl refl, e)
In-map_inv f (x ∷ xs) b (inr m) = let (a, i, e) = In-map_inv f xs b m in (a, inr i, e)

pub In-append : {A : Type 0} (a : A) (xs ys : List A) → In a (xs ++ ys) → In a xs ⊎ In a ys
In-append a [] ys m = inr m
In-append a (x ∷ xs) ys (inl e) = inl (inl e)
In-append a (x ∷ xs) ys (inr m) = elim (In-append a xs ys m) [ inl i ↦ inl (inr i) | inr i ↦ inr i ]

pub append-In : {A : Type 0} (a : A) (xs ys : List A) → In a xs ⊎ In a ys → In a (xs ++ ys)
append-In a [] ys (inl m) = absurd m
append-In a [] ys (inr m) = m
append-In a (x ∷ xs) ys (inl (inl e)) = inl e
append-In a (x ∷ xs) ys (inl (inr m)) = inr (append-In a xs ys (inl m))
append-In a (x ∷ xs) ys (inr m) = inr (append-In a xs ys (inr m))
