-- ===== src/Top/Sorted.antt =====
-- scx_cohort/src/top.rs: the order of the cohorts and of their processes.
use mathlib.Core.List.Permᴰ
use mathlib.Core.List.{Permᴰ}
use scx_cohort.Base.{
  ◌≡◌, refl, sym, subst, inl, inr, Bool, true, false, List, [], ◌∷◌, Bool-cases, In,
}
use scx_cohort.Top.{insert_by, sort_by}
use scx_cohort.WakeGraph.Splits.Largest.{Perm-In}

-- `f64::total_cmp` as documented: a total order.
pub record TotalOrder (F64 : Type 0) : Type 0 where
  pub total_lt : F64 → F64 → Bool
  pub asymmetric : (a b : F64) → total_lt a b ≡ true → total_lt b a ≡ false
  pub transitive :
      (a b c : F64) → total_lt a b ≡ false → total_lt b c ≡ false → total_lt a c ≡ false

module _ {A F64 : Type 0} (order : TotalOrder F64) (key : A → F64) where
  open order use {total_lt, asymmetric, transitive}

  -- No later element has a greater key.
  abbrev pub IsDescending : List A → Type 0
  IsDescending [] = Unit
  IsDescending (x ∷ xs) = ((y : A) → In y xs → total_lt (key x) (key y) ≡ false) × IsDescending xs

  insert_by-Perm : (x : A) (xs : List A) → Permᴰ (x ∷ xs) (insert_by total_lt key x xs)
  unfolding insert_by
  insert_by-Perm x [] = Permᴰ.refl (x ∷ [])
  insert_by-Perm x (y ∷ ys) = elim (Bool-cases (total_lt (key x) (key y))) [
    | inl small ↦
        rw small (Permᴰ.trans (Permᴰ.swap refl refl) (Permᴰ.cons refl (insert_by-Perm x ys)))
    | inr large ↦ rw large (Permᴰ.refl (x ∷ y ∷ ys))
  ]

  pub sort_by-Perm : (xs : List A) → Permᴰ xs (sort_by total_lt key xs)
  unfolding sort_by
  sort_by-Perm [] = Permᴰ.nil
  sort_by-Perm (x ∷ xs) =
      Permᴰ.trans (Permᴰ.cons refl (sort_by-Perm xs)) (insert_by-Perm x (sort_by total_lt key xs))

  insert_by-IsDescending :
      (x : A) (xs : List A) → IsDescending xs → IsDescending (insert_by total_lt key x xs)
  unfolding insert_by
  insert_by-IsDescending x [] s = ((λ y i. absurd i), tt)
  insert_by-IsDescending x (y ∷ ys) s = elim (Bool-cases (total_lt (key x) (key y))) [
    | inl small ↦ rw small (above small, insert_by-IsDescending x ys s.1)
    | inr large ↦ rw large (below large, s)
  ]
    where
      above :
          total_lt (key x) (key y) ≡ true
          → (z : A) → In z (insert_by total_lt key x ys)
          → total_lt (key y) (key z) ≡ false
      above small z i = elim (Perm-In z (Permᴰ.symm (insert_by-Perm x ys)) i) [
        | inl e ↦
            subst (λ w. total_lt (key y) (key w) ≡ false) (sym e) (asymmetric (key x) (key y) small)
        | inr later ↦ s.0 z later
      ]

      below :
          total_lt (key x) (key y) ≡ false
          → (z : A) → In z (y ∷ ys)
          → total_lt (key x) (key z) ≡ false
      below large z (inl e) = subst (λ w. total_lt (key x) (key w) ≡ false) (sym e) large
      below large z (inr later) = transitive (key x) (key y) (key z) large (s.0 z later)

  pub sort_by-IsDescending : (xs : List A) → IsDescending (sort_by total_lt key xs)
  unfolding sort_by
  sort_by-IsDescending [] = tt
  sort_by-IsDescending (x ∷ xs) =
      insert_by-IsDescending x (sort_by total_lt key xs) (sort_by-IsDescending xs)
