-- ===== src/WakeGraph/Splits/Largest.antt =====
-- scx_cohort/src/wake_graph.rs, `splits`: the sort of the components, and the one that is skipped.
use mathlib.Core.List.Permᴰ
use mathlib.Core.List.{Permᴰ}
use scx_cohort.Base.{
  ℕ, ◌≤◌, ◌≡◌, refl, sym, subst, ◌∙◌, inl, inr, true, false, List, [], ◌∷◌, arith, leb, Bool-cases,
  In,
}
use scx_cohort.WakeGraph.Splits.{Component, task_sum, insert_by_tasks, sort_by_tasks, skip_largest}

-- What an order of iteration may do: any permutation.
pub Perm-In : {A : Type 0} (a : A) {xs ys : List A} → Permᴰ xs ys → In a xs → In a ys
Perm-In a Permᴰ.nil i = i
Perm-In a (Permᴰ.cons e p) (inl i) = inl (i ∙ e)
Perm-In a (Permᴰ.cons e p) (inr i) = inr (Perm-In a p i)
Perm-In a (Permᴰ.swap e e') (inl i) = inr (inl (i ∙ e))
Perm-In a (Permᴰ.swap e e') (inr (inl i)) = inl (i ∙ e')
Perm-In a (Permᴰ.swap e e') (inr (inr i)) = inr (inr i)
Perm-In a (Permᴰ.trans p q) i = Perm-In a q (Perm-In a p i)

-- Two components with no common member.
abbrev pub Apart : Component → Component → Type 0
Apart c d = (x : ℕ × ℕ) → In x c → In x d → ⊥

abbrev pub AllApart : List Component → Type 0
AllApart [] = Unit
AllApart (c ∷ comps) = ((d : Component) → In d comps → Apart c d) × AllApart comps

pub Perm-AllApart : {xs ys : List Component} → Permᴰ xs ys → AllApart xs → AllApart ys
Perm-AllApart Permᴰ.nil a = a
Perm-AllApart (Permᴰ.cons {a = c} {b = d} e p) a =
    ((λ z i. subst (λ c'. Apart c' z) e (a.0 z (Perm-In z (Permᴰ.symm p) i))), Perm-AllApart p a.1)
Perm-AllApart (Permᴰ.swap {a = c} {b = d} {a' = c'} {b' = d'} {l = l} e e')
      (first, (second, rest)) =
    (left, (right, rest))
  where
    left : (z : Component) → In z (d' ∷ l) → Apart c' z
    left z (inl i) = λ x j k.
        first d (inl refl) x (subst (λ w. In x w) (i ∙ sym e) k) (subst (λ w. In x w) (sym e') j)
    left z (inr i) = subst (λ w. Apart w z) e' (second z i)

    right : (z : Component) → In z l → Apart d' z
    right z i = subst (λ w. Apart w z) e (first z (inr i))
Perm-AllApart (Permᴰ.trans p q) a = Perm-AllApart q (Perm-AllApart p a)

insert_by_tasks-Perm :
    (c : Component) (comps : List Component) → Permᴰ (c ∷ comps) (insert_by_tasks c comps)
unfolding insert_by_tasks
insert_by_tasks-Perm c [] = Permᴰ.refl (c ∷ [])
insert_by_tasks-Perm c (d ∷ comps) = elim (Bool-cases (leb (task_sum d) (task_sum c))) [
  | inl small ↦ rw small (Permᴰ.refl (c ∷ d ∷ comps))
  | inr large ↦
      rw large (Permᴰ.trans (Permᴰ.swap refl refl) (Permᴰ.cons refl (insert_by_tasks-Perm c comps)))
]

pub sort_by_tasks-Perm : (comps : List Component) → Permᴰ comps (sort_by_tasks comps)
unfolding sort_by_tasks
sort_by_tasks-Perm [] = Permᴰ.nil
sort_by_tasks-Perm (c ∷ comps) =
    Permᴰ.trans (Permᴰ.cons refl (sort_by_tasks-Perm comps))
      (insert_by_tasks-Perm c (sort_by_tasks comps))

-- Each component is at least as large as those after it.
abbrev IsDescending : List Component → Type 0
IsDescending [] = Unit
IsDescending (c ∷ comps) =
    ((d : Component) → In d comps → task_sum d ≤ task_sum c) × IsDescending comps

insert_by_tasks-IsDescending :
    (c : Component) (comps : List Component)
    → IsDescending comps
    → IsDescending (insert_by_tasks c comps)
unfolding insert_by_tasks
insert_by_tasks-IsDescending c [] s = ((λ d i. absurd i), tt)
insert_by_tasks-IsDescending c (d ∷ comps) s = elim (Bool-cases (leb (task_sum d) (task_sum c))) [
  | inl small ↦ rw small (below small, s)
  | inr large ↦ rw large (above large, insert_by_tasks-IsDescending c comps s.1)
]
  where
    below :
        leb (task_sum d) (task_sum c) ≡ true
        → (e : Component) → In e (d ∷ comps)
        → task_sum e ≤ task_sum c
    below small e (inl i) = rw i (ground arith)
    below small e (inr i) = let bound = s.0 e i in ground arith

    above :
        leb (task_sum d) (task_sum c) ≡ false
        → (e : Component) → In e (insert_by_tasks c comps)
        → task_sum e ≤ task_sum d
    above large e i = elim (Perm-In e (Permᴰ.symm (insert_by_tasks-Perm c comps)) i) [
      | inl here ↦ rw here (ground arith)
      | inr there ↦ s.0 e there
    ]

sort_by_tasks-IsDescending : (comps : List Component) → IsDescending (sort_by_tasks comps)
unfolding sort_by_tasks
sort_by_tasks-IsDescending [] = tt
sort_by_tasks-IsDescending (c ∷ comps) =
    insert_by_tasks-IsDescending c (sort_by_tasks comps) (sort_by_tasks-IsDescending comps)

-- The component that stays, next to one that goes.
pub record Stays (comps : List Component) (c : Component) : Type 0 where
  pub stays : Component
  pub listed : In stays comps
  pub apart : Apart stays c
  pub largest : task_sum c ≤ task_sum stays

skip_largest-Stays :
    (comps : List Component) (c : Component)
    → AllApart comps
    → IsDescending comps
    → In c (skip_largest comps)
    → In c comps × Stays comps c
unfolding skip_largest
skip_largest-Stays [] c a s i = absurd i
skip_largest-Stays (d ∷ comps) c a s i =
    (inr i, record { stays = d; listed = inl refl; apart = a.0 c i; largest = s.0 c i })

pub sorted-Stays :
    (comps : List Component) (c : Component)
    → AllApart comps
    → In c (skip_largest (sort_by_tasks comps))
    → In c comps × Stays comps c
sorted-Stays comps c a i =
    let p = sort_by_tasks-Perm comps in
    let w =
      skip_largest-Stays (sort_by_tasks comps) c (Perm-AllApart p a)
        (sort_by_tasks-IsDescending comps) i in
    let back = Permᴰ.symm p in
    (
      Perm-In c back w.0,
      record {
        stays = w.1.stays;
        listed = Perm-In w.1.stays back w.1.listed;
        apart = w.1.apart;
        largest = w.1.largest;
      },
    )
