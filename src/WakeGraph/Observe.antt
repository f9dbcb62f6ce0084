-- ===== src/WakeGraph/Observe.antt =====
-- What `observe` does to one edge, and the shape of the edge map that it keeps.
use scx_cohort.Base.Floats.{Floats}
use scx_cohort.Base.Map.Laws.{
  lookup-insert, lookup-retain, lookup_or-lookup, contains_key-lookup, contains_key-insert,
  contains_key-some, insert-IsMap, retain-IsMap, kept,
}
use scx_cohort.Base.Map.{Map, lookup, insert, lookup_or, contains_key, IsMap}
use scx_cohort.Base.Words.{u64_mod, add64, mul64}
use scx_cohort.Base.{
  ℕ, ◌+◌, ◌*◌, ◌%◌, ◌<◌, ◌≡◌, refl, sym, ap, ◌∙◌, inl, inr, Bool, true, false, ◌||◌, Option, none,
  some, List, [], ◌∷◌, arith, nat_key, pair_key, pair_beq, pair_beq_iff, ◌==◌, if◌then◌else◌,
  if_keeps, Bool-cases, Option-cases,
}
use scx_cohort.WakeGraph.{
  WakeGraph, EdgeState, ekey, sum_fresh, blend, decay_state, decay, fresh_state, enter_fresh,
  audible, observe,
}

-- The wakes of an edge among the deltas, with the compensation for sampling.
unfoldable pub wakes : ℕ → ℕ × ℕ → List (ℕ × ℕ × ℕ) → ℕ
wakes mult key [] = 0
wakes mult key ((a, b, count) ∷ deltas) =
    (if key == ekey a b then count * mult else 0) + wakes mult key deltas

-- Some delta is about the edge.
unfoldable pub is_reported : ℕ × ℕ → List (ℕ × ℕ × ℕ) → Bool
is_reported key [] = false
is_reported key ((a, b, count) ∷ deltas) = if key == ekey a b then true else is_reported key deltas

lookup_or-insert :
    (k j : ℕ × ℕ) (v : ℕ) (m : Map (ℕ × ℕ) ℕ)
    → lookup_or 0 j (insert k v m) ≡ (if j == k then v else lookup_or 0 j m)
lookup_or-insert k j v m =
    ground
      (arith, lookup_or-lookup 0 j (insert k v m), lookup_or-lookup 0 j m, lookup-insert k j v m)

lookup_or-sum_fresh :
    (mult : ℕ) (key : ℕ × ℕ) (deltas : List (ℕ × ℕ × ℕ)) (fresh : Map (ℕ × ℕ) ℕ)
    → lookup_or 0 key fresh < u64_mod
    → lookup_or 0 key (sum_fresh mult deltas fresh)
      ≡ (lookup_or 0 key fresh + wakes mult key deltas) % u64_mod
unfolding sum_fresh wakes
lookup_or-sum_fresh mult key [] fresh h = omega arith
lookup_or-sum_fresh mult key ((a, b, count) ∷ deltas) fresh h =
    let k = ekey a b in
    let v = add64 (lookup_or 0 k fresh) (mul64 count mult) in
    let looked = lookup_or-insert k key v fresh in
    elim (Bool-cases (key == k)) [
      | inl y ↦
          let same : lookup_or 0 k fresh ≡ lookup_or 0 key fresh =
            ap (λ j. lookup_or 0 j fresh) (sym ((pair_beq_iff key k).0 y)) in
          let here : lookup_or 0 key (insert k v fresh) ≡ v = looked ∙ rw y in
          rw y (omega (arith, lookup_or-sum_fresh mult key deltas (insert k v fresh) (omega arith)))
      | inr n ↦
          let there : lookup_or 0 key (insert k v fresh) ≡ lookup_or 0 key fresh = looked ∙ rw n in
          rw n (omega (arith, lookup_or-sum_fresh mult key deltas (insert k v fresh) (omega arith)))
    ]

or_if : (r t c : Bool) → (r || (if t then true else c)) ≡ ((if t then true else r) || c)
or_if r true c = ground arith
or_if r false c = refl

contains_key-sum_fresh :
    (mult : ℕ) (key : ℕ × ℕ) (deltas : List (ℕ × ℕ × ℕ)) (fresh : Map (ℕ × ℕ) ℕ)
    → contains_key key (sum_fresh mult deltas fresh)
      ≡ (is_reported key deltas || contains_key key fresh)
unfolding sum_fresh is_reported
contains_key-sum_fresh mult key [] fresh = refl
contains_key-sum_fresh mult key ((a, b, count) ∷ deltas) fresh =
    let k = ekey a b in
    let v = add64 (lookup_or 0 k fresh) (mul64 count mult) in
    contains_key-sum_fresh mult key deltas (insert k v fresh)
    ∙ rw (contains_key-insert k key v fresh)
        (or_if (is_reported key deltas) (pair_beq key k) (contains_key key fresh))

or_false : (b : Bool) → (b || false) ≡ b
or_false true = refl
or_false false = refl

-- What is reported of an edge on a tick: its wakes, if some delta is about it.
unfoldable pub report : ℕ → ℕ × ℕ → List (ℕ × ℕ × ℕ) → Option ℕ
report mult key deltas =
    if is_reported key deltas then some (wakes mult key deltas % u64_mod) else none

lookup-sum_fresh :
    (mult : ℕ) (key : ℕ × ℕ) (deltas : List (ℕ × ℕ × ℕ))
    → lookup key (sum_fresh mult deltas []) ≡ report mult key deltas
unfolding report lookup_or contains_key
lookup-sum_fresh mult key deltas =
    let m = sum_fresh mult deltas [] in
    let has : contains_key key m ≡ is_reported key deltas =
      contains_key-sum_fresh mult key deltas [] ∙ or_false (is_reported key deltas) in
    let sum : lookup_or 0 key m ≡ wakes mult key deltas % u64_mod =
      lookup_or-sum_fresh mult key deltas [] (omega arith) ∙ ap (λ n. n % u64_mod) (omega arith) in
    elim (Option-cases (lookup key m)) [
      | inl e ↦ ground (arith, contains_key-lookup key m)
      | inr (v, e) ↦ ground (arith, contains_key-lookup key m, lookup_or-lookup 0 key m)
    ]

module _ (f : Floats) where
  open f use {F64, of_nat, lt, le}

  -- An edge's state after a tick, by its state before and the tick's report.
  abbrev pub next_state : F64 → F64 → Option ℕ → Option (EdgeState F64) → Option (EdgeState F64)
  next_state alpha dt_s none none = none
  next_state alpha dt_s (some n) none = some (fresh_state f alpha dt_s n)
  next_state alpha dt_s none (some st) = some (decay_state f alpha dt_s 0 st)
  next_state alpha dt_s (some n) (some st) = some (decay_state f alpha dt_s n st)

  -- The effect of the loop over the known edges, and of the one over the vacant edges.
  abbrev decayed : F64 → F64 → ℕ → Option (EdgeState F64) → Option (EdgeState F64)
  decayed alpha dt_s n none = none
  decayed alpha dt_s n (some st) = some (decay_state f alpha dt_s n st)

  abbrev or_fresh : F64 → F64 → Option ℕ → Option (EdgeState F64) → Option (EdgeState F64)
  or_fresh alpha dt_s none none = none
  or_fresh alpha dt_s (some n) none = some (fresh_state f alpha dt_s n)
  or_fresh alpha dt_s r (some st) = some st

  lookup-decay :
      (alpha dt_s : F64) (fresh : Map (ℕ × ℕ) ℕ) (key : ℕ × ℕ) (edges : Map (ℕ × ℕ) (EdgeState F64))
      → lookup key (decay f alpha dt_s fresh edges)
        ≡ decayed alpha dt_s (lookup_or 0 key fresh) (lookup key edges)
  unfolding decay lookup
  lookup-decay alpha dt_s fresh key [] = refl
  lookup-decay alpha dt_s fresh key ((k, st) ∷ edges) = elim (Bool-cases (key == k)) [
    | inl y ↦ rw (y, (pair_beq_iff key k).0 y)
    | inr n ↦ rw n (lookup-decay alpha dt_s fresh key edges)
  ]

  enter_one :
      (alpha dt_s : F64) (key k : ℕ × ℕ) (n : ℕ) (r : Option ℕ)
      (edges : Map (ℕ × ℕ) (EdgeState F64))
      → or_fresh alpha dt_s r (
          lookup key
            (if contains_key k edges then edges else insert k (fresh_state f alpha dt_s n) edges))
        ≡ or_fresh alpha dt_s (if key == k then some n else r) (lookup key edges)
  enter_one alpha dt_s key k n r edges = elim (Bool-cases (key == k)) [
    | inl y ↦ elim (Bool-cases (contains_key k edges)) [
      | inl here ↦
          let (st, found) = contains_key-some k edges here in
          let found' : lookup key edges ≡ some st =
            ap (λ j. lookup j edges) ((pair_beq_iff key k).0 y) ∙ found in
          rw (here, found')
      | inr absent ↦
          let vacant : lookup key edges ≡ none =
            ap (λ j. lookup j edges) ((pair_beq_iff key k).0 y)
            ∙ (contains_key-lookup k edges).0 absent in
          rw (absent, lookup-insert k key (fresh_state f alpha dt_s n) edges, y, vacant)
    ]
    | inr other ↦ elim (Bool-cases (contains_key k edges)) [
      | inl here ↦ rw (here, other)
      | inr absent ↦ rw (absent, lookup-insert k key (fresh_state f alpha dt_s n) edges, other)
    ]
  ]

  or_fresh-none : (alpha dt_s : F64) (o : Option (EdgeState F64)) → o ≡ or_fresh alpha dt_s none o
  or_fresh-none alpha dt_s none = refl
  or_fresh-none alpha dt_s (some st) = refl

  lookup-enter_fresh :
      (alpha dt_s : F64) (key : ℕ × ℕ) (fresh : Map (ℕ × ℕ) ℕ) (edges : Map (ℕ × ℕ) (EdgeState F64))
      → lookup key (enter_fresh f alpha dt_s fresh edges)
        ≡ or_fresh alpha dt_s (lookup key fresh) (lookup key edges)
  unfolding enter_fresh lookup
  lookup-enter_fresh alpha dt_s key [] edges = or_fresh-none alpha dt_s (lookup key edges)
  lookup-enter_fresh alpha dt_s key ((k, n) ∷ fresh) edges =
      lookup-enter_fresh alpha dt_s key fresh _
      ∙ enter_one alpha dt_s key k n (lookup key fresh) edges

  decay-IsMap :
      (alpha dt_s : F64) (fresh : Map (ℕ × ℕ) ℕ) (edges : Map (ℕ × ℕ) (EdgeState F64))
      → IsMap edges
      → IsMap (decay f alpha dt_s fresh edges)
  unfolding decay
  decay-IsMap alpha dt_s fresh [] i = tt
  decay-IsMap alpha dt_s fresh ((k, st) ∷ edges) i =
      (rw (lookup-decay alpha dt_s fresh k edges, i.0), decay-IsMap alpha dt_s fresh edges i.1)

  enter_fresh-IsMap :
      (alpha dt_s : F64) (fresh : Map (ℕ × ℕ) ℕ) (edges : Map (ℕ × ℕ) (EdgeState F64))
      → IsMap edges
      → IsMap (enter_fresh f alpha dt_s fresh edges)
  unfolding enter_fresh
  enter_fresh-IsMap alpha dt_s [] edges i = i
  enter_fresh-IsMap alpha dt_s ((k, n) ∷ fresh) edges i = enter_fresh-IsMap alpha dt_s fresh _ (
      if_keeps (λ (m : Map (ℕ × ℕ) (EdgeState F64)). IsMap m) (contains_key k edges) i
        (insert-IsMap k (fresh_state f alpha dt_s n) edges i))

  pub observe-IsMap :
      (g : WakeGraph F64) (deltas : List (ℕ × ℕ × ℕ)) (dt_s : F64) (mult : ℕ)
      → IsMap g.edges
      → IsMap (observe f g deltas dt_s mult).edges
  unfolding observe
  observe-IsMap g deltas dt_s mult i =
      if_keeps (λ (h : WakeGraph F64). IsMap h.edges) (le dt_s (of_nat 0)) i
        (retain-IsMap (λ _ st. audible f g.cfg st) _
          (enter_fresh-IsMap _ dt_s _ _ (decay-IsMap _ dt_s _ g.edges i)))

  -- The report of `decay` counts nothing for an edge that no delta is about.
  combine :
      (alpha dt_s : F64) (r : Option ℕ) (o : Option (EdgeState F64))
      → or_fresh alpha dt_s r (decayed alpha dt_s (elim r [ none ↦ 0 | some n ↦ n ]) o)
        ≡ next_state alpha dt_s r o
  combine alpha dt_s none none = refl
  combine alpha dt_s none (some st) = refl
  combine alpha dt_s (some n) none = refl
  combine alpha dt_s (some n) (some st) = refl

  -- `observe` treats each edge by itself: a known edge decays towards the tick's rate, a reported
  -- edge that is not known enters with a share of it, and what is then too quiet is dropped. The
  -- tick's wakes of an edge are those that the deltas report in either direction, times the
  -- sampling factor, modulo 2^64. The edge map has no key twice, and time has passed.
  pub lookup-observe :
      (g : WakeGraph F64) (deltas : List (ℕ × ℕ × ℕ)) (dt_s : F64) (mult : ℕ) (key : ℕ × ℕ)
      → IsMap g.edges
      → le dt_s (of_nat 0) ≡ false
      → lookup key (observe f g deltas dt_s mult).edges
        ≡ kept
            (λ _ st. audible f g.cfg st)
            key
            (next_state (blend f g.cfg dt_s) dt_s (report mult key deltas) (lookup key g.edges))
  unfolding observe
  lookup-observe g deltas dt_s mult key i passed =
      let alpha = blend f g.cfg dt_s in
      let fresh = sum_fresh mult deltas [] in
      let known = decay f alpha dt_s fresh g.edges in
      rw passed (
        lookup-retain (λ _ st. audible f g.cfg st) key (enter_fresh f alpha dt_s fresh known)
          (enter_fresh-IsMap alpha dt_s fresh known (decay-IsMap alpha dt_s fresh g.edges i))
        ∙ ap (kept (λ _ st. audible f g.cfg st) key) (
            lookup-enter_fresh alpha dt_s key fresh known
            ∙ rw
                (
                  lookup-decay alpha dt_s fresh key g.edges,
                  lookup_or-lookup 0 key fresh,
                  lookup-sum_fresh mult key deltas,
                )
                (combine alpha dt_s (report mult key deltas) (lookup key g.edges))))
