-- ===== src/WakeGraph/Bursts.antt =====
-- Merges over many ticks: the count of an edge's hot ticks in a row.
use scx_cohort.Base.Floats.{Floats}
use scx_cohort.Base.Map.Laws.{kept, lookup-In}
use scx_cohort.Base.Map.{Map, lookup, IsMap}
use scx_cohort.Base.Words.{add32}
use scx_cohort.Base.{
  ℕ, suc, ◌≤◌, ◌≡◌, refl, sym, ap, subst, ◌∙◌, inl, inr, not, ◌&&◌, Option, none, some, List, [],
  ◌∷◌, arith, nat_beq, nat_key, pair_key, pair_beq_iff, ◌==◌, if◌then◌else◌, Bool-cases,
  Option-cases, In,
}
use scx_cohort.WakeGraph.Merges.{Causes, merges-Causes}
use scx_cohort.WakeGraph.Observe.{report, next_state, lookup-observe, observe-IsMap}
use scx_cohort.WakeGraph.{
  WakeGraph, WakeGraphCfg, EdgeState, MergePlan, new, decay_state, fresh_state, audible, observe,
  is_hot, merge_pair, merge_edge, merge_edges, merges,
}

-- What a tick feeds to the graph.
pub record Tick (F64 : Type 0) : Type 0 where
  pub deltas : List (ℕ × ℕ × ℕ)
  pub dt_s : F64
  pub sample_mult : ℕ
  pub tgid_cohort : Map ℕ ℕ
  pub sizes : Map ℕ ℕ

module _ (f : Floats) where
  open f use {F64, of_nat, le}

  -- The graph as `merges` finds it on a tick.
  unfoldable pub observed : WakeGraph F64 → Tick F64 → WakeGraph F64
  observed g t = observe f g t.deltas t.dt_s t.sample_mult

  -- The graph after a history of ticks, the latest first.
  unfoldable pub after : WakeGraphCfg F64 → List (Tick F64) → WakeGraph F64
  after cfg [] = new cfg
  after cfg (t ∷ h) = (merges f (observed (after cfg h) t) t.tgid_cohort t.sizes).0

  -- The count of a tick on top of a run: it grows on a hot tick between two cohorts, stays when an
  -- endpoint has no cohort, and starts anew otherwise.
  abbrev pub count : WakeGraphCfg F64 → Option ℕ → Option ℕ → EdgeState F64 → ℕ → ℕ
  count cfg none b st n = n
  count cfg (some ca) none st n = n
  count cfg (some ca) (some cb) st n = if not (nat_beq ca cb) && is_hot f cfg st then suc n else 0

  abbrev pub count_if_seen : WakeGraphCfg F64 → Option ℕ → Option ℕ → Option (EdgeState F64) → ℕ → ℕ
  count_if_seen cfg a b none n = 0
  count_if_seen cfg a b (some st) n = count cfg a b st n

  -- How many of the latest ticks found the edge hot, in a row but for ticks that are passed over.
  unfoldable pub hot_run : WakeGraphCfg F64 → List (Tick F64) → ℕ × ℕ → ℕ
  hot_run cfg [] key = 0
  hot_run cfg (t ∷ h) key =
      count_if_seen cfg (lookup key.0 t.tgid_cohort) (lookup key.1 t.tgid_cohort)
        (lookup key (observed (after cfg h) t).edges) (hot_run cfg h key)

  merge_pair-count :
      (cfg : WakeGraphCfg F64) (sizes : Map ℕ ℕ) (merged : List ℕ) (ca cb : ℕ) (st : EdgeState F64)
      (n : ℕ)
      → st.over_ticks ≤ n
      → (merge_pair f cfg sizes merged ca cb st).0.over_ticks ≤ count cfg (some ca) (some cb) st n
  unfolding merge_pair
  merge_pair-count cfg sizes merged ca cb st n h = ground arith

  merge_edge-count :
      (cfg : WakeGraphCfg F64) (tgid_cohort sizes : Map ℕ ℕ) (merged : List ℕ) (key : ℕ × ℕ)
      (st : EdgeState F64) (n : ℕ)
      → st.over_ticks ≤ n
      → (merge_edge f cfg tgid_cohort sizes merged key st).0.over_ticks
        ≤ count cfg (lookup key.0 tgid_cohort) (lookup key.1 tgid_cohort) st n
  unfolding merge_edge
  merge_edge-count cfg tgid_cohort sizes merged key st n h =
      elim (Option-cases (lookup key.0 tgid_cohort)) [
        | inl e ↦ rw (e, merge_edge) h
        | inr (ca, ka) ↦ elim (Option-cases (lookup key.1 tgid_cohort)) [
          | inl e ↦ rw (ka, e, merge_edge) h
          | inr (cb, kb) ↦ rw (ka, kb, merge_edge) (merge_pair-count cfg sizes merged ca cb st n h)
        ]
      ]

  merge_edges-lookup :
      (cfg : WakeGraphCfg F64) (tgid_cohort sizes : Map ℕ ℕ) (edges : Map (ℕ × ℕ) (EdgeState F64))
      (merged : List ℕ) (key : ℕ × ℕ) (st : EdgeState F64)
      → lookup key (merge_edges f cfg tgid_cohort sizes edges merged).0 ≡ some st
      → (s : EdgeState F64) × (before : List ℕ) × (lookup key edges ≡ some s)
        × (st ≡ (merge_edge f cfg tgid_cohort sizes before key s).0)
  unfolding merge_edges lookup
  merge_edges-lookup cfg tgid_cohort sizes [] merged key st e = absurd (cc)
  merge_edges-lookup cfg tgid_cohort sizes ((k, s) ∷ edges) merged key st e =
      elim (Bool-cases (key == k)) [
        | inl y ↦ (
          s,
          merged,
          rw y,
          cc (
            rw (y, if◌then◌else◌) at e,
            ap (λ j. (merge_edge f cfg tgid_cohort sizes merged j s).0) ((pair_beq_iff key k).0 y),
          ),
        )
        | inr other ↦
            let (s', before, found, same) =
              merge_edges-lookup cfg tgid_cohort sizes edges _ key st
                (rw (other, if◌then◌else◌) at e) in
            (s', before, rw other found, same)
      ]

  -- An edge that `observe` shows has the count that it had, or starts from nothing.
  next_state-over :
      (cfg : WakeGraphCfg F64) (key : ℕ × ℕ) (alpha dt_s : F64) (r : Option ℕ)
      (o : Option (EdgeState F64)) (st : EdgeState F64) (n : ℕ)
      → kept (λ _ s. audible f cfg s) key (next_state f alpha dt_s r o) ≡ some st
      → ((s : EdgeState F64) → o ≡ some s → s.over_ticks ≤ n)
      → st.over_ticks ≤ n
  unfolding decay_state fresh_state
  next_state-over cfg key alpha dt_s none none st n e h = absurd (cc)
  next_state-over cfg key alpha dt_s (some c) none st n e h = ground arith
  next_state-over cfg key alpha dt_s none (some s) st n e h = ground (arith, h s refl)
  next_state-over cfg key alpha dt_s (some c) (some s) st n e h = ground (arith, h s refl)

  observed-over :
      (g : WakeGraph F64) (t : Tick F64) (key : ℕ × ℕ) (st : EdgeState F64) (n : ℕ)
      → IsMap g.edges
      → ((s : EdgeState F64) → lookup key g.edges ≡ some s → s.over_ticks ≤ n)
      → lookup key (observed g t).edges ≡ some st
      → st.over_ticks ≤ n
  unfolding observed observe
  observed-over g t key st n i h e = elim (Bool-cases (le t.dt_s (of_nat 0))) [
    | inl still ↦ h st (rw (still, if◌then◌else◌) at e)
    | inr passed ↦
        next_state-over g.cfg key _ t.dt_s (report t.sample_mult key t.deltas) (lookup key g.edges)
          st n (sym (lookup-observe f g t.deltas t.dt_s t.sample_mult key i passed) ∙ e) h
  ]

  observed-cfg : (g : WakeGraph F64) (t : Tick F64) → (observed g t).cfg ≡ g.cfg
  unfolding observed observe
  observed-cfg g t = elim (Bool-cases (le t.dt_s (of_nat 0))) [ inl e ↦ rw e | inr e ↦ rw e ]

  after-cfg : (cfg : WakeGraphCfg F64) (h : List (Tick F64)) → (after cfg h).cfg ≡ cfg
  unfolding after merges new
  after-cfg cfg [] = refl
  after-cfg cfg (t ∷ h) = observed-cfg (after cfg h) t ∙ after-cfg cfg h

  merge_edges-vacant :
      (cfg : WakeGraphCfg F64) (tgid_cohort sizes : Map ℕ ℕ) (edges : Map (ℕ × ℕ) (EdgeState F64))
      (merged : List ℕ) (key : ℕ × ℕ)
      → lookup key edges ≡ none
      → lookup key (merge_edges f cfg tgid_cohort sizes edges merged).0 ≡ none
  unfolding merge_edges lookup
  merge_edges-vacant cfg tgid_cohort sizes [] merged key e = refl
  merge_edges-vacant cfg tgid_cohort sizes ((k, s) ∷ edges) merged key e =
      elim (Bool-cases (key == k)) [
        | inl y ↦ absurd (ground arith)
        | inr other ↦
            rw other (
              merge_edges-vacant cfg tgid_cohort sizes edges _ key (rw (other, if◌then◌else◌) at e))
      ]

  pub merge_edges-IsMap :
      (cfg : WakeGraphCfg F64) (tgid_cohort sizes : Map ℕ ℕ) (edges : Map (ℕ × ℕ) (EdgeState F64))
      (merged : List ℕ)
      → IsMap edges
      → IsMap (merge_edges f cfg tgid_cohort sizes edges merged).0
  unfolding merge_edges
  merge_edges-IsMap cfg tgid_cohort sizes [] merged i = tt
  merge_edges-IsMap cfg tgid_cohort sizes ((k, s) ∷ edges) merged i = (
    merge_edges-vacant cfg tgid_cohort sizes edges _ k i.0,
    merge_edges-IsMap cfg tgid_cohort sizes edges _ i.1,
  )

  -- The edge map never holds a key twice.
  after-IsMap : (cfg : WakeGraphCfg F64) (h : List (Tick F64)) → IsMap (after cfg h).edges
  unfolding after merges new observed
  after-IsMap cfg [] = tt
  after-IsMap cfg (t ∷ h) =
      merge_edges-IsMap _ t.tgid_cohort t.sizes _ []
        (observe-IsMap f (after cfg h) t.deltas t.dt_s t.sample_mult (after-IsMap cfg h))

  over_ticks-hot_run :
      (cfg : WakeGraphCfg F64) (h : List (Tick F64)) (key : ℕ × ℕ) (st : EdgeState F64)
      → lookup key (after cfg h).edges ≡ some st
      → st.over_ticks ≤ hot_run cfg h key
  unfolding after merges hot_run new lookup
  over_ticks-hot_run cfg [] key st e = absurd (cc)
  over_ticks-hot_run cfg (t ∷ h) key st e =
      let g = observed (after cfg h) t in
      let (s, before, found, same) =
        merge_edges-lookup g.cfg t.tgid_cohort t.sizes g.edges [] key st e in
      let bound =
        observed-over (after cfg h) t key s (hot_run cfg h key) (after-IsMap cfg h)
          (over_ticks-hot_run cfg h key) found in
      let counted =
        merge_edge-count g.cfg t.tgid_cohort t.sizes before key s (hot_run cfg h key) bound in
      let c = observed-cfg (after cfg h) t ∙ after-cfg cfg h in
      rw (found, same)
        (subst
          (λ x.
            (merge_edge f g.cfg t.tgid_cohort t.sizes before key s).0.over_ticks
            ≤ count x (lookup key.0 t.tgid_cohort) (lookup key.1 t.tgid_cohort) s
                (hot_run cfg h key))
          c counted)

  -- A burst does not merge cohorts: whatever the history, a plan comes from an edge that is hot on
  -- this tick, between two cohorts, and was so on enough ticks in a row up to it, where ticks on
  -- which an end of the edge had no cohort are passed over.
  pub merges_confirmed :
      (cfg : WakeGraphCfg F64) (h : List (Tick F64)) (t : Tick F64) (p : MergePlan)
      → In p (merges f (observed (after cfg h) t) t.tgid_cohort t.sizes).1
      → (key : ℕ × ℕ) × (st : EdgeState F64) × (lookup key (observed (after cfg h) t).edges
          ≡ some st)
        × Causes f cfg t.tgid_cohort t.sizes key st p
        × (cfg.merge_confirm_ticks ≤ suc (hot_run cfg h key))
  unfolding observed
  merges_confirmed cfg h t p i =
      let g = observed (after cfg h) t in
      let (key, st, m, c') = (merges-Causes f g t.tgid_cohort t.sizes).0 p i in
      let known = observe-IsMap f (after cfg h) t.deltas t.dt_s t.sample_mult (after-IsMap cfg h) in
      let found = lookup-In key st g.edges known m in
      let same = observed-cfg (after cfg h) t ∙ after-cfg cfg h in
      let c = subst (λ x. Causes f x t.tgid_cohort t.sizes key st p) same c' in
      let bound =
        observed-over (after cfg h) t key st (hot_run cfg h key) (after-IsMap cfg h)
          (over_ticks-hot_run cfg h key) found in
      let ripe : cfg.merge_confirm_ticks ≤ add32 st.over_ticks 1 = c.ripe in
      (key, st, found, c, omega (arith, bound))
