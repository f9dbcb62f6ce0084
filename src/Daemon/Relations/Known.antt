-- ===== src/Daemon/Relations/Known.antt =====
-- scx_cohort/src/main.rs, `discover_relationships`: that it returns, and the processes that the map knows.
use scx_cohort.Base.Floats.{Floats}
use scx_cohort.Base.Map.Laws.{contains_key-insert}
use scx_cohort.Base.Map.{Map, lookup, insert, contains_key, retain}
use scx_cohort.Base.Words.{add64}
use scx_cohort.Base.{
  ℕ, ◌≡◌, refl, inl, inr, Bool, true, false, not, Option, none, some, List, [], ◌∷◌, arith, nat_beq,
  nat_beq_iff, nat_key, if◌then◌else◌, if_keeps, Bool-cases,
}
use scx_cohort.Common.{WakeEdgeKey}
use scx_cohort.Daemon.Kernel.Laws.{for_each-keeps}
use scx_cohort.Daemon.Kernel.{Outcome, update_present, update_absent}
use scx_cohort.Daemon.Merge.{
  Faults, MergeState, update_existing, move_member, move_members, merge_into, apply_merge,
}
use scx_cohort.Daemon.Relations.{
  RelationState, merge_part, with_merges, split_part, with_splits, apply_merges, apply_splits,
  cohort_sizes, count_by_tgid, group_tgids, split_all, after_merges, relate, discover_relationships,
}
use scx_cohort.Daemon.Snapshots.{snapshot_edges}
use scx_cohort.Daemon.Split.{
  SplitFaults, SplitState, move_off, move_all_off, finish_split, after_counters, after_policy,
  split_from, apply_split, new_id, same_home, default_counters,
}
use scx_cohort.Daemon.{CohortPolicy, CohortCounters, Value, sized, misfit}
use scx_cohort.Domain.{CohortSnapshot, TaskSnapshot}
use scx_cohort.WakeGraph.Splits.Outcomes.{split_cohorts-Run}
use scx_cohort.WakeGraph.Splits.{Component, splits}
use scx_cohort.WakeGraph.{WakeGraph, MergePlan, SplitPlan, observe, merges}

-- A map knows the processes that another one knows.
abbrev pub KnowsAs : Map ℕ ℕ → Map ℕ ℕ → Type 0
KnowsAs m n = (t : ℕ) → contains_key t n ≡ contains_key t m

insert-KnowsAs :
    (m n : Map ℕ ℕ) (k v : ℕ) → contains_key k n ≡ true → KnowsAs m n → KnowsAs m (insert k v n)
insert-KnowsAs m n k v there same t =
    ground (arith, contains_key-insert k t v n, same t, nat_beq_iff t k)

module _ (faults : Faults) (plan : MergePlan) (m : Map ℕ ℕ) where
  move_member-KnowsAs :
      (tgid cohort : ℕ) (n : Map ℕ ℕ)
      → KnowsAs m n
      → KnowsAs m (move_member faults plan tgid cohort n)
  unfolding move_member update_existing
  move_member-KnowsAs tgid cohort n same =
      if_keeps (KnowsAs m) (nat_beq cohort plan.from)
        (if_keeps (KnowsAs m) (faults.update_fails tgid) same
          (elim (Bool-cases (contains_key tgid n)) [
            | inl there ↦ rw (there, if◌then◌else◌) (insert-KnowsAs m n tgid plan.into there same)
            | inr gone ↦ rw (gone, if◌then◌else◌) same
          ]))
        same

  move_members-KnowsAs :
      (snapshot n : Map ℕ ℕ) → KnowsAs m n → KnowsAs m (move_members faults plan snapshot n)
  unfolding move_members
  move_members-KnowsAs [] n same = same
  move_members-KnowsAs ((tgid, cohort) ∷ snapshot) n same =
      move_members-KnowsAs snapshot (move_member faults plan tgid cohort n)
        (move_member-KnowsAs tgid cohort n same)

  apply_merge-KnowsAs :
      (s : MergeState) (snapshot : Map ℕ ℕ)
      → KnowsAs m s.tgid_cohort
      → KnowsAs m (apply_merge faults s plan snapshot).0.tgid_cohort
  unfolding apply_merge merge_into
  apply_merge-KnowsAs s snapshot same =
      let P = λ (r : Outcome MergeState). KnowsAs m r.0.tgid_cohort in
      if_keeps P (faults.lookup_fails plan.into) same (
        if_keeps P (not (contains_key plan.into s.cohort_counters)) same (
          if_keeps P (faults.lookup_fails plan.from) same (
            if_keeps P (not (contains_key plan.from s.cohort_counters)) same
              (move_members-KnowsAs snapshot s.tgid_cohort same))))

module _ (faults : SplitFaults) (id : ℕ) (m : Map ℕ ℕ) where
  move_off-KnowsAs :
      (tgid : ℕ) (n : Map ℕ ℕ) → KnowsAs m n → KnowsAs m (move_off faults id tgid n).0
  unfolding move_off update_present
  move_off-KnowsAs tgid n same =
      let P = λ (r : Outcome (Map ℕ ℕ)). KnowsAs m r.0 in
      if_keeps P (faults.lookup_fails tgid) same (elim (Bool-cases (contains_key tgid n)) [
        | inl there ↦ elim (Bool-cases (faults.update_fails tgid)) [
          | inl fails ↦ rw (there, fails, if◌then◌else◌) same
          | inr fine ↦ rw (there, fine, if◌then◌else◌) (insert-KnowsAs m n tgid id there same)
        ]
        | inr gone ↦ rw (gone, if◌then◌else◌) same
      ])

  finish_split-KnowsAs :
      (off_tgids : List ℕ) (s : SplitState)
      → KnowsAs m s.tgid_cohort
      → KnowsAs m (finish_split faults id off_tgids s).0.tgid_cohort
  unfolding finish_split move_all_off
  finish_split-KnowsAs off_tgids s same =
      let moved =
        for_each-keeps (KnowsAs m) (move_off faults id) move_off-KnowsAs off_tgids s.tgid_cohort
          same in
      if_keeps (λ (r : Outcome SplitState). KnowsAs m r.0.tgid_cohort)
        (move_all_off faults id off_tgids s.tgid_cohort).1 moved moved

  after_counters-KnowsAs :
      (off_tgids : List ℕ) (s : SplitState) (o : Option (Map ℕ (Value CohortCounters)))
      → KnowsAs m s.tgid_cohort
      → KnowsAs m (after_counters faults id off_tgids s o).0.tgid_cohort
  unfolding after_counters
  after_counters-KnowsAs off_tgids s none same = same
  after_counters-KnowsAs off_tgids s (some counters) same =
      finish_split-KnowsAs off_tgids (record s { cohort_counters = counters }) same

  after_policy-KnowsAs :
      (off_tgids : List ℕ) (s : SplitState) (o : Option (Map ℕ (Value CohortPolicy)))
      → KnowsAs m s.tgid_cohort
      → KnowsAs m (after_policy faults id off_tgids s o).0.tgid_cohort
  unfolding after_policy
  after_policy-KnowsAs off_tgids s none same = same
  after_policy-KnowsAs off_tgids s (some policies) same =
      after_counters-KnowsAs off_tgids (record s { cohort_policy = policies })
        (update_absent faults.counters_update_fails id (sized default_counters) s.cohort_counters)
        same

split_from-KnowsAs :
    (faults : SplitFaults) (m : Map ℕ ℕ) (off_tgids : List ℕ) (o : Option (Value CohortPolicy))
    (s : SplitState)
    → KnowsAs m s.tgid_cohort
    → KnowsAs m (split_from faults off_tgids o s).0.tgid_cohort
unfolding split_from
split_from-KnowsAs faults m off_tgids none s same = same
split_from-KnowsAs faults m off_tgids (some misfit) s same = same
split_from-KnowsAs faults m off_tgids (some (sized old)) s same =
    after_policy-KnowsAs faults (new_id s.daemon_seq) m off_tgids
      (record s { daemon_seq = add64 s.daemon_seq 1 })
      (update_absent faults.policy_update_fails (new_id s.daemon_seq) (sized (same_home old))
        s.cohort_policy)
      same

apply_split-KnowsAs :
    (faults : SplitFaults) (m : Map ℕ ℕ) (plan : SplitPlan) (s : SplitState)
    → KnowsAs m s.tgid_cohort
    → KnowsAs m (apply_split faults plan s).0.tgid_cohort
unfolding apply_split
apply_split-KnowsAs faults m plan s same =
    if_keeps (λ (r : Outcome SplitState). KnowsAs m r.0.tgid_cohort) faults.policy_lookup_fails same
      (split_from-KnowsAs faults m plan.off_tgids (lookup plan.cohort s.cohort_policy) s same)

module _ (f : Floats) (order : ℕ → List Component → List Component) where
  -- `splits` returns.
  splits_total :
      (g : WakeGraph f.F64) (cohort_tgids : Map ℕ (List (ℕ × ℕ)))
      → (g' : WakeGraph f.F64) × (plans : List SplitPlan) × (splits f order g cohort_tgids
          ≡ some (g', plans))
  unfolding splits
  splits_total g cohort_tgids =
      let streaks = retain (λ cohort _. contains_key cohort cohort_tgids) g.split_streak in
      let (kept, plans, run, _) = split_cohorts-Run f g.cfg g.edges order cohort_tgids streaks in
      (record g { split_streak = kept }, plans, rw run refl)

  -- What `discover_relationships` comes to.
  abbrev pub Returns : Map ℕ ℕ → Option (Outcome (RelationState f.F64)) → Type 0
  Returns m o =
      (s : RelationState f.F64) × (fine : Bool) × (o ≡ some (s, fine)) × KnowsAs m s.tgid_cohort

  split_all-Returns :
      (faults : SplitPlan → SplitFaults) (m : Map ℕ ℕ) (s : RelationState f.F64)
      (g : WakeGraph f.F64) (plans : List SplitPlan)
      → KnowsAs m s.tgid_cohort
      → Returns m (split_all f order faults s (some (g, plans)))
  unfolding split_all apply_splits
  split_all-Returns faults m s g plans same =
      let done = apply_splits faults plans (split_part s) in
      (
        with_splits (record s { wake_graph = g }) done.0,
        done.1,
        refl,
        for_each-keeps (λ r. KnowsAs m r.tgid_cohort) (λ plan s. apply_split (faults plan) plan s)
            (λ plan s. apply_split-KnowsAs (faults plan) m plan s) plans (split_part s) same,
      )

  after_merges-Returns :
      (faults : SplitPlan → SplitFaults) (m : Map ℕ ℕ) (cohort_tgids : Map ℕ (List (ℕ × ℕ)))
      (s : RelationState f.F64) (fine : Bool)
      → KnowsAs m s.tgid_cohort
      → Returns m (after_merges f order faults cohort_tgids s fine)
  unfolding after_merges
  after_merges-Returns faults m cohort_tgids s false same = (s, false, refl, same)
  after_merges-Returns faults m cohort_tgids s true same =
      let (g, plans, run) = splits_total s.wake_graph cohort_tgids in
      rw run (split_all-Returns faults m s g plans same)

  relate-Returns :
      (merge_faults : MergePlan → Faults) (split_faults : SplitPlan → SplitFaults) (dt_s : f.F64)
      (sample_mult : ℕ) (cohorts : List CohortSnapshot) (tasks : List TaskSnapshot)
      (tgid_cohort : Map ℕ ℕ) (s : RelationState f.F64) (o : Option (List (ℕ × ℕ × ℕ)))
      → Returns s.tgid_cohort
          (relate f order merge_faults split_faults dt_s sample_mult cohorts tasks tgid_cohort s o)
  unfolding relate apply_merges
  relate-Returns merge_faults split_faults dt_s sample_mult cohorts tasks tgid_cohort s none =
      (s, false, refl, λ t. refl)
  relate-Returns merge_faults split_faults dt_s sample_mult cohorts tasks tgid_cohort s
        (some deltas) =
      let sizes = cohort_sizes cohorts in
      let planned = merges f (observe f s.wake_graph deltas dt_s sample_mult) tgid_cohort sizes in
      let merged = apply_merges merge_faults tgid_cohort planned.1 (merge_part s) in
      after_merges-Returns split_faults s.tgid_cohort
        (group_tgids sizes (count_by_tgid tasks []) tgid_cohort [])
        (with_merges (record s { wake_graph = planned.0 }) merged.0) merged.1
        (for_each-keeps (λ r. KnowsAs s.tgid_cohort r.tgid_cohort)
          (λ plan s. apply_merge (merge_faults plan) s plan tgid_cohort)
          (λ plan r. apply_merge-KnowsAs (merge_faults plan) plan s.tgid_cohort r tgid_cohort)
          planned.1 (merge_part s) (λ t. refl))

-- Whatever is drained and whichever calls fail, `discover_relationships` returns, and the map of
-- processes then knows those that it knew before and no others.
pub discover_relationships-Returns :
    (f : Floats) (order : ℕ → List Component → List Component) (merge_faults : MergePlan → Faults)
    (split_faults : SplitPlan → SplitFaults) (drained : Option (List (Value WakeEdgeKey × Value ℕ)))
    (dt_s : f.F64) (sample_mult : ℕ) (cohorts : List CohortSnapshot) (tasks : List TaskSnapshot)
    (tgid_cohort : Map ℕ ℕ) (s : RelationState f.F64)
    → Returns f order s.tgid_cohort (
        discover_relationships f order merge_faults split_faults drained dt_s sample_mult cohorts
          tasks tgid_cohort s)
unfolding discover_relationships
discover_relationships-Returns f order merge_faults split_faults drained dt_s sample_mult cohorts
      tasks tgid_cohort s =
    relate-Returns f order merge_faults split_faults dt_s sample_mult cohorts tasks tgid_cohort s
      (snapshot_edges drained)
