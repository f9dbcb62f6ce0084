-- ===== src/Daemon/Split/Ids.antt =====
-- scx_cohort/src/main.rs, `apply_split`: the ids that it makes.
use scx_cohort.Base.Map.Laws.{contains_key-insert}
use scx_cohort.Base.Map.{Map, lookup, contains_key}
use scx_cohort.Base.{
  ℕ, ◌+◌, ◌^◌, ◌≤◌, ◌<◌, ◌≡◌, refl, Bool, true, false, Option, none, some, List, arith, nat_key,
  if_keeps,
}
use scx_cohort.Base.Words.{add64}
use scx_cohort.Daemon.Kernel.{Outcome, update_absent}
use scx_cohort.Daemon.Split.{
  SplitFaults, SplitState, daemon_cohort_base, new_id, default_counters, move_all_off, finish_split,
  after_counters, after_policy, same_home, split_from, apply_split,
}
use scx_cohort.Daemon.{CohortPolicy, CohortCounters, Value, sized, misfit}
use scx_cohort.WakeGraph.{SplitPlan}

-- No id from `first` on is a key.
abbrev pub IsFreshFrom : {V : Type 0} → ℕ → Map ℕ V → Type 0
IsFreshFrom first m = (k : ℕ) → first ≤ k → contains_key k m ≡ false

-- No id that a coming split makes is a cohort's already.
pub record HasFreshIds (s : SplitState) : Type 0 where
  pub policies : IsFreshFrom (daemon_cohort_base + s.daemon_seq) s.cohort_policy
  pub counters : IsFreshFrom (daemon_cohort_base + s.daemon_seq) s.cohort_counters

later-IsFreshFrom : {V : Type 0} (n p : ℕ) (m : Map ℕ V) → n ≤ p → IsFreshFrom n m → IsFreshFrom p m
later-IsFreshFrom n p m h fresh k at = fresh k (omega arith)

update_absent-IsFreshFrom :
    {V : Type 0} (fails : Bool) (id next : ℕ) (v : V) (m m' : Map ℕ V)
    → id < next
    → IsFreshFrom id m
    → update_absent fails id v m ≡ some m'
    → IsFreshFrom next m'
unfolding update_absent
update_absent-IsFreshFrom true id next v m m' h fresh e k at = absurd (cc)
update_absent-IsFreshFrom false id next v m m' h fresh e k at =
    ground (arith, fresh id, fresh k, contains_key-insert id k v m)

finish_split-HasFreshIds :
    (faults : SplitFaults) (id : ℕ) (off_tgids : List ℕ) (s : SplitState)
    → HasFreshIds s
    → HasFreshIds (finish_split faults id off_tgids s).0
unfolding finish_split
finish_split-HasFreshIds faults id off_tgids s h =
    if_keeps (λ (r : Outcome SplitState). HasFreshIds r.0)
      (move_all_off faults id off_tgids s.tgid_cohort).1
      (record { policies = h.policies; counters = h.counters })
      (record { policies = h.policies; counters = h.counters })

module _ (faults : SplitFaults) (id : ℕ) (off_tgids : List ℕ) where
  after_counters-HasFreshIds :
      (s : SplitState) (o : Option (Map ℕ (Value CohortCounters)))
      → IsFreshFrom (daemon_cohort_base + s.daemon_seq) s.cohort_policy
      → IsFreshFrom (daemon_cohort_base + s.daemon_seq) s.cohort_counters
      → ((m : Map ℕ (Value CohortCounters))
          → o ≡ some m
          → IsFreshFrom (daemon_cohort_base + s.daemon_seq) m)
      → HasFreshIds (after_counters faults id off_tgids s o).0
  unfolding after_counters
  after_counters-HasFreshIds s none policies counters entered = record {
    policies = policies;
    counters = counters;
  }
  after_counters-HasFreshIds s (some m) policies counters entered =
      finish_split-HasFreshIds faults id off_tgids (record s { cohort_counters = m })
        (record { policies = policies; counters = entered m refl })

  after_policy-HasFreshIds :
      (s : SplitState) (o : Option (Map ℕ (Value CohortPolicy)))
      → id < daemon_cohort_base + s.daemon_seq
      → IsFreshFrom id s.cohort_policy
      → IsFreshFrom id s.cohort_counters
      → ((m : Map ℕ (Value CohortPolicy))
          → o ≡ some m
          → IsFreshFrom (daemon_cohort_base + s.daemon_seq) m)
      → HasFreshIds (after_policy faults id off_tgids s o).0
  unfolding after_policy
  after_policy-HasFreshIds s none behind policies counters entered =
      let next = daemon_cohort_base + s.daemon_seq in
      record {
        policies = later-IsFreshFrom id next s.cohort_policy (omega arith) policies;
        counters = later-IsFreshFrom id next s.cohort_counters (omega arith) counters;
      }
  after_policy-HasFreshIds s (some m) behind policies counters entered =
      let next = daemon_cohort_base + s.daemon_seq in
      after_counters-HasFreshIds (record s { cohort_policy = m })
        (update_absent faults.counters_update_fails id (sized default_counters) s.cohort_counters)
        (entered m refl) (later-IsFreshFrom id next s.cohort_counters (omega arith) counters)
        (λ m' e.
          update_absent-IsFreshFrom faults.counters_update_fails id next (sized default_counters)
            s.cohort_counters m' behind counters e)

-- The id of the next split, while the sum does not wrap.
pub new_id_lem :
    (seq : ℕ) → daemon_cohort_base + seq < 2 ^ 64 → new_id seq ≡ daemon_cohort_base + seq
new_id_lem seq h = omega arith

split_from-HasFreshIds :
    (faults : SplitFaults) (off_tgids : List ℕ) (old : Option (Value CohortPolicy)) (s : SplitState)
    → daemon_cohort_base + s.daemon_seq + 1 < 2 ^ 64
    → HasFreshIds s
    → HasFreshIds (split_from faults off_tgids old s).0
unfolding split_from
split_from-HasFreshIds faults off_tgids none s h fresh = fresh
split_from-HasFreshIds faults off_tgids (some misfit) s h fresh = fresh
split_from-HasFreshIds faults off_tgids (some (sized old)) s h fresh =
    let id = daemon_cohort_base + s.daemon_seq in
    let s' = record s { daemon_seq = add64 s.daemon_seq 1 } in
    let behind : id < daemon_cohort_base + s'.daemon_seq = omega arith in
    rw (new_id_lem s.daemon_seq (omega arith)) (
      after_policy-HasFreshIds faults id off_tgids s'
        (update_absent faults.policy_update_fails id (sized (same_home old)) s.cohort_policy) behind
        fresh.policies fresh.counters
        (λ m e.
          update_absent-IsFreshFrom faults.policy_update_fails id
            (daemon_cohort_base + s'.daemon_seq) (sized (same_home old)) s.cohort_policy m behind
            fresh.policies e))

-- As long as the sequence of ids has not come to the end of its 64 bits, a split that starts with no
-- cohort under an id that the daemon has still to make ends so, whichever calls fail on the way.
pub apply_split-HasFreshIds :
    (faults : SplitFaults) (plan : SplitPlan) (s : SplitState)
    → daemon_cohort_base + s.daemon_seq + 1 < 2 ^ 64
    → HasFreshIds s
    → HasFreshIds (apply_split faults plan s).0
unfolding apply_split
apply_split-HasFreshIds faults plan s h fresh =
    if_keeps (λ (r : Outcome SplitState). HasFreshIds r.0) faults.policy_lookup_fails fresh
      (split_from-HasFreshIds faults plan.off_tgids (lookup plan.cohort s.cohort_policy) s h fresh)
