-- ===== src/Daemon/Tick/Total.antt =====
-- scx_cohort/src/main.rs, `tick`: that it returns.
use Prim.Native.String.{String}
use scx_cohort.Base.Floats.{Floats}
use scx_cohort.Base.Map.{Map, lookup, insert, IsMap}
use scx_cohort.Base.{
  ℕ, ◌≡◌, refl, ◌∙◌, sym, ap, inl, inr, Option, none, some, List, [], ◌∷◌, arith, nat_key,
  Option-cases, >>=-eq-some, subst, ◌>>=◌ as option_bind,
}
use scx_cohort.Config.{Globs}
use scx_cohort.Daemon.Relations.Known.{discover_relationships-Returns}
use scx_cohort.Daemon.Tick.{
  tasks_part, tgids_part, rules_part, cohorts_part, gc_part, llcs_part, plan_part, moves_part,
  with_spills, spills_part, with_relations, relations_part, keep_tasks, tick, from_spills,
  from_plan, from_cohorts, from_tgids, put_spills, put_relations, relation_part,
}
use scx_cohort.Daemon.World.{Setup, Scheduler, World, Part, ◌>>=◌, ◌>>◌, give}
use scx_cohort.Daemon.Upkeep.{counter_of, load_of, llc_loads}
use scx_cohort.Daemon.{Value, apply_spills}
use scx_cohort.Domain.{LlcLoad, CohortSnapshot, TaskSnapshot}
use scx_cohort.Spill.Totality.{plan_spills_total}
use scx_cohort.Spill.{SpillCfg, plan_spills}

-- A part does not panic.
abbrev pub Returns : {S A : Type 0} → Option (S × Option A) → Type 0
Returns {S} {A} r = (s : S) × (o : Option A) × (r ≡ some (s, o))

-- Nor does one part after another, where what the first gives is as the second needs it.
Returns-bind :
    {S A B : Type 0} (Q : A → Type 0) (part : Part S A) (next : A → Part S B) (s : S)
    → (s' : S) (o : Option A) → part s ≡ some (s', o)
    → ((a : A) → o ≡ some a → Q a)
    → ((a : A) (t : S) → Q a → Returns (next a t))
    → Returns ((part >>= next) s)
Returns-bind Q part next s s' none run known rest = (s', none, rw (run, ◌>>=◌) refl)
Returns-bind Q part next s s' (some a) run known rest =
    let (t, o, after) = rest a s' (known a refl) in (t, o, rw (run, ◌>>=◌) after)

-- The loads are those of the machine's LLCs, in order.
abbrev AreOf : Map ℕ ℕ → List LlcLoad → Type 0
AreOf [] [] = Unit {0}
AreOf [] (l ∷ ls) = ⊥
AreOf ((k, cpus) ∷ m) [] = ⊥
AreOf ((k, cpus) ∷ m) (l ∷ ls) = (l.llc ≡ k) × AreOf m ls

AreOf-step :
    (llc cpus : ℕ) (llc_cpus : Map ℕ ℕ) (l : LlcLoad) (ls loads : List LlcLoad)
    → l.llc ≡ llc
    → AreOf llc_cpus ls
    → some (l ∷ ls) ≡ some loads
    → AreOf ((llc, cpus) ∷ llc_cpus) loads
AreOf-step llc cpus llc_cpus l ls [] e rest all = absurd (cc all)
AreOf-step llc cpus llc_cpus l ls (m ∷ ms) e rest all =
    (cc all, subst (AreOf llc_cpus) (cc all) rest)

llc_loads-AreOf :
    (tick_ns : ℕ) (lookups : ℕ → Option (Option (Value ℕ))) (llc_cpus prev : Map ℕ ℕ)
    (loads : List LlcLoad)
    → (llc_loads tick_ns lookups llc_cpus prev).1 ≡ some loads
    → AreOf llc_cpus loads
unfolding llc_loads load_of
llc_loads-AreOf tick_ns lookups [] prev [] h = tt
llc_loads-AreOf tick_ns lookups [] prev (l ∷ ls) h = absurd (cc h)
llc_loads-AreOf tick_ns lookups ((llc, cpus) ∷ llc_cpus) prev loads h =
    elim (Option-cases (lookups llc)) [
      | inl fails ↦ absurd (cc (rw (fails, llc_loads) at h))
      | inr (found, e) ↦
          let cur = counter_of found in
          let rest = llc_loads tick_ns lookups llc_cpus (insert llc cur prev) in
          let h' : llc_loads tick_ns lookups ((llc, cpus) ∷ llc_cpus) prev
              ≡ (rest.0, option_bind rest.1 (λ ls. some (load_of tick_ns prev llc cpus cur ∷ ls))) =
            rw (e, llc_loads) refl in
          let (ls, run, all) =
            >>=-eq-some rest.1 (λ ls. some (load_of tick_ns prev llc cpus cur ∷ ls))
              (sym (ap (λ r. r.1) h') ∙ h) in
          AreOf-step llc cpus llc_cpus (load_of tick_ns prev llc cpus cur) ls loads refl
            (llc_loads-AreOf tick_ns lookups llc_cpus (insert llc cur prev) ls run) all
    ]

plan_spills_returns :
    (cfg : SpillCfg) (llc_cpus : Map ℕ ℕ) (llcs : List LlcLoad) (cohorts : List CohortSnapshot)
    (tasks : List TaskSnapshot) (current : Map ℕ ℕ)
    → IsMap llc_cpus
    → AreOf llc_cpus llcs
    → (m : Map ℕ ℕ) × (plan_spills cfg llcs cohorts tasks current ≡ some m)
unfolding plan_spills lookup
plan_spills_returns cfg llc_cpus [] cohorts tasks current k of = ([], refl)
plan_spills_returns cfg llc_cpus (l ∷ []) cohorts tasks current k of = ([], refl)
plan_spills_returns cfg ((i, c) ∷ (j, d) ∷ llc_cpus) (l ∷ m ∷ ls) cohorts tasks current k of =
    plan_spills_total cfg (l ∷ m ∷ ls) cohorts tasks current l m (inl refl) (inr (inl refl))
      (ground (arith, k.0, of.0, of.1.0))
plan_spills_returns cfg [] (l ∷ m ∷ ls) cohorts tasks current k of = absurd of
plan_spills_returns cfg ((i, c) ∷ []) (l ∷ m ∷ ls) cohorts tasks current k of = absurd of.1

Returns-then :
    {S A B : Type 0} (part : Part S A) (next : A → Part S B) (s : S)
    → Returns (part s)
    → ((a : A) (t : S) → Returns (next a t))
    → Returns ((part >>= next) s)
Returns-then part next s (s', o, run) rest =
    Returns-bind (λ a. Unit {0}) part next s s' o run (λ a e. tt) (λ a t q. rest a t)

module _ (f : Floats) (globs : Globs) (from_utf8_lossy : List ℕ → String)
    (order : ℕ → List (List (ℕ × ℕ)) → List (List (ℕ × ℕ))) (c : Setup f.F64 globs.Glob)
    (w : World) where
  spills_part-Returns :
      (llcs : List LlcLoad) (cohorts : List CohortSnapshot) (tasks : List TaskSnapshot)
      (s : Scheduler f.F64)
      → IsMap c.llc_cpus
      → AreOf c.llc_cpus llcs
      → Returns (spills_part f globs from_utf8_lossy order c w llcs cohorts tasks s)
  unfolding spills_part with_spills
  spills_part-Returns llcs cohorts tasks s k of =
      let (m, run) =
        plan_spills_returns c.spill_cfg c.llc_cpus llcs cohorts tasks s.current_spills k of in
      let (s', o) = put_spills f globs from_utf8_lossy order c w s (
        apply_spills w.spill_update_fails w.spill_delete_fails
          (record { current_spills = s.current_spills; spill_tasks = s.spill_tasks }) m) in
      (s', o, rw run refl)

  relations_part-Returns :
      (cohorts : List CohortSnapshot) (tasks : List TaskSnapshot) (tgid_cohort : Map ℕ ℕ)
      (s : Scheduler f.F64)
      → Returns (relations_part f globs from_utf8_lossy order c w cohorts tasks tgid_cohort s)
  unfolding relations_part with_relations
  relations_part-Returns cohorts tasks tgid_cohort s =
      let (r, fine, run, _) =
        discover_relationships-Returns f order w.merge_faults w.split_faults w.drained c.dt_s
          c.sample_mult cohorts tasks tgid_cohort
          (relation_part f globs from_utf8_lossy order c w s) in
      let (s', o) = put_relations f globs from_utf8_lossy order c w s (r, fine) in
      (s', o, rw run refl)

  abbrev View : Type 0
  View = List CohortSnapshot × List LlcLoad

  from_spills-Returns :
      (tasks : List TaskSnapshot) (tgid_cohort : Map ℕ ℕ) (cohorts : List CohortSnapshot)
      (llcs : List LlcLoad) (s : Scheduler f.F64)
      → IsMap c.llc_cpus
      → AreOf c.llc_cpus llcs
      → Returns (from_spills f globs from_utf8_lossy order c w tasks tgid_cohort cohorts llcs s)
  unfolding from_spills keep_tasks
  from_spills-Returns tasks tgid_cohort cohorts llcs s k of =
      let spills = spills_part f globs from_utf8_lossy order c w llcs cohorts tasks in
      let relations = relations_part f globs from_utf8_lossy order c w cohorts tasks tgid_cohort in
      let kept = keep_tasks f globs from_utf8_lossy order c w tasks in
      let rest : Part (Scheduler f.F64) View = relations >> (kept >> give (cohorts, llcs)) in
      Returns-then spills (λ done. rest) s (spills_part-Returns llcs cohorts tasks s k of)
        (λ done t.
          Returns-then relations (λ done. kept >> give (cohorts, llcs)) t
            (relations_part-Returns cohorts tasks tgid_cohort t)
            (λ done u. (record u { last_tasks = tasks }, some (cohorts, llcs), refl)))

  from_plan-Returns :
      (tasks : List TaskSnapshot) (tgid_cohort : Map ℕ ℕ) (cohorts : List CohortSnapshot)
      (llcs : List LlcLoad) (s : Scheduler f.F64)
      → IsMap c.llc_cpus
      → AreOf c.llc_cpus llcs
      → Returns (from_plan f globs from_utf8_lossy order c w tasks tgid_cohort cohorts llcs s)
  unfolding from_plan plan_part moves_part
  from_plan-Returns tasks tgid_cohort cohorts llcs s k of =
      let moves = moves_part f globs from_utf8_lossy order c w in
      let rest = from_spills f globs from_utf8_lossy order c w tasks tgid_cohort cohorts llcs in
      Returns-then (plan_part f globs from_utf8_lossy order c w llcs cohorts)
        (λ decisions. moves decisions >> rest) s (_, _, refl)
        (λ decisions t.
          Returns-then (moves decisions) (λ done. rest) t (_, _, refl)
            (λ done u. from_spills-Returns tasks tgid_cohort cohorts llcs u k of))

  from_cohorts-Returns :
      (tasks : List TaskSnapshot) (tgid_cohort : Map ℕ ℕ) (cohorts : List CohortSnapshot)
      (s : Scheduler f.F64)
      → IsMap c.llc_cpus
      → Returns (from_cohorts f globs from_utf8_lossy order c w tasks tgid_cohort cohorts s)
  unfolding from_cohorts gc_part llcs_part
  from_cohorts-Returns tasks tgid_cohort cohorts s k =
      let rest = from_plan f globs from_utf8_lossy order c w tasks tgid_cohort cohorts in
      let loads = llcs_part f globs from_utf8_lossy order c w in
      Returns-then (gc_part f globs from_utf8_lossy order c w tasks tgid_cohort)
        (λ done. loads >>= rest) s (_, _, refl)
        (λ done t.
          Returns-bind (AreOf c.llc_cpus) loads rest t _ _ refl
            (llc_loads-AreOf c.tick_ns w.llc_lookups c.llc_cpus t.prev_llc_load)
            (λ llcs u of. from_plan-Returns tasks tgid_cohort cohorts llcs u k of))

  from_tgids-Returns :
      (tasks : List TaskSnapshot) (tgid_cohort : Map ℕ ℕ) (s : Scheduler f.F64)
      → IsMap c.llc_cpus
      → Returns (from_tgids f globs from_utf8_lossy order c w tasks tgid_cohort s)
  unfolding from_tgids rules_part cohorts_part
  from_tgids-Returns tasks tgid_cohort s k =
      let rest = from_cohorts f globs from_utf8_lossy order c w tasks tgid_cohort in
      let snapshot = cohorts_part f globs from_utf8_lossy order c w tasks tgid_cohort in
      Returns-then (rules_part f globs from_utf8_lossy order c w tasks) (λ done. snapshot >>= rest)
        s (_, _, refl)
        (λ done t.
          Returns-then snapshot rest t (_, _, refl)
            (λ cohorts u. from_cohorts-Returns tasks tgid_cohort cohorts u k))

-- On a machine whose LLCs have different ids, `tick` returns, with an outcome or an error, whatever the
-- state, the kernel's answers and the calls that fail: neither the spill planner nor the union-find of
-- the splits panics.
pub tick_total :
    (f : Floats) (globs : Globs) (from_utf8_lossy : List ℕ → String)
    (order : ℕ → List (List (ℕ × ℕ)) → List (List (ℕ × ℕ))) (c : Setup f.F64 globs.Glob) (w : World)
    (s : Scheduler f.F64)
    → IsMap c.llc_cpus
    → Returns (tick f globs from_utf8_lossy order c w s)
unfolding tick tasks_part tgids_part
tick_total f globs from_utf8_lossy order c w s k =
    let rest = from_tgids f globs from_utf8_lossy order c w in
    let tgids = tgids_part f globs from_utf8_lossy order c w in
    Returns-then (tasks_part f globs from_utf8_lossy order c w) (λ tasks. tgids >>= rest tasks) s
      (_, _, refl)
      (λ tasks t.
        Returns-then tgids (rest tasks) t (_, _, refl)
          (λ tgid_cohort u.
            from_tgids-Returns f globs from_utf8_lossy order c w tasks tgid_cohort u k))
