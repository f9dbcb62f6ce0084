-- ===== src/Daemon/Rules/Pass.antt =====
-- scx_cohort/src/main.rs, `apply_rules`: the loop over the tasks, and the whole call.
use Prim.Native.String.{String}
use scx_cohort.Base.Map.{lookup, IsMap}
use scx_cohort.Base.{
  ℕ, ◌≡◌, ◌≢◌, refl, ◌∙◌, sym, ap, Bool, true, false, Option, none, some, List, [], ◌∷◌, nat_beq,
  nat_key, if◌then◌else◌,
}
use scx_cohort.Config.{Globs, Config}
use scx_cohort.Daemon.Cgroup.{cgroup_of}
use scx_cohort.Daemon.Kernel.{Outcome}
use scx_cohort.Daemon.Policies.Laws.{IsSound, pinned_to, apply_pins_pins}
use scx_cohort.Daemon.Policies.{PolicyFaults}
use scx_cohort.Daemon.Rules.Wants.{
  path_of, at_least, last_of, cached_or_read_path, path_of-cached_or_read, at_least_assoc,
  last_of_assoc, at_least-none, last_of-none, field_of, rule_of, longest_residency, last_pin,
  add_rule_cache, add_rule_overrides, add_rule_pins, add_rule-IsMap,
}
use scx_cohort.Daemon.Rules.{
  RuleState, Effects, live_cache, add_rule, add_task, add_tasks, carry_out_rules, apply_rules,
  unless_empty,
}
use scx_cohort.Domain.{TaskSnapshot}

-- One step of a fold over the tasks, from the left, against the recursion from the right.
fold_step :
    (op : Option ℕ → Option ℕ → Option ℕ)
    → ((o p q : Option ℕ) → op (op o p) q ≡ op o (op p q))
    → (b : Bool) (was want later : Option ℕ) {now after : Option ℕ}
    → now ≡ (if b then op was want else was)
    → after ≡ op now later
    → after ≡ op was (if b then op want later else later)
fold_step op assoc true was want later now after =
    after ∙ ap (λ z. op z later) now ∙ assoc was want later
fold_step op assoc false was want later now after = after ∙ ap (λ z. op z later) now

module _ (globs : Globs) {F64 : Type 0} (config : Config F64 globs.Glob)
    (procfs : ℕ → Option String) (path : ℕ → String) where
  -- What is known of the effects so far.
  record Follows (fx : Effects) : Type 0 where
    paths : (tgid : ℕ) → path_of procfs fx.cache tgid ≡ path tgid
    pins_IsMap : IsMap fx.pins

  -- The effects of a task, by the rule that it matches.
  task_lem :
      (t : TaskSnapshot) (fx : Effects)
      → Follows fx
      → add_task globs config procfs t fx
        ≡ add_rule globs t.cohort_id
            (rule_of globs config path t)
            (record fx { cache = (cgroup_of procfs t.tgid fx.cache).0 })
  unfolding add_task cgroup_of
  task_lem t fx f =
      rw (cached_or_read_path procfs t.tgid fx.cache (lookup t.tgid fx.cache), f.paths t.tgid) refl

  task-Follows :
      (t : TaskSnapshot) (fx : Effects) → Follows fx → Follows (add_task globs config procfs t fx)
  unfolding cgroup_of
  task-Follows t fx f =
      let r = rule_of globs config path t in
      let fx' = record fx { cache = (cgroup_of procfs t.tgid fx.cache).0 } in
      rw (task_lem t fx f) (record {
        paths = λ tgid.
            ap (λ c. path_of procfs c tgid) (add_rule_cache globs t.cohort_id r fx')
            ∙ path_of-cached_or_read procfs t.tgid tgid fx.cache (lookup t.tgid fx.cache) refl
            ∙ f.paths tgid;
        pins_IsMap = add_rule-IsMap globs t.cohort_id r fx' f.pins_IsMap;
      })

  abbrev residency_want : TaskSnapshot → Option ℕ
  residency_want t = field_of (λ r. r.min_ccd_residency_ms) (rule_of globs config path t)

  abbrev pin_want : TaskSnapshot → Option ℕ
  pin_want t = field_of (λ r. r.pin_ccd) (rule_of globs config path t)

  task_overrides :
      (t : TaskSnapshot) (c : ℕ) (fx : Effects)
      → Follows fx
      → lookup c (add_task globs config procfs t fx).overrides ≡ (
          if nat_beq c t.cohort_id
          then at_least (lookup c fx.overrides) (residency_want t)
          else lookup c fx.overrides)
  task_overrides t c fx f = rw (task_lem t fx f) (
      add_rule_overrides globs t.cohort_id c (rule_of globs config path t)
        (record fx { cache = (cgroup_of procfs t.tgid fx.cache).0 }))

  task_pins :
      (t : TaskSnapshot) (c : ℕ) (fx : Effects)
      → Follows fx
      → lookup c (add_task globs config procfs t fx).pins ≡ (
          if nat_beq c t.cohort_id
          then last_of (lookup c fx.pins) (pin_want t)
          else lookup c fx.pins)
  task_pins t c fx f = rw (task_lem t fx f) (
      add_rule_pins globs t.cohort_id c (rule_of globs config path t)
        (record fx { cache = (cgroup_of procfs t.tgid fx.cache).0 }))

  -- The effects of a list of tasks on what is known for a cohort.
  record Wanted (tasks : List TaskSnapshot) (fx fx' : Effects) : Type 0 where
    overrides :
        (c : ℕ)
        → lookup c fx'.overrides
          ≡ at_least (lookup c fx.overrides) (longest_residency globs config path c tasks)
    pins :
        (c : ℕ)
        → lookup c fx'.pins ≡ last_of (lookup c fx.pins) (last_pin globs config path c tasks)
    pins_IsMap : IsMap fx'.pins

  tasks-Wanted :
      (tasks : List TaskSnapshot) (fx : Effects)
      → Follows fx
      → Wanted tasks fx (add_tasks globs config procfs tasks fx)
  unfolding add_tasks longest_residency last_pin
  tasks-Wanted [] fx f = record {
    overrides = λ c. sym (at_least-none (lookup c fx.overrides));
    pins = λ c. sym (last_of-none (lookup c fx.pins));
    pins_IsMap = f.pins_IsMap;
  }
  tasks-Wanted (t ∷ tasks) fx f =
      let rest = tasks-Wanted tasks (add_task globs config procfs t fx) (task-Follows t fx f) in
      record {
        overrides = λ c.
            fold_step at_least at_least_assoc (nat_beq c t.cohort_id) (lookup c fx.overrides)
              (residency_want t) (longest_residency globs config path c tasks)
              (task_overrides t c fx f) (rest.overrides c);
        pins = λ c.
            fold_step last_of last_of_assoc (nat_beq c t.cohort_id) (lookup c fx.pins) (pin_want t)
              (last_pin globs config path c tasks) (task_pins t c fx f) (rest.pins c);
        pins_IsMap = rest.pins_IsMap;
      }

unless_empty_lem :
    {R : Type 0} (rules : List R) (s : RuleState) (done : Outcome RuleState)
    → rules ≢ []
    → unless_empty rules s done ≡ done
unfolding unless_empty
unless_empty_lem [] s done h = absurd (h refl)
unless_empty_lem (r ∷ rules) s done h = refl

last_of_first : (o : Option ℕ) → last_of none o ≡ o
unfolding last_of
last_of_first none = refl
last_of_first (some a) = refl

-- When there are rules and no call into the kernel fails of itself, `apply_rules` is `Ok`. A task counts
-- with the first rule that fits its name and its cgroup's path, which is the cached one where its process
-- has one and is read otherwise. A cohort's residency is then the longest that the rules of its tasks
-- name, if one does; and a cohort with a policy of the right size and a task whose rule has a pin is
-- pinned, by the last such task, while all other policies stay.
pub apply_rules_wants :
    (globs : Globs) {F64 : Type 0} (config : Config F64 globs.Glob) (procfs : ℕ → Option String)
    (faults : PolicyFaults) (nr_llcs : ℕ) (tasks : List TaskSnapshot) (s : RuleState)
    → config.rules ≢ []
    → IsSound faults
    → let path = path_of procfs (live_cache tasks s.cgroup_cache) in
      ((apply_rules globs config procfs faults nr_llcs tasks s).1 ≡ true)
      × ((c : ℕ)
          → lookup c (apply_rules globs config procfs faults nr_llcs tasks s).0.residency_overrides
            ≡ longest_residency globs config path c tasks)
      × ((c : ℕ)
          → lookup c (apply_rules globs config procfs faults nr_llcs tasks s).0.cohort_policy
            ≡ pinned_to nr_llcs (last_pin globs config path c tasks) (lookup c s.cohort_policy))
unfolding apply_rules carry_out_rules at_least lookup
apply_rules_wants globs config procfs faults nr_llcs tasks s has_rules sound =
    let cache = live_cache tasks s.cgroup_cache in
    let path = path_of procfs cache in
    let first : Effects = record { cache = cache; overrides = []; pins = [] } in
    let all =
      tasks-Wanted globs config procfs path tasks first
        (record { paths = λ tgid. refl; pins_IsMap = tt }) in
    let pinned =
      apply_pins_pins faults nr_llcs (add_tasks globs config procfs tasks first).pins
        s.cohort_policy sound all.pins_IsMap in
    rw
      (unless_empty_lem config.rules s (carry_out_rules globs config procfs faults nr_llcs tasks s)
        has_rules)
      (
        pinned.0,
        all.overrides,
        λ c.
            pinned.1 c
            ∙ ap (λ p. pinned_to nr_llcs p (lookup c s.cohort_policy))
                (all.pins c ∙ last_of_first (last_pin globs config path c tasks)),
      )
