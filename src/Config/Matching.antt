-- ===== src/Config/Matching.antt =====
-- scx_cohort/src/config.rs, `Config::match_task`: what it is that a task fits a rule, and the first fit.
use Prim.Native.String.{String}
use text.Mathlib.Text.{◌==◌ as str_eq}
use text.Mathlib.TextEquality.{eq_iff}
use scx_cohort.Base.{
  ◌≡◌, ◌↔◌, refl, sym, ap, subst, inl, inr, true, Option, none, some, List, [], ◌∷◌, ◌++◌, arith,
  any, find, In, Bool-cases,
}
use scx_cohort.Config.{Rule, Config, Globs, comm_ok, cgroup_ok, matches, match_task}

any-In : (comm : String) (cs : List String) → any (λ c. str_eq c comm) cs ≡ true → In comm cs
any-In comm [] h = absurd (cc)
any-In comm (c ∷ cs) h = elim (Bool-cases (str_eq c comm)) [
  | inl here ↦ inl (sym ((eq_iff c comm).0 here))
  | inr other ↦ inr (any-In comm cs (rw other at h))
]

In-any : (comm : String) (cs : List String) → In comm cs → any (λ c. str_eq c comm) cs ≡ true
In-any comm [] i = absurd i
In-any comm (c ∷ cs) (inl e) = rw ((eq_iff c comm).1 (sym e)) refl
In-any comm (c ∷ cs) (inr i) = elim (Bool-cases (str_eq c comm)) [
  | inl here ↦ rw here refl
  | inr other ↦ rw other (In-any comm cs i)
]

module _ (globs : Globs) where
  open globs use {Glob, is_match}

  -- A task fits a rule: its comm is one of the rule's, where the rule has comms, and its cgroup fits
  -- the rule's glob, where the rule has one.
  pub record Fits (comm cgroup : String) (r : Rule Glob) : Type 0 where
    pub by_comm : (cs : List String) → r.comms ≡ some cs → In comm cs
    pub by_cgroup : (g : Glob) → r.cgroup ≡ some g → is_match g cgroup ≡ true

  comm_ok-In :
      (r : Rule Glob) (comm : String)
      → comm_ok globs r comm ≡ true
      → (cs : List String) → r.comms ≡ some cs
      → In comm cs
  unfolding comm_ok
  comm_ok-In r comm h cs e = any-In comm cs (rw (e, comm_ok) at h)

  cgroup_ok-is_match :
      (r : Rule Glob) (cgroup : String)
      → cgroup_ok globs r cgroup ≡ true
      → (g : Glob) → r.cgroup ≡ some g
      → is_match g cgroup ≡ true
  unfolding cgroup_ok
  cgroup_ok-is_match r cgroup h g e = rw (e, cgroup_ok) at h

  comm_ok_of :
      (o : Option (List String)) (r : Rule Glob) (comm : String)
      → r.comms ≡ o
      → ((cs : List String) → o ≡ some cs → In comm cs)
      → comm_ok globs r comm ≡ true
  unfolding comm_ok
  comm_ok_of none r comm e h = rw (e, comm_ok) refl
  comm_ok_of (some cs) r comm e h = rw (e, comm_ok) (In-any comm cs (h cs refl))

  cgroup_ok_of :
      (o : Option Glob) (r : Rule Glob) (cgroup : String)
      → r.cgroup ≡ o
      → ((g : Glob) → o ≡ some g → is_match g cgroup ≡ true)
      → cgroup_ok globs r cgroup ≡ true
  unfolding cgroup_ok
  cgroup_ok_of none r cgroup e h = rw (e, cgroup_ok) refl
  cgroup_ok_of (some g) r cgroup e h = rw (e, cgroup_ok) (h g refl)

  matches-Fits :
      (comm cgroup : String) (r : Rule Glob)
      → (matches globs comm cgroup r ≡ true) ↔ (Fits comm cgroup r)
  unfolding matches
  matches-Fits comm cgroup r = (
    λ h. record {
      by_comm = comm_ok-In r comm (ground (arith, h));
      by_cgroup = cgroup_ok-is_match r cgroup (ground (arith, h));
    },
    λ fits.
        let a = comm_ok_of r.comms r comm refl fits.by_comm in
        let b = cgroup_ok_of r.cgroup r cgroup refl fits.by_cgroup in ground (arith, a, b),
  )

  -- The first rule that fits, if any.
  pub data FirstFit (comm cgroup : String) (rules : List (Rule Glob))
      : Option (Rule Glob) → Type 0 where
    no_fit :
        ((r : Rule Glob) → In r rules → Fits comm cgroup r → ⊥) → FirstFit comm cgroup rules none
    first_fit :
        (before : List (Rule Glob)) (r : Rule Glob) (after : List (Rule Glob))
        → rules ≡ before ++ r ∷ after
        → ((s : Rule Glob) → In s before → Fits comm cgroup s → ⊥)
        → Fits comm cgroup r
        → FirstFit comm cgroup rules (some r)

  FirstFit-skip :
      (comm cgroup : String) (r : Rule Glob) (rules : List (Rule Glob)) (o : Option (Rule Glob))
      → (Fits comm cgroup r → ⊥)
      → FirstFit comm cgroup rules o
      → FirstFit comm cgroup (r ∷ rules) o
  FirstFit-skip comm cgroup r rules _ misfit (no_fit none_fits) = no_fit all
    where
      all : (s : Rule Glob) → In s (r ∷ rules) → Fits comm cgroup s → ⊥
      all s (inl e) fits = misfit (subst (λ z. Fits comm cgroup z) e fits)
      all s (inr i) fits = none_fits s i fits
  FirstFit-skip comm cgroup r rules _ misfit (first_fit before s after split earlier fits) =
      first_fit (r ∷ before) s after (ap (λ l. r ∷ l) split) all fits
    where
      all : (u : Rule Glob) → In u (r ∷ before) → Fits comm cgroup u → ⊥
      all u (inl e) fits = misfit (subst (λ z. Fits comm cgroup z) e fits)
      all u (inr i) fits = earlier u i fits

  find-FirstFit :
      (comm cgroup : String) (rules : List (Rule Glob))
      → FirstFit comm cgroup rules (find (matches globs comm cgroup) rules)
  find-FirstFit comm cgroup [] = no_fit (λ r i fits. absurd i)
  find-FirstFit comm cgroup (r ∷ rules) = elim (Bool-cases (matches globs comm cgroup r)) [
    | inl fit ↦
        rw fit
          (first_fit [] r rules refl (λ s i fits. absurd i) ((matches-Fits comm cgroup r).0 fit))
    | inr misfit ↦ rw misfit (
        FirstFit-skip comm cgroup r rules (find (matches globs comm cgroup) rules)
          (λ fits. let h = (matches-Fits comm cgroup r).1 fits in cc)
          (find-FirstFit comm cgroup rules))
  ]

  -- `match_task` gives the first rule in file order that the task fits, with comm and cgroup where the
  -- rule has both, and none just when the task fits no rule.
  pub match_task-FirstFit :
      {F64 : Type 0} (cfg : Config F64 Glob) (comm cgroup : String)
      → FirstFit comm cgroup cfg.rules (match_task globs cfg comm cgroup)
  unfolding match_task
  match_task-FirstFit cfg comm cgroup = find-FirstFit comm cgroup cfg.rules
