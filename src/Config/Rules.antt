-- ===== src/Config/Rules.antt =====
-- scx_cohort/src/config.rs, `Config::parse`: an account of its result, rule by rule.
use Prim.Native.String.{String}
use scx_cohort.Base.{
  ℕ, suc, ◌+◌, ◌≡◌, refl, sym, ap, subst, inl, inr, true, false, Option, none, some, List, [], ◌∷◌,
  ◌++◌, arith, length, Bool-cases, Option-cases,
}
use scx_cohort.Config.{
  RuleFile, ConfigFile, Rule, Config, ConfigError, bad_join, no_criterion, bad_glob, Result, ok,
  err, joins_other, has_no_criterion, Globs, rule_with, compile_rule, parse_rule, parse_rules,
  parse,
}

module _ (globs : Globs) where
  open globs use {Glob, compile}

  -- The glob of a rule and its matcher.
  pub data IsCompiledGlob : Option String → Option Glob → Type 0 where
    no_glob : IsCompiledGlob none none
    a_glob :
        (g : String) (matcher : Glob)
        → compile g ≡ some matcher
        → IsCompiledGlob (some g) (some matcher)

  -- A rule of the file without a fault, and the rule that is kept of it.
  pub record IsCompiled (r : RuleFile) (rule : Rule Glob) : Type 0 where
    pub joins_parent : joins_other r.join_cohort_of ≡ false
    pub criterion : has_no_criterion r ≡ false
    pub comms : rule.comms ≡ r.match_comm
    pub cgroup : IsCompiledGlob r.match_cgroup rule.cgroup
    pub pin : rule.pin_ccd ≡ r.pin_ccd
    pub residency : rule.min_ccd_residency_ms ≡ r.min_ccd_residency_ms

  pub data AreCompiled : List RuleFile → List (Rule Glob) → Type 0 where
    none_left : AreCompiled [] []
    one_more :
        (r : RuleFile) (rule : Rule Glob) (rs : List RuleFile) (rules : List (Rule Glob))
        → IsCompiled r rule
        → AreCompiled rs rules
        → AreCompiled (r ∷ rs) (rule ∷ rules)

  -- What is wrong with the rule at a place.
  pub data IsFault (i : ℕ) (r : RuleFile) : ConfigError → Type 0 where
    joins : joins_other r.join_cohort_of ≡ true → IsFault i r (bad_join (suc i))
    criteria :
        joins_other r.join_cohort_of ≡ false
        → has_no_criterion r ≡ true
        → IsFault i r (no_criterion (suc i))
    glob :
        (g : String)
        → joins_other r.join_cohort_of ≡ false
        → has_no_criterion r ≡ false
        → r.match_cgroup ≡ some g
        → compile g ≡ none
        → IsFault i r (bad_glob (suc i))

  -- An account of the result for the rules from a place on.
  pub data Accounts (i : ℕ) (rs : List RuleFile) : Result (List (Rule Glob)) → Type 0 where
    all_compiled : (rules : List (Rule Glob)) → AreCompiled rs rules → Accounts i rs (ok rules)
    first_fault :
        (before : List RuleFile) (compiled : List (Rule Glob)) (r : RuleFile)
        (after : List RuleFile) (e : ConfigError)
        → rs ≡ before ++ r ∷ after
        → AreCompiled before compiled
        → IsFault (i + length before) r e
        → Accounts i rs (err e)

  -- The same for one rule.
  data AccountsOne (i : ℕ) (r : RuleFile) : Result (Rule Glob) → Type 0 where
    compiled_one : (rule : Rule Glob) → IsCompiled r rule → AccountsOne i r (ok rule)
    faulty_one : (e : ConfigError) → IsFault i r e → AccountsOne i r (err e)

  compile_rule-AccountsOne :
      (i : ℕ) (r : RuleFile) (o : Option String)
      → r.match_cgroup ≡ o
      → joins_other r.join_cohort_of ≡ false
      → has_no_criterion r ≡ false
      → AccountsOne i r (compile_rule globs i r o)
  unfolding compile_rule
  compile_rule-AccountsOne i r none e j c = compiled_one (rule_with globs r none) (record {
    joins_parent = j;
    criterion = c;
    comms = refl;
    cgroup = subst (λ z. IsCompiledGlob z none) (sym e) no_glob;
    pin = refl;
    residency = refl;
  })
  compile_rule-AccountsOne i r (some g) e j c = elim (Option-cases (compile g)) [
    | inl bad ↦ rw (bad, compile_rule) (faulty_one (bad_glob (suc i)) (glob g j c e bad))
    | inr (matcher, good) ↦
        rw (good, compile_rule)
          (compiled_one (rule_with globs r (some matcher)) (record {
            joins_parent = j;
            criterion = c;
            comms = refl;
            cgroup = subst (λ z. IsCompiledGlob z (some matcher)) (sym e) (a_glob g matcher good);
            pin = refl;
            residency = refl;
          }))
  ]

  parse_rule-AccountsOne : (i : ℕ) (r : RuleFile) → AccountsOne i r (parse_rule globs i r)
  unfolding parse_rule
  parse_rule-AccountsOne i r = elim (Bool-cases (joins_other r.join_cohort_of)) [
    | inl j ↦ rw j (faulty_one (bad_join (suc i)) (joins j))
    | inr j ↦ elim (Bool-cases (has_no_criterion r)) [
      | inl c ↦ rw (j, c) (faulty_one (no_criterion (suc i)) (criteria j c))
      | inr c ↦ rw (j, c) (compile_rule-AccountsOne i r r.match_cgroup refl j c)
    ]
  ]

  pub parse_rules-Accounts : (i : ℕ) (rs : List RuleFile) → Accounts i rs (parse_rules globs i rs)
  unfolding parse_rules
  parse_rules-Accounts i [] = all_compiled [] none_left
  parse_rules-Accounts i (r ∷ rs) =
      first (parse_rule globs i r) (parse_rule-AccountsOne i r) (parse_rules-Accounts (suc i) rs)
    where
      later :
          (rule : Rule Glob) (res : Result (List (Rule Glob)))
          → IsCompiled r rule
          → Accounts (suc i) rs res
          → Accounts i (r ∷ rs) (elim res [ err e ↦ err e | ok rules ↦ ok (rule ∷ rules) ])
      later rule _ good (all_compiled rules rest) =
          all_compiled (rule ∷ rules) (one_more r rule rs rules good rest)
      later rule _ good (first_fault before compiled bad after e split rest fault) =
          first_fault (r ∷ before) (rule ∷ compiled) bad after e (ap (λ l. r ∷ l) split)
            (one_more r rule before compiled good rest)
            (subst (λ n. IsFault n bad e) (omega arith) fault)

      first :
          (res : Result (Rule Glob))
          → AccountsOne i r res
          → Accounts (suc i) rs (parse_rules globs (suc i) rs)
          → Accounts i (r ∷ rs) (elim res [
            | err e ↦ err e
            | ok rule ↦ elim (parse_rules globs (suc i) rs) [
              | err e ↦ err e
              | ok rules ↦ ok (rule ∷ rules)
            ]
          ])
      first _ (compiled_one rule good) rest = later rule (parse_rules globs (suc i) rs) good rest
      first _ (faulty_one e fault) rest =
          first_fault [] [] r rs e refl none_left (subst (λ n. IsFault n r e) (omega arith) fault)

  -- What the result of `parse` says of the file that the text stands for.
  pub data ParsesTo {F64 : Type 0} (file : ConfigFile F64) : Result (Config F64 Glob) → Type 0 where
    configured :
        (rules : List (Rule Glob))
        → AreCompiled file.rules rules
        → ParsesTo file (ok (record { options = file.options; rules = rules }))
    refused :
        (before : List RuleFile) (compiled : List (Rule Glob)) (r : RuleFile)
        (after : List RuleFile) (e : ConfigError)
        → file.rules ≡ before ++ r ∷ after
        → AreCompiled before compiled
        → IsFault (length before) r e
        → ParsesTo file (err e)

  -- Of a text that is TOML, `parse` keeps the options and every rule, in order and with its glob
  -- compiled, when no rule has a fault; otherwise it reports the first rule with a fault, numbered
  -- from one, and of that rule first another join than "parent", then no criterion, then a bad glob.
  pub parse-ParsesTo :
      {F64 : Type 0} (from_str : String → Option (ConfigFile F64)) (text : String)
      (file : ConfigFile F64)
      → from_str text ≡ some file
      → ParsesTo file (parse globs from_str text)
  unfolding parse
  parse-ParsesTo from_str text file h =
      rw (h, parse) (go (parse_rules globs 0 file.rules) (parse_rules-Accounts 0 file.rules))
    where
      go :
          (res : Result (List (Rule Glob)))
          → Accounts 0 file.rules res
          → ParsesTo file (elim res [
            | err e ↦ err e
            | ok rules ↦ ok (record { options = file.options; rules = rules })
          ])
      go _ (all_compiled rules h) = configured rules h
      go _ (first_fault before compiled r after e split good fault) =
          refused before compiled r after e split good
            (subst (λ n. IsFault n r e) (omega arith) fault)
