-- ===== src/Config.antt =====
-- scx_cohort/src/config.rs: the options and the rules. The TOML parser and the globs are libraries,
-- arguments here; a `ConfigFile` is what serde makes of the text.
pub mod Rules
pub mod Matching
mod Tests
use Prim.Native.String.{String}
use text.Mathlib.Text.{◌==◌ as str_eq}
use scx_cohort.Base.{
  ℕ, suc, Bool, true, false, not, ◌&&◌, Option, none, some, List, [], ◌∷◌, if◌then◌else◌, any, find,
}

pub record OptionsTable (F64 : Type 0) : Type 0 where
  pub slice_us : Option ℕ
  pub interval_ms : Option ℕ
  pub steal_min : Option ℕ
  pub steal_delay_us : Option ℕ
  pub imbalance_pct : Option ℕ
  pub residency_ms : Option ℕ
  pub merge_wakes_per_sec : Option F64
  -- An i32, by its two's complement.
  pub rt_priority : Option ℕ
  pub drop_privs : Option Bool

pub record RuleFile : Type 0 where
  pub match_comm : Option (List String)
  pub match_cgroup : Option String
  pub join_cohort_of : Option String
  pub pin_ccd : Option ℕ
  pub min_ccd_residency_ms : Option ℕ

pub record ConfigFile (F64 : Type 0) : Type 0 where
  pub options : OptionsTable F64
  pub rules : List RuleFile

-- A rule with its glob compiled to a matcher of the library.
pub record Rule (Glob : Type 0) : Type 0 where
  pub comms : Option (List String)
  pub cgroup : Option Glob
  pub pin_ccd : Option ℕ
  pub min_ccd_residency_ms : Option ℕ

pub record Config (F64 Glob : Type 0) : Type 0 where
  pub options : OptionsTable F64
  pub rules : List (Rule Glob)

-- The errors, with the number of the rule as the message has it.
pub data ConfigError : Type 0 where
  unreadable : ConfigError
  not_toml : ConfigError
  bad_join : ℕ → ConfigError
  no_criterion : ℕ → ConfigError
  bad_glob : ℕ → ConfigError

pub data Result (A : Type 0) : Type 0 where
  ok : A → Result A
  err : ConfigError → Result A

-- The first `if let` of the loop: a value other than "parent".
unfoldable pub joins_other : Option String → Bool
joins_other none = false
joins_other (some j) = not (str_eq j "parent")

unfoldable pub has_no_criterion : RuleFile → Bool
has_no_criterion r = elim r.match_comm [
  | none ↦ elim r.match_cgroup [ none ↦ true | some g ↦ false ]
  | some cs ↦ false
]

-- `globset`: a glob is compiled, or is bad, and matches paths.
pub record Globs : Type 1 where
  pub Glob : Type 0
  pub compile : String → Option Glob
  pub is_match : Glob → String → Bool

module _ (globs : Globs) where
  open globs use {Glob, compile, is_match}

  abbrev pub rule_with : RuleFile → Option Glob → Rule Glob
  rule_with r g = record {
    comms = r.match_comm;
    cgroup = g;
    pin_ccd = r.pin_ccd;
    min_ccd_residency_ms = r.min_ccd_residency_ms;
  }

  -- The rule that is pushed, from its glob in the file.
  unfoldable pub compile_rule : ℕ → RuleFile → Option String → Result (Rule Glob)
  compile_rule i r none = ok (rule_with r none)
  compile_rule i r (some g) = elim (compile g) [
    | none ↦ err (bad_glob (suc i))
    | some matcher ↦ ok (rule_with r (some matcher))
  ]

  -- The body of the loop over the rules.
  unfoldable pub parse_rule : ℕ → RuleFile → Result (Rule Glob)
  parse_rule i r =
      if joins_other r.join_cohort_of
      then err (bad_join (suc i))
      else if has_no_criterion r
      then err (no_criterion (suc i))
      else compile_rule i r r.match_cgroup

  unfoldable pub parse_rules : ℕ → List RuleFile → Result (List (Rule Glob))
  parse_rules i [] = ok []
  parse_rules i (r ∷ rs) = elim (parse_rule i r) [
    | err e ↦ err e
    | ok rule ↦ elim (parse_rules (suc i) rs) [ err e ↦ err e | ok rules ↦ ok (rule ∷ rules) ]
  ]

  unfoldable pub parse :
      {F64 : Type 0} → (String → Option (ConfigFile F64)) → String → Result (Config F64 Glob)
  parse from_str text = elim (from_str text) [
    | none ↦ err not_toml
    | some file ↦ elim (parse_rules 0 file.rules) [
      | err e ↦ err e
      | ok rules ↦ ok (record { options = file.options; rules = rules })
    ]
  ]

  -- `load`, from what reading the file gives.
  unfoldable pub load :
      {F64 : Type 0} → (String → Option (ConfigFile F64)) → Option String → Result (Config F64 Glob)
  load from_str none = err unreadable
  load from_str (some text) = parse from_str text

  -- The two tests of `match_task`.
  unfoldable pub comm_ok : Rule Glob → String → Bool
  comm_ok r comm = elim r.comms [ none ↦ true | some cs ↦ any (λ c. str_eq c comm) cs ]

  unfoldable pub cgroup_ok : Rule Glob → String → Bool
  cgroup_ok r cgroup = elim r.cgroup [ none ↦ true | some g ↦ is_match g cgroup ]

  unfoldable pub matches : String → String → Rule Glob → Bool
  matches comm cgroup r = comm_ok r comm && cgroup_ok r cgroup

  unfoldable pub match_task :
      {F64 : Type 0} → Config F64 Glob → String → String → Option (Rule Glob)
  match_task cfg comm cgroup = find (matches comm cgroup) cfg.rules
