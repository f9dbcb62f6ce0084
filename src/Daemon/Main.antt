-- ===== src/Daemon/Main.antt =====
-- scx_cohort/src/main.rs, `main`: what runs, the realtime priority, and the loop that starts the
-- scheduler again after an ejection, as the acts that it does. How each call in a round ends is an argument.
pub mod Privileges
mod Tests
use scx_cohort.Base.Words.{u32_mod}
use scx_cohort.Base.{
  ℕ, ◌^◌, Bool, true, false, not, ◌&&◌, ◌||◌, Option, none, some, List, [], ◌∷◌, ◌++◌, ltb, nat_beq,
  if◌then◌else◌,
}
use scx_cohort.Config.{OptionsTable}
use scx_cohort.Daemon.Options.{Opts}

-- `rt_priority`, an i32 by its two's complement, and whether it is above 0.
unfoldable pub rt_priority : {F64 : Type 0} → Opts F64 → OptionsTable F64 → ℕ
rt_priority opts o = if opts.no_rt then 0 else elim o.rt_priority [ none ↦ 10 | some p ↦ p ]

unfoldable pub is_realtime : ℕ → Bool
is_realtime p = ltb 0 p && ltb p (2 ^ 31)

unfoldable pub drops_privs : {F64 : Type 0} → Opts F64 → OptionsTable F64 → Bool
drops_privs opts o = opts.drop_privs || elim o.drop_privs [ none ↦ false | some b ↦ b ]

-- The acts of the loop that need or give up privileges, or start threads.
pub data Act : Type 0 where
  initialise drop_capabilities launch_server spawn_monitor run_scheduler report : Act

-- How the calls of one round end, and what they find.
pub record Round : Type 0 where
  pub starts : Bool
  pub drops : Bool
  pub launches : Bool
  pub runs : Bool
  pub shutdown : Bool
  pub should_restart : Bool
  pub reports : Bool

-- How the loop ends: in order, with an error, or not yet within the rounds at hand.
pub data Exit : Type 0 where
  finished failed running : Exit

abbrev pub Course : Type 0
Course = List Act × Exit

-- One act, and what follows if it succeeds.
unfoldable pub try : Act → Bool → Course → Course
try act succeeds (acts, exit) = if succeeds then (act ∷ acts, exit) else (act ∷ [], failed)

abbrev pub before : List Act → Course → Course
before acts (more, exit) = (acts ++ more, exit)

module _ (drop_privs with_stats : Bool) where
  -- From the end of `run` on.
  unfoldable pub after_run : Round → Course → Course
  after_run r next =
      if r.shutdown || not r.should_restart
      then try report r.reports ([], finished)
      else if drop_privs
      then (report ∷ [], failed)
      else next

  -- From the stats server on, which a later round finds launched.
  unfoldable pub serve : Bool → Round → Course → Course
  serve launched r next =
      if launched
      then next
      else try launch_server r.launches
          (before (if with_stats then spawn_monitor ∷ [] else []) next)

  unfoldable pub give_up : Bool → Round → Course → Course
  give_up launched r next =
      if drop_privs && not launched then try drop_capabilities r.drops next else next

  unfoldable pub main_loop : Bool → List Round → Course
  main_loop launched [] = ([], running)
  main_loop launched (r ∷ rounds) =
      let next = main_loop true rounds in
      try initialise r.starts
        (give_up launched r (serve launched r (try run_scheduler r.runs (after_run r next))))
