-- ===== src/Daemon/Main/Privileges.antt =====
-- scx_cohort/src/main.rs, `main`: the order of the acts where the privileges are dropped.
use scx_cohort.Base.{Bool, true, false, not, ◌||◌, List, [], ◌∷◌, ◌++◌, if◌then◌else◌, if_keeps}
use scx_cohort.Daemon.Main.{
  Act, initialise, drop_capabilities, launch_server, spawn_monitor, run_scheduler, report, Round,
  Exit, finished, failed, Course, try, before, after_run, serve, give_up, main_loop,
}

-- The first list of acts begins the second.
pub data Begins : List Act → List Act → Type 0 where
  nothing : (acts : List Act) → Begins [] acts
  next : (a : Act) (acts more : List Act) → Begins acts more → Begins (a ∷ acts) (a ∷ more)

pub data IsOver : Exit → Type 0 where
  in_order : IsOver finished
  with_error : IsOver failed

abbrev pub once : Bool → List Act
once with_stats =
    initialise
    ∷ drop_capabilities
    ∷ launch_server
    ∷ ((if with_stats then spawn_monitor ∷ [] else []) ++ run_scheduler ∷ report ∷ [])

-- A course that is over, within the given acts.
abbrev pub Within : List Act → Course → Type 0
Within acts c = Begins c.0 acts × IsOver c.1

try-Within :
    (a : Act) (succeeds : Bool) (c : Course) (acts : List Act)
    → Within acts c
    → Within (a ∷ acts) (try a succeeds c)
unfolding try
try-Within a true (done, exit) acts (begins, over) = (next a done acts begins, over)
try-Within a false (done, exit) acts (begins, over) = (next a [] acts (nothing acts), with_error)

after_run-Within :
    (with_stats : Bool) (r : Round) (later : Course)
    → Within (report ∷ []) (after_run true with_stats r later)
unfolding after_run
after_run-Within with_stats r later =
    if_keeps (Within (report ∷ [])) (r.shutdown || not r.should_restart)
      (try-Within report r.reports ([], finished) [] (nothing [], in_order))
      (next report [] [] (nothing []), with_error)

serve-Within :
    (with_stats : Bool) (r : Round) (c : Course) (acts : List Act)
    → Within acts c
    → Within
        (launch_server ∷ ((if with_stats then spawn_monitor ∷ [] else []) ++ acts))
        (serve true with_stats false r c)
unfolding serve
serve-Within true r c acts (begins, over) =
    try-Within launch_server r.launches (before (spawn_monitor ∷ []) c) (spawn_monitor ∷ acts)
      (next spawn_monitor c.0 acts begins, over)
serve-Within false r c acts kept = try-Within launch_server r.launches c acts kept

-- With the privileges dropped, the loop is over after its first round, in order or with an error, and
-- does its acts in this order, from the first on until one fails: it initialises, drops the capabilities,
-- launches the server, spawns the monitor if one is asked for, runs the scheduler and reports. So no
-- thread starts before the drop, and nothing is initialised after it.
pub main_loop-Within :
    (with_stats : Bool) (r : Round) (rounds : List Round)
    → Within (once with_stats) (main_loop true with_stats false (r ∷ rounds))
unfolding main_loop give_up
main_loop-Within with_stats r rounds =
    let later = main_loop true with_stats true rounds in
    let after = after_run true with_stats r later in
    let acts = (if with_stats then spawn_monitor ∷ [] else []) ++ run_scheduler ∷ report ∷ [] in
    try-Within initialise r.starts _ (drop_capabilities ∷ launch_server ∷ acts) (
      try-Within drop_capabilities r.drops _ (launch_server ∷ acts) (
        serve-Within with_stats r (try run_scheduler r.runs after) (run_scheduler ∷ report ∷ []) (
          try-Within run_scheduler r.runs after (report ∷ [])
            (after_run-Within with_stats r later))))
