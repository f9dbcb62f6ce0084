-- ===== src/Daemon/Main/Tests.antt =====
-- Courses of `main`'s loop, and the theorem about it at a concrete round.
use scx_cohort.Base.{◌≡◌, refl, true, false, [], ◌∷◌}
use scx_cohort.Daemon.Main.Privileges.{Within, once, main_loop-Within}
use scx_cohort.Daemon.Main.{
  initialise, launch_server, run_scheduler, report, Round, finished, try, after_run, serve, give_up,
  main_loop,
}

program : Unit {0}
unfolding try after_run serve give_up main_loop
program = tt

-- An ejection for a restart, and a shutdown.
abbrev ejected : Round
ejected = record {
  starts = true;
  drops = true;
  launches = true;
  runs = true;
  shutdown = false;
  should_restart = true;
  reports = true;
}

abbrev ended : Round
ended = record ejected { shutdown = true }

server_is_launched_once : main_loop false false false (ejected ∷ ended ∷ []) ≡ (
  initialise ∷ launch_server ∷ run_scheduler ∷ initialise ∷ run_scheduler ∷ report ∷ [],
  finished,
)
unfolding program
server_is_launched_once = refl

main_loop-Within_example : Within (once true) (main_loop true true false (ejected ∷ ended ∷ []))
main_loop-Within_example = main_loop-Within true ejected (ended ∷ [])
