-- ===== src/PingPong/Tests.antt =====
-- A stretch of an interleaving, and the theorem about it.
use scx_cohort.Base.{◌≡◌, refl, [], ◌∷◌}
use scx_cohort.PingPong.Interleavings.{IsFair, Reachable-IsFair}
use scx_cohort.PingPong.{
  payload_write, write_from, line_count, zeros, s_wait, s_sleep, State, wake_server, wake_client,
  next_round, next_turn, client_step, server_step, start, by_server, Reachable, at_start, later,
}

program : Unit {0}
unfolding payload_write write_from line_count zeros wake_server wake_client next_round next_turn
    client_step server_step start
program = tt

two_lines_are_stamped : payload_write 128 5 ≡ 5 ∷ 69 ∷ []
unfolding program
two_lines_are_stamped = refl

-- The server goes to sleep before the client has stored its first ping.
abbrev asleep : State
asleep = record (start 1 64) { server = s_sleep 1 0 }

asleep-Reachable : Reachable 1 64 asleep
unfolding program
asleep-Reachable =
    later (record (start 1 64) { server = s_wait 1 0 }) asleep
      (later (start 1 64) (record (start 1 64) { server = s_wait 1 0 }) at_start
        (by_server (start 1 64) (record (start 1 64) { server = s_wait 1 0 }) refl))
      (by_server (record (start 1 64) { server = s_wait 1 0 }) asleep refl)

Reachable-IsFair_example : IsFair 1 64 asleep
Reachable-IsFair_example = Reachable-IsFair 1 64 asleep asleep-Reachable
