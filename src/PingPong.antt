-- ===== src/PingPong.antt =====
-- bench/ipc_pingpong/src/main.rs: a client and a server that pass a message to and fro through shared
-- memory, with a futex for each direction, as interleaved steps of the two processes. A step is a call,
-- an atomic access, or a walk over the payload; a sleeper wakes by a call or for no reason.
pub mod Turns
pub mod Rests
pub mod Steps
pub mod Interleavings
pub mod Tests
use scx_cohort.Base.Words.{u32_mod, u64_mod, add64}
use scx_cohort.Base.{
  ℕ, zero, suc, ◌+◌, ◌-◌, ◌/◌, ◌%◌, ◌≡◌, Bool, true, false, Option, none, some, List, [], ◌∷◌, ltb,
  nat_beq, if◌then◌else◌,
}

abbrev pub cache_line : ℕ
cache_line = 64

-- The words at the starts of the cache lines of the payload.
abbrev pub Payload : Type 0
Payload = List ℕ

-- `payload_write`, from the line at `off` on.
unfoldable pub write_from : ℕ → ℕ → ℕ → Payload
write_from zero off stamp = []
write_from (suc lines) off stamp = add64 stamp off ∷ write_from lines (off + cache_line) stamp

-- The number of lines: offsets below `len` in steps of a line.
unfoldable pub line_count : ℕ → ℕ
line_count len = (len + 63) / cache_line

-- A fresh payload.
unfoldable pub zeros : ℕ → Payload
zeros zero = []
zeros (suc lines) = 0 ∷ zeros lines

unfoldable pub payload_write : ℕ → ℕ → Payload
payload_write len stamp = write_from (line_count len) 0 stamp

unfoldable pub payload_read : Payload → ℕ → ℕ
payload_read [] sum = sum
payload_read (word ∷ payload) sum = payload_read payload (add64 sum word)

-- The stamps of the two messages of a round: `i` and `!i`.
abbrev pub reply : ℕ → ℕ
reply i = u64_mod - 1 - i

-- Where a process is in round `i`; a wait has the value that it has loaded.
pub data Client : Type 0 where
  c_write c_store c_wake c_load : ℕ → Client
  c_wait c_sleep : ℕ → ℕ → Client
  c_read : ℕ → Client
  c_done : Client

pub data Server : Type 0 where
  s_load : ℕ → Server
  s_wait s_sleep : ℕ → ℕ → Server
  s_read s_write s_store s_wake : ℕ → Server
  s_done : Server

pub record State : Type 0 where
  pub client : Client
  pub server : Server
  pub ping : ℕ
  pub pong : ℕ
  pub payload : Payload
  pub client_sink : ℕ
  pub server_sink : ℕ

-- `FUTEX_WAKE`: a sleeper goes back to its load.
unfoldable pub wake_server : Server → Server
wake_server (s_sleep i cur) = s_load i
wake_server other = other

unfoldable pub wake_client : Client → Client
wake_client (c_sleep i cur) = c_load i
wake_client other = other

-- The loop `for i in 1..=total`, at its test.
unfoldable pub next_round : ℕ → ℕ → Client
next_round total i = if ltb total i then c_done else c_write i

unfoldable pub next_turn : ℕ → ℕ → Server
next_turn total i = if ltb total i then s_done else s_load i

module _ (total len : ℕ) where
  -- The next step of `run_client`; a sleeper and a process that is done have none.
  unfoldable pub client_step : Client → State → Option State
  client_step (c_write i) s = some (record s { client = c_store i; payload = payload_write len i })
  client_step (c_store i) s = some (record s { client = c_wake i; ping = i % u32_mod })
  client_step (c_wake i) s = some (record s { client = c_load i; server = wake_server s.server })
  client_step (c_load i) s =
      some
        (record s { client = if nat_beq s.pong (i % u32_mod) then c_read i else c_wait i s.pong })
  client_step (c_wait i cur) s =
      some (record s { client = if nat_beq s.pong cur then c_sleep i cur else c_load i })
  client_step (c_sleep i cur) s = none
  client_step (c_read i) s = some (record s {
    client = next_round total (suc i);
    client_sink = add64 s.client_sink (payload_read s.payload 0);
  })
  client_step c_done s = none

  -- The next step of `run_server`.
  unfoldable pub server_step : Server → State → Option State
  server_step (s_load i) s =
      some
        (record s { server = if nat_beq s.ping (i % u32_mod) then s_read i else s_wait i s.ping })
  server_step (s_wait i cur) s =
      some (record s { server = if nat_beq s.ping cur then s_sleep i cur else s_load i })
  server_step (s_sleep i cur) s = none
  server_step (s_read i) s = some (record s {
    server = s_write i;
    server_sink = add64 s.server_sink (payload_read s.payload 0);
  })
  server_step (s_write i) s =
      some (record s { server = s_store i; payload = payload_write len (reply i) })
  server_step (s_store i) s = some (record s { server = s_wake i; pong = i % u32_mod })
  server_step (s_wake i) s =
      some (record s { client = wake_client s.client; server = next_turn total (suc i) })
  server_step s_done s = none

  -- The two processes after the fork, on fresh shared memory.
  unfoldable pub start : State
  start = record {
    client = next_round total 1;
    server = next_turn total 1;
    ping = 0;
    pong = 0;
    payload = zeros (line_count len);
    client_sink = 0;
    server_sink = 0;
  }

  -- One step of either process, or a wait that returns for no reason.
  pub data Step : State → State → Type 0 where
    by_client : (s t : State) → client_step s.client s ≡ some t → Step s t
    by_server : (s t : State) → server_step s.server s ≡ some t → Step s t
    client_stirs : (s : State) → Step s (record s { client = wake_client s.client })
    server_stirs : (s : State) → Step s (record s { server = wake_server s.server })

  -- The states that an interleaving comes to.
  pub data Reachable : State → Type 0 where
    at_start : Reachable start
    later : (s t : State) → Reachable s → Step s t → Reachable t
