-- ===== src/PingPong/Rests.antt =====
-- bench/ipc_pingpong/src/main.rs: the sleepers, and who is to wake them.

use scx_cohort.Base.{ℕ, ◌≤◌, ◌≡◌, sym, ap, ◌∙◌, arith}
use scx_cohort.PingPong.{
  Payload, Client, c_write, c_store, c_wake, c_load, c_wait, c_sleep, c_read, c_done, Server,
  s_load, s_wait, s_sleep, s_read, s_write, s_store, s_wake, s_done, wake_server, wake_client,
}
use scx_cohort.PingPong.Turns.{ClientAt, ClientRests, ServerRests}

module _ (total len : ℕ) where
  -- A sleeper that nobody is to wake may still rest when the other process moves on.
  pub ServerRests-client :
      (p : ℕ) (c c' : Client) (s : Server)
      → ((i : ℕ) → c ≡ c_wake i → ⊥)
      → ServerRests total len p c s
      → ServerRests total len p c' s
  ServerRests-client p c c' (s_load i) other r = tt
  ServerRests-client p c c' (s_wait i cur) other r = tt
  ServerRests-client p c c' (s_sleep i cur) other r = λ g. absurd (other i (r g))
  ServerRests-client p c c' (s_read i) other r = tt
  ServerRests-client p c c' (s_write i) other r = tt
  ServerRests-client p c c' (s_store i) other r = tt
  ServerRests-client p c c' (s_wake i) other r = tt
  ServerRests-client p c c' s_done other r = tt

  pub ServerRests-c_wake : (p i : ℕ) (s : Server) → p ≡ i → ServerRests total len p (c_wake i) s
  ServerRests-c_wake p i (s_load j) e = tt
  ServerRests-c_wake p i (s_wait j cur) e = tt
  ServerRests-c_wake p i (s_sleep j cur) e = λ g. ap c_wake (sym e ∙ g)
  ServerRests-c_wake p i (s_read j) e = tt
  ServerRests-c_wake p i (s_write j) e = tt
  ServerRests-c_wake p i (s_store j) e = tt
  ServerRests-c_wake p i (s_wake j) e = tt
  ServerRests-c_wake p i s_done e = tt

  pub ServerRests-wake_server :
      (p : ℕ) (c : Client) (s : Server) → ServerRests total len p c (wake_server s)
  unfolding wake_server
  ServerRests-wake_server p c (s_load i) = tt
  ServerRests-wake_server p c (s_wait i cur) = tt
  ServerRests-wake_server p c (s_sleep i cur) = tt
  ServerRests-wake_server p c (s_read i) = tt
  ServerRests-wake_server p c (s_write i) = tt
  ServerRests-wake_server p c (s_store i) = tt
  ServerRests-wake_server p c (s_wake i) = tt
  ServerRests-wake_server p c s_done = tt

  pub ServerRests-wake_client :
      (p : ℕ) (c : Client) (s : Server)
      → ServerRests total len p c s
      → ServerRests total len p (wake_client c) s
  unfolding wake_client
  ServerRests-wake_client p (c_write i) s r = r
  ServerRests-wake_client p (c_store i) s r = r
  ServerRests-wake_client p (c_wake i) s r = r
  ServerRests-wake_client p (c_load i) s r = r
  ServerRests-wake_client p (c_wait i cur) s r = r
  ServerRests-wake_client p (c_sleep i cur) s r =
      ServerRests-client p (c_sleep i cur) (c_load i) s (λ j e. absurd (cc e)) r
  ServerRests-wake_client p (c_read i) s r = r
  ServerRests-wake_client p c_done s r = r

  pub ClientRests-server :
      (q : ℕ) (s s' : Server) (c : Client)
      → ((i : ℕ) → s ≡ s_wake i → ⊥)
      → ClientRests total len q s c
      → ClientRests total len q s' c
  ClientRests-server q s s' (c_write i) other r = tt
  ClientRests-server q s s' (c_store i) other r = tt
  ClientRests-server q s s' (c_wake i) other r = tt
  ClientRests-server q s s' (c_load i) other r = tt
  ClientRests-server q s s' (c_wait i cur) other r = tt
  ClientRests-server q s s' (c_sleep i cur) other r = λ g. absurd (other i (r g))
  ClientRests-server q s s' (c_read i) other r = tt
  ClientRests-server q s s' c_done other r = tt

  pub ClientRests-s_wake : (q i : ℕ) (c : Client) → q ≡ i → ClientRests total len q (s_wake i) c
  ClientRests-s_wake q i (c_write j) e = tt
  ClientRests-s_wake q i (c_store j) e = tt
  ClientRests-s_wake q i (c_wake j) e = tt
  ClientRests-s_wake q i (c_load j) e = tt
  ClientRests-s_wake q i (c_wait j cur) e = tt
  ClientRests-s_wake q i (c_sleep j cur) e = λ g. ap s_wake (sym e ∙ g)
  ClientRests-s_wake q i (c_read j) e = tt
  ClientRests-s_wake q i c_done e = tt

  pub ClientRests-wake_client :
      (q : ℕ) (s : Server) (c : Client) → ClientRests total len q s (wake_client c)
  unfolding wake_client
  ClientRests-wake_client q s (c_write i) = tt
  ClientRests-wake_client q s (c_store i) = tt
  ClientRests-wake_client q s (c_wake i) = tt
  ClientRests-wake_client q s (c_load i) = tt
  ClientRests-wake_client q s (c_wait i cur) = tt
  ClientRests-wake_client q s (c_sleep i cur) = tt
  ClientRests-wake_client q s (c_read i) = tt
  ClientRests-wake_client q s c_done = tt

  pub ClientRests-wake_server :
      (q : ℕ) (s : Server) (c : Client)
      → ClientRests total len q s c
      → ClientRests total len q (wake_server s) c
  unfolding wake_server
  ClientRests-wake_server q (s_load i) c r = r
  ClientRests-wake_server q (s_wait i cur) c r = r
  ClientRests-wake_server q (s_sleep i cur) c r =
      ClientRests-server q (s_sleep i cur) (s_load i) c (λ j e. absurd (cc e)) r
  ClientRests-wake_server q (s_read i) c r = r
  ClientRests-wake_server q (s_write i) c r = r
  ClientRests-wake_server q (s_store i) c r = r
  ClientRests-wake_server q (s_wake i) c r = r
  ClientRests-wake_server q s_done c r = r

  pub ClientAt-pings :
      (p q : ℕ) (payload : Payload) (c : Client) → ClientAt total len p q payload c → p ≤ total
  ClientAt-pings p q payload (c_write i) (a, b, c) = omega arith
  ClientAt-pings p q payload (c_store i) (a, b, c, d) = omega arith
  ClientAt-pings p q payload (c_wake i) (a, b, c, d) = omega arith
  ClientAt-pings p q payload (c_load i) (a, b, c, d) = omega arith
  ClientAt-pings p q payload (c_wait i cur) ((a, b, c, d), n) = omega arith
  ClientAt-pings p q payload (c_sleep i cur) (a, b, c, d) = omega arith
  ClientAt-pings p q payload (c_read i) (a, b, c, d) = omega arith
  ClientAt-pings p q payload c_done (a, b) = omega arith
