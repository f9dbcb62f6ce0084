-- ===== src/PingPong/Turns.antt =====
-- bench/ipc_pingpong/src/main.rs: whose turn it is, in every interleaving of the two processes.
use scx_cohort.Base.Words.{u32_mod}
use scx_cohort.Base.{ℕ, suc, ◌%◌, ◌≤◌, ◌≡◌, ap, ◌∙◌, ◌⊎◌, inl, inr, false, arith, nat_beq}
use scx_cohort.PingPong.{
  Payload, payload_write, reply, Client, c_write, c_store, c_wake, c_load, c_wait, c_sleep, c_read,
  c_done, Server, s_load, s_wait, s_sleep, s_read, s_write, s_store, s_wake, s_done, State,
  wake_server, wake_client,
}

module _ (total len : ℕ) where
  -- The client has stored `p` pings and the server `q` pongs.
  module _ (p q : ℕ) (payload : Payload) where
    abbrev pub AwaitsPong : ℕ → Type 0
    AwaitsPong i =
        (p ≡ i)
        × (i ≤ total)
        × ((q ≡ i) ⊎ (suc q ≡ i))
        × (q ≡ i → payload ≡ payload_write len (reply i))

    abbrev pub AwaitsPing : ℕ → Type 0
    AwaitsPing i =
        (suc q ≡ i)
        × (i ≤ total)
        × ((p ≡ i) ⊎ (suc p ≡ i))
        × (p ≡ i → payload ≡ payload_write len i)

    abbrev pub ClientAt : Client → Type 0
    ClientAt (c_write i) = (p ≡ q) × (suc p ≡ i) × (i ≤ total)
    ClientAt (c_store i) = (p ≡ q) × (suc p ≡ i) × (i ≤ total) × (payload ≡ payload_write len i)
    ClientAt (c_wake i) = AwaitsPong i
    ClientAt (c_load i) = AwaitsPong i
    ClientAt (c_wait i cur) = AwaitsPong i × (nat_beq cur (i % u32_mod) ≡ false)
    ClientAt (c_sleep i cur) = AwaitsPong i
    ClientAt (c_read i) = (p ≡ i) × (q ≡ i) × (i ≤ total) × (payload ≡ payload_write len (reply i))
    ClientAt c_done = (p ≡ total) × (q ≡ total)

    abbrev pub ServerAt : Server → Type 0
    ServerAt (s_load i) = AwaitsPing i
    ServerAt (s_wait i cur) = AwaitsPing i × (nat_beq cur (i % u32_mod) ≡ false)
    ServerAt (s_sleep i cur) = AwaitsPing i
    ServerAt (s_read i) = (p ≡ i) × (suc q ≡ i) × (i ≤ total) × (payload ≡ payload_write len i)
    ServerAt (s_write i) = (p ≡ i) × (suc q ≡ i) × (i ≤ total)
    ServerAt (s_store i) =
        (p ≡ i) × (suc q ≡ i) × (i ≤ total) × (payload ≡ payload_write len (reply i))
    ServerAt (s_wake i) =
        (q ≡ i)
        × (i ≤ total)
        × ((p ≡ i) ⊎ (p ≡ suc i))
        × (p ≡ suc i → payload ≡ payload_write len (suc i))
    ServerAt s_done = (q ≡ total) × (p ≤ total)

  -- A sleeper whose word has been stored to has a wake-up to come.
  abbrev pub ClientRests : ℕ → Server → Client → Type 0
  ClientRests q s (c_sleep i cur) = q ≡ i → s ≡ s_wake i
  ClientRests q s _ = Unit {0}

  abbrev pub ServerRests : ℕ → Client → Server → Type 0
  ServerRests p c (s_sleep i cur) = p ≡ i → c ≡ c_wake i
  ServerRests p c _ = Unit {0}

  pub record IsInTurn (s : State) : Type 0 where
    pub p : ℕ
    pub q : ℕ
    pub ping_is : s.ping ≡ p % u32_mod
    pub pong_is : s.pong ≡ q % u32_mod
    pub client_at : ClientAt p q s.payload s.client
    pub server_at : ServerAt p q s.payload s.server
    pub client_rests : ClientRests q s.server s.client
    pub server_rests : ServerRests p s.client s.server

  -- A stored ping leaves the server where it is.
  pub ServerAt-ping :
      (p q : ℕ) (payload : Payload) (s : Server)
      → p ≡ q
      → suc p ≤ total
      → payload ≡ payload_write len (suc p)
      → ServerAt p q payload s
      → ServerAt (suc p) q payload s
  ServerAt-ping p q payload (s_load i) e le w (a, b, c, d) =
      (a, b, inl (omega arith), λ g. w ∙ ap (payload_write len) g)
  ServerAt-ping p q payload (s_wait i cur) e le w ((a, b, c, d), n) =
      ((a, b, inl (omega arith), λ g. w ∙ ap (payload_write len) g), n)
  ServerAt-ping p q payload (s_sleep i cur) e le w (a, b, c, d) =
      (a, b, inl (omega arith), λ g. w ∙ ap (payload_write len) g)
  ServerAt-ping p q payload (s_read i) e le w (a, b, c, d) = absurd (omega arith)
  ServerAt-ping p q payload (s_write i) e le w (a, b, c) = absurd (omega arith)
  ServerAt-ping p q payload (s_store i) e le w (a, b, c, d) = absurd (omega arith)
  ServerAt-ping p q payload (s_wake i) e le w (a, b, c, d) =
      (a, b, inr (omega arith), λ g. w ∙ ap (payload_write len) g)
  ServerAt-ping p q payload s_done e le w (a, b) = (a, omega arith)

  -- While the pings and the pongs are even, the server knows nothing of the payload.
  pub ServerAt-write :
      (p q : ℕ) (payload other : Payload) (s : Server)
      → p ≡ q
      → ServerAt p q payload s
      → ServerAt p q other s
  ServerAt-write p q payload other (s_load i) e (a, b, c, d) = (a, b, c, λ g. absurd (omega arith))
  ServerAt-write p q payload other (s_wait i cur) e ((a, b, c, d), n) =
      ((a, b, c, λ g. absurd (omega arith)), n)
  ServerAt-write p q payload other (s_sleep i cur) e (a, b, c, d) =
      (a, b, c, λ g. absurd (omega arith))
  ServerAt-write p q payload other (s_read i) e (a, b, c, d) = absurd (omega arith)
  ServerAt-write p q payload other (s_write i) e (a, b, c) = (a, b, c)
  ServerAt-write p q payload other (s_store i) e (a, b, c, d) = absurd (omega arith)
  ServerAt-write p q payload other (s_wake i) e (a, b, c, d) = (a, b, c, λ g. absurd (omega arith))
  ServerAt-write p q payload other s_done e at = at

  pub ServerAt-wake_server :
      (p q : ℕ) (payload : Payload) (s : Server)
      → ServerAt p q payload s
      → ServerAt p q payload (wake_server s)
  unfolding wake_server
  ServerAt-wake_server p q payload (s_load i) at = at
  ServerAt-wake_server p q payload (s_wait i cur) at = at
  ServerAt-wake_server p q payload (s_sleep i cur) at = at
  ServerAt-wake_server p q payload (s_read i) at = at
  ServerAt-wake_server p q payload (s_write i) at = at
  ServerAt-wake_server p q payload (s_store i) at = at
  ServerAt-wake_server p q payload (s_wake i) at = at
  ServerAt-wake_server p q payload s_done at = at

  -- A stored pong leaves the client where it is.
  pub ClientAt-pong :
      (p q : ℕ) (payload : Payload) (c : Client)
      → suc q ≡ p
      → payload ≡ payload_write len (reply p)
      → ClientAt p q payload c
      → ClientAt p (suc q) payload c
  ClientAt-pong p q payload (c_write i) e w (a, b, c) = absurd (omega arith)
  ClientAt-pong p q payload (c_store i) e w (a, b, c, d) = absurd (omega arith)
  ClientAt-pong p q payload (c_wake i) e w (a, b, c, d) =
      (a, b, inl (omega arith), λ g. w ∙ ap (λ n. payload_write len (reply n)) a)
  ClientAt-pong p q payload (c_load i) e w (a, b, c, d) =
      (a, b, inl (omega arith), λ g. w ∙ ap (λ n. payload_write len (reply n)) a)
  ClientAt-pong p q payload (c_wait i cur) e w ((a, b, c, d), n) =
      ((a, b, inl (omega arith), λ g. w ∙ ap (λ n. payload_write len (reply n)) a), n)
  ClientAt-pong p q payload (c_sleep i cur) e w (a, b, c, d) =
      (a, b, inl (omega arith), λ g. w ∙ ap (λ n. payload_write len (reply n)) a)
  ClientAt-pong p q payload (c_read i) e w (a, b, c, d) = absurd (omega arith)
  ClientAt-pong p q payload c_done e w (a, b) = absurd (omega arith)

  pub ClientAt-write :
      (p q : ℕ) (payload other : Payload) (c : Client)
      → suc q ≡ p
      → ClientAt p q payload c
      → ClientAt p q other c
  ClientAt-write p q payload other (c_write i) e at = at
  ClientAt-write p q payload other (c_store i) e (a, b, c, d) = absurd (omega arith)
  ClientAt-write p q payload other (c_wake i) e (a, b, c, d) = (a, b, c, λ g. absurd (omega arith))
  ClientAt-write p q payload other (c_load i) e (a, b, c, d) = (a, b, c, λ g. absurd (omega arith))
  ClientAt-write p q payload other (c_wait i cur) e ((a, b, c, d), n) =
      ((a, b, c, λ g. absurd (omega arith)), n)
  ClientAt-write p q payload other (c_sleep i cur) e (a, b, c, d) =
      (a, b, c, λ g. absurd (omega arith))
  ClientAt-write p q payload other (c_read i) e (a, b, c, d) = absurd (omega arith)
  ClientAt-write p q payload other c_done e at = at

  pub ClientAt-wake_client :
      (p q : ℕ) (payload : Payload) (c : Client)
      → ClientAt p q payload c
      → ClientAt p q payload (wake_client c)
  unfolding wake_client
  ClientAt-wake_client p q payload (c_write i) at = at
  ClientAt-wake_client p q payload (c_store i) at = at
  ClientAt-wake_client p q payload (c_wake i) at = at
  ClientAt-wake_client p q payload (c_load i) at = at
  ClientAt-wake_client p q payload (c_wait i cur) at = at
  ClientAt-wake_client p q payload (c_sleep i cur) at = at
  ClientAt-wake_client p q payload (c_read i) at = at
  ClientAt-wake_client p q payload c_done at = at
