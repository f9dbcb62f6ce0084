-- ===== src/PingPong/Steps.antt =====
-- bench/ipc_pingpong/src/main.rs: every step keeps the turns.
use scx_cohort.Base.Words.{u32_mod, add64}
use scx_cohort.Base.{
  ℕ, suc, ◌%◌, ◌≡◌, refl, sym, ap, ◌∙◌, ◌⊎◌, inl, inr, true, Option, none, some, arith, ltb,
  nat_beq, if_known,
}
use scx_cohort.PingPong.{
  payload_write, payload_read, reply, Client, c_write, c_store, c_wake, c_load, c_wait, c_sleep,
  c_read, c_done, Server, s_load, s_wait, s_sleep, s_read, s_write, s_store, s_wake, s_done, State,
  wake_client, next_round, next_turn, client_step, server_step,
}
use scx_cohort.PingPong.Turns.{
  ClientAt, ServerAt, ClientRests, ServerRests, IsInTurn, ServerAt-ping, ServerAt-write,
  ServerAt-wake_server, ClientAt-pong, ClientAt-write, ClientAt-wake_client,
}
use scx_cohort.PingPong.Rests.{
  ServerRests-client, ServerRests-c_wake, ServerRests-wake_server, ClientRests-server,
  ClientRests-s_wake, ClientRests-wake_client, ClientAt-pings,
}

module _ (total len : ℕ) where
  -- What a step leads to is in turn.
  abbrev pub Kept : Option State → Type 0
  Kept none = Unit {0}
  Kept (some t) = IsInTurn total len t

  -- The parts of the invariant, with where the processes are.
  module _ (s : State) (p q : ℕ) (ping_is : s.ping ≡ p % u32_mod)
      (pong_is : s.pong ≡ q % u32_mod) where
    -- The client has moved, by its own step, and has stored nothing.
    moved_client :
        (c c' : Client)
        → ((i : ℕ) → c ≡ c_wake i → ⊥)
        → ServerAt total len p q s.payload s.server
        → ServerRests total len p c s.server
        → ClientAt total len p q s.payload c'
        → ClientRests total len q s.server c'
        → (sink : ℕ) → IsInTurn total len (record s { client = c'; client_sink = sink })
    moved_client c c' other at rests at' rests' sink = record {
      p = p;
      q = q;
      ping_is = ping_is;
      pong_is = pong_is;
      client_at = at';
      server_at = at;
      client_rests = rests';
      server_rests = ServerRests-client total len p c c' s.server other rests;
    }

    moved_server :
        (v v' : Server)
        → ((i : ℕ) → v ≡ s_wake i → ⊥)
        → ClientAt total len p q s.payload s.client
        → ClientRests total len q v s.client
        → ServerAt total len p q s.payload v'
        → ServerRests total len p s.client v'
        → (sink : ℕ) → IsInTurn total len (record s { server = v'; server_sink = sink })
    moved_server v v' other at rests at' rests' sink = record {
      p = p;
      q = q;
      ping_is = ping_is;
      pong_is = pong_is;
      client_at = at;
      server_at = at';
      client_rests = ClientRests-server total len q v v' s.client other rests;
      server_rests = rests';
    }

    module _ (server_at : ServerAt total len p q s.payload s.server) where
      pub client_step-Kept :
          (c : Client)
          → ClientAt total len p q s.payload c
          → ClientRests total len q s.server c
          → ServerRests total len p c s.server
          → Kept (client_step total len c s)
      unfolding client_step next_round
      client_step-Kept (c_write i) (even, next, le) cr sr = record {
        p = p;
        q = q;
        ping_is = ping_is;
        pong_is = pong_is;
        client_at = (even, next, le, refl);
        server_at =
            ServerAt-write total len p q s.payload (payload_write len i) s.server even server_at;
        client_rests = tt;
        server_rests =
            ServerRests-client total len p (c_write i) (c_store i) s.server (λ j e. absurd (cc e))
              sr;
      }
      client_step-Kept (c_store i) (even, next, le, written) cr sr = record {
        p = suc p;
        q = q;
        ping_is = ap (λ n. n % u32_mod) (sym next);
        pong_is = pong_is;
        client_at = (next, le, inr (omega arith), λ g. absurd (omega arith));
        server_at =
            ServerAt-ping total len p q s.payload s.server even (omega arith)
              (written ∙ ap (payload_write len) (sym next)) server_at;
        client_rests = tt;
        server_rests = ServerRests-c_wake total len (suc p) i s.server next;
      }
      client_step-Kept (c_wake i) at cr sr = record {
        p = p;
        q = q;
        ping_is = ping_is;
        pong_is = pong_is;
        client_at = at;
        server_at = ServerAt-wake_server total len p q s.payload s.server server_at;
        client_rests = tt;
        server_rests = ServerRests-wake_server total len p (c_load i) s.server;
      }
      client_step-Kept (c_load i) (pings, le, pongs, answer) cr sr =
          if_known (λ c. IsInTurn total len (record s { client = c }))
            (nat_beq s.pong (i % u32_mod))
            (λ e.
              let same : q ≡ i = round_of e pongs in
              moved_client (c_load i) (c_read i) (λ j e. absurd (cc e)) server_at sr
                (pings, same, le, answer same) tt s.client_sink)
            (λ e.
              moved_client (c_load i) (c_wait i s.pong) (λ j e. absurd (cc e)) server_at sr
                ((pings, le, pongs, answer), e) tt s.client_sink)
        where
          round_of : nat_beq s.pong (i % u32_mod) ≡ true → (q ≡ i) ⊎ (suc q ≡ i) → q ≡ i
          round_of e (inl same) = same
          round_of e (inr before) = let word : s.pong ≡ i % u32_mod = ground arith in omega arith
      client_step-Kept (c_wait i cur) ((pings, le, pongs, answer), stale) cr sr =
          if_known (λ c. IsInTurn total len (record s { client = c })) (nat_beq s.pong cur)
            (λ e.
              let word : s.pong ≡ cur = ground arith in
              let other : cur ≡ i % u32_mod → ⊥ = λ g. ground arith in
              moved_client (c_wait i cur) (c_sleep i cur) (λ j e. absurd (cc e)) server_at sr
                (pings, le, pongs, answer)
                (λ g. absurd (other (sym word ∙ pong_is ∙ ap (λ n. n % u32_mod) g))) s.client_sink)
            (λ e.
              moved_client (c_wait i cur) (c_load i) (λ j e. absurd (cc e)) server_at sr
                (pings, le, pongs, answer) tt s.client_sink)
      client_step-Kept (c_sleep i cur) at cr sr = tt
      client_step-Kept (c_read i) (pings, pongs, le, answer) cr sr =
          if_known
            (λ c. IsInTurn total len (record s {
              client = c;
              client_sink = add64 s.client_sink (payload_read s.payload 0);
            }))
            (ltb total (suc i))
            (λ e.
              moved_client (c_read i) c_done (λ j e. absurd (cc e)) server_at sr
                (ground arith, ground arith) tt _)
            (λ e.
              moved_client (c_read i) (c_write (suc i)) (λ j e. absurd (cc e)) server_at sr
                (omega arith, omega arith, ground arith) tt _)
      client_step-Kept c_done at cr sr = tt

    module _ (client_at : ClientAt total len p q s.payload s.client) where
      pub server_step-Kept :
          (v : Server)
          → ServerAt total len p q s.payload v
          → ClientRests total len q v s.client
          → ServerRests total len p s.client v
          → Kept (server_step total len v s)
      unfolding server_step next_turn
      server_step-Kept (s_load i) (pongs, le, pings, message) cr sr =
          if_known (λ v. IsInTurn total len (record s { server = v }))
            (nat_beq s.ping (i % u32_mod))
            (λ e.
              let same : p ≡ i = round_of e pings in
              moved_server (s_load i) (s_read i) (λ j e. absurd (cc e)) client_at cr
                (same, pongs, le, message same) tt s.server_sink)
            (λ e.
              moved_server (s_load i) (s_wait i s.ping) (λ j e. absurd (cc e)) client_at cr
                ((pongs, le, pings, message), e) tt s.server_sink)
        where
          round_of : nat_beq s.ping (i % u32_mod) ≡ true → (p ≡ i) ⊎ (suc p ≡ i) → p ≡ i
          round_of e (inl same) = same
          round_of e (inr before) = let word : s.ping ≡ i % u32_mod = ground arith in omega arith
      server_step-Kept (s_wait i cur) ((pongs, le, pings, message), stale) cr sr =
          if_known (λ v. IsInTurn total len (record s { server = v })) (nat_beq s.ping cur)
            (λ e.
              let word : s.ping ≡ cur = ground arith in
              let other : cur ≡ i % u32_mod → ⊥ = λ g. ground arith in
              moved_server (s_wait i cur) (s_sleep i cur) (λ j e. absurd (cc e)) client_at cr
                (pongs, le, pings, message)
                (λ g. absurd (other (sym word ∙ ping_is ∙ ap (λ n. n % u32_mod) g))) s.server_sink)
            (λ e.
              moved_server (s_wait i cur) (s_load i) (λ j e. absurd (cc e)) client_at cr
                (pongs, le, pings, message) tt s.server_sink)
      server_step-Kept (s_sleep i cur) at cr sr = tt
      server_step-Kept (s_read i) (pings, pongs, le, message) cr sr =
          moved_server (s_read i) (s_write i) (λ j e. absurd (cc e)) client_at cr (pings, pongs, le)
            tt _
      server_step-Kept (s_write i) (pings, pongs, le) cr sr = record {
        p = p;
        q = q;
        ping_is = ping_is;
        pong_is = pong_is;
        client_at =
            ClientAt-write total len p q s.payload (payload_write len (reply i)) s.client
              (omega arith) client_at;
        server_at = (pings, pongs, le, refl);
        client_rests =
            ClientRests-server total len q (s_write i) (s_store i) s.client (λ j e. absurd (cc e))
              cr;
        server_rests = tt;
      }
      server_step-Kept (s_store i) (pings, pongs, le, written) cr sr = record {
        p = p;
        q = suc q;
        ping_is = ping_is;
        pong_is = ap (λ n. n % u32_mod) (sym pongs);
        client_at =
            ClientAt-pong total len p q s.payload s.client (omega arith)
              (written ∙ ap (λ n. payload_write len (reply n)) (sym pings)) client_at;
        server_at = (pongs, le, inl pings, λ g. absurd (omega arith));
        client_rests = ClientRests-s_wake total len (suc q) i s.client pongs;
        server_rests = tt;
      }
      server_step-Kept (s_wake i) (pongs, le, pings, message) cr sr =
          if_known
            (λ v. IsInTurn total len (record s { client = wake_client s.client; server = v }))
            (ltb total (suc i))
            (λ e.
              woken s_done (ground arith, ClientAt-pings total len p q s.payload s.client client_at)
                tt)
            (λ e. woken (s_load (suc i)) (ap suc pongs, ground arith, swapped pings, message) tt)
        where
          swapped : (p ≡ i) ⊎ (p ≡ suc i) → (p ≡ suc i) ⊎ (suc p ≡ suc i)
          swapped (inl e) = inr (ap suc e)
          swapped (inr e) = inl e

          woken :
              (v : Server)
              → ServerAt total len p q s.payload v
              → ServerRests total len p (wake_client s.client) v
              → IsInTurn total len (record s { client = wake_client s.client; server = v })
          woken v at rests = record {
            p = p;
            q = q;
            ping_is = ping_is;
            pong_is = pong_is;
            client_at = ClientAt-wake_client total len p q s.payload s.client client_at;
            server_at = at;
            client_rests = ClientRests-wake_client total len q v s.client;
            server_rests = rests;
          }
      server_step-Kept s_done at cr sr = tt
