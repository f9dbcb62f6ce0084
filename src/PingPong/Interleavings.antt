-- ===== src/PingPong/Interleavings.antt =====
-- bench/ipc_pingpong/src/main.rs: what holds in every interleaving of the client and the server.

use scx_cohort.Base.{
  ℕ, suc, ◌≡◌, refl, sym, subst, ◌∙◌, ◌⊎◌, inl, inr, Bool, true, false, Option, some, arith, ltb,
  if◌then◌else◌, if_known,
}
use scx_cohort.PingPong.{
  Payload, payload_write, reply, Client, c_write, c_store, c_wake, c_load, c_wait, c_sleep, c_read,
  c_done, Server, s_load, s_wait, s_sleep, s_read, s_write, s_store, s_wake, s_done, State,
  next_round, next_turn, client_step, server_step, start, Step, by_client, by_server, client_stirs,
  server_stirs, Reachable, at_start, later,
}
use scx_cohort.PingPong.Rests.{
  ServerRests-wake_server, ServerRests-wake_client, ClientRests-wake_client,
  ClientRests-wake_server,
}
use scx_cohort.PingPong.Steps.{Kept, client_step-Kept, server_step-Kept}
use scx_cohort.PingPong.Turns.{
  ClientAt, ServerAt, ClientRests, ServerRests, IsInTurn, ServerAt-wake_server,
  ClientAt-wake_client,
}

-- A process that is at a walk over the payload.
abbrev pub ClientWalks : Client → Type 0
ClientWalks (c_write i) = Unit {0}
ClientWalks (c_read i) = Unit {0}
ClientWalks _ = ⊥

abbrev pub ServerWalks : Server → Type 0
ServerWalks (s_write i) = Unit {0}
ServerWalks (s_read i) = Unit {0}
ServerWalks _ = ⊥

module _ (total len : ℕ) where
  contrary : {b : Bool} → b ≡ true → b ≡ false → ⊥
  contrary e g = cc (sym e ∙ g)

  start-IsInTurn : IsInTurn total len (start total len)
  unfolding start next_round next_turn
  start-IsInTurn =
      if_known
        (λ c. IsInTurn total len (record (start total len) {
          client = c;
          server = if ltb total 1 then s_done else s_load 1;
        }))
        (ltb total 1)
        (λ e.
          if_known
            (λ v. IsInTurn total len (record (start total len) { client = c_done; server = v }))
            (ltb total 1)
            (λ e. record {
              p = 0;
              q = 0;
              ping_is = refl;
              pong_is = refl;
              client_at = (ground arith, ground arith);
              server_at = (ground arith, omega arith);
              client_rests = tt;
              server_rests = tt;
            })
            (λ e'. absurd (contrary e e')))
        (λ e.
          if_known
            (λ v. IsInTurn total len (record (start total len) { client = c_write 1; server = v }))
            (ltb total 1) (λ e'. absurd (contrary e' e))
            (λ e'. record {
              p = 0;
              q = 0;
              ping_is = refl;
              pong_is = refl;
              client_at = (refl, refl, ground arith);
              server_at = (refl, ground arith, inr refl, λ g. absurd (omega arith));
              client_rests = tt;
              server_rests = tt;
            }))

  Kept-IsInTurn :
      (t : State) (o : Option State) → Kept total len o → o ≡ some t → IsInTurn total len t
  Kept-IsInTurn t o k e = subst (Kept total len) e k

  Step-IsInTurn : (s t : State) → Step total len s t → IsInTurn total len s → IsInTurn total len t
  Step-IsInTurn s t (by_client _ _ h) r =
      Kept-IsInTurn t (client_step total len s.client s)
        (client_step-Kept total len s r.p r.q r.ping_is r.pong_is r.server_at s.client r.client_at
          r.client_rests r.server_rests)
        h
  Step-IsInTurn s t (by_server _ _ h) r =
      Kept-IsInTurn t (server_step total len s.server s)
        (server_step-Kept total len s r.p r.q r.ping_is r.pong_is r.client_at s.server r.server_at
          r.client_rests r.server_rests)
        h
  Step-IsInTurn s t (client_stirs _) r = record {
    p = r.p;
    q = r.q;
    ping_is = r.ping_is;
    pong_is = r.pong_is;
    client_at = ClientAt-wake_client total len r.p r.q s.payload s.client r.client_at;
    server_at = r.server_at;
    client_rests = ClientRests-wake_client total len r.q s.server s.client;
    server_rests = ServerRests-wake_client total len r.p s.client s.server r.server_rests;
  }
  Step-IsInTurn s t (server_stirs _) r = record {
    p = r.p;
    q = r.q;
    ping_is = r.ping_is;
    pong_is = r.pong_is;
    client_at = r.client_at;
    server_at = ServerAt-wake_server total len r.p r.q s.payload s.server r.server_at;
    client_rests = ClientRests-wake_server total len r.q s.server s.client r.client_rests;
    server_rests = ServerRests-wake_server total len r.p s.client s.server;
  }

  Reachable-IsInTurn : (s : State) → Reachable total len s → IsInTurn total len s
  Reachable-IsInTurn s at_start = start-IsInTurn
  Reachable-IsInTurn t (later s _ r step) = Step-IsInTurn s t step (Reachable-IsInTurn s r)

  ClientWalks-even :
      (p q : ℕ) (payload : Payload) (c : Client)
      → ClientAt total len p q payload c
      → ClientWalks c
      → p ≡ q
  ClientWalks-even p q payload (c_write i) (a, b, e) w = omega arith
  ClientWalks-even p q payload (c_store i) at w = absurd w
  ClientWalks-even p q payload (c_wake i) at w = absurd w
  ClientWalks-even p q payload (c_load i) at w = absurd w
  ClientWalks-even p q payload (c_wait i cur) at w = absurd w
  ClientWalks-even p q payload (c_sleep i cur) at w = absurd w
  ClientWalks-even p q payload (c_read i) (a, b, e, d) w = omega arith
  ClientWalks-even p q payload c_done at w = absurd w

  ServerWalks-odd :
      (p q : ℕ) (payload : Payload) (v : Server)
      → ServerAt total len p q payload v
      → ServerWalks v
      → p ≡ suc q
  ServerWalks-odd p q payload (s_load i) at w = absurd w
  ServerWalks-odd p q payload (s_wait i cur) at w = absurd w
  ServerWalks-odd p q payload (s_sleep i cur) at w = absurd w
  ServerWalks-odd p q payload (s_read i) (a, b, e, d) w = omega arith
  ServerWalks-odd p q payload (s_write i) (a, b, e) w = omega arith
  ServerWalks-odd p q payload (s_store i) at w = absurd w
  ServerWalks-odd p q payload (s_wake i) at w = absurd w
  ServerWalks-odd p q payload s_done at w = absurd w

  -- What a process reads, and that some process can go on.
  abbrev pub GoesOn : State → Type 0
  GoesOn s =
      ((s.client ≡ c_done) × (s.server ≡ s_done))
      ⊎ (((t : State) × (client_step total len s.client s ≡ some t))
          ⊎ ((t : State) × (server_step total len s.server s ≡ some t)))

  pub record IsFair (s : State) : Type 0 where
    pub apart : ClientWalks s.client → ServerWalks s.server → ⊥
    pub server_reads : (i : ℕ) → s.server ≡ s_read i → s.payload ≡ payload_write len i
    pub client_reads : (i : ℕ) → s.client ≡ c_read i → s.payload ≡ payload_write len (reply i)
    pub goes_on : GoesOn s

  module _ (s : State) (p q : ℕ) (payload : Payload) where
    abbrev OneGoes : Client → Server → Type 0
    OneGoes c v =
        ((c ≡ c_done) × (v ≡ s_done))
        ⊎ (((t : State) × (client_step total len c s ≡ some t))
            ⊎ ((t : State) × (server_step total len v s ≡ some t)))

    -- The server goes on where the client rests or is done.
    server_goes :
        (c : Client) (v : Server)
        → ServerAt total len p q payload v
        → (v ≡ s_done → OneGoes c v)
        → ((i cur : ℕ) → v ≡ s_sleep i cur → OneGoes c v)
        → OneGoes c v
    unfolding server_step
    server_goes c (s_load i) at ends sleeps = inr (inr (_, refl))
    server_goes c (s_wait i cur) at ends sleeps = inr (inr (_, refl))
    server_goes c (s_sleep i cur) at ends sleeps = sleeps i cur refl
    server_goes c (s_read i) at ends sleeps = inr (inr (_, refl))
    server_goes c (s_write i) at ends sleeps = inr (inr (_, refl))
    server_goes c (s_store i) at ends sleeps = inr (inr (_, refl))
    server_goes c (s_wake i) at ends sleeps = inr (inr (_, refl))
    server_goes c s_done at ends sleeps = ends refl

    either_goes :
        (c : Client) (v : Server)
        → ClientAt total len p q payload c
        → ServerAt total len p q payload v
        → ClientRests total len q v c
        → ServerRests total len p c v
        → OneGoes c v
    unfolding client_step
    either_goes (c_write i) v at av cr sr = inr (inl (_, refl))
    either_goes (c_store i) v at av cr sr = inr (inl (_, refl))
    either_goes (c_wake i) v at av cr sr = inr (inl (_, refl))
    either_goes (c_load i) v at av cr sr = inr (inl (_, refl))
    either_goes (c_wait i cur) v at av cr sr = inr (inl (_, refl))
    either_goes (c_sleep i cur) v (pings, le, pongs, answer) av cr sr =
        server_goes (c_sleep i cur) v av (λ e. absurd (after_all e pongs))
          (λ j cur' e. absurd (both j cur' e pongs))
      where
        after_all : v ≡ s_done → (q ≡ i) ⊎ (suc q ≡ i) → ⊥
        after_all e (inl same) = cc (sym e ∙ cr same)
        after_all e (inr before) =
            let (ended, most) = subst (ServerAt total len p q payload) e av in omega arith

        both : (j cur' : ℕ) → v ≡ s_sleep j cur' → (q ≡ i) ⊎ (suc q ≡ i) → ⊥
        both j cur' e (inl same) = cc (sym e ∙ cr same)
        both j cur' e (inr before) =
            let (next, _, _, _) = subst (ServerAt total len p q payload) e av in
            let rests = subst (ServerRests total len p (c_sleep i cur)) e sr in
            let never : c_sleep i cur ≡ c_wake j = rests (pings ∙ sym before ∙ next) in cc never
    either_goes (c_read i) v at av cr sr = inr (inl (_, refl))
    either_goes c_done v (pings, pongs) av cr sr =
        server_goes c_done v av (λ e. inl (refl, e))
          (λ j cur e.
            let (next, le, _, _) = subst (ServerAt total len p q payload) e av in
            absurd (omega arith))

-- However the steps of the client and the server interleave, and whenever a wait returns for no reason:
-- the two are never at a walk over the payload at once; what the server reads in a round is the message
-- of the client for it, whole, and what the client reads is the server's reply; and until both are done
-- one of them can go on, so no wake-up is lost.
pub Reachable-IsFair : (total len : ℕ) (s : State) → Reachable total len s → IsFair total len s
Reachable-IsFair total len s reached =
    let r = Reachable-IsInTurn total len s reached in
    record {
      apart = λ c v.
          let even : r.p ≡ r.q =
            ClientWalks-even total len r.p r.q s.payload s.client r.client_at c in
          let odd : r.p ≡ suc r.q =
            ServerWalks-odd total len r.p r.q s.payload s.server r.server_at v in
          omega arith;
      server_reads = λ i e. (subst (ServerAt total len r.p r.q s.payload) e r.server_at).3;
      client_reads = λ i e. (subst (ClientAt total len r.p r.q s.payload) e r.client_at).3;
      goes_on =
          either_goes total len s r.p r.q s.payload s.client s.server r.client_at r.server_at
            r.client_rests r.server_rests;
    }
