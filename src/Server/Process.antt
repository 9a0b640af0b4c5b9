-- ===== src/Server/Process.antt =====
-- src/server/main.cpp: the process of the server, which starts it and runs its event loop.
use accelerometer_tcp_json_t.Prelude.{
  ℕ, suc, ◌-◌, ◌<◌, ◌≡◌, refl, subst, Bool, true, false, [], arith, if◌then◌else◌, String, ==_refl,
}
use accelerometer_tcp_json_t.Doubles.{Doubles}
use accelerometer_tcp_json_t.Json.{Json}
use accelerometer_tcp_json_t.Server.World.{World, has_elements}
use accelerometer_tcp_json_t.Server.Session.{start, read_next_line}
use accelerometer_tcp_json_t.Server.Events.{
  Completion, ReadResult, Step, Reach, Completes, read_done, write_done, accept_done, accept_next,
  start_server, make_server, first_world,
}
use accelerometer_tcp_json_t.Server.Invariant.{Reach-Inv}

module _ {D : Doubles} where
  -- The handler of async_accept when remote_endpoint() throws, since the peer is already gone: the
  -- socket is dropped, and AcceptNext is not called.
  unfoldable pub accept_lost : World D → World D
  accept_lost w = record w { accepts = w.accepts - 1 }

  -- No handler is outstanding, so that run() returns.
  pub record IsIdle (w : World D) : Type 0 where
    pub accepts : w.accepts ≡ 0
    pub reads : (i : ℕ) → (w.sessions i).reads ≡ 0
    pub writes : (i : ℕ) → (w.sessions i).writes ≡ []

-- What socket.remote_endpoint() does: it gives the peer's address, or throws if there is none.
pub data Endpoint : Type 0 where
  known : Endpoint
  throws : String → Endpoint

-- `main` in io.run(), or returned with EXIT_SUCCESS (true) or EXIT_FAILURE, or ended by an
-- exception that nothing has caught.
pub data Program (D : Doubles) : Type 0 where
  running : World D → Program D
  exited : Bool → Program D
  terminated : String → World D → Program D

module _ {D : Doubles} where
  -- The completion handler of async_accept, which calls remote_endpoint() if there is no error.
  -- An exception leaves the handler before AcceptNext, and then io.run() and main.
  unfoldable pub accept_turn : World D → Completion → Endpoint → Program D
  unfolding accept_lost
  accept_turn w (Completion.failed message) endpoint =
      running (accept_done w (Completion.failed message))
  accept_turn w Completion.done Endpoint.known = running (accept_done w Completion.done)
  accept_turn w Completion.done (Endpoint.throws message) = terminated message (accept_lost w)

module _ {D : Doubles} where
  -- main up to io.run(), by how the four calls of Start end.
  unfoldable pub server_main : Completion → Completion → Completion → Completion → Program D
  unfolding start_server
  server_main opened reused bound listened =
      let started = start_server make_server opened reused bound listened in
      if started.1 then running started.0 else exited false

  module _ (J : Json D) where
    -- A handler is called by run(), or run() returns.
    pub data Turn (p : Program D) : Program D → Type 0 where
      reads :
          {w : World D} (i : ℕ) (r : ReadResult)
          → p ≡ running w
          → 0 < (w.sessions i).reads
          → Completes J (w.sessions i) r
          → Turn p (running (read_done J w i r))
      writes :
          {w : World D} (i : ℕ) (c : Completion)
          → p ≡ running w
          → has_elements (w.sessions i).writes ≡ true
          → Turn p (running (write_done w i c))
      accepts :
          {w : World D} (c : Completion) (e : Endpoint)
          → p ≡ running w
          → 0 < w.accepts
          → Turn p (accept_turn w c e)
      returns : {w : World D} → p ≡ running w → IsIdle w → Turn p (exited true)

    pub data Lives : Program D → Type 0 where
      begins :
          (opened reused bound listened : Completion)
          → Lives (server_main opened reused bound listened)
      goes_on : {p q : Program D} → Lives p → Turn p q → Lives q

    -- What each state of the process promises.
    abbrev pub Promise : Program D → Type 0
    Promise (running w) = Reach J w
    Promise (exited success) = success ≡ false
    Promise (terminated message u) =
        (u.accepts ≡ 0) × ((w : World D) × Reach J w × (u.sessions ≡ w.sessions))

    begins-Promise :
        (opened reused bound listened : Completion)
        → Promise (server_main opened reused bound listened)
    unfolding server_main first_world
    begins-Promise Completion.done Completion.done Completion.done Completion.done = Reach.here
    begins-Promise Completion.done Completion.done Completion.done (Completion.failed e) = refl
    begins-Promise Completion.done Completion.done (Completion.failed e) l = refl
    begins-Promise Completion.done (Completion.failed e) b l = refl
    begins-Promise (Completion.failed e) r b l = refl

    -- While the server runs, an accept is outstanding, so that run() has work.
    busy : (w : World D) → Reach J w → ¬ IsIdle w
    busy w r i = cc (Reach-Inv J r).accepting

    accept_turn-Promise :
        (w : World D) (c : Completion) (e : Endpoint)
        → Reach J w
        → 0 < w.accepts
        → Promise (accept_turn w c e)
    unfolding accept_turn
    accept_turn-Promise w (Completion.failed m) e r h =
        Reach.next r (Step.accept (Completion.failed m) h)
    accept_turn-Promise w Completion.done Endpoint.known r h =
        Reach.next r (Step.accept Completion.done h)
    accept_turn-Promise w Completion.done (Endpoint.throws m) r h =
        let a = (Reach-Inv J r).accepting in (omega (arith, a), (w, r, refl))

    Turn-Promise : {p q : Program D} → Turn p q → Promise p → Promise q
    Turn-Promise (Turn.reads i r e h c) v = Reach.next (subst Promise e v) (Step.read i r h c)
    Turn-Promise (Turn.writes i c e h) v = Reach.next (subst Promise e v) (Step.write i c h)
    Turn-Promise (Turn.accepts {w} c x e h) v = accept_turn-Promise w c x (subst Promise e v) h
    Turn-Promise (Turn.returns {w} e i) v = absurd (busy w (subst Promise e v) i)

    -- While the process of the server runs, the server is in a reachable world; `main` never returns
    -- EXIT_SUCCESS; and if an exception of remote_endpoint() has ended the process, the sessions are
    -- those of a reachable world, and no accept is outstanding.
    pub Lives-Promise : {p : Program D} → Lives p → Promise p
    Lives-Promise (Lives.begins o r b l) = begins-Promise o r b l
    Lives-Promise (Lives.goes_on l t) = Turn-Promise t (Lives-Promise l)

    -- How the process goes on when an accept has ended: after an error it waits for the next
    -- client, and after a connection for that and for the line of the new client; but if
    -- remote_endpoint() throws, it ends, with no new client and no further turn.
    abbrev pub AcceptEnd : World D → Completion → Endpoint → Program D → Type 0
    AcceptEnd w (Completion.failed message) endpoint p =
        (u : World D) × (p ≡ running u) × (u.accepts ≡ 1) × (u.count ≡ w.count)
    AcceptEnd w Completion.done Endpoint.known p =
        (u : World D) × (p ≡ running u)
        × (u.accepts ≡ 1)
        × (u.count ≡ suc w.count)
        × ((u.sessions w.count).reads ≡ 1)
    AcceptEnd w Completion.done (Endpoint.throws message) p =
        (u : World D) × (p ≡ terminated message u)
        × (u.accepts ≡ 0)
        × (u.count ≡ w.count)
        × ((q : Program D) → ¬ Turn p q)

    no-Turn : (message : String) (u : World D) (q : Program D) → ¬ Turn (terminated message u) q
    no-Turn message u q (Turn.reads i r e h c) = cc
    no-Turn message u q (Turn.writes i c e h) = cc
    no-Turn message u q (Turn.accepts c x e h) = cc
    no-Turn message u q (Turn.returns e i) = cc

    accept_turn-AcceptEnd :
        (w : World D) (c : Completion) (e : Endpoint)
        → w.accepts ≡ 1
        → AcceptEnd w c e (accept_turn w c e)
    unfolding accept_turn accept_done accept_next start read_next_line
    accept_turn-AcceptEnd w (Completion.failed m) e a = (_, refl, omega (arith, a), refl)
    accept_turn-AcceptEnd w Completion.done Endpoint.known a =
        (_, refl, omega (arith, a), refl, rw (==_refl w.count))
    accept_turn-AcceptEnd w Completion.done (Endpoint.throws m) a =
        (_, refl, omega (arith, a), refl, no-Turn m _)

    -- While the server runs an accept can end in any way. After an error, or a connection with a
    -- known peer, the process still runs, and waits for exactly one next client and for a line of
    -- the new one; if remote_endpoint() throws, the process has ended, has no new client and no
    -- accept outstanding, and no turn follows.
    pub accept_turn_lem :
        {w : World D}
        → Lives (running w)
        → (c : Completion) (e : Endpoint)
        → Turn (running w) (accept_turn w c e) × AcceptEnd w c e (accept_turn w c e)
    accept_turn_lem {w} l c e =
        let a = (Reach-Inv J (Lives-Promise l)).accepting in
        (Turn.accepts c e refl (omega (arith, a)), accept_turn-AcceptEnd w c e a)
