-- ===== src/Server/Invariant/Steps.antt =====
-- Every step of the server keeps the invariant, so it holds in every world that can be reached.
use accelerometer_tcp_json_t.Prelude.{
  ℕ, ◌<◌, ◌≡◌, refl, true, false, String, List, [], ◌∷◌, arith, ==_refl,
}
use accelerometer_tcp_json_t.Prelude.Text.{◌<>◌}
use accelerometer_tcp_json_t.Prelude.Framing.{take_line}
use accelerometer_tcp_json_t.Doubles.{Doubles}
use accelerometer_tcp_json_t.Json.{Json}
use accelerometer_tcp_json_t.Server.World.{Session, World, has_elements}
use accelerometer_tcp_json_t.Server.Session.{read_next_line, write_next_message, write_front}
use accelerometer_tcp_json_t.Server.Handlers.{handle_line}
use accelerometer_tcp_json_t.Server.Events.{
  read_done, write_done, accept_next, first_world, Step, Reach, Completion, ReadResult, end_read,
  end_write, read_on, write_on, take_bytes,
}
use accelerometer_tcp_json_t.Server.Cases.{handle_line_cases}
use accelerometer_tcp_json_t.Server.Invariant.Defs.{IsSound, Inv}
use accelerometer_tcp_json_t.Server.Invariant.Frames.{
  Frame, Similar, note-Frame, put-Frame, Frame-Inv,
}
use accelerometer_tcp_json_t.Server.Invariant.Sending.{wires-Similar}
use accelerometer_tcp_json_t.Server.Invariant.Packets.{take_packet-Frame, take_module-Frame}
use accelerometer_tcp_json_t.Server.Invariant.Registering.{register_role-Inv}
use accelerometer_tcp_json_t.Server.Invariant.Accepting.{accept_done-Inv}
use accelerometer_tcp_json_t.Server.Invariant.Finishing.{closed_after-Inv, write_failed-Inv}

module _ {D : Doubles} where
  -- HandleLine keeps the invariant, for a session that is open as long as it has no role.
  pub handle_line-Inv :
      (J : Json D) (w : World D) (i : ℕ) (line : String)
      → ((w.sessions i).role ≡ "" → (w.sessions i).closed ≡ false)
      → Inv w
      → Inv (handle_line J w i line)
  handle_line-Inv J w i line opened v =
      handle_line_cases J Inv w i (λ n. Frame-Inv (note-Frame w n) v) line
        (λ json role _ _. register_role-Inv _ i role opened (Frame-Inv (note-Frame w _) v))
        (λ json p _ _ _. Frame-Inv (take_packet-Frame J w i p v) v)
        (λ json m _ _ _. Frame-Inv (take_module-Frame J w i m v) v)

  read_on-IsSound : (s : Session D) → IsSound s → IsSound (end_read (read_on s))
  unfolding read_on read_next_line
  read_on-IsSound s h = ground arith

  read_on_role : (s : Session D) → (end_read (read_on s)).role ≡ s.role
  unfolding read_on read_next_line
  read_on_role s = ground arith

  read_on_closed : (s : Session D) → (end_read (read_on s)).closed ≡ s.closed
  unfolding read_on read_next_line
  read_on_closed s = ground arith

  pub read_on-Similar : (s : Session D) → Similar s (end_read (read_on s))
  read_on-Similar s = record {
    role = read_on_role s;
    closed = read_on_closed s;
    sound = read_on-IsSound s;
  }

  write_on-IsSound :
      (s : Session D) (queue writes : List String)
      → s.write_queue ≡ queue
      → s.writes ≡ writes
      → has_elements s.writes ≡ true
      → IsSound s
      → IsSound (end_write (write_on (take_bytes s)))
  unfolding write_on write_next_message write_front
  write_on-IsSound s queue [] e f h v = ground arith
  write_on-IsSound s [] (x ∷ ws) e f h v = ground arith
  write_on-IsSound s (m ∷ []) (x ∷ ws) e f h v = ground arith
  write_on-IsSound s (m ∷ (n ∷ q)) (x ∷ ws) e f h v = ground arith

  write_on_role : (s : Session D) → (end_write (write_on (take_bytes s))).role ≡ s.role
  unfolding write_on write_next_message write_front
  write_on_role s = ground arith

  write_on_closed : (s : Session D) → (end_write (write_on (take_bytes s))).closed ≡ s.closed
  unfolding write_on write_next_message write_front
  write_on_closed s = ground arith

  pub write_done-Frame :
      (w : World D) (i : ℕ)
      → has_elements (w.sessions i).writes ≡ true
      → Frame w (write_done w i Completion.done)
  unfolding write_done
  write_done-Frame w i h =
      let s = w.sessions i in
      put-Frame w i _ (record {
        role = write_on_role s;
        closed = write_on_closed s;
        sound = write_on-IsSound s s.write_queue s.writes refl refl h;
      })

  write_done-Inv :
      (w : World D) (i : ℕ) (c : Completion)
      → Inv w
      → has_elements (w.sessions i).writes ≡ true
      → Inv (write_done w i c)
  write_done-Inv w i Completion.done v h = Frame-Inv (write_done-Frame w i h) v
  write_done-Inv w i (Completion.failed message) v h = write_failed-Inv w i message v h

  -- A session that reads and has no role is open.
  pub open_reader : (s : Session D) → IsSound s → 0 < s.reads → s.role ≡ "" → s.closed ≡ false
  open_reader s h r e = ground arith

  module _ (J : Json D) where
    read_done-Inv :
        (w : World D) (i : ℕ) (r : ReadResult)
        → Inv w
        → 0 < (w.sessions i).reads
        → Inv (read_done J w i r)
    unfolding read_done
    read_done-Inv w i ReadResult.eof v h = closed_after-Inv w i _ v h
    read_done-Inv w i (ReadResult.failed message) v h = closed_after-Inv w i _ v h
    read_done-Inv w i (ReadResult.arrived bytes) v h =
        let s = w.sessions i in
        let taken =
          put-Frame w i (record s { buffer = (take_line (s.buffer <> bytes)).1 })
            (wires-Similar s _ refl) in
        let handled =
          handle_line-Inv J _ i (take_line (s.buffer <> bytes)).0
            (rw (==_refl i) (open_reader s (v.sound i) h)) (Frame-Inv taken v) in
        Frame-Inv (put-Frame _ i _ (read_on-Similar _)) handled

    Step-Inv : {w u : World D} → Step J w u → Inv w → Inv u
    Step-Inv (Step.read i r h _) v = read_done-Inv _ i r v h
    Step-Inv (Step.write i c h) v = write_done-Inv _ i c v h
    Step-Inv (Step.accept c h) v = accept_done-Inv _ c v

    first_world-Inv : Inv (first_world {D = D})
    unfolding first_world accept_next
    first_world-Inv = record {
      sound = λ i. ground arith;
      unborn = λ i h. refl;
      slot_a = λ i. ((λ x. cc), (λ x. cc));
      slot_b = λ i. ((λ x. cc), (λ x. cc));
      accepting = refl;
    }

    -- In every world that the server can reach, each session is sound, each slot names exactly the
    -- open session of its role, and one accept is outstanding.
    pub Reach-Inv : {w : World D} → Reach J w → Inv w
    Reach-Inv Reach.here = first_world-Inv
    Reach-Inv (Reach.next r st) = Step-Inv st (Reach-Inv r)
