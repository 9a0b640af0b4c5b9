-- ===== src/Server/Registry/Steps.antt =====
-- Every step of the server is a move of its registry.
use accelerometer_tcp_json_t.Prelude.{
  ℕ, ◌<◌, ◌≡◌, ◌≢◌, refl, ap, ◌∙◌, true, false, String, arith, inl, inr, Bool-cases, ==_refl, [],
}
use accelerometer_tcp_json_t.Prelude.Text.{is_empty}
use accelerometer_tcp_json_t.Doubles.{Doubles}
use accelerometer_tcp_json_t.Json.{Json}
use accelerometer_tcp_json_t.Server.World.{Session, World, Notice, note, put}
use accelerometer_tcp_json_t.Server.Session.{close, start, read_next_line}
use accelerometer_tcp_json_t.Server.Handlers.{handle_line}
use accelerometer_tcp_json_t.Server.Events.{
  Step, Reach, Completion, ReadResult, read_done, write_done, accept_done, accept_next,
  closed_after, end_read, end_write, first_world,
}
use accelerometer_tcp_json_t.Server.Invariant.{
  Inv, Frame-Inv, Reach-Inv, close_shuts, close_others, close_fixed, split, write_done-Frame,
  open_reader,
}
use accelerometer_tcp_json_t.Server.Routing.{
  left_over, read_over, completed, left_over-Frame, read_over-Frame,
}
use accelerometer_tcp_json_t.Server.Registry.Moves.{
  Client, Move, Registers, Move-Agrees, registry, standing, Frame-Agrees, Frame-Move,
}
use accelerometer_tcp_json_t.Server.Registry.Joining.{handle_line-Move}

module _ {D : Doubles} where
  present : (s : Session D) → s.closed ≡ false → standing s ≢ Client.absent
  present s c e = elim (Bool-cases (is_empty s.role)) [
    | inl z ↦ cc (rw (c, z) at e)
    | inr z ↦ cc (rw (c, z) at e)
  ]

  -- A handler that closes its session: the client leaves, if it has not before.
  closing-Move :
      (w w0 : World D) (i : ℕ) (finish : Session D → Session D)
      → w0.count ≡ w.count
      → ((j : ℕ) → i ≢ j → w0.sessions j ≡ w.sessions j)
      → (finish ((close w0 i).sessions i)).closed ≡ true
      → Move (registry w) (registry (put (close w0 i) i (finish ((close w0 i).sessions i))))
  closing-Move w w0 i finish n h c = elim (Bool-cases (w.sessions i).closed) [
    | inl e ↦
        Move.stays ((close_fixed w0 i).0 ∙ n)
          (split i (λ j. standing (after j) ≡ standing (w.sessions j)) (gone ∙ rw e) others)
    | inr e ↦ Move.leaves i ((close_fixed w0 i).0 ∙ n) (present (w.sessions i) e) gone others
  ]
    where
      after : ℕ → Session D
      after = (put (close w0 i) i (finish ((close w0 i).sessions i))).sessions

      gone : standing (after i) ≡ Client.absent
      gone = rw (==_refl i, c) refl

      others : (j : ℕ) → i ≢ j → standing (after j) ≡ standing (w.sessions j)
      others j ne =
          let same : after j ≡ w.sessions j = ground (arith, close_others w0 i j ne, h j ne) in
          ap standing same

  closed_after-Move :
      (w : World D) (i : ℕ) (n : Notice D) → Move (registry w) (registry (closed_after w i n))
  closed_after-Move w i n =
      closing-Move w (note w n) i end_read refl (λ j ne. refl) (close_shuts (note w n) i)

  write_failed-Move :
      (w : World D) (i : ℕ) (message : String)
      → Move (registry w) (registry (write_done w i (Completion.failed message)))
  unfolding write_done
  write_failed-Move w i message =
      let emptied = record (w.sessions i) { write_queue = [] } in
      let w0 = note (put w i emptied) (Notice.write_error message) in
      closing-Move w w0 i end_write refl (λ j ne. ground arith) (close_shuts w0 i)

  accept_done-Move :
      (w : World D) (c : Completion) → Inv w → Move (registry w) (registry (accept_done w c))
  unfolding accept_done accept_next start read_next_line
  accept_done-Move w (Completion.failed message) v = Move.stays refl (λ j. refl)
  accept_done-Move w Completion.done v =
      Move.arrives refl (rw (v.unborn w.count (omega arith)) refl) (rw (==_refl w.count) refl)
        (λ j ne. ground arith)

  module _ (J : Json D) where
    read_done-Move :
        (w : World D) (i : ℕ) (r : ReadResult)
        → Inv w
        → 0 < (w.sessions i).reads
        → Move (registry w) (registry (read_done J w i r))
    unfolding read_done
    read_done-Move w i ReadResult.eof v h = closed_after-Move w i _
    read_done-Move w i (ReadResult.failed message) v h = closed_after-Move w i _
    read_done-Move w i (ReadResult.arrived bytes) v h =
        let f = left_over-Frame w i bytes in
        let handled = handle_line J (left_over w i bytes) i (completed w i bytes) in
        Move-Agrees (Frame-Agrees {w = w} f)
          (handle_line-Move J (left_over w i bytes) i (completed w i bytes)
            (rw (==_refl i) (open_reader (w.sessions i) (v.sound i) h)) (Frame-Inv f v))
          (Frame-Agrees {w = handled} {u = read_over handled i} (read_over-Frame handled i))

    pub Step-Move : {w u : World D} → Inv w → Step J w u → Move (registry w) (registry u)
    Step-Move v (Step.read i r h c) = read_done-Move _ i r v h
    Step-Move v (Step.write i Completion.done h) = Frame-Move (write_done-Frame _ i h)
    Step-Move v (Step.write i (Completion.failed message) h) = write_failed-Move _ i message
    Step-Move v (Step.accept c h) = accept_done-Move _ c v

    -- Any world that the server reaches is seen as a registry that moves lead to.
    Reach-Registers : {w : World D} → Reach J w → Registers (registry w)
    unfolding first_world accept_next
    Reach-Registers Reach.here = Registers.begins _ refl (λ j. refl)
    Reach-Registers (Reach.next r st) =
        Registers.goes_on (Reach-Registers r) (Step-Move (Reach-Inv J r) st)

    -- Seen by its clients, a reachable world is a registry that moves lead to from the one without
    -- clients, and each step from it is one move of the registry: a client arrives under the next
    -- number, a guest takes a role that no client has, a client leaves, or nothing changes.
    pub server_refines :
        {w u : World D}
        → Reach J w
        → Step J w u
        → Registers (registry w) × Move (registry w) (registry u)
    server_refines r st = (Reach-Registers r, Step-Move (Reach-Inv J r) st)
