-- ===== src/Server/Routing/Writing.antt =====
-- What goes out to the clients: the messages of each queue, one at a time and in their order.
use mathlib.Core.List.{append_assoc, append-nil, append_cancel_left}
use accelerometer_tcp_json_t.Prelude.{
  ℕ, ◌<◌, ◌≡◌, refl, sym, ap, ◌∙◌, inl, inr, true, String, List, [], ◌∷◌, ◌++◌, arith, ==_refl,
}
use accelerometer_tcp_json_t.Doubles.{Doubles}
use accelerometer_tcp_json_t.Json.{Json}
use accelerometer_tcp_json_t.Server.World.{Session, World, Notice, put, note, has_elements}
use accelerometer_tcp_json_t.Server.Session.{close}
use accelerometer_tcp_json_t.Server.Handlers.{handle_line}
use accelerometer_tcp_json_t.Server.Events.{
  Step, Reach, Completion, ReadResult, read_done, write_done, accept_done, accept_next,
  closed_after, end_read, end_write, write_on, take_bytes, front, drop_front,
}
use accelerometer_tcp_json_t.Server.Invariant.{
  Inv, IsSound, Reach-Inv, split, close_others, close_shuts, Frame-Inv,
}
use accelerometer_tcp_json_t.Server.Routing.Kept.{Kept, Kept-trans, put-Kept}
use accelerometer_tcp_json_t.Server.Routing.Reading.{
  left_over, completed, left_over-Silent, left_over-Frame, read_over-Silent, read_done-over,
}
use accelerometer_tcp_json_t.Server.Routing.Outbox.{outbox, Silent, Delivered}
use accelerometer_tcp_json_t.Server.Routing.Clients.{Routed, handle_line-Routed}
use accelerometer_tcp_json_t.Server.Routing.Wires.{
  sent_of, wires_of, handle_line-sent, close-wires, write_on-sent, read_on-sent, write_on-queue,
}

module _ {D : Doubles} where
  -- What a step does to the messages whose writes have succeeded, and to those that wait.
  pub data Outgoing (s t : Session D) : Type 0 where
    -- Nothing has gone out, and messages may have been put behind those that wait.
    waits :
        (more : List String)
        → sent_of t ≡ sent_of s
        → t.write_queue ≡ s.write_queue ++ more
        → Outgoing s t
    -- The first message has gone out, and no longer waits.
    goes :
        (message : String) (rest : List String)
        → s.write_queue ≡ message ∷ rest
        → sent_of t ≡ sent_of s ++ (message ∷ [])
        → t.write_queue ≡ rest
        → Outgoing s t
    -- A write has failed: nothing waits, and the session is closed.
    drops : sent_of t ≡ sent_of s → t.write_queue ≡ [] → t.closed ≡ true → Outgoing s t

  -- What has gone out and what waits, told from the outbox and from what has gone out.
  Grows-Outgoing :
      (s t : Session D) (more : List String)
      → sent_of t ≡ sent_of s
      → outbox t ≡ outbox s ++ more
      → Outgoing s t
  Grows-Outgoing s t more e f = Outgoing.waits more e (
      append_cancel_left (sent_of s) t.write_queue (s.write_queue ++ more)
        (ap (λ l. l ++ t.write_queue) (sym e) ∙ f ∙ append_assoc (sent_of s) s.write_queue more))

  same-Outgoing : (s t : Session D) → wires_of t ≡ wires_of s → Outgoing s t
  same-Outgoing s t e =
      Outgoing.waits [] (ap (λ p. p.0) e) (ap (λ p. p.1) e ∙ sym (append-nil s.write_queue))

  front_goes :
      (s t : Session D) (q : List String)
      → s.write_queue ≡ q
      → s.writes ≡ front q
      → has_elements s.writes ≡ true
      → sent_of t ≡ sent_of s ++ front s.writes
      → t.write_queue ≡ drop_front s.write_queue
      → Outgoing s t
  front_goes s t [] e f h g d = cc (h, f)
  front_goes s t (m ∷ q) e f h g d =
      Outgoing.goes m q e (g ∙ ap (λ ms. sent_of s ++ front ms) f) (d ∙ ap drop_front e)

  written :
      (s : Session D)
      → IsSound s
      → has_elements s.writes ≡ true
      → Outgoing s (end_write (write_on (take_bytes s)))
  written s v h =
      front_goes s _ s.write_queue refl
        (elim v.writing [ inl e ↦ cc (h, ap has_elements e) | inr e ↦ e ]) h
        (write_on-sent (take_bytes s)) (write_on-queue (take_bytes s))

  closed_after-wires : (w : World D) (i : ℕ) (n : Notice D) → Kept wires_of w (closed_after w i n)
  closed_after-wires w i n =
      let w0 = close (note w n) i in
      let closed = close-wires (note w n) i in
      let over = put-Kept wires_of w0 i (end_read (w0.sessions i)) refl in
      record { same = λ j. over.same j ∙ closed.same j }

  -- A write that fails, to its own client.
  write_failed-Outgoing :
      (w : World D) (i j : ℕ) (message : String)
      → Outgoing (w.sessions j) ((write_done w i (Completion.failed message)).sessions j)
  unfolding write_done
  write_failed-Outgoing w i j message =
      let w0 =
        note (put w i (record (w.sessions i) { write_queue = [] })) (Notice.write_error message) in
      let closed = close-wires w0 i in
      let u = put (close w0 i) i (end_write ((close w0 i).sessions i)) in
      split i (λ k. Outgoing (w.sessions k) (u.sessions k))
        (rw (==_refl i) (
          Outgoing.drops (ap (λ p. p.0) (closed.same i) ∙ rw (==_refl i))
            (ap (λ p. p.1) (closed.same i) ∙ rw (==_refl i)) (close_shuts w0 i)))
        (λ k ne.
          let same : u.sessions k ≡ w.sessions k = ground (arith, close_others w0 i k ne) in
          same-Outgoing (w.sessions k) (u.sessions k) (ap wires_of same))
        j

  -- A line puts messages behind those of the outboxes.
  abbrev Grows : World D → World D → Type 0
  Grows w u =
      (j : ℕ) → (more : List String) × (outbox (u.sessions j) ≡ outbox (w.sessions j) ++ more)

  Silent-Grows : (w u : World D) → Silent w u → Grows w u
  Silent-Grows w u s j = ([], s.same j ∙ sym (append-nil (outbox (w.sessions j))))

  Delivered-Grows : (w u : World D) (b : ℕ) (line : String) → Delivered w u b line → Grows w u
  Delivered-Grows w u b line d =
      split b (λ j. (more : List String) × (outbox (u.sessions j) ≡ outbox (w.sessions j) ++ more))
        (line ∷ [], d.appended)
        (λ j ne. ([], d.others j ne ∙ sym (append-nil (outbox (w.sessions j)))))

  module _ (J : Json D) where
    Routed-Grows : (w u : World D) (i : ℕ) (line : String) → Routed J w i line u → Grows w u
    Routed-Grows w u i line (Routed.quiet s) = Silent-Grows w u s
    Routed-Grows w u i line (Routed.packet json p b e f r d g x) = Delivered-Grows w u b _ x
    Routed-Grows w u i line (Routed.module_line json m a e f r g x) = Delivered-Grows w u a _ x

    read_done-sent :
        (w : World D) (i : ℕ) (part : String)
        → Kept sent_of w (read_done J w i (ReadResult.arrived part))
    unfolding read_done
    read_done-sent w i part =
        let t = left_over w i part in
        let u = handle_line J t i (completed w i part) in
        Kept-trans sent_of w t _ (put-Kept sent_of w i _ refl) (
          Kept-trans sent_of t u _ (handle_line-sent J t i _)
            (put-Kept sent_of u i _ (read_on-sent (u.sessions i))))

    read_done-Grows :
        (w : World D) (i : ℕ) (part : String)
        → Inv w
        → Grows w (read_done J w i (ReadResult.arrived part))
    read_done-Grows w i part v j =
        let t = left_over w i part in
        let u = handle_line J t i (completed w i part) in
        let before = left_over-Silent w i part in
        let routed =
          handle_line-Routed J t i (completed w i part) (Frame-Inv (left_over-Frame w i part) v) in
        let grown = Routed-Grows t u i (completed w i part) routed j in
        (
          grown.0,
          ap (λ x. outbox (x.sessions j)) (read_done-over w i J part)
              ∙ (read_over-Silent u i).same j
              ∙ grown.1
              ∙ ap (λ o. o ++ grown.0) (before.same j),
        )

    read_done-Outgoing :
        (w : World D) (i j : ℕ) (r : ReadResult)
        → Inv w
        → Outgoing (w.sessions j) ((read_done J w i r).sessions j)
    unfolding read_done
    read_done-Outgoing w i j ReadResult.eof v =
        same-Outgoing (w.sessions j) _ ((closed_after-wires w i _).same j)
    read_done-Outgoing w i j (ReadResult.failed message) v =
        same-Outgoing (w.sessions j) _ ((closed_after-wires w i _).same j)
    read_done-Outgoing w i j (ReadResult.arrived part) v =
        let grown = read_done-Grows w i part v j in
        Grows-Outgoing (w.sessions j) _ grown.0 ((read_done-sent w i part).same j) grown.1

    Step-Outgoing :
        {w u : World D}
        → Inv w
        → Step J w u
        → (j : ℕ) → j < w.count
        → Outgoing (w.sessions j) (u.sessions j)
    unfolding write_done accept_done accept_next
    Step-Outgoing {w} v (Step.read i r h c) j l = read_done-Outgoing w i j r v
    Step-Outgoing {w} v (Step.write i (Completion.failed m) h) j l = write_failed-Outgoing w i j m
    Step-Outgoing {w} v (Step.write i Completion.done h) j l =
        split i (λ k. Outgoing (w.sessions k) ((write_done w i Completion.done).sessions k))
          (rw (==_refl i) (written (w.sessions i) (v.sound i) h))
          (λ k ne. same-Outgoing (w.sessions k) _ (ground arith)) j
    Step-Outgoing {w} v (Step.accept (Completion.failed m) h) j l =
        same-Outgoing (w.sessions j) (w.sessions j) refl
    Step-Outgoing {w} v (Step.accept Completion.done h) j l =
        same-Outgoing (w.sessions j) _ (ground arith)

    -- In each step of a running server, of the messages for a client that has connected one of three
    -- things happens: none has gone out, and those that wait keep their order, with new ones
    -- behind them; the first that waits has gone out, and only it no longer waits; or a write has
    -- failed, and the session is closed with none waiting. A message has gone out when its write has
    -- succeeded.
    pub writes_in_order :
        {w u : World D}
        → Reach J w
        → Step J w u
        → (j : ℕ) → j < w.count
        → Outgoing (w.sessions j) (u.sessions j)
    writes_in_order r st j l = Step-Outgoing (Reach-Inv J r) st j l
