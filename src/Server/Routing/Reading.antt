-- ===== src/Server/Routing/Reading.antt =====
-- A read of a session: what stays when the line has been taken out of the buffer and when the next
-- read has been started.
use accelerometer_tcp_json_t.Prelude.{ℕ, ◌≡◌, ◌≢◌, refl, true, false, String, arith, ==_refl}
use accelerometer_tcp_json_t.Prelude.Text.{◌<>◌, has_newline}
use accelerometer_tcp_json_t.Prelude.Framing.{take_line}
use accelerometer_tcp_json_t.Doubles.{Doubles}
use accelerometer_tcp_json_t.Json.{Json}
use accelerometer_tcp_json_t.Server.World.{Session, World, put}
use accelerometer_tcp_json_t.Server.Session.{read_next_line}
use accelerometer_tcp_json_t.Server.Handlers.{handle_line}
use accelerometer_tcp_json_t.Server.Events.{ReadResult, Step, Reach, read_done, read_on, end_read}
use accelerometer_tcp_json_t.Server.Invariant.{
  Frame, put-Frame, wires-Similar, read_on-Similar, Reach-Inv,
}
use accelerometer_tcp_json_t.Server.Routing.Outbox.{outbox, Silent}
use accelerometer_tcp_json_t.Server.Routing.Packets.{put-Silent}
use accelerometer_tcp_json_t.Server.Routing.Kept.{Kept, put-Kept}
use accelerometer_tcp_json_t.Server.Routing.Latest.{last_accepted, buffer_of}

module _ {D : Doubles} where
  read_on-outbox : (s : Session D) → outbox (end_read (read_on s)) ≡ outbox s
  unfolding read_on read_next_line
  read_on-outbox s = ground arith

  read_on-last : (s : Session D) → last_accepted (end_read (read_on s)) ≡ last_accepted s
  unfolding read_on read_next_line
  read_on-last s = ground arith

  read_on-buffer : (s : Session D) → (end_read (read_on s)).buffer ≡ s.buffer
  unfolding read_on read_next_line
  read_on-buffer s = ground arith

  -- The world in which a line has been taken out of the buffer of a session.
  abbrev pub left_over : World D → ℕ → String → World D
  left_over w i part =
      put w i (record (w.sessions i) { buffer = (take_line ((w.sessions i).buffer <> part)).1 })

  -- The world in which the handler of a read is over.
  abbrev pub read_over : World D → ℕ → World D
  read_over w i = put w i (end_read (read_on (w.sessions i)))

  -- What the part completes.
  abbrev pub completed : World D → ℕ → String → String
  completed w i part = (take_line ((w.sessions i).buffer <> part)).0

  module _ (w : World D) (i : ℕ) where
    pub left_over-Frame : (part : String) → Frame w (left_over w i part)
    left_over-Frame part = put-Frame w i _ (wires-Similar (w.sessions i) _ refl)

    pub left_over-Silent : (part : String) → Silent w (left_over w i part)
    left_over-Silent part = put-Silent w i _ refl

    pub left_over-last : (part : String) → Kept last_accepted w (left_over w i part)
    left_over-last part = put-Kept last_accepted w i _ refl

    pub left_over-buffer :
        (part : String)
        → ((left_over w i part).sessions i).buffer ≡ (take_line ((w.sessions i).buffer <> part)).1
    left_over-buffer part = rw (==_refl i)

    pub left_over-others :
        (part : String) (j : ℕ)
        → i ≢ j
        → ((left_over w i part).sessions j).buffer ≡ (w.sessions j).buffer
    left_over-others part j ne = ground arith

    pub read_over-Frame : Frame w (read_over w i)
    read_over-Frame = put-Frame w i _ (read_on-Similar (w.sessions i))

    pub read_over-Silent : Silent w (read_over w i)
    read_over-Silent = put-Silent w i _ (read_on-outbox (w.sessions i))

    pub read_over-last : Kept last_accepted w (read_over w i)
    read_over-last = put-Kept last_accepted w i _ (read_on-last (w.sessions i))

    pub read_over-buffer : Kept buffer_of w (read_over w i)
    read_over-buffer = put-Kept buffer_of w i _ (read_on-buffer (w.sessions i))

    module _ (J : Json D) where
      -- The completion handler, in these words.
      pub read_done-over :
          (part : String)
          → read_done J w i (ReadResult.arrived part)
            ≡ read_over (handle_line J (left_over w i part) i (completed w i part)) i
      unfolding read_done
      read_done-over part = refl

      -- An open session can read, and the world after it is reachable too.
      pub read-Reach :
          (part : String)
          → Reach J w
          → (w.sessions i).closed ≡ false
          → has_newline ((w.sessions i).buffer <> part) ≡ true
          → Reach J (read_done J w i (ReadResult.arrived part))
      read-Reach part r c h =
          let reading = ((Reach-Inv J r).sound i).reading c in
          Reach.next r (Step.read i (ReadResult.arrived part) (omega (arith, reading)) h)
