-- ===== src/Server/Events.antt =====
-- The completion handlers of async_read_until, async_write and async_accept, the start of the
-- server, and the steps that the event loop of one thread can take.
use accelerometer_tcp_json_t.Prelude.{
  ℕ, suc, ◌-◌, ◌<◌, ◌≡◌, Bool, true, false, ◌&&◌, not, update, String, List, [], ◌∷◌, ◌++◌, none,
  if◌then◌else◌,
}
use accelerometer_tcp_json_t.Prelude.Text.{◌<>◌, has_newline}
use accelerometer_tcp_json_t.Prelude.Framing.{take_line}
use accelerometer_tcp_json_t.Doubles.{Doubles}
use accelerometer_tcp_json_t.Json.{Json}
use accelerometer_tcp_json_t.Server.World.{
  Session, World, Notice, make_session, no_session, has_elements, put, note,
}
use accelerometer_tcp_json_t.Server.Session.{start, read_next_line, write_next_message, close}
use accelerometer_tcp_json_t.Server.Handlers.{handle_line}

-- How an asynchronous read ends: with an error, or with more bytes in the buffer.
pub data ReadResult : Type 0 where
  eof : ReadResult
  failed : String → ReadResult
  arrived : String → ReadResult

-- How an asynchronous write or accept ends.
pub data Completion : Type 0 where
  done : Completion
  failed : String → Completion

abbrev pub front : List String → List String
front [] = []
front (m ∷ ms) = m ∷ []

abbrev pub drop_front : List String → List String
drop_front [] = []
drop_front (m ∷ ms) = ms

module _ {D : Doubles} where
  -- The handler is over, and lets go of its session.
  abbrev pub end_read : Session D → Session D
  end_read s = record s { reads = s.reads - 1 }

  abbrev pub end_write : Session D → Session D
  end_write s = record s { writes = drop_front s.writes }

  -- if (!closed_) ReadNextLine();
  unfoldable pub read_on : Session D → Session D
  read_on s = if s.closed then s else read_next_line s

  -- The socket has taken the bytes of the buffer that it was given first.
  abbrev pub take_bytes : Session D → Session D
  take_bytes s = record s { socket = record s.socket { sent = s.socket.sent ++ front s.writes } }

  -- write_queue_.pop_front(), and the next message if the session is open and has one.
  unfoldable pub write_on : Session D → Session D
  write_on s =
      let popped = record s { write_queue = drop_front s.write_queue } in
      if not s.closed && has_elements popped.write_queue then write_next_message popped else popped

  -- The completion handler of async_write.
  unfoldable pub write_done : World D → ℕ → Completion → World D
  unfolding write_on
  write_done w i done = let s = w.sessions i in put w i (end_write (write_on (take_bytes s)))
  write_done w i (failed message) =
      let s = w.sessions i in
      let noted = note (put w i (record s { write_queue = [] })) (Notice.write_error message) in
      let w' = close noted i in put w' i (end_write (w'.sessions i))

  abbrev pub closed_after : World D → ℕ → Notice D → World D
  closed_after w i notice = let w' = close (note w notice) i in put w' i (end_read (w'.sessions i))

  -- AcceptNext
  unfoldable pub accept_next : World D → World D
  accept_next w = record w { accepts = suc w.accepts }

  abbrev end_accept : World D → World D
  end_accept w = record w { accepts = w.accepts - 1 }

  -- The completion handler of async_accept, which starts the session and accepts again.
  unfoldable pub accept_done : World D → Completion → World D
  accept_done w (failed message) = accept_next (end_accept (note w (Notice.accept_error message)))
  accept_done w done = accept_next (
      end_accept (record (note w Notice.client_connected) {
        sessions = update w.sessions w.count (start (make_session true));
        count = suc w.count;
      }))

  -- TcpServer's constructor.
  abbrev pub make_server : World D
  make_server = record {
    sessions = λ i. no_session;
    count = 0;
    state = record { node_a = none; node_b = none };
    accepts = 0;
    log = [];
  }

  -- A call of the acceptor in TcpServer::Start and what follows it.
  abbrev checked : World D → Completion → (String → Notice D) → World D × Bool → World D × Bool
  checked w done notice rest = rest
  checked w (failed message) notice rest = (note w (notice message), false)

  -- TcpServer::Start, by how open, set_option, bind and listen end.
  unfoldable pub start_server :
      World D → Completion → Completion → Completion → Completion → World D × Bool
  start_server w opened reused bound listened = checked w opened Notice.open_failed (
      checked w reused Notice.reuse_address_failed (
        checked w bound Notice.bind_failed
          (checked w listened Notice.listen_failed (accept_next (note w Notice.listening), true))))

  -- The server that has started.
  unfoldable pub first_world : World D
  unfolding start_server
  first_world = (start_server make_server done done done done).0

  module _ (J : Json D) where
    -- The completion handler of async_read_until.
    unfoldable pub read_done : World D → ℕ → ReadResult → World D
    unfolding read_on
    read_done w i eof = closed_after w i Notice.client_disconnected
    read_done w i (failed message) = closed_after w i (Notice.read_error message)
    read_done w i (arrived bytes) =
        let s = w.sessions i in
        let taken = take_line (s.buffer <> bytes) in
        let w' = handle_line J (put w i (record s { buffer = taken.1 })) i taken.0 in
        put w' i (end_read (read_on (w'.sessions i)))

    -- A read that succeeds has found the end of a line.
    abbrev pub Completes : Session D → ReadResult → Type 0
    Completes s eof = Unit
    Completes s (failed message) = Unit
    Completes s (arrived bytes) = has_newline (s.buffer <> bytes) ≡ true

    -- A step is the end of an outstanding operation.
    pub data Step (w : World D) : World D → Type 0 where
      read :
          (i : ℕ) (r : ReadResult)
          → 0 < (w.sessions i).reads
          → Completes (w.sessions i) r
          → Step w (read_done w i r)
      write :
          (i : ℕ) (c : Completion)
          → has_elements (w.sessions i).writes ≡ true
          → Step w (write_done w i c)
      accept : (c : Completion) → 0 < w.accepts → Step w (accept_done w c)

    -- The worlds that a server can come to.
    pub data Reach : World D → Type 0 where
      here : Reach first_world
      next : {w u : World D} → Reach w → Step w u → Reach u
