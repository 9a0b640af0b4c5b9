-- ===== src/Server/Session.antt =====
-- src/server/client_session.cpp: the connection side of a session. Start, SendJson,
-- ReadNextLine, WriteNextMessage and Close.
use accelerometer_tcp_json_t.Prelude.{
  ℕ, suc, Bool, true, false, ◌||◌, not, String, List, [], ◌∷◌, ◌++◌, if◌then◌else◌,
}
use accelerometer_tcp_json_t.Prelude.Text.{◌<>◌, is_empty}
use accelerometer_tcp_json_t.Doubles.{Doubles}
use accelerometer_tcp_json_t.Json.{Json}
use accelerometer_tcp_json_t.Server.State.{remove_session}
use accelerometer_tcp_json_t.Server.World.{
  Session, World, send_failed, node_disconnected, has_elements, alive, put, note,
}

module _ {D : Doubles} where
  -- async_write of the front of the queue, which is `queue` here.
  unfoldable pub write_front : Session D → List String → Session D
  write_front s [] = s
  write_front s (m ∷ rest) = if s.closed then s else record s { writes = s.writes ++ (m ∷ []) }

  unfoldable pub write_next_message : Session D → Session D
  unfolding write_front
  write_next_message s = write_front s s.write_queue

  unfoldable pub read_next_line : Session D → Session D
  read_next_line s = if s.closed then s else record s { reads = suc s.reads }

  unfoldable pub start : Session D → Session D
  unfolding read_next_line
  start s = read_next_line s

  -- The part of SendJson after its guard.
  unfoldable pub enqueue : Session D → String → Session D
  unfolding write_next_message
  enqueue s message =
      let queued = record s { write_queue = s.write_queue ++ (message ∷ []) } in
      if has_elements s.write_queue then queued else write_next_message queued

  unfoldable pub send_json : (J : Json D) → World D → ℕ → J.Value → World D × Bool
  send_json J w i json =
      let s = w.sessions i in
      if s.closed || not s.socket.is_open
      then (note w send_failed, false)
      else (put w i (enqueue s (J.dump json <> "\n")), true)

  unfoldable pub shut_down : Session D → Session D
  shut_down s =
      if s.socket.is_open then record s { socket = record s.socket { is_open = false } } else s

  unfoldable pub close : World D → ℕ → World D
  unfolding shut_down
  close w i =
      let s = w.sessions i in
      let closing = record s { closed = true } in
      let w1 = put w i closing in
      let w2 = if is_empty s.role then w1 else note w1 (node_disconnected s.role) in
      let w3 =
        if s.has_state then record w2 { state = remove_session (alive w2) w2.state i } else w2 in
      if s.closed then w else put w3 i (shut_down closing)
