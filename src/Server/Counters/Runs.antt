-- ===== src/Server/Counters/Runs.antt =====
-- The counters of packets, over every run of the server.
use accelerometer_tcp_json_t.Prelude.{ℕ, refl, true, String, []}
use accelerometer_tcp_json_t.Prelude.Text.{◌<>◌}
use accelerometer_tcp_json_t.Prelude.Framing.{take_line}
use accelerometer_tcp_json_t.Doubles.{Doubles}
use accelerometer_tcp_json_t.Json.{Json}
use accelerometer_tcp_json_t.Server.World.{World, Notice, put, note, make_session}
use accelerometer_tcp_json_t.Server.Session.{read_next_line, start, close}
use accelerometer_tcp_json_t.Server.Handlers.{handle_line}
use accelerometer_tcp_json_t.Server.Events.{
  Step, Reach, Completion, ReadResult, read_done, write_done, accept_done, accept_next, first_world,
  closed_after, end_write,
}
use accelerometer_tcp_json_t.Server.Cases.{handle_line_cases}
use accelerometer_tcp_json_t.Server.Counters.Operations.{
  IsTallied, AllTallied, put-AllTallied, register_role-AllTallied, take_packet-AllTallied,
  take_module-AllTallied, close-AllTallied, read_on-IsTallied, write_on-IsTallied,
}

module _ {D : Doubles} where
  module _ (J : Json D) where
    handle_line-AllTallied :
        (w : World D) (i : ℕ) (line : String) → AllTallied w → AllTallied (handle_line J w i line)
    handle_line-AllTallied w i line v =
        handle_line_cases J AllTallied w i (λ n. v) line
          (λ json role _ _. register_role-AllTallied (note w (Notice.client_role role)) i role v)
          (λ json p _ _ _. take_packet-AllTallied J w i p v)
          (λ json m _ _ _. take_module-AllTallied J w i m v)

    closed_after-AllTallied :
        (w : World D) (i : ℕ) (x : Notice D) → AllTallied w → AllTallied (closed_after w i x)
    closed_after-AllTallied w i x v =
        let closed = close-AllTallied (note w x) i v in
        put-AllTallied (close (note w x) i) i _ (closed i) closed

    read_done-AllTallied :
        (w : World D) (i : ℕ) (r : ReadResult) → AllTallied w → AllTallied (read_done J w i r)
    unfolding read_done
    read_done-AllTallied w i ReadResult.eof v = closed_after-AllTallied w i _ v
    read_done-AllTallied w i (ReadResult.failed message) v = closed_after-AllTallied w i _ v
    read_done-AllTallied w i (ReadResult.arrived bytes) v =
        let s = w.sessions i in
        let taken = take_line (s.buffer <> bytes) in
        let w1 = put w i (record s { buffer = taken.1 }) in
        let handled = handle_line-AllTallied w1 i taken.0 (put-AllTallied w i _ (v i) v) in
        put-AllTallied (handle_line J w1 i taken.0) i _ (read_on-IsTallied _ (handled i)) handled

    write_done-AllTallied :
        (w : World D) (i : ℕ) (c : Completion) → AllTallied w → AllTallied (write_done w i c)
    unfolding write_done
    write_done-AllTallied w i Completion.done v =
        put-AllTallied w i _ (write_on-IsTallied (w.sessions i) (v i)) v
    write_done-AllTallied w i (Completion.failed message) v =
        let s = record (w.sessions i) { write_queue = [] } in
        let noted = note (put w i s) (Notice.write_error message) in
        let closed = close-AllTallied noted i (put-AllTallied w i s (v i) v) in
        let u = close noted i in put-AllTallied u i (end_write (u.sessions i)) (closed i) closed

    accept_done-AllTallied :
        (w : World D) (c : Completion) → AllTallied w → AllTallied (accept_done w c)
    unfolding accept_done accept_next start read_next_line
    accept_done-AllTallied w (Completion.failed message) v = v
    accept_done-AllTallied w Completion.done v =
        put-AllTallied w w.count (start (make_session true)) refl v

    Step-AllTallied : {w u : World D} → Step J w u → AllTallied w → AllTallied u
    Step-AllTallied (Step.read i r _ _) v = read_done-AllTallied _ i r v
    Step-AllTallied (Step.write i c _) v = write_done-AllTallied _ i c v
    Step-AllTallied (Step.accept c _) v = accept_done-AllTallied _ c v

    -- In every world that the server can reach, the packets that a session has received are those
    -- that it has accepted and those that it has dropped as duplicates, modulo 2^64.
    pub Reach-IsTallied : {w : World D} (i : ℕ) → Reach J w → IsTallied (w.sessions i)
    unfolding first_world accept_next
    Reach-IsTallied i Reach.here = refl
    Reach-IsTallied i (Reach.next r st) = Step-AllTallied st (λ j. Reach-IsTallied j r) i
