-- ===== src/NodeA/Steps.antt =====
-- The steps of the two threads in any order, and the states that they come to.
use accelerometer_tcp_json_t.Prelude.{◌≡◌, Bool, true, String}
use accelerometer_tcp_json_t.Prelude.Int.{ℤ}
use accelerometer_tcp_json_t.Prelude.Text.{◌<>◌, has_newline}
use accelerometer_tcp_json_t.Doubles.{Doubles}
use accelerometer_tcp_json_t.Json.{Json}
use accelerometer_tcp_json_t.Packet.{AccelPacket}
use accelerometer_tcp_json_t.Client.{Connection, Written, Arrival}
use accelerometer_tcp_json_t.NodeA.State.{NodeA, MainPc, ReceiverPc}
use accelerometer_tcp_json_t.NodeA.Defs.{
  generate, send, stop_main, close_main, join, abort, open_log, test_running, enter_read, receive,
  fail_read, stop_receiver, boot,
}

-- `read_until` succeeds only when the buffer has a line.
abbrev pub Completes : String → Arrival → Type 0
Completes buffer (Arrival.arrived part) = has_newline (buffer <> part) ≡ true
Completes buffer (Arrival.failed part error) = Unit

module _ {D : Doubles} (J : Json D) where
  -- A step of either thread. The directory of the file can be made, or std::terminate ends the
  -- process; `join` waits for the receiving thread.
  pub data Step (n : NodeA D) : NodeA D → Type 0 where
    generates : (now : ℤ) → n.main ≡ MainPc.generating → Step n (generate n now)
    sends : (p : AccelPacket D) (r : Written) → n.main ≡ MainPc.sending p → Step n (send J n p r)
    stops : n.main ≡ MainPc.failing → Step n (stop_main n)
    closes : n.main ≡ MainPc.closing → Step n (close_main n)
    joins : n.main ≡ MainPc.joining → n.receiver ≡ ReceiverPc.finished → Step n (join n)
    aborts : n.receiver ≡ ReceiverPc.opening → Step n (abort n)
    opens : (opened : Bool) → n.receiver ≡ ReceiverPc.opening → Step n (open_log n opened)
    tests : n.receiver ≡ ReceiverPc.testing → Step n (test_running n)
    enters : n.receiver ≡ ReceiverPc.entering → Step n (enter_read n)
    receives :
        (a : Arrival)
        → n.receiver ≡ ReceiverPc.reading
        → Completes n.client.input_buf a
        → Step n (receive J n a)
    fails : (e : String) → n.receiver ≡ ReceiverPc.failing e → Step n (fail_read n e)
    finishes : n.receiver ≡ ReceiverPc.stopping → Step n (stop_receiver n)

  -- The states that Node A can come to once it is connected and has sent its hello.
  pub data Reach : NodeA D → Type 0 where
    here : Reach (boot J Connection.connected Written.written)
    next : {n u : NodeA D} → Reach n → Step n u → Reach u
