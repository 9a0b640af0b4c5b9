-- ===== src/NodeA/Shutdown/Falls.antt =====
-- The steps of ReceiveModules while `is_running` is false: each brings the thread nearer to its end.
use accelerometer_tcp_json_t.Prelude.{ℕ, ◌+◌, ◌<◌, ◌≡◌, ◌≢◌, refl, Bool, true, false, String, arith}
use accelerometer_tcp_json_t.Doubles.{Doubles}
use accelerometer_tcp_json_t.Json.{Json}
use accelerometer_tcp_json_t.Packet.{AccelModule}
use accelerometer_tcp_json_t.Client.{Arrival, finish_read}
use accelerometer_tcp_json_t.NodeA.State.{NodeA, MainPc, ReceiverPc}
use accelerometer_tcp_json_t.NodeA.Defs.{
  open_log, test_running, enter_read, receive, finish_receive, log_module, fail_read, stop_receiver,
}
use accelerometer_tcp_json_t.NodeA.Threads.{handle_text_cases}

-- `main` has left its loop, and stored `is_runnig = false`.
abbrev pub has_left : {D : Doubles} → MainPc D → Bool
has_left MainPc.closing = true
has_left MainPc.joining = true
has_left (MainPc.returned code) = code
has_left _ = false

abbrev pub is_present : ReceiverPc → Bool
is_present ReceiverPc.absent = false
is_present ReceiverPc.aborted = false
is_present _ = true

-- The steps that a thread has left, at most, while `is_running` is false.
abbrev pub main_rank : {D : Doubles} → MainPc D → ℕ
main_rank MainPc.closing = 2
main_rank MainPc.joining = 1
main_rank _ = 0

abbrev pub receiver_rank : ReceiverPc → ℕ
receiver_rank ReceiverPc.entering = 4
receiver_rank ReceiverPc.reading = 3
receiver_rank ReceiverPc.opening = 2
receiver_rank (ReceiverPc.failing e) = 2
receiver_rank ReceiverPc.testing = 1
receiver_rank ReceiverPc.stopping = 1
receiver_rank _ = 0

abbrev pub rank : {D : Doubles} → NodeA D → ℕ
rank n = main_rank n.main + receiver_rank n.receiver

module _ {D : Doubles} where
  -- A step of ReceiveModules; it neither makes `is_running` true again nor opens the client.
  pub record Falls (n u : NodeA D) : Type 0 where
    pub main : u.main ≡ n.main
    pub present : is_present u.receiver ≡ true
    pub lives : n.receiver ≢ ReceiverPc.aborted
    pub stopped : n.is_running ≡ false → u.is_running ≡ false
    pub shut : n.client.is_open ≡ false → u.client.is_open ≡ false
    pub rank : n.is_running ≡ false → receiver_rank u.receiver < receiver_rank n.receiver

  pub open_log-Falls :
      (n : NodeA D) (opened : Bool) → n.receiver ≡ ReceiverPc.opening → Falls n (open_log n opened)
  unfolding open_log
  open_log-Falls n true e = record {
    main = refl;
    present = refl;
    lives = λ d. cc (e, d);
    stopped = λ s. s;
    shut = λ s. s;
    rank = λ s. rw e (omega arith);
  }
  open_log-Falls n false e = record {
    main = refl;
    present = refl;
    lives = λ d. cc (e, d);
    stopped = λ s. s;
    shut = λ s. s;
    rank = λ s. rw e (omega arith);
  }

  pub test_running-Falls :
      (n : NodeA D) → n.receiver ≡ ReceiverPc.testing → Falls n (test_running n)
  unfolding test_running
  test_running-Falls n e = ground arith

  pub enter_read-Falls : (n : NodeA D) → n.receiver ≡ ReceiverPc.entering → Falls n (enter_read n)
  unfolding enter_read
  enter_read-Falls n e = ground arith

  pub fail_read-Falls :
      (n : NodeA D) (x : String) → n.receiver ≡ ReceiverPc.failing x → Falls n (fail_read n x)
  unfolding fail_read
  fail_read-Falls n x e = ground arith

  pub stop_receiver-Falls :
      (n : NodeA D) → n.receiver ≡ ReceiverPc.stopping → Falls n (stop_receiver n)
  unfolding stop_receiver
  stop_receiver-Falls n e = ground arith

  log_module-Falls :
      (n v : NodeA D) (m : AccelModule D)
      → v.main ≡ n.main
      → v.receiver ≡ ReceiverPc.testing
      → v.is_running ≡ n.is_running
      → v.client.is_open ≡ n.client.is_open
      → n.receiver ≡ ReceiverPc.reading
      → Falls n (log_module v m)
  unfolding log_module
  log_module-Falls n v m f g h o e = ground arith

  module _ (J : Json D) where
    pub receive-Falls :
        (n : NodeA D) (a : Arrival) → n.receiver ≡ ReceiverPc.reading → Falls n (receive J n a)
    unfolding receive finish_receive finish_read
    receive-Falls n (Arrival.failed part x) e = record {
      main = refl;
      present = refl;
      lives = λ d. cc (e, d);
      stopped = λ s. s;
      shut = λ s. s;
      rank = λ s. rw e (omega arith);
    }
    receive-Falls n (Arrival.arrived part) e =
        handle_text_cases J (Falls n) _ _
          (λ x. record {
            main = refl;
            present = refl;
            lives = λ d. cc (e, d);
            stopped = λ s. s;
            shut = λ s. s;
            rank = λ s. rw e (omega arith);
          })
          (λ m. log_module-Falls n _ m refl refl refl refl e)
