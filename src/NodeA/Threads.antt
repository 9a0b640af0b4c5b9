-- ===== src/NodeA/Threads.antt =====
-- What the steps of one thread leave alone of what the other keeps.
use accelerometer_tcp_json_t.Prelude.{◌≡◌, refl, Bool, ◌∙◌, String, inl, inr, Bool-cases, arith}
use accelerometer_tcp_json_t.Prelude.Int.{ℤ}
use accelerometer_tcp_json_t.Prelude.Text.{◌<>◌, str_eq}
use accelerometer_tcp_json_t.Doubles.{Doubles}
use accelerometer_tcp_json_t.Json.{Json}
use accelerometer_tcp_json_t.Packet.{AccelPacket, AccelModule}
use accelerometer_tcp_json_t.Protocol.{
  Status, Result, Result-cases, k_type_module, packet_to_json, parse_json_line, get_message_type,
  parse_accel_module,
}
use accelerometer_tcp_json_t.Client.{
  TcpClient, Written, Arrival, write_json, finish_read, close_client, finish_read_kept,
  write_json_kept,
}
use accelerometer_tcp_json_t.NodeA.State.{NodeA, Notice, ReceiverPc}
use accelerometer_tcp_json_t.NodeA.Defs.{
  brought, say, generate, send, finish_send, stop_main, close_main, join, abort, open_log,
  test_running, enter_read, receive, finish_receive, handle_text, take_json, log_module, fail_read,
  stop_receiver,
}

module _ {D : Doubles} where
  -- What `main` keeps, which the steps of ReceiveModules leave alone.
  pub record MainKept (n u : NodeA D) : Type 0 where
    pub main : u.main ≡ n.main
    pub opened : u.client.is_open ≡ n.client.is_open
    pub sent : u.client.sent ≡ n.client.sent
    pub emulator : u.emulator ≡ n.emulator
    pub generated : u.generated_packets_count ≡ n.generated_packets_count

  -- The file, and what has come in for it.
  pub record FileKept (n u : NodeA D) : Type 0 where
    pub input_buf : u.client.input_buf ≡ n.client.input_buf
    pub bytes : u.bytes ≡ n.bytes
    pub logged : u.module_log ≡ n.module_log
    pub received : u.received_modules_count ≡ n.received_modules_count

  -- What ReceiveModules keeps, which the steps of `main` leave alone.
  pub record ReceiverKept (n u : NodeA D) : Type 0 where
    pub receiver : u.receiver ≡ n.receiver
    pub file : FileKept n u

  pub generate-ReceiverKept : (n : NodeA D) (now : ℤ) → ReceiverKept n (generate n now)
  unfolding generate
  generate-ReceiverKept n now = ground arith

  pub stop_main-ReceiverKept : (n : NodeA D) → ReceiverKept n (stop_main n)
  unfolding stop_main
  stop_main-ReceiverKept n = ground arith

  pub close_main-ReceiverKept : (n : NodeA D) → ReceiverKept n (close_main n)
  unfolding close_main close_client
  close_main-ReceiverKept n = ground arith

  pub join-ReceiverKept : (n : NodeA D) → ReceiverKept n (join n)
  unfolding join
  join-ReceiverKept n = ground arith

  pub abort-FileKept : (n : NodeA D) → FileKept n (abort n)
  unfolding abort
  abort-FileKept n = ground arith

  pub open_log-FileKept : (n : NodeA D) (opened : Bool) → FileKept n (open_log n opened)
  unfolding open_log
  open_log-FileKept n opened = ground arith

  pub open_log-MainKept : (n : NodeA D) (opened : Bool) → MainKept n (open_log n opened)
  unfolding open_log
  open_log-MainKept n opened = ground arith

  pub test_running-FileKept : (n : NodeA D) → FileKept n (test_running n)
  unfolding test_running
  test_running-FileKept n = ground arith

  pub test_running-MainKept : (n : NodeA D) → MainKept n (test_running n)
  unfolding test_running
  test_running-MainKept n = ground arith

  pub enter_read-FileKept : (n : NodeA D) → FileKept n (enter_read n)
  unfolding enter_read
  enter_read-FileKept n = ground arith

  pub enter_read-MainKept : (n : NodeA D) → MainKept n (enter_read n)
  unfolding enter_read
  enter_read-MainKept n = ground arith

  pub fail_read-FileKept : (n : NodeA D) (e : String) → FileKept n (fail_read n e)
  unfolding fail_read
  fail_read-FileKept n e = ground arith

  pub fail_read-MainKept : (n : NodeA D) (e : String) → MainKept n (fail_read n e)
  unfolding fail_read
  fail_read-MainKept n e = ground arith

  pub stop_receiver-FileKept : (n : NodeA D) → FileKept n (stop_receiver n)
  unfolding stop_receiver
  stop_receiver-FileKept n = ground arith

  pub stop_receiver-MainKept : (n : NodeA D) → MainKept n (stop_receiver n)
  unfolding stop_receiver
  stop_receiver-MainKept n = ground arith

  log_module-MainKept : (n : NodeA D) (m : AccelModule D) → MainKept n (log_module n m)
  unfolding log_module
  log_module-MainKept n m = ground arith

  module _ (J : Json D) where
    -- A line is a module that is logged, or something that is printed.
    pub handle_text_cases :
        (P : NodeA D → Type 0) (n : NodeA D) (line : String)
        → ((x : Notice D) → P (say n x))
        → ((m : AccelModule D) → P (log_module n m))
        → P (handle_text J n line)
    unfolding handle_text take_json
    handle_text_cases P n line printed logged = elim (Result-cases (parse_json_line J line)) [
      | inl (e, f) ↦ rw (f, handle_text) (printed _)
      | inr (v, f) ↦ elim (Result-cases (get_message_type J v)) [
        | inl (e, t) ↦ rw (f, t, handle_text) (printed _)
        | inr (type, t) ↦ elim (Bool-cases (str_eq type k_type_module)) [
          | inr g ↦ rw (f, t, handle_text, g) (printed _)
          | inl g ↦ elim (Result-cases (parse_accel_module J v)) [
            | inl (e, h) ↦ rw (f, t, handle_text, g, h) (printed _)
            | inr (m, h) ↦ rw (f, t, handle_text, g, h) (logged m)
          ]
        ]
      ]
    ]

    finish_receive-MainKept :
        (n : NodeA D) (bytes : String) (q : TcpClient × Result String)
        → q.0.is_open ≡ n.client.is_open
        → q.0.sent ≡ n.client.sent
        → MainKept n (finish_receive J (record n { bytes = bytes }) q)
    unfolding finish_receive
    finish_receive-MainKept n bytes (c, Result.failure e) o s = record {
      main = refl;
      opened = o;
      sent = s;
      emulator = refl;
      generated = refl;
    }
    finish_receive-MainKept n bytes (c, Result.success line) o s =
        handle_text_cases (MainKept n) _ line
          (λ x. record { main = refl; opened = o; sent = s; emulator = refl; generated = refl })
          (λ m.
            let l =
              log_module-MainKept
                (record n { client = c; receiver = ReceiverPc.testing; bytes = bytes }) m in
            record {
              main = l.main;
              opened = l.opened ∙ o;
              sent = l.sent ∙ s;
              emulator = l.emulator;
              generated = l.generated;
            })

    pub receive-MainKept : (n : NodeA D) (a : Arrival) → MainKept n (receive J n a)
    unfolding receive
    receive-MainKept n a =
        let k = finish_read_kept n.client a in
        finish_receive-MainKept n (n.bytes <> brought a) (finish_read n.client a) k.0 k.1

    finish_send-ReceiverKept :
        (n : NodeA D) (p : AccelPacket D) (q : TcpClient × Status)
        → q.0.input_buf ≡ n.client.input_buf
        → ReceiverKept n (finish_send J n p q)
    unfolding finish_send
    finish_send-ReceiverKept n p (c, Status.failure e) b = ground arith
    finish_send-ReceiverKept n p (c, Status.success) b = ground arith

    pub send-ReceiverKept :
        (n : NodeA D) (p : AccelPacket D) (r : Written) → ReceiverKept n (send J n p r)
    unfolding send
    send-ReceiverKept n p r =
        finish_send-ReceiverKept n p (write_json J n.client (packet_to_json J p) r)
          (write_json_kept J n.client (packet_to_json J p) r).1
