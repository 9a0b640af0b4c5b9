-- ===== src/NodeA/Defs.antt =====
-- src/node_a/main.cpp: what each thread does between two of its accesses to what they share.
use accelerometer_tcp_json_t.Prelude.{
  ◌%◌, Bool, true, false, not, String, [], ◌∷◌, ◌++◌, ◌==◌, if◌then◌else◌,
}
use accelerometer_tcp_json_t.Prelude.Int.{ℤ, next64}
use accelerometer_tcp_json_t.Prelude.Text.{◌<>◌, str_eq}
use accelerometer_tcp_json_t.Doubles.{Doubles}
use accelerometer_tcp_json_t.Json.{Json}
use accelerometer_tcp_json_t.Packet.{AccelPacket, AccelModule}
use accelerometer_tcp_json_t.Protocol.{
  Status, Result, k_role_A, k_type_module, make_hello_message, packet_to_json, parse_json_line,
  get_message_type, parse_accel_module,
}
use accelerometer_tcp_json_t.Client.{
  TcpClient, Connection, Written, Arrival, make_client, connect, write_json, finish_read,
  close_client,
}
use accelerometer_tcp_json_t.NodeA.Emulator.{make_emulator, next_packet}
use accelerometer_tcp_json_t.NodeA.State.{Notice, MainPc, ReceiverPc, NodeA}

-- The bytes that an end of `read_until` has brought.
abbrev pub brought : Arrival → String
brought (Arrival.arrived part) = part
brought (Arrival.failed part error) = part

module _ {D : Doubles} where
  abbrev pub say : NodeA D → Notice D → NodeA D
  say n notice = record n { log = notice ∷ n.log }

  -- Steps of `main`: NextPacket and ToJson, `is_runnig = false`, Close, and join.
  unfoldable pub generate : NodeA D → ℤ → NodeA D
  unfolding next_packet
  generate n now =
      let next = next_packet D n.emulator now in
      record n { emulator = next.0; main = MainPc.sending next.1 }

  unfoldable pub stop_main : NodeA D → NodeA D
  stop_main n = record n { is_running = false; main = MainPc.closing }

  unfoldable pub close_main : NodeA D → NodeA D
  close_main n = record n { client = close_client n.client; main = MainPc.joining }

  unfoldable pub join : NodeA D → NodeA D
  join n = record n { main = MainPc.returned true }

  -- Steps of ReceiveModules: opening the file, the head of the loop, the test of ReadLine, and
  -- what follows a ReadLine that failed.
  -- std::filesystem::create_directories has thrown, and nothing in the thread catches it, so that
  -- std::terminate ends the process with both of its threads.
  unfoldable pub abort : NodeA D → NodeA D
  abort n = record n { main = MainPc.aborted; receiver = ReceiverPc.aborted }

  -- The directory is there.
  unfoldable pub open_log : NodeA D → Bool → NodeA D
  open_log n opened =
      if opened
      then record (say n Notice.log_opened) { receiver = ReceiverPc.testing }
      else record (say n Notice.log_not_opened) { receiver = ReceiverPc.stopping }

  unfoldable pub test_running : NodeA D → NodeA D
  test_running n = record n {
    receiver = if n.is_running then ReceiverPc.entering else ReceiverPc.finished;
  }

  unfoldable pub enter_read : NodeA D → NodeA D
  enter_read n = record n {
    receiver =
        if not n.client.is_open
        then ReceiverPc.failing "socker is not connected"
        else ReceiverPc.reading;
  }

  unfoldable pub fail_read : NodeA D → String → NodeA D
  fail_read n error = record (if n.is_running then say n (Notice.read_error error) else n) {
    receiver = ReceiverPc.stopping;
  }

  unfoldable pub stop_receiver : NodeA D → NodeA D
  stop_receiver n = record n { is_running = false; receiver = ReceiverPc.finished }

  -- Writing a module to the file, and counting it.
  unfoldable pub log_module : NodeA D → AccelModule D → NodeA D
  log_module n m =
      let count = next64 n.received_modules_count in
      let logged = record n {
        module_log = n.module_log ++ (m ∷ []);
        received_modules_count = count;
      } in
      if count % 50 == 0 then say logged (Notice.module_statistics count m) else logged

  -- The variables at the start of `main` and of ReceiveModules, over this client.
  abbrev pub initial : TcpClient → NodeA D
  initial client = record {
    client = client;
    is_running = true;
    emulator = make_emulator;
    generated_packets_count = 0;
    received_modules_count = 0;
    module_log = [];
    main = MainPc.generating;
    receiver = ReceiverPc.absent;
    bytes = "";
    log = [];
  }

  module _ (J : Json D) where
    -- The end of `main`'s WriteJson of a packet, and the count and print behind it.
    unfoldable pub finish_send : NodeA D → AccelPacket D → TcpClient × Status → NodeA D
    finish_send n packet (c, Status.failure e) = record (say n (Notice.send_packet_error e)) {
      client = c;
      main = MainPc.failing;
    }
    finish_send n packet (c, Status.success) =
        let count = next64 n.generated_packets_count in
        let sent = record n {
          client = c;
          generated_packets_count = count;
          main = MainPc.generating;
        } in
        if count % 50 == 0
        then say sent (Notice.sent_packet (J.dump (packet_to_json J packet)))
        else sent

    unfoldable pub send : NodeA D → AccelPacket D → Written → NodeA D
    unfolding finish_send
    send n packet result =
        finish_send n packet (write_json J n.client (packet_to_json J packet) result)

    unfoldable pub take_json : NodeA D → J.Value → String → NodeA D
    unfolding log_module
    take_json n json type =
        if not (str_eq type k_type_module)
        then say n (Notice.unsupported_type type)
        else elim (parse_accel_module J json) [
          | Result.failure e ↦ say n (Notice.invalid_module e)
          | Result.success m ↦ log_module n m
        ]

    -- ReceiveModules from ParseJsonLine on.
    unfoldable pub handle_text : NodeA D → String → NodeA D
    unfolding take_json
    handle_text n line = elim (parse_json_line J line) [
      | Result.failure e ↦ say n (Notice.invalid_json e)
      | Result.success json ↦ elim (get_message_type J json) [
        | Result.failure e ↦ say n (Notice.protocol_error e)
        | Result.success type ↦ take_json n json type
      ]
    ]

    -- ReceiveModules from the end of `read_until` to the head of its loop.
    unfoldable pub finish_receive : NodeA D → TcpClient × Result String → NodeA D
    unfolding handle_text
    finish_receive n (c, Result.failure e) = record n {
      client = c;
      receiver = ReceiverPc.failing e;
    }
    finish_receive n (c, Result.success line) =
        handle_text (record n { client = c; receiver = ReceiverPc.testing }) line

    unfoldable pub receive : NodeA D → Arrival → NodeA D
    unfolding finish_receive
    receive n a =
        finish_receive (record n { bytes = n.bytes <> brought a }) (finish_read n.client a)

    -- The end of `main`'s WriteJson of its hello. Behind it the receiving thread starts.
    unfoldable pub finish_greet : NodeA D → TcpClient × Status → NodeA D
    finish_greet n (c, Status.failure e) = record (say n (Notice.send_error e)) {
      client = c;
      main = MainPc.returned false;
    }
    finish_greet n (c, Status.success) = record (say n Notice.started) {
      client = c;
      receiver = ReceiverPc.opening;
    }

    unfoldable pub greet : NodeA D → Written → NodeA D
    unfolding finish_greet
    greet n result = finish_greet n (write_json J n.client (make_hello_message J k_role_A) result)

    -- `main` up to its loop.
    unfoldable pub boot : Connection → Written → NodeA D
    unfolding greet
    boot connection result =
        let c = connect make_client connection in
        let n = initial c.0 in
        elim c.1 [
          | Status.failure e ↦ record (say n (Notice.connection_error e)) {
            main = MainPc.returned false;
          }
          | Status.success ↦ greet n result
        ]
