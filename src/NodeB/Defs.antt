-- ===== src/NodeB/Defs.antt =====
-- The variables of `main`, what it does before its loop, and one round of the loop.
use accelerometer_tcp_json_t.Prelude.{
  ℕ, ◌%◌, Bool, true, false, not, String, List, [], ◌∷◌, ◌==◌, if◌then◌else◌,
}
use accelerometer_tcp_json_t.Prelude.Int.{next64}
use accelerometer_tcp_json_t.Prelude.Text.{str_eq}
use accelerometer_tcp_json_t.Doubles.{Doubles}
use accelerometer_tcp_json_t.Json.{Json}
use accelerometer_tcp_json_t.Packet.{AccelPacket, AccelModule}
use accelerometer_tcp_json_t.Protocol.{
  Status, Result, k_role_B, k_type_accel, make_hello_message, module_to_json, parse_json_line,
  get_message_type, parse_accel_packet,
}
use accelerometer_tcp_json_t.Client.{
  TcpClient, Connection, Written, Arrival, make_client, connect, write_json, read_line,
  close_client,
}

pub data Notice (D : Doubles) : Type 0 where
  connection_error send_error read_error invalid_json protocol_error : String → Notice D
  unsupported_type invalid_packet send_module_error : String → Notice D
  started : Notice D
  statistics : ℕ → ℕ → AccelPacket D → AccelModule D → Notice D

pub record NodeB (D : Doubles) : Type 0 where
  pub client : TcpClient
  pub received_packets_count : ℕ
  pub send_modules_count : ℕ
  -- Whether `main` has not returned yet.
  pub running : Bool
  pub log : List (Notice D)

module _ {D : Doubles} where
  -- The module that answers a packet.
  unfoldable pub answer : AccelPacket D → AccelModule D
  answer packet = record {
    timestamp = packet.timestamp;
    module_value = D.sqrt (
        D.add (D.add (D.mul packet.x packet.x) (D.mul packet.y packet.y))
          (D.mul packet.z packet.z));
  }

  abbrev pub say : NodeB D → Notice D → NodeB D
  say n notice = record n { log = notice ∷ n.log }

  -- return EXIT_FAILURE;
  abbrev pub fail : NodeB D → Notice D → NodeB D
  fail n notice = record (say n notice) { running = false }

  -- client.Close(); return EXIT_FAILURE;
  abbrev pub close_and_fail : NodeB D → Notice D → NodeB D
  close_and_fail n notice = record (fail n notice) { client = close_client n.client }

  module _ (J : Json D) where
    -- main up to its loop.
    unfoldable pub greet : NodeB D → Written → NodeB D
    greet n result =
        let sent = write_json J n.client (make_hello_message J k_role_B) result in
        let n1 = record n { client = sent.0 } in
        elim sent.1 [
          | Status.failure e ↦ fail n1 (Notice.send_error e)
          | Status.success ↦ say n1 Notice.started
        ]

    unfoldable pub boot : Connection → Written → NodeB D
    unfolding greet
    boot connection result =
        let c = connect make_client connection in
        let n : NodeB D = record {
          client = c.0;
          received_packets_count = 0;
          send_modules_count = 0;
          running = true;
          log = [];
        } in
        elim c.1 [
          | Status.failure e ↦ fail n (Notice.connection_error e)
          | Status.success ↦ greet n result
        ]

    -- The counting at the end of a round.
    unfoldable pub count_answer : NodeB D → AccelPacket D → NodeB D
    count_answer n packet =
        let received = next64 n.received_packets_count in
        let sent = next64 n.send_modules_count in
        let counted = record n { received_packets_count = received; send_modules_count = sent } in
        if received % 50 == 0
        then say counted (Notice.statistics received sent packet (answer packet))
        else counted

    -- A round after its WriteJson.
    unfoldable pub finish_answer : NodeB D → AccelPacket D → TcpClient × Status → NodeB D
    unfolding count_answer
    finish_answer n packet (c, Status.failure e) =
        close_and_fail (record n { client = c }) (Notice.send_module_error e)
    finish_answer n packet (c, Status.success) = count_answer (record n { client = c }) packet

    unfoldable pub send_answer : NodeB D → AccelPacket D → Written → NodeB D
    unfolding finish_answer
    send_answer n packet result =
        finish_answer n packet (write_json J n.client (module_to_json J (answer packet)) result)

    unfoldable pub take_json : NodeB D → J.Value → String → Written → NodeB D
    take_json n json type result =
        if not (str_eq type k_type_accel)
        then say n (Notice.unsupported_type type)
        else elim (parse_accel_packet J json) [
          | Result.failure e ↦ say n (Notice.invalid_packet e)
          | Result.success packet ↦ send_answer n packet result
        ]

    -- A round from ParseJsonLine on.
    unfoldable pub handle_text : NodeB D → String → Written → NodeB D
    handle_text n line result = elim (parse_json_line J line) [
      | Result.failure e ↦ say n (Notice.invalid_json e)
      | Result.success json ↦ elim (get_message_type J json) [
        | Result.failure e ↦ say n (Notice.protocol_error e)
        | Result.success type ↦ take_json n json type result
      ]
    ]

    -- A round after its ReadLine.
    unfoldable pub finish_round : NodeB D → TcpClient × Result String → Written → NodeB D
    unfolding handle_text
    finish_round n (c, Result.failure e) result =
        close_and_fail (record n { client = c }) (Notice.read_error e)
    finish_round n (c, Result.success line) result =
        handle_text (record n { client = c }) line result

    -- A round of the loop, which is over once `main` has returned.
    unfoldable pub round : NodeB D → Arrival → Written → NodeB D
    unfolding finish_round
    round n arrival result =
        if not n.running then n else finish_round n (read_line n.client arrival) result
