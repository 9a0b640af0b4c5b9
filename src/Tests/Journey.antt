-- ===== src/Tests/Journey.antt =====
-- A reading that Node A sends twice, on its way to Node B and back.
use accelerometer_tcp_json_t.Prelude.{◌≡◌, refl, true, String, List, [], ◌∷◌, map, arith}
use accelerometer_tcp_json_t.Prelude.Int.{eq_ℤ, to_int32}
use accelerometer_tcp_json_t.Prelude.Text.{◌<>◌, getline, back_is, pop_back, has_newline}
use accelerometer_tcp_json_t.Prelude.Parts.{Carries}
use accelerometer_tcp_json_t.Packet.{AccelPacket, is_duplicate, round_axis_value}
use accelerometer_tcp_json_t.Protocol.{
  IsPlainPacket, packet_text, module_text, packet_to_json, module_to_json, parse_json_line,
  get_message_type, get_string_field, require_field, validate_protocol_version,
  validate_message_type, parse_accel_module, get_int64_field, get_double_field,
}
use accelerometer_tcp_json_t.Server.{receives, distinct}
use accelerometer_tcp_json_t.Client.{Arrival, finish_read}
use accelerometer_tcp_json_t.NodeA.{
  NodeA, Step, Reach, open_log, test_running, enter_read, receive, finish_receive, handle_text,
}
use accelerometer_tcp_json_t.NodeB.{rounds, answer}
use accelerometer_tcp_json_t.Pipeline.{news, Measured, measurements_filed}
use accelerometer_tcp_json_t.Tests.Codec.{whole, encode, decode}
use accelerometer_tcp_json_t.Tests.Library.{library, library-IsLawful}
use accelerometer_tcp_json_t.Tests.Run.{connected, connected-Reach, reading}
use accelerometer_tcp_json_t.Tests.Nodes.{node}
use accelerometer_tcp_json_t.Tests.Threads.{started}

abbrev twice : List (AccelPacket whole)
twice = reading ∷ reading ∷ []

once_new : news connected 0 twice ≡ reading ∷ []
unfolding connected distinct is_duplicate round_axis_value eq_ℤ
once_new = refl

abbrev sent_line : String
sent_line = packet_text library reading <> "\n"

abbrev answer_line : String
answer_line = module_text library (answer reading) <> "\n"

-- Node A, which has read the answer.
unfoldable reader : NodeA whole
unfolding started open_log test_running enter_read receive finish_receive handle_text finish_read
    getline pop_back parse_json_line get_message_type get_string_field require_field
    validate_protocol_version validate_message_type parse_accel_module get_int64_field
    get_double_field decode module_to_json eq_ℤ to_int32 answer
reader =
    receive library (enter_read (test_running (open_log started true)))
      (Arrival.arrived answer_line)

reader-Reach : Reach library reader
unfolding reader has_newline answer
reader-Reach =
    Reach.next
      (Reach.next (Reach.next (Reach.next Reach.here (Step.opens true refl)) (Step.tests refl))
        (Step.enters refl))
      (Step.receives (Arrival.arrived answer_line) refl refl)

plain_reading : IsPlainPacket reading
plain_reading = record { timestamp = omega arith; x = tt; y = tt; z = tt }

sent_twice : Carries "" (sent_line ∷ sent_line ∷ []) (map (packet_text library) twice)
unfolding has_newline getline back_is pop_back encode packet_to_json
sent_twice = record { complete = (refl, (refl, tt)); whole = refl; all = refl }

sent_once : Carries "" (sent_line ∷ []) (packet_text library reading ∷ [])
unfolding has_newline getline back_is pop_back encode packet_to_json
sent_once = record { complete = (refl, tt); whole = refl; all = refl }

answered_once : Carries "" (answer_line ∷ []) (module_text library (answer reading) ∷ [])
unfolding has_newline getline back_is pop_back encode module_to_json answer
answered_once = record { complete = (refl, tt); whole = refl; all = refl }

measurements_filed_example :
    Measured library connected
      (receives library connected 0 (sent_line ∷ sent_line ∷ []))
      (receives library
        (receives library connected 0 (sent_line ∷ sent_line ∷ []))
        1
        (answer_line ∷ []))
      0
      1
      node
      (rounds library node (sent_line ∷ []))
      reader
      twice
unfolding connected reader distinct is_duplicate round_axis_value eq_ℤ answer
measurements_filed_example =
    measurements_filed library library-IsLawful connected 0 1 node reader twice
      (sent_line ∷ sent_line ∷ []) (sent_line ∷ []) (answer_line ∷ []) connected-Reach refl refl
      (plain_reading, (plain_reading, tt))
      (record { timestamp = omega arith; module_value = tt }, tt) sent_twice refl refl sent_once
      answered_once reader-Reach refl refl
