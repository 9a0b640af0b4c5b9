-- ===== src/Tests/Run.antt =====
-- A short run of the server: two clients connect, and register as Node A and Node B.
use accelerometer_tcp_json_t.Prelude.{ℕ, ◌≡◌, refl, String, [], ◌∷◌, some, arith}
use accelerometer_tcp_json_t.Prelude.Int.{pos, eq_ℤ, to_int32}
use accelerometer_tcp_json_t.Prelude.Text.{◌<>◌, getline, back_is, pop_back, has_newline}
use accelerometer_tcp_json_t.Packet.{AccelPacket, is_duplicate, round_axis_value}
use accelerometer_tcp_json_t.Protocol.{
  make_hello_message, packet_to_json, module_to_json, parse_json_line, get_message_type,
  get_string_field, require_field, get_client_role, validate_protocol_version,
  validate_message_type, parse_accel_packet, parse_accel_module, get_int64_field, get_double_field,
}
use accelerometer_tcp_json_t.Server.{
  first_world, accept_next, accept_done, read_done, start, Step, Reach, Completion, ReadResult,
  handle_line, handle_json, handle_message, handle_hello, register_role, set_node_a, set_node_b,
  get_node_a, get_node_b, handle_accel_packet, handle_module_packet, take_packet, take_module,
  forward_accel_packet_to_node_b, forward_accel_module_to_node_a, send_json, enqueue,
}
use accelerometer_tcp_json_t.Server.World.{World}
use accelerometer_tcp_json_t.Tests.Codec.{whole, encode, decode}
use accelerometer_tcp_json_t.Tests.Library.{library}

-- What one session is sent.
unfoldable pub deliver : World whole → ℕ → String → World whole
unfolding read_done getline back_is pop_back handle_line handle_json handle_message handle_hello
    register_role set_node_a set_node_b handle_accel_packet handle_module_packet take_packet
    take_module forward_accel_packet_to_node_b forward_accel_module_to_node_a send_json enqueue
    parse_json_line get_message_type get_string_field require_field get_client_role
    validate_protocol_version validate_message_type parse_accel_packet parse_accel_module
    get_int64_field get_double_field make_hello_message packet_to_json module_to_json is_duplicate
    round_axis_value eq_ℤ to_int32 encode decode get_node_a get_node_b
deliver w i text = read_done library w i (ReadResult.arrived text)

unfoldable pub two_clients : World whole
unfolding first_world accept_next accept_done start
two_clients = accept_done (accept_done first_world Completion.done) Completion.done

abbrev pub hello : String → String
hello role = library.dump (make_hello_message library role) <> "\n"

unfoldable pub with_a : World whole
unfolding deliver two_clients
with_a = deliver two_clients 0 (hello "A")

unfoldable pub connected : World whole
unfolding with_a
connected = deliver with_a 1 (hello "B")

abbrev pub reading : AccelPacket whole
reading = record { timestamp = pos 7; x = 1; y = 10; z = 2 }

abbrev pub packet_line : String
packet_line = library.dump (packet_to_json library reading)

roles_registered : ((connected.sessions 0).role ≡ "A") × (connected.state.node_b ≡ some 1)
unfolding connected
roles_registered = (refl, refl)

-- Node A's packet reaches the socket of Node B, and a repetition is dropped.
packet_forwarded :
    ((deliver connected 0 (packet_line <> "\n")).sessions 1).write_queue
    ≡ (packet_line <> "\n") ∷ []
unfolding connected
packet_forwarded = refl

packet_dropped :
    ((deliver (deliver connected 0 (packet_line <> "\n")) 0 (packet_line <> "\n")).sessions
      0).dropped_packets
    ≡ 1
unfolding connected
packet_dropped = refl

two_clients-Reach : Reach library two_clients
unfolding two_clients
two_clients-Reach =
    Reach.next (Reach.next Reach.here (Step.accept Completion.done (omega arith)))
      (Step.accept Completion.done (omega arith))

pub with_a-Reach : Reach library with_a
unfolding with_a has_newline
with_a-Reach =
    Reach.next two_clients-Reach (Step.read 0 (ReadResult.arrived (hello "A")) (omega arith) refl)

pub connected-Reach : Reach library connected
unfolding connected has_newline
connected-Reach =
    Reach.next with_a-Reach (Step.read 1 (ReadResult.arrived (hello "B")) (omega arith) refl)
