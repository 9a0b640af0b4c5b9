-- ===== src/Tests/Examples.antt =====
-- Each theorem with hypotheses or variables, at a run of the server and at messages of its clients.
use accelerometer_tcp_json_t.Prelude.{
  ℕ, ◌≤◌, ◌^◌, ◌+◌, suc, ◌≡◌, ◌≢◌, refl, ◌↔◌, ◌⊎◌, if◌then◌else◌, inl, inr, true, length, none,
  some, arith,
}
use accelerometer_tcp_json_t.Prelude.Int.{pos, to_int32, to_int64}
use accelerometer_tcp_json_t.Packet.{AccelModule}
use accelerometer_tcp_json_t.Protocol.{
  Result, Status, ◌>>=◌, received, packet_to_json, module_to_json, make_hello_message,
  parse_accel_packet, parse_accel_module, get_client_role, CarriesPacket, CarriesModule,
  CarriesRole, VersionField, parse_accel_packet_iff, parse_accel_module_iff, get_client_role_iff,
  packet_round_trip, module_round_trip, hello_round_trip, get_int64_field, get_int64_field_wraps,
  validate_protocol_version, validate_protocol_version_iff,
}
use accelerometer_tcp_json_t.Server.{
  get_node_a, get_node_b, set_node_a, set_node_a_lem, set_node_b, set_node_b_lem, has_node_a,
  has_node_b, has_node_iff, Serves, one_session_per_role, nodes_are_registered, server_progress,
  Serviced, repeats, Sent, line_of, packet_routing, module_routing, line_routing, Routed,
  take_packet, take_module, handle_line, Inv, Reach-Inv, IsTallied, Reach-IsTallied, start_server,
  start_server_lem,
}
use accelerometer_tcp_json_t.Server.Completion.{done, failed}
use accelerometer_tcp_json_t.Server.World.{alive}
use accelerometer_tcp_json_t.Tests.Codec.{whole}
use accelerometer_tcp_json_t.Tests.Library.{library, library-IsLawful, counter}
use accelerometer_tcp_json_t.Tests.Run.{connected, connected-Reach, reading, packet_line}

abbrev magnitude : AccelModule whole
magnitude = record { timestamp = pos 7; module_value = 10 }

one_session_per_role_example : ◌≡◌ {A = ℕ} 0 0
unfolding connected
one_session_per_role_example =
    one_session_per_role library connected 0 0 "A" connected-Reach (inl refl) (refl, refl)
      (refl, refl)

nodes_are_registered_example :
    ((get_node_a (alive connected) connected.state ≡ some 0) ↔ Serves (connected.sessions 0) "A")
    × ((get_node_b (alive connected) connected.state ≡ some 0) ↔ Serves (connected.sessions 0) "B")
nodes_are_registered_example = nodes_are_registered library connected 0 connected-Reach

server_progress_example :
    (connected.accepts ≡ 1)
    × (length (connected.sessions 1).writes ≤ 1)
    × (((connected.sessions 1).closed ≡ true) ⊎ Serviced (connected.sessions 1))
server_progress_example = server_progress library connected 1 connected-Reach

Reach-Inv_example : Inv connected
Reach-Inv_example = Reach-Inv library connected-Reach

packet_routing_example :
    Sent connected
      (take_packet library connected 0 reading)
      (if repeats connected 0 reading then none else get_node_b (alive connected) connected.state)
      (line_of library (packet_to_json library reading))
packet_routing_example = packet_routing library connected 0 reading connected-Reach

module_routing_example :
    Sent connected
      (take_module library connected 1 magnitude)
      (get_node_a (alive connected) connected.state)
      (line_of library (module_to_json library magnitude))
module_routing_example = module_routing library connected 1 magnitude connected-Reach

line_routing_example :
    Routed library connected 0 packet_line (handle_line library connected 0 packet_line)
line_routing_example = line_routing library connected 0 packet_line connected-Reach

packet_round_trip_example :
    (received library (packet_to_json library reading) >>= parse_accel_packet library)
    ≡ Result.success reading
packet_round_trip_example =
    packet_round_trip library library-IsLawful reading (omega arith) tt tt tt

module_round_trip_example :
    (received library (module_to_json library magnitude) >>= parse_accel_module library)
    ≡ Result.success magnitude
module_round_trip_example = module_round_trip library library-IsLawful magnitude (omega arith) tt

hello_round_trip_example :
    (received library (make_hello_message library "B") >>= get_client_role library)
    ≡ Result.success "B"
hello_round_trip_example = hello_round_trip library library-IsLawful "B" (inr refl)

parse_accel_packet_iff_example :
    (parse_accel_packet library (packet_to_json library reading) ≡ Result.success reading)
    ↔ CarriesPacket library (packet_to_json library reading) reading
parse_accel_packet_iff_example =
    parse_accel_packet_iff library library-IsLawful (packet_to_json library reading) reading

parse_accel_module_iff_example :
    (parse_accel_module library (module_to_json library magnitude) ≡ Result.success magnitude)
    ↔ CarriesModule library (module_to_json library magnitude) magnitude
parse_accel_module_iff_example =
    parse_accel_module_iff library library-IsLawful (module_to_json library magnitude) magnitude

get_client_role_iff_example :
    (get_client_role library (make_hello_message library "A") ≡ Result.success "A")
    ↔ CarriesRole library (make_hello_message library "A") "A"
get_client_role_iff_example =
    get_client_role_iff library library-IsLawful (make_hello_message library "A") "A"

-- A number that does not fit int64_t.
get_int64_field_wraps_example :
    get_int64_field library (counter "timestamp" (2 ^ 63 + 5)) "timestamp"
    ≡ Result.success (to_int64 (2 ^ 63 + 5))
get_int64_field_wraps_example =
    get_int64_field_wraps library library-IsLawful (counter "timestamp" (2 ^ 63 + 5)) "timestamp"
      (record { an_object = refl; present = refl }) refl

-- A version that does not fit an int.
validate_protocol_version_iff_example :
    (validate_protocol_version library (counter "version" (2 ^ 32 + 1)) ≡ Status.success)
    ↔ VersionField library (counter "version" (2 ^ 32 + 1))
validate_protocol_version_iff_example =
    validate_protocol_version_iff library library-IsLawful (counter "version" (2 ^ 32 + 1))

large_version_accepted :
    validate_protocol_version library (counter "version" (2 ^ 32 + 1)) ≡ Status.success
unfolding to_int64 to_int32
large_version_accepted =
    validate_protocol_version_iff_example.1
      (record { has = record { an_object = refl; present = refl }; kind = refl; reads = refl })

set_node_a_lem_example :
    (((set_node_a (alive connected) connected.state 1).1 ≡ true)
      ↔ ((other : ℕ) → get_node_a (alive connected) connected.state ≡ some other → other ≡ 1))
    × ((set_node_a (alive connected) connected.state 1).0 ≡ connected.state)
unfolding connected
set_node_a_lem_example = set_node_a_lem (alive connected) connected.state 1

set_node_b_lem_example :
    (((set_node_b (alive connected) connected.state 0).1 ≡ true)
      ↔ ((other : ℕ) → get_node_b (alive connected) connected.state ≡ some other → other ≡ 0))
    × ((set_node_b (alive connected) connected.state 0).0 ≡ connected.state)
unfolding connected
set_node_b_lem_example = set_node_b_lem (alive connected) connected.state 0

has_node_iff_example :
    ((has_node_a (alive connected) connected.state ≡ true)
      ↔ (get_node_a (alive connected) connected.state ≢ none))
    × ((has_node_b (alive connected) connected.state ≡ true)
        ↔ (get_node_b (alive connected) connected.state ≢ none))
has_node_iff_example = has_node_iff (alive connected) connected.state 0

Reach-IsTallied_example : IsTallied (connected.sessions 0)
Reach-IsTallied_example = Reach-IsTallied library 0 connected-Reach

start_server_lem_example :
    (((start_server connected done done (failed "in use") done).1 ≡ true)
      ↔ ((done ≡ done) × (done ≡ done) × (failed "in use" ≡ done) × (done ≡ done)))
    × ((start_server connected done done (failed "in use") done).0.accepts ≡ (
        if (start_server connected done done (failed "in use") done).1
        then suc connected.accepts
        else connected.accepts))
    × ((start_server connected done done (failed "in use") done).0.count ≡ connected.count)
start_server_lem_example = start_server_lem connected done done (failed "in use") done
