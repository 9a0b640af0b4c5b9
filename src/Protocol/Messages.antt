-- ===== src/Protocol/Messages.antt =====
-- The messages that are made, and the checks of those that are read.
use accelerometer_tcp_json_t.Prelude.{◌&&◌, not, String, [], ◌∷◌, if◌then◌else◌}
use accelerometer_tcp_json_t.Prelude.Int.{ℤ, to_int32, eq_ℤ, to_int64}
use accelerometer_tcp_json_t.Prelude.Text.{◌<>◌, str_eq, to_string}
use accelerometer_tcp_json_t.Doubles.{Doubles}
use accelerometer_tcp_json_t.Json.{Json, Fields, int, int64, double, string}
use accelerometer_tcp_json_t.Packet.{AccelPacket, AccelModule}
use accelerometer_tcp_json_t.Protocol.Defs.{
  Status, Result, ◌>>=◌, ◌>>◌, k_protocol_version, k_type_hello, k_type_accel, k_type_module,
  k_role_A, k_role_B, require_field, get_int64_field, get_double_field, get_string_field,
}

-- The braced lists of MakeHelloMessage and the two ToJson.
abbrev pub hello_fields : {D : Doubles} → String → Fields D
hello_fields role =
    ("version", int k_protocol_version) ∷ ("type", string k_type_hello) ∷ ("role", string role) ∷ []

abbrev pub packet_fields : {D : Doubles} → AccelPacket D → Fields D
packet_fields packet =
    ("version", int k_protocol_version)
    ∷ ("type", string k_type_accel)
    ∷ ("timestamp", int64 packet.timestamp)
    ∷ ("x", double packet.x)
    ∷ ("y", double packet.y)
    ∷ ("z", double packet.z)
    ∷ []

abbrev pub module_fields : {D : Doubles} → AccelModule D → Fields D
module_fields m =
    ("version", int k_protocol_version)
    ∷ ("type", string k_type_module)
    ∷ ("timestamp", int64 m.timestamp)
    ∷ ("module", double m.module_value)
    ∷ []

module _ {D : Doubles} (J : Json D) where
  unfoldable pub make_hello_message : String → J.Value
  make_hello_message role = J.object (hello_fields role)

  unfoldable pub packet_to_json : AccelPacket D → J.Value
  packet_to_json packet = J.object (packet_fields packet)

  unfoldable pub module_to_json : AccelModule D → J.Value
  module_to_json m = J.object (module_fields m)

  unfoldable pub parse_json_line : String → Result J.Value
  parse_json_line line =
      let json = J.parse line in
      if J.is_discarded json then Result.failure "Invalid JSON line" else Result.success json

  unfoldable pub get_message_type : J.Value → Result String
  get_message_type json = get_string_field J json "type"

  -- receivedVersion, by the two ways of reading it.
  unfoldable pub received_version : J.Value → ℤ
  received_version version =
      if J.is_number_integer version
      then J.get_int version
      else to_int32 (to_int64 (J.get_uint version))

  unfoldable pub check_version : J.Value → Status
  unfolding received_version
  check_version version =
      if not (J.is_number_integer version) && not (J.is_number_unsigned version)
      then Status.failure "JSON field version must be integer"
      else if not (eq_ℤ (received_version version) k_protocol_version)
      then Status.failure ("Unsupported protocol version: " <> to_string (received_version version))
      else Status.success

  unfoldable pub validate_protocol_version : J.Value → Status
  unfolding check_version
  validate_protocol_version json = elim (require_field J json "version") [
    | Status.failure e ↦ Status.failure e
    | Status.success ↦ check_version (J.at json "version")
  ]

  unfoldable pub validate_message_type : J.Value → String → Status
  validate_message_type json expected_type = elim (get_message_type json) [
    | Result.failure e ↦ Status.failure e
    | Result.success actual_type ↦
        if not (str_eq actual_type expected_type)
        then Status.failure
            ("Unexpected message type. Expected: " <> expected_type <> ", actual: " <> actual_type)
        else Status.success
  ]

  unfoldable pub parse_accel_packet : J.Value → Result (AccelPacket D)
  parse_accel_packet json = do
    validate_protocol_version json
    validate_message_type json k_type_accel
    timestamp ← get_int64_field J json "timestamp"
    x ← get_double_field J json "x"
    y ← get_double_field J json "y"
    z ← get_double_field J json "z"
    Result.success (record { timestamp = timestamp; x = x; y = y; z = z })

  unfoldable pub parse_accel_module : J.Value → Result (AccelModule D)
  parse_accel_module json = do
    validate_protocol_version json
    validate_message_type json k_type_module
    timestamp ← get_int64_field J json "timestamp"
    m ← get_double_field J json "module"
    Result.success (record { timestamp = timestamp; module_value = m })

  unfoldable pub check_role : String → Result String
  check_role role =
      if not (str_eq role k_role_A) && not (str_eq role k_role_B)
      then Result.failure ("Unsupported client role: " <> role)
      else Result.success role

  unfoldable pub get_client_role : J.Value → Result String
  unfolding check_role
  get_client_role json = do
    validate_protocol_version json
    validate_message_type json k_type_hello
    role ← get_string_field J json "role"
    check_role role
