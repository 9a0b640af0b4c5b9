-- ===== src/Protocol/Accepts.antt =====
-- Which messages the readers accept: exactly those with the right fields.
use accelerometer_tcp_json_t.Prelude.{◌≡◌, ◌↔◌, ◌⊎◌, String, arith}
use accelerometer_tcp_json_t.Prelude.Text.{eq_iff}
use accelerometer_tcp_json_t.Doubles.{Doubles}
use accelerometer_tcp_json_t.Json.{Json, IsLawful}
use accelerometer_tcp_json_t.Packet.{AccelPacket, AccelModule}
use accelerometer_tcp_json_t.Protocol.Defs.{
  Result, k_type_hello, k_type_accel, k_type_module, k_role_A, k_role_B,
}
use accelerometer_tcp_json_t.Protocol.Messages.{
  parse_accel_packet, parse_accel_module, get_client_role, get_message_type,
}
use accelerometer_tcp_json_t.Protocol.Fields.{
  StringField, Int64Field, DoubleField, VersionField, validate_protocol_version_iff,
  validate_message_type_iff, get_int64_field_iff, get_double_field_iff, get_string_field_iff,
}

module _ {D : Doubles} (J : Json D) where
  -- An accel message that carries this packet.
  pub record CarriesPacket (v : J.Value) (p : AccelPacket D) : Type 0 where
    pub version : VersionField J v
    pub type : StringField J v "type" k_type_accel
    pub timestamp : Int64Field J v "timestamp" p.timestamp
    pub x : DoubleField J v "x" p.x
    pub y : DoubleField J v "y" p.y
    pub z : DoubleField J v "z" p.z

  pub record CarriesModule (v : J.Value) (m : AccelModule D) : Type 0 where
    pub version : VersionField J v
    pub type : StringField J v "type" k_type_module
    pub timestamp : Int64Field J v "timestamp" m.timestamp
    pub module_value : DoubleField J v "module" m.module_value

  pub record CarriesRole (v : J.Value) (role : String) : Type 0 where
    pub version : VersionField J v
    pub type : StringField J v "type" k_type_hello
    pub role_field : StringField J v "role" role
    pub known : (role ≡ k_role_A) ⊎ (role ≡ k_role_B)

  module _ (L : IsLawful J) (v : J.Value) where
    -- ParseAccelPacket succeeds with a packet exactly when the value is an accel message of this
    -- protocol version that carries the packet.
    pub parse_accel_packet_iff :
        (p : AccelPacket D) → (parse_accel_packet J v ≡ Result.success p) ↔ CarriesPacket v p
    unfolding parse_accel_packet
    parse_accel_packet_iff p = ground (
      arith,
      validate_protocol_version_iff J L v,
      validate_message_type_iff J v k_type_accel,
      get_int64_field_iff J L v "timestamp" p.timestamp,
      get_double_field_iff J v "x" p.x,
      get_double_field_iff J v "y" p.y,
      get_double_field_iff J v "z" p.z,
    )

    -- ParseAccelModule succeeds with a module exactly when the value is a module message of this
    -- protocol version that carries it.
    pub parse_accel_module_iff :
        (m : AccelModule D) → (parse_accel_module J v ≡ Result.success m) ↔ CarriesModule v m
    unfolding parse_accel_module
    parse_accel_module_iff m = ground (
      arith,
      validate_protocol_version_iff J L v,
      validate_message_type_iff J v k_type_module,
      get_int64_field_iff J L v "timestamp" m.timestamp,
      get_double_field_iff J v "module" m.module_value,
    )

    -- GetClientRole succeeds with a role exactly when the value is a hello message of this protocol
    -- version with that role, and the role is A or B.
    pub get_client_role_iff :
        (role : String) → (get_client_role J v ≡ Result.success role) ↔ CarriesRole v role
    unfolding get_client_role
    get_client_role_iff role = ground (
      arith,
      validate_protocol_version_iff J L v,
      validate_message_type_iff J v k_type_hello,
      get_string_field_iff J v "role" role,
      eq_iff role k_role_A,
      eq_iff role k_role_B,
    )

    -- What is read as a packet is an accel message.
    pub packet_type :
        (p : AccelPacket D)
        → parse_accel_packet J v ≡ Result.success p
        → get_message_type J v ≡ Result.success k_type_accel
    unfolding get_message_type
    packet_type p e =
        (get_string_field_iff J v "type" k_type_accel).1 ((parse_accel_packet_iff p).0 e).type

    -- What is read as a module is a module message.
    pub module_type :
        (m : AccelModule D)
        → parse_accel_module J v ≡ Result.success m
        → get_message_type J v ≡ Result.success k_type_module
    unfolding get_message_type
    module_type m e =
        (get_string_field_iff J v "type" k_type_module).1 ((parse_accel_module_iff m).0 e).type

    -- What is read as a role is a hello message.
    pub role_type :
        (role : String)
        → get_client_role J v ≡ Result.success role
        → get_message_type J v ≡ Result.success k_type_hello
    unfolding get_message_type
    role_type role e =
        (get_string_field_iff J v "type" k_type_hello).1 ((get_client_role_iff role).0 e).type
