-- ===== src/Protocol/RoundTrip.antt =====
-- What one program writes the other reads: messages made by one side are accepted by the other,
-- as values and as lines of text.
use accelerometer_tcp_json_t.Prelude.{◌≡◌, refl, ◌⊎◌, String, arith}
use accelerometer_tcp_json_t.Prelude.Int.{IsInt64}
use accelerometer_tcp_json_t.Doubles.{Doubles}
use accelerometer_tcp_json_t.Json.{Json, IsLawful, Presents, IsDistinct}
use accelerometer_tcp_json_t.Packet.{AccelPacket, AccelModule}
use accelerometer_tcp_json_t.Protocol.Defs.{Result, ◌>>=◌, k_role_A, k_role_B}
use accelerometer_tcp_json_t.Protocol.Messages.{
  packet_fields, module_fields, hello_fields, packet_to_json, module_to_json, make_hello_message,
  parse_json_line, parse_accel_packet, parse_accel_module, get_client_role,
}
use accelerometer_tcp_json_t.Protocol.Fields.{
  Presents-Int64Field, Presents-DoubleField, Presents-StringField, Presents-VersionField,
}
use accelerometer_tcp_json_t.Protocol.Accepts.{
  CarriesPacket, CarriesModule, CarriesRole, parse_accel_packet_iff, parse_accel_module_iff,
  get_client_role_iff,
}

-- The line that is sent for a value, read back.
abbrev pub received : {D : Doubles} (J : Json D) → J.Value → Result J.Value
received J json = parse_json_line J (J.dump json)

module _ {D : Doubles} (J : Json D) (L : IsLawful J) where
  pub Presents-CarriesPacket :
      {v : J.Value} (p : AccelPacket D) → Presents J v (packet_fields p) → CarriesPacket J v p
  Presents-CarriesPacket p P = record {
    version = Presents-VersionField J L P refl;
    type = Presents-StringField J P "type" _ refl;
    timestamp = Presents-Int64Field J P "timestamp" _ refl;
    x = Presents-DoubleField J P "x" _ refl;
    y = Presents-DoubleField J P "y" _ refl;
    z = Presents-DoubleField J P "z" _ refl;
  }

  pub Presents-CarriesModule :
      {v : J.Value} (m : AccelModule D) → Presents J v (module_fields m) → CarriesModule J v m
  Presents-CarriesModule m P = record {
    version = Presents-VersionField J L P refl;
    type = Presents-StringField J P "type" _ refl;
    timestamp = Presents-Int64Field J P "timestamp" _ refl;
    module_value = Presents-DoubleField J P "module" _ refl;
  }

  pub Presents-CarriesRole :
      {v : J.Value} (role : String)
      → (role ≡ k_role_A) ⊎ (role ≡ k_role_B)
      → Presents J v (hello_fields role)
      → CarriesRole J v role
  Presents-CarriesRole role known P = record {
    version = Presents-VersionField J L P refl;
    type = Presents-StringField J P "type" _ refl;
    role_field = Presents-StringField J P "role" _ refl;
    known = known;
  }

  -- A packet that is written as a line is read back as the same packet, if its timestamp fits
  -- int64_t and its axes are finite.
  pub packet_round_trip :
      (p : AccelPacket D)
      → IsInt64 p.timestamp
      → D.IsFinite p.x
      → D.IsFinite p.y
      → D.IsFinite p.z
      → (received J (packet_to_json J p) >>= parse_accel_packet J) ≡ Result.success p
  unfolding parse_json_line packet_to_json
  packet_round_trip p t x y z =
      let distinct : IsDistinct (packet_fields p) =
        (refl, (refl, (refl, (refl, (refl, (refl, tt)))))) in
      let P = L.parse-dump (packet_fields p) distinct (omega arith, (tt, (t, (x, (y, (z, tt)))))) in
      rw P.kept ((parse_accel_packet_iff J L _ p).1 (Presents-CarriesPacket p P))

  -- A module that is written as a line is read back as the same module, if its timestamp fits
  -- int64_t and its value is finite.
  pub module_round_trip :
      (m : AccelModule D)
      → IsInt64 m.timestamp
      → D.IsFinite m.module_value
      → (received J (module_to_json J m) >>= parse_accel_module J) ≡ Result.success m
  unfolding parse_json_line module_to_json
  module_round_trip m t x =
      let distinct : IsDistinct (module_fields m) = (refl, (refl, (refl, (refl, tt)))) in
      let P = L.parse-dump (module_fields m) distinct (omega arith, (tt, (t, (x, tt)))) in
      rw P.kept ((parse_accel_module_iff J L _ m).1 (Presents-CarriesModule m P))

  -- A hello line for role A or B is read back as that role.
  pub hello_round_trip :
      (role : String)
      → (role ≡ k_role_A) ⊎ (role ≡ k_role_B)
      → (received J (make_hello_message J role) >>= get_client_role J) ≡ Result.success role
  unfolding parse_json_line make_hello_message
  hello_round_trip role known =
      let distinct : IsDistinct (hello_fields {D = D} role) = (refl, (refl, (refl, tt))) in
      let P = L.parse-dump (hello_fields role) distinct (omega arith, (tt, (tt, tt))) in
      rw P.kept ((get_client_role_iff J L _ role).1 (Presents-CarriesRole role known P))
