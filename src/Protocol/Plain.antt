-- ===== src/Protocol/Plain.antt =====
-- The lines of packets and modules whose numbers JSON has, and what they are read as.
use accelerometer_tcp_json_t.Prelude.{◌≡◌, String, List, [], ◌∷◌, map}
use accelerometer_tcp_json_t.Prelude.Int.{IsInt64}
use accelerometer_tcp_json_t.Prelude.Framing.{AllLines}
use accelerometer_tcp_json_t.Doubles.{Doubles}
use accelerometer_tcp_json_t.Json.{Json, IsLawful}
use accelerometer_tcp_json_t.Packet.{AccelPacket, AccelModule}
use accelerometer_tcp_json_t.Protocol.Defs.{Result, ◌>>=◌}
use accelerometer_tcp_json_t.Protocol.Messages.{
  packet_to_json, module_to_json, parse_json_line, parse_accel_packet, parse_accel_module,
}
use accelerometer_tcp_json_t.Protocol.RoundTrip.{packet_round_trip, module_round_trip}

module _ {D : Doubles} where
  pub record IsPlainPacket (p : AccelPacket D) : Type 0 where
    pub timestamp : IsInt64 p.timestamp
    pub x : D.IsFinite p.x
    pub y : D.IsFinite p.y
    pub z : D.IsFinite p.z

  pub record IsPlainModule (m : AccelModule D) : Type 0 where
    pub timestamp : IsInt64 m.timestamp
    pub module_value : D.IsFinite m.module_value

  abbrev pub AllPackets : List (AccelPacket D) → Type 0
  AllPackets [] = Unit
  AllPackets (p ∷ ps) = IsPlainPacket p × AllPackets ps

  abbrev pub AllModules : List (AccelModule D) → Type 0
  AllModules [] = Unit
  AllModules (m ∷ ms) = IsPlainModule m × AllModules ms

  module _ (J : Json D) where
    -- A message as text, which is sent with '\n' behind it.
    abbrev pub packet_text : AccelPacket D → String
    packet_text p = J.dump (packet_to_json J p)

    abbrev pub module_text : AccelModule D → String
    module_text m = J.dump (module_to_json J m)

    module _ (L : IsLawful J) where
      pub packet_text-read :
          (p : AccelPacket D)
          → IsPlainPacket p
          → (parse_json_line J (packet_text p) >>= parse_accel_packet J) ≡ Result.success p
      packet_text-read p h = packet_round_trip J L p h.timestamp h.x h.y h.z

      pub module_text-read :
          (m : AccelModule D)
          → IsPlainModule m
          → (parse_json_line J (module_text m) >>= parse_accel_module J) ≡ Result.success m
      module_text-read m h = module_round_trip J L m h.timestamp h.module_value

      pub packet_texts-AllLines : (ps : List (AccelPacket D)) → AllLines (map packet_text ps)
      packet_texts-AllLines [] = tt
      packet_texts-AllLines (p ∷ ps) = (L.dump_one_line _, packet_texts-AllLines ps)

      pub module_texts-AllLines : (ms : List (AccelModule D)) → AllLines (map module_text ms)
      module_texts-AllLines [] = tt
      module_texts-AllLines (m ∷ ms) = (L.dump_one_line _, module_texts-AllLines ms)
