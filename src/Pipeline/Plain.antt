-- ===== src/Pipeline/Plain.antt =====
-- What the nodes make of the lines of plain packets and modules.
use accelerometer_tcp_json_t.Prelude.{◌≡◌, refl, ap, ◌∙◌, List, [], ◌∷◌, ◌++◌, map}
use accelerometer_tcp_json_t.Doubles.{Doubles}
use accelerometer_tcp_json_t.Json.{Json, IsLawful}
use accelerometer_tcp_json_t.Packet.{AccelPacket, AccelModule}
use accelerometer_tcp_json_t.Protocol.{
  Result, AllPackets, AllModules, packet_text, module_text, packet_text-read, module_text-read,
}
use accelerometer_tcp_json_t.Server.{module_lines}
use accelerometer_tcp_json_t.NodeB.{answer, reply_to, replies}
use accelerometer_tcp_json_t.NodeA.{module_of, modules_in}

module _ {D : Doubles} where
  module _ (J : Json D) (L : IsLawful J) where
    pub replies-packets :
        (ps : List (AccelPacket D))
        → AllPackets ps
        → replies J (map (packet_text J) ps) ≡ module_lines J (map answer ps)
    replies-packets [] h = refl
    replies-packets (p ∷ ps) h =
        ap (λ r. reply_to J r ++ replies J (map (packet_text J) ps)) (packet_text-read J L p h.0)
        ∙ ap (λ lines. reply_to J (Result.success p) ++ lines) (replies-packets ps h.1)

    pub modules_in-texts :
        (ms : List (AccelModule D)) → AllModules ms → modules_in J (map (module_text J) ms) ≡ ms
    modules_in-texts [] h = refl
    modules_in-texts (m ∷ ms) h =
        ap (λ r. module_of J r ++ modules_in J (map (module_text J) ms))
          (module_text-read J L m h.0)
        ∙ ap (λ rest. m ∷ rest) (modules_in-texts ms h.1)
