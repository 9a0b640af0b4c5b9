-- ===== src/NodeB/Magnitude.antt =====
-- What Node B measures of a packet: the length of its vector.
use accelerometer_tcp_json_t.Prelude.{◌≡◌, ap, ◌∙◌, true, String, [], ◌∷◌, ◌++◌}
use accelerometer_tcp_json_t.Prelude.Text.{◌<>◌}
use accelerometer_tcp_json_t.Prelude.Framing.{take_line}
use accelerometer_tcp_json_t.Doubles.{Doubles}
use accelerometer_tcp_json_t.Json.{Json, IsLawful}
use accelerometer_tcp_json_t.Packet.{AccelPacket}
use accelerometer_tcp_json_t.Protocol.{module_to_json, IsPlainPacket, packet_text, packet_text-read}
use accelerometer_tcp_json_t.Client.{Arrival, Written}
use accelerometer_tcp_json_t.NodeB.Defs.{NodeB, answer, round}
use accelerometer_tcp_json_t.NodeB.Replies.{reply, reply_to}
use accelerometer_tcp_json_t.NodeB.Answers.{round-After}

module _ {D : Doubles} (J : Json D) (L : IsLawful J) where
  -- In a round of a Node B that runs and is connected, whose read completes the line of a packet
  -- with a timestamp of int64_t and finite axes, and whose write succeeds, Node B sends one line, the
  -- module message with the timestamp of the packet and the square root of x * x + y * y + z * z,
  -- and goes on running.
  pub packet_answered :
      (n : NodeB D) (part : String) (p : AccelPacket D)
      → n.running ≡ true
      → n.client.is_open ≡ true
      → IsPlainPacket p
      → (take_line (n.client.input_buf <> part)).0 ≡ packet_text J p
      → ((round J n (Arrival.arrived part) Written.written).running ≡ true)
        × ((round J n (Arrival.arrived part) Written.written).client.sent
            ≡ n.client.sent
              ++ ((J.dump (
                      module_to_json J (record {
                        timestamp = p.timestamp;
                        module_value =
                            D.sqrt (D.add (D.add (D.mul p.x p.x) (D.mul p.y p.y)) (D.mul p.z p.z));
                      }))
                    <> "\n")
                  ∷ []))
  unfolding answer
  packet_answered n part p runs opened plain line =
      let after = round-After J L n part runs opened in
      let sent = ap (λ c. c.sent) after.client in
      (
        after.runs,
        sent
            ∙ ap (λ l. n.client.sent ++ reply J l) line
            ∙ ap (λ r. n.client.sent ++ reply_to J r) (packet_text-read J L p plain),
      )
