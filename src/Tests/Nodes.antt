-- ===== src/Tests/Nodes.antt =====
-- The theorems about the client and Node B at concrete inputs.
use accelerometer_tcp_json_t.Prelude.{◌≡◌, refl, true, String, List, [], ◌∷◌, arith}
use accelerometer_tcp_json_t.Prelude.Int.{pos}
use accelerometer_tcp_json_t.Prelude.Text.{◌<>◌, getline, back_is, pop_back, has_newline}
use accelerometer_tcp_json_t.Protocol.{packet_to_json, module_to_json}
use accelerometer_tcp_json_t.Client.{
  TcpClient, Connection, Arrival, Written, make_client, read_lines, InOrder, read_lines-InOrder,
}
use accelerometer_tcp_json_t.NodeB.{
  NodeB, boot, rounds, Served, rounds_in_order, packet_answered, round, history, Counted,
  history_counts,
}
use accelerometer_tcp_json_t.Tests.Codec.{whole, encode}
use accelerometer_tcp_json_t.Tests.Library.{library, library-IsLawful}
use accelerometer_tcp_json_t.Tests.Run.{reading, packet_line}

abbrev open_client : TcpClient
open_client = record make_client { is_open = true }

abbrev parts : List String
parts = "ab\nc" ∷ "d\n" ∷ []

read_lines-InOrder_example : InOrder ("ab" ∷ "cd" ∷ []) "" (read_lines open_client parts)
unfolding getline back_is pop_back has_newline
read_lines-InOrder_example =
    read_lines-InOrder open_client parts ("ab" ∷ "cd" ∷ []) "" refl
      (
        record { one_line = refl; no_return = refl },
        (record { one_line = refl; no_return = refl }, tt),
      )
      (refl, (refl, tt)) refl

abbrev pub node : NodeB whole
node = record {
  client = open_client;
  received_packets_count = 0;
  send_modules_count = 0;
  running = true;
  log = [];
}

rounds_in_order_example :
    Served library library-IsLawful
      (packet_line ∷ [])
      ""
      node
      (rounds library node ((packet_line <> "\n") ∷ []))
unfolding getline back_is pop_back has_newline encode packet_to_json
rounds_in_order_example =
    rounds_in_order library library-IsLawful node ((packet_line <> "\n") ∷ []) (packet_line ∷ []) ""
      refl refl (library-IsLawful.dump_one_line (packet_to_json library reading), tt) (refl, tt)
      refl

packet_answered_example :
    ((round library node (Arrival.arrived (packet_line <> "\n")) Written.written).running ≡ true)
    × ((round library node (Arrival.arrived (packet_line <> "\n")) Written.written).client.sent ≡ (
        (library.dump (module_to_json library (record { timestamp = pos 7; module_value = 1 }))
          <> "\n")
        ∷ []))
unfolding getline back_is pop_back encode packet_to_json
packet_answered_example =
    packet_answered library library-IsLawful node (packet_line <> "\n") reading refl refl
      (record { timestamp = omega arith; x = tt; y = tt; z = tt }) refl

abbrev events : List (Arrival × Written)
events =
    (Arrival.arrived (packet_line <> "\n"), Written.written)
    ∷ (Arrival.arrived "?\n", Written.written)
    ∷ (Arrival.arrived (packet_line <> "\n"), Written.failed "reset")
    ∷ []

history_counts_example :
    Counted (history library (boot library Connection.connected Written.written) events)
history_counts_example = history_counts library events
