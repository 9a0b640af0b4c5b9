-- ===== src/Tests/Serving.antt =====
-- The process of the server and the filter of packets, at a start and at a run of the server.
use accelerometer_tcp_json_t.Prelude.{inl, arith, refl, [], ◌∷◌}
use accelerometer_tcp_json_t.Prelude.Text.{◌<>◌, has_newline, getline, back_is, pop_back}
use accelerometer_tcp_json_t.Protocol.{make_hello_message, packet_to_json}
use accelerometer_tcp_json_t.Server.{
  Outgoing, writes_in_order, write_done, Reach, Completion, Welcomed, hello_read, Step, ReadResult,
  read_done, Registers, registry, standing, server_refines, Move, Later, roles_are_final,
  first_world, Program, server_main, accept_turn, Endpoint, AcceptEnd, Turn, Lives, Promise,
  Lives-Promise, accept_turn_lem, Sends, take_packets, packet_lines, distinct, last_accepted,
  distinct_packets_forwarded,
}
use accelerometer_tcp_json_t.Server.Completion.{done}
use accelerometer_tcp_json_t.Server.World.{World}
use accelerometer_tcp_json_t.Tests.Codec.{whole, encode}
use accelerometer_tcp_json_t.Tests.Library.{library, library-IsLawful}
use accelerometer_tcp_json_t.Tests.Run.{
  deliver, packet_line, connected, connected-Reach, reading, with_a, with_a-Reach, hello,
}

begun : Lives library (Program.running (first_world {D = whole}))
unfolding server_main first_world
begun = Lives.begins done done done done

-- The first client is gone before its handler runs.
accept_turn_lem_example :
    Turn library
      (Program.running (first_world {D = whole}))
      (accept_turn first_world done (Endpoint.throws "not connected"))
    × AcceptEnd library first_world done
        (Endpoint.throws "not connected")
        (accept_turn first_world done (Endpoint.throws "not connected"))
accept_turn_lem_example = accept_turn_lem library begun done (Endpoint.throws "not connected")

Lives-Promise_example :
    Promise library (accept_turn (first_world {D = whole}) done (Endpoint.throws "not connected"))
Lives-Promise_example = Lives-Promise library (Lives.goes_on begun (accept_turn_lem_example.0))

distinct_packets_forwarded_example :
    Sends connected (take_packets library connected 0 (reading ∷ reading ∷ [])) 1 (
      packet_lines library
        (distinct (last_accepted (connected.sessions 0)) (reading ∷ reading ∷ [])))
unfolding connected
distinct_packets_forwarded_example =
    distinct_packets_forwarded library connected 0 1 (reading ∷ reading ∷ []) connected-Reach refl

-- Node A disconnects, which two theorems are about.
server_refines_example :
    Registers (registry connected)
    × Move (registry connected) (registry (read_done library connected 0 ReadResult.eof))
unfolding connected
server_refines_example =
    server_refines library connected-Reach (Step.read 0 ReadResult.eof (omega arith) tt)

roles_are_final_example :
    Later
      (standing (connected.sessions 0))
      (standing ((read_done library connected 0 ReadResult.eof).sessions 0))
unfolding connected
roles_are_final_example =
    roles_are_final library connected-Reach (Step.read 0 ReadResult.eof (omega arith) tt) 0
      (omega arith)

-- The second client asks for the role of the first, and is refused.
hello_read_example :
    Welcomed with_a (read_done library with_a 1 (ReadResult.arrived (hello "A"))) 1 "A"
unfolding with_a getline back_is pop_back encode make_hello_message
hello_read_example =
    hello_read library library-IsLawful with_a 1 (hello "A") "A" with_a-Reach refl refl (inl refl)
      refl

-- The reading that Node B has been sent goes out.
unfoldable forwarding : World whole
unfolding deliver connected
forwarding = deliver connected 0 (packet_line <> "\n")

forwarding-Reach : Reach library forwarding
unfolding forwarding has_newline encode packet_to_json
forwarding-Reach =
    Reach.next connected-Reach
      (Step.read 0 (ReadResult.arrived (packet_line <> "\n")) (omega arith) refl)

writes_in_order_example :
    Outgoing (forwarding.sessions 1) ((write_done forwarding 1 Completion.done).sessions 1)
unfolding forwarding
writes_in_order_example =
    writes_in_order library forwarding-Reach (Step.write 1 Completion.done refl) 1 (omega arith)
