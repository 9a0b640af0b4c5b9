-- ===== src/Lib.antt =====
-- A model of the accelerometer system, a server that routes measurements between two nodes over
-- TCP lines of JSON, with proofs about it.
--
-- Node A (src/node_a) sends accel packets to the server, the server (src/server) drops repeated
-- ones and forwards the others to Node B, Node B (src/node_b) answers each with the magnitude of
-- the vector, and the server forwards the answers to Node A. All use the messages of
-- src/common/json_protocol.cpp.
--
-- Parts and files:
-- - Doubles: `double` and <cmath>, and Json: nlohmann::json. Both are dependencies, so they are
--   parameters; `IsLawful` in Json.antt states the documented behaviour that proofs rely on.
-- - Packet: include/common/accel_packet.hpp and accel_module.hpp. `is_duplicate` is
--   AccelPacket::IsDuplicate.
-- - Protocol: src/common/json_protocol.cpp. Defs has the functions of `detail`, Messages the rest,
--   under the source's names in snake case. A Status or a Result is a success with its value or a
--   failure with its text. Int64 values are integers, and conversions that wrap are written out
--   (Prelude/Int).
-- - Server: src/server. State is server_state.cpp, where a weak_ptr is the number of a session.
--   World has the members of ClientSession and TcpServer with the operations that Boost.Asio has
--   outstanding; Session and Handlers are client_session.cpp, one function for each member
--   function; Events has TcpServer::Start, the completion handlers and the steps of the event
--   loop, which are the ends of outstanding operations in any order. A session lives as long as a
--   handler holds it. Counters of type uint64_t wrap at 2 ^ 64. What the server prints is the list
--   `log`.
-- - Server/Invariant has the invariant and its preservation, Server/Roles its consequences for
--   roles and operations, Server/Routing what is sent to whom, Server/Counters the tally of
--   packets, and Server/Registry a registry of numbered clients, which is what the server amounts to
--   if only connections and roles are seen. Server/Process is src/server/main.cpp: how it starts the
--   server, runs the event loop and ends, also by an exception of socket.remote_endpoint().
-- - Client: src/common/tcp_client.cpp. How each call of Boost.Asio ends is an argument.
--   Prelude/Framing has what the client and the server do with the text in a buffer, Prelude/Parts
--   what it is for parts of bytes to carry lines.
-- - NodeB: src/node_b/main.cpp. `boot` is main up to its loop and `round` one round of the loop;
--   once main has returned, `running` is false and rounds do nothing. Replies and Answers have
--   what is sent, Counts the counters.
-- - NodeA: src/node_a. Emulator is accelerometer_emulator.cpp, with the time as an argument. The rest
--   is main.cpp: State has what its two threads share and where each stands, Defs what a thread does
--   between two accesses to what they share, Steps the steps of both in any order. Threads has what
--   one thread leaves alone of the other, Sending what `main` sends, Modules and Logging what
--   ReceiveModules writes to the file, and Shutdown how both end. An exception of
--   create_directories, which nothing catches, ends the process (`abort`).
-- - Pipeline: the way of a measurement through all of these, from Node A to Node B and back.
-- - Tests: instances of the parameters, a run of the server, and the theorems at concrete
--   inputs.
--
-- No definition needs fuel but `to_string`, whose fuel is the number that it prints, which is more
-- than the number of its digits.
--
-- Not modelled: the address that the server prints of a peer; the mutex of ServerState, since one
-- thread runs the event loop; the shell scripts of tcpdump-sh.
pub mod Prelude
pub mod Doubles
pub mod Json
pub mod Packet
pub mod Protocol
pub mod Client
pub mod NodeA
pub mod NodeB
pub mod Pipeline
pub mod Server
mod Tests
