-- ===== src/Server/World.antt =====
-- include/server/client_session.hpp and tcp_server.hpp: the members of a session, of the acceptor
-- and of the whole server, with the operations that Boost.Asio has outstanding for them.
use accelerometer_tcp_json_t.Prelude.{
  ℕ, Bool, true, false, ◌||◌, String, List, [], ◌∷◌, ltb, update,
}
use accelerometer_tcp_json_t.Prelude.Int.{pos}
use accelerometer_tcp_json_t.Doubles.{Doubles}
use accelerometer_tcp_json_t.Packet.{AccelPacket, AccelModule}
use accelerometer_tcp_json_t.Server.State.{ServerState}

-- socket_: whether it is open, and the buffers whose async_write has succeeded.
pub record Socket : Type 0 where
  pub is_open : Bool
  pub sent : List String

pub record Session (D : Doubles) : Type 0 where
  pub socket : Socket
  pub buffer : String
  -- Whether server_state_ is set.
  pub has_state : Bool
  pub role : String
  pub write_queue : List String
  pub closed : Bool
  pub received_packets : ℕ
  pub accepted_packets : ℕ
  pub dropped_packets : ℕ
  pub forwarded_packets : ℕ
  pub received_modules : ℕ
  pub forwarded_modules : ℕ
  pub has_last_packet : Bool
  pub last_packet : AccelPacket D
  -- The handlers that hold `self`: those of async_read_until by their number, those of
  -- async_write by the buffer that each writes.
  pub reads : ℕ
  pub writes : List String

-- What the server prints.
pub data Notice (D : Doubles) : Type 0 where
  send_failed client_disconnected received_empty_line no_server_state : Notice D
  read_error write_error accept_error : String → Notice D
  invalid_json protocol_error invalid_hello client_role unsupported_type : String → Notice D
  already_registered : String → Notice D
  registered_otherwise : String → String → Notice D
  node_taken node_registered unsupported_role node_disconnected : String → Notice D
  packet_unregistered packet_not_from_a module_unregistered module_not_from_b : Notice D
  invalid_packet invalid_module : String → Notice D
  dropped_duplicates : ℕ → Notice D
  packet_statistics : ℕ → ℕ → ℕ → AccelPacket D → Notice D
  module_statistics : ℕ → AccelModule D → Notice D
  forward_no_state forward_no_node forward_failed : String → Notice D
  client_connected : Notice D
  open_failed reuse_address_failed bind_failed listen_failed : String → Notice D
  listening : Notice D

pub record World (D : Doubles) : Type 0 where
  pub sessions : ℕ → Session D
  -- The sessions made so far have the numbers below this one.
  pub count : ℕ
  pub state : ServerState
  -- The outstanding async_accept calls.
  pub accepts : ℕ
  -- What has been printed, the latest first.
  pub log : List (Notice D)

-- !queue.empty()
abbrev pub has_elements : List String → Bool
has_elements [] = false
has_elements (m ∷ ms) = true

module _ {D : Doubles} where
  -- AccelPacket{}
  abbrev pub empty_packet : AccelPacket D
  empty_packet = record {
    timestamp = pos 0;
    x = D.decimal 0 0;
    y = D.decimal 0 0;
    z = D.decimal 0 0;
  }

  -- ClientSession's constructor, on a socket that is open or not.
  abbrev pub make_session : Bool → Session D
  make_session is_open = record {
    socket = record { is_open = is_open; sent = [] };
    buffer = "";
    has_state = true;
    role = "";
    write_queue = [];
    closed = false;
    received_packets = 0;
    accepted_packets = 0;
    dropped_packets = 0;
    forwarded_packets = 0;
    received_modules = 0;
    forwarded_modules = 0;
    has_last_packet = false;
    last_packet = empty_packet;
    reads = 0;
    writes = [];
  }

  -- What stands at a number that no session has yet.
  abbrev pub no_session : Session D
  no_session = record (make_session false) { closed = true }

  -- A session exists as long as a handler holds it.
  abbrev pub alive : World D → ℕ → Bool
  alive w i = let s = w.sessions i in ltb 0 s.reads || has_elements s.writes

  abbrev pub put : World D → ℕ → Session D → World D
  put w i s = record w { sessions = update w.sessions i s }

  abbrev pub note : World D → Notice D → World D
  note w n = record w { log = n ∷ w.log }
