-- ===== src/Server/Handlers.antt =====
-- src/server/client_session.cpp: the protocol side of a session. HandleLine, RegisterRole,
-- HandleAccelPacket, HandleModulePacket and the two Forward functions.
use accelerometer_tcp_json_t.Prelude.{
  ℕ, ◌%◌, Bool, true, false, ◌&&◌, not, String, Option, none, some, ◌==◌, if◌then◌else◌,
}
use accelerometer_tcp_json_t.Prelude.Int.{next64}
use accelerometer_tcp_json_t.Prelude.Text.{is_empty, str_eq}
use accelerometer_tcp_json_t.Doubles.{Doubles}
use accelerometer_tcp_json_t.Json.{Json}
use accelerometer_tcp_json_t.Packet.{AccelPacket, AccelModule, is_duplicate}
use accelerometer_tcp_json_t.Protocol.{
  Result, k_type_hello, k_type_accel, k_type_module, k_role_A, k_role_B, packet_to_json,
  module_to_json, parse_json_line, get_message_type, get_client_role, parse_accel_packet,
  parse_accel_module,
}
use accelerometer_tcp_json_t.Server.State.{
  ServerState, set_node_a, set_node_b, get_node_a, get_node_b,
}
use accelerometer_tcp_json_t.Server.World.{Session, World, Notice, alive, put, note}
use accelerometer_tcp_json_t.Server.Session.{send_json}

module _ {D : Doubles} where
  -- A report that is printed for every fiftieth count only.
  abbrev pub note_fiftieth : ℕ → World D → Notice D → World D
  note_fiftieth n w notice = if n % 50 == 0 then note w notice else w

  -- The end of either branch of RegisterRole: the slot was free, or taken.
  unfoldable pub finish_registration : World D → ℕ → String → ServerState × Bool → World D
  finish_registration w i role (st, true) =
      note (put (record w { state = st }) i (record (w.sessions i) { role = role }))
        (Notice.node_registered role)
  finish_registration w i role (st, false) = note (record w { state = st }) (Notice.node_taken role)

  unfoldable pub register_role : World D → ℕ → String → World D
  unfolding finish_registration
  register_role w i role =
      let s = w.sessions i in
      if not s.has_state
      then note w Notice.no_server_state
      else if not (is_empty s.role)
      then note w (
          if str_eq s.role role
          then Notice.already_registered s.role
          else Notice.registered_otherwise s.role role)
      else if str_eq role k_role_A
      then finish_registration w i role (set_node_a (alive w) w.state i)
      else if str_eq role k_role_B
      then finish_registration w i role (set_node_b (alive w) w.state i)
      else note w (Notice.unsupported_role role)

  -- The changes that the handlers make to the members of their own session.
  abbrev pub count_received : Session D → Session D
  count_received s = record s { received_packets = next64 s.received_packets }

  abbrev pub count_dropped : Session D → Session D
  count_dropped s = record s { dropped_packets = next64 s.dropped_packets }

  abbrev pub count_accepted : Session D → AccelPacket D → Session D
  count_accepted s packet = record s {
    last_packet = packet;
    has_last_packet = true;
    accepted_packets = next64 s.accepted_packets;
  }

  abbrev pub count_forwarded : Session D → Session D
  count_forwarded s = record s { forwarded_packets = next64 s.forwarded_packets }

  abbrev pub count_module : Session D → Session D
  count_module s = record s { received_modules = next64 s.received_modules }

  abbrev pub count_forwarded_module : Session D → Session D
  count_forwarded_module s = record s { forwarded_modules = next64 s.forwarded_modules }

  -- What a Forward function does with the answer of SendJson.
  unfoldable pub finish_forward : ℕ → String → (Session D → Session D) → World D × Bool → World D
  finish_forward i what counted (w, true) = put w i (counted (w.sessions i))
  finish_forward i what counted (w, false) = note w (Notice.forward_failed what)

  module _ (J : Json D) where
    -- The common shape of ForwardAccelPacketToNodeB and ForwardAccelModuleToNodeA.
    unfoldable pub forward :
        World D → ℕ → String → ℕ → Option ℕ → J.Value → (Session D → Session D) → World D
    unfolding finish_forward
    forward w i what n target json counted =
        if not (w.sessions i).has_state
        then note w (Notice.forward_no_state what)
        else elim target [
          | none ↦ note_fiftieth n w (Notice.forward_no_node what)
          | some node ↦ finish_forward i what counted (send_json J w node json)
        ]

    unfoldable pub forward_accel_packet_to_node_b : World D → ℕ → AccelPacket D → World D
    unfolding forward
    forward_accel_packet_to_node_b w i packet =
        forward w i "packet" (w.sessions i).accepted_packets (get_node_b (alive w) w.state)
          (packet_to_json J packet) count_forwarded

    unfoldable pub forward_accel_module_to_node_a : World D → ℕ → AccelModule D → World D
    unfolding forward
    forward_accel_module_to_node_a w i m =
        forward w i "module" (w.sessions i).received_modules (get_node_a (alive w) w.state)
          (module_to_json J m) count_forwarded_module

    abbrev pub note_packet_statistics : World D → ℕ → AccelPacket D → World D
    note_packet_statistics w i packet =
        let s = w.sessions i in
        note_fiftieth s.accepted_packets w
          (Notice.packet_statistics s.accepted_packets s.received_packets s.dropped_packets packet)

    -- HandleAccelPacket from ++received_accel_packets_count_ on.
    unfoldable pub take_packet : World D → ℕ → AccelPacket D → World D
    take_packet w i packet =
        let s = count_received (w.sessions i) in
        let dropped = count_dropped s in
        let accepted =
          forward_accel_packet_to_node_b (put w i (count_accepted s packet)) i packet in
        if s.has_last_packet && is_duplicate packet s.last_packet
        then note_fiftieth dropped.dropped_packets (put w i dropped)
            (Notice.dropped_duplicates dropped.dropped_packets)
        else note_packet_statistics accepted i packet

    unfoldable pub handle_accel_packet : World D → ℕ → J.Value → World D
    handle_accel_packet w i json =
        let s = w.sessions i in
        if is_empty s.role
        then note w Notice.packet_unregistered
        else if not (str_eq s.role k_role_A)
        then note w Notice.packet_not_from_a
        else elim (parse_accel_packet J json) [
          | Result.failure e ↦ note w (Notice.invalid_packet e)
          | Result.success packet ↦ take_packet w i packet
        ]

    abbrev pub note_module_statistics : World D → ℕ → AccelModule D → World D
    note_module_statistics w i m =
        let n = (w.sessions i).received_modules in note_fiftieth n w (Notice.module_statistics n m)

    -- HandleModulePacket from ++received_modules_count_ on.
    unfoldable pub take_module : World D → ℕ → AccelModule D → World D
    take_module w i m =
        let counted = put w i (count_module (w.sessions i)) in
        note_module_statistics (forward_accel_module_to_node_a counted i m) i m

    unfoldable pub handle_module_packet : World D → ℕ → J.Value → World D
    handle_module_packet w i json =
        let s = w.sessions i in
        if is_empty s.role
        then note w Notice.module_unregistered
        else if not (str_eq s.role k_role_B)
        then note w Notice.module_not_from_b
        else elim (parse_accel_module J json) [
          | Result.failure e ↦ note w (Notice.invalid_module e)
          | Result.success m ↦ take_module w i m
        ]

    -- The branch of HandleLine for a hello message.
    unfoldable pub handle_hello : World D → ℕ → J.Value → World D
    handle_hello w i json = elim (get_client_role J json) [
      | Result.failure e ↦ note w (Notice.invalid_hello e)
      | Result.success role ↦ register_role (note w (Notice.client_role role)) i role
    ]

    -- HandleLine from the test of the message's type on.
    unfoldable pub handle_message : World D → ℕ → J.Value → String → World D
    handle_message w i json type =
        if str_eq type k_type_hello
        then handle_hello w i json
        else if str_eq type k_type_accel
        then handle_accel_packet w i json
        else if str_eq type k_type_module
        then handle_module_packet w i json
        else note w (Notice.unsupported_type type)

    unfoldable pub handle_json : World D → ℕ → J.Value → World D
    handle_json w i json = elim (get_message_type J json) [
      | Result.failure e ↦ note w (Notice.protocol_error e)
      | Result.success type ↦ handle_message w i json type
    ]

    unfoldable pub handle_line : World D → ℕ → String → World D
    handle_line w i line =
        if is_empty line then note w Notice.received_empty_line else elim (parse_json_line J line) [
          | Result.failure e ↦ note w (Notice.invalid_json e)
          | Result.success json ↦ handle_json w i json
        ]
