-- ===== src/Server/Counters/Operations.antt =====
-- The counters of packets: what each operation of a session leaves true of them.
use accelerometer_tcp_json_t.Prelude.{
  ℕ, ◌%◌, ◌^◌, ◌+◌, ◌==◌, ◌≡◌, Bool, true, false, not, ◌&&◌, ◌||◌, String, List, [], ◌∷◌, Option,
  none, some, arith, inl, inr, Bool-cases,
}
use accelerometer_tcp_json_t.Doubles.{Doubles}
use accelerometer_tcp_json_t.Json.{Json}
use accelerometer_tcp_json_t.Packet.{AccelPacket, AccelModule, is_duplicate}
use accelerometer_tcp_json_t.Protocol.{packet_to_json, module_to_json}
use accelerometer_tcp_json_t.Server.State.{ServerState, get_node_a, get_node_b}
use accelerometer_tcp_json_t.Server.World.{Session, World, Notice, put, alive, has_elements}
use accelerometer_tcp_json_t.Server.Session.{
  write_front, write_next_message, read_next_line, enqueue, send_json, shut_down, close,
}
use accelerometer_tcp_json_t.Server.Handlers.{
  register_role, finish_registration, take_packet, take_module, forward, finish_forward,
  forward_accel_packet_to_node_b, forward_accel_module_to_node_a, count_received, count_dropped,
  count_accepted, count_forwarded, count_module, count_forwarded_module, note_fiftieth,
}
use accelerometer_tcp_json_t.Server.Events.{end_read, end_write, read_on, write_on, take_bytes}
use accelerometer_tcp_json_t.Server.Cases.{register_role_cases}

module _ {D : Doubles} where
  -- Each packet received was accepted or dropped, as far as 64 bits can tell.
  abbrev pub IsTallied : Session D → Type 0
  IsTallied s = s.received_packets ≡ (s.accepted_packets + s.dropped_packets) % 2 ^ 64

  abbrev pub AllTallied : World D → Type 0
  AllTallied w = (i : ℕ) → IsTallied (w.sessions i)

  pub put-AllTallied :
      (w : World D) (i : ℕ) (s : Session D) → IsTallied s → AllTallied w → AllTallied (put w i s)
  put-AllTallied w i s h v j = elim (Bool-cases (i == j)) [ inl e ↦ rw e h | inr e ↦ rw e (v j) ]

  write_front-IsTallied :
      (s : Session D) (q : List String) → IsTallied s → IsTallied (write_front s q)
  unfolding write_front
  write_front-IsTallied s [] h = h
  write_front-IsTallied s (m ∷ q) h = ground arith

  enqueue-IsTallied : (s : Session D) (m : String) → IsTallied s → IsTallied (enqueue s m)
  unfolding enqueue write_next_message
  enqueue-IsTallied s m h = elim (Bool-cases (has_elements s.write_queue)) [
    | inl e ↦ rw e h
    | inr e ↦ rw e (write_front-IsTallied _ _ h)
  ]

  pub write_on-IsTallied :
      (s : Session D) → IsTallied s → IsTallied (end_write (write_on (take_bytes s)))
  unfolding write_on write_next_message write_front
  write_on-IsTallied s h = ground arith

  pub read_on-IsTallied : (s : Session D) → IsTallied s → IsTallied (end_read (read_on s))
  unfolding read_on read_next_line
  read_on-IsTallied s h = ground arith

  note_fiftieth-AllTallied :
      (n : ℕ) (w : World D) (x : Notice D) → AllTallied w → AllTallied (note_fiftieth n w x)
  note_fiftieth-AllTallied n w x v i = ground (arith, v i)

  pub close-AllTallied : (w : World D) (i : ℕ) → AllTallied w → AllTallied (close w i)
  unfolding close shut_down
  close-AllTallied w i v j = ground (arith, v i, v j)

  finish_registration-AllTallied :
      (w : World D) (i : ℕ) (role : String) (r : ServerState × Bool)
      → AllTallied w
      → AllTallied (finish_registration w i role r)
  unfolding finish_registration
  finish_registration-AllTallied w i role (st, true) v =
      put-AllTallied w i (record (w.sessions i) { role = role }) (v i) v
  finish_registration-AllTallied w i role (st, false) v = v

  pub register_role-AllTallied :
      (w : World D) (i : ℕ) (role : String) → AllTallied w → AllTallied (register_role w i role)
  register_role-AllTallied w i role v =
      register_role_cases AllTallied w i role (λ n. v)
        (λ r. finish_registration-AllTallied w i role r v)

  finish_forward-AllTallied :
      (i : ℕ) (what : String) (counted : Session D → Session D) (r : World D × Bool)
      → ((s : Session D) → IsTallied s → IsTallied (counted s))
      → AllTallied r.0
      → AllTallied (finish_forward i what counted r)
  unfolding finish_forward
  finish_forward-AllTallied i what counted (w, true) c v =
      put-AllTallied w i (counted (w.sessions i)) (c _ (v i)) v
  finish_forward-AllTallied i what counted (w, false) c v = v

  module _ (J : Json D) where
    send_json-AllTallied :
        (w : World D) (i : ℕ) (json : J.Value) → AllTallied w → AllTallied (send_json J w i json).0
    unfolding send_json
    send_json-AllTallied w i json v =
        elim (Bool-cases ((w.sessions i).closed || not (w.sessions i).socket.is_open)) [
          | inl e ↦ rw e v
          | inr e ↦ rw e (put-AllTallied w i _ (enqueue-IsTallied (w.sessions i) _ (v i)) v)
        ]

    forward-AllTallied :
        (w : World D) (i : ℕ) (what : String) (n : ℕ) (target : Option ℕ) (json : J.Value)
        (counted : Session D → Session D)
        → ((s : Session D) → IsTallied s → IsTallied (counted s))
        → AllTallied w
        → AllTallied (forward J w i what n target json counted)
    unfolding forward
    forward-AllTallied w i what n none json counted c v =
        elim (Bool-cases (w.sessions i).has_state) [
          | inl e ↦ simp e (note_fiftieth-AllTallied n w _ v)
          | inr e ↦ simp e v
        ]
    forward-AllTallied w i what n (some node) json counted c v =
        elim (Bool-cases (w.sessions i).has_state) [
          | inl e ↦
              simp e
                (finish_forward-AllTallied i what counted _ c (send_json-AllTallied w node json v))
          | inr e ↦ simp e v
        ]

    forward_packet-AllTallied :
        (w : World D) (i : ℕ) (packet : AccelPacket D)
        → AllTallied w
        → AllTallied (forward_accel_packet_to_node_b J w i packet)
    unfolding forward_accel_packet_to_node_b
    forward_packet-AllTallied w i packet v =
        forward-AllTallied w i "packet" (w.sessions i).accepted_packets
          (get_node_b (alive w) w.state) (packet_to_json J packet) count_forwarded (λ t h. h) v

    forward_module-AllTallied :
        (w : World D) (i : ℕ) (m : AccelModule D)
        → AllTallied w
        → AllTallied (forward_accel_module_to_node_a J w i m)
    unfolding forward_accel_module_to_node_a
    forward_module-AllTallied w i m v =
        forward-AllTallied w i "module" (w.sessions i).received_modules
          (get_node_a (alive w) w.state) (module_to_json J m) count_forwarded_module (λ t h. h) v

    pub take_packet-AllTallied :
        (w : World D) (i : ℕ) (packet : AccelPacket D)
        → AllTallied w
        → AllTallied (take_packet J w i packet)
    unfolding take_packet
    take_packet-AllTallied w i packet v =
        let s = count_received (w.sessions i) in
        let accepted =
          forward_accel_packet_to_node_b J (put w i (count_accepted s packet)) i packet in
        let u = accepted.sessions i in
        elim (Bool-cases
          ((w.sessions i).has_last_packet && is_duplicate packet (w.sessions i).last_packet)) [
            | inl e ↦ rw e (
                note_fiftieth-AllTallied (count_dropped s).dropped_packets
                  (put w i (count_dropped s))
                  (Notice.dropped_duplicates (count_dropped s).dropped_packets)
                  (put-AllTallied w i (count_dropped s) (omega (arith, v i)) v))
            | inr e ↦ rw e (
                note_fiftieth-AllTallied u.accepted_packets accepted
                  (Notice.packet_statistics u.accepted_packets u.received_packets u.dropped_packets
                    packet)
                  (forward_packet-AllTallied (put w i (count_accepted s packet)) i packet
                    (put-AllTallied w i (count_accepted s packet) (omega (arith, v i)) v)))
          ]

    pub take_module-AllTallied :
        (w : World D) (i : ℕ) (m : AccelModule D) → AllTallied w → AllTallied (take_module J w i m)
    unfolding take_module
    take_module-AllTallied w i m v =
        let counted = put w i (count_module (w.sessions i)) in
        let forwarded = forward_accel_module_to_node_a J counted i m in
        let n = (forwarded.sessions i).received_modules in
        note_fiftieth-AllTallied n forwarded (Notice.module_statistics n m) (
          forward_module-AllTallied counted i m
            (put-AllTallied w i (count_module (w.sessions i)) (v i) v))
