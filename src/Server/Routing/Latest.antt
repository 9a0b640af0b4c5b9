-- ===== src/Server/Routing/Latest.antt =====
-- The last packet that a session has accepted, which the next one is compared with.
use accelerometer_tcp_json_t.Prelude.{
  ℕ, ◌≡◌, refl, ◌∙◌, String, Option, none, some, List, [], ◌∷◌, ◌++◌, inl, inr, Bool-cases,
  if◌then◌else◌, ==_refl, arith,
}
use accelerometer_tcp_json_t.Doubles.{Doubles}
use accelerometer_tcp_json_t.Json.{Json}
use accelerometer_tcp_json_t.Packet.{AccelPacket, AccelModule}
use accelerometer_tcp_json_t.Server.World.{Session, World, put, has_elements}
use accelerometer_tcp_json_t.Server.Session.{enqueue, write_next_message, write_front}
use accelerometer_tcp_json_t.Server.Handlers.{
  take_packet, take_module, count_received, count_dropped, count_accepted,
  forward_accel_packet_to_node_b,
}
use accelerometer_tcp_json_t.Server.Routing.Lines.{repeats}
use accelerometer_tcp_json_t.Server.Routing.Kept.{
  take_packet-Kept, take_module-Kept, Kept, put-Kept, note_fiftieth-Kept, forward_packet-Kept,
}

module _ {D : Doubles} where
  -- The last packet that a session has accepted.
  abbrev pub last_accepted : Session D → Option (AccelPacket D)
  last_accepted s = if s.has_last_packet then some s.last_packet else none

  last-write_front :
      (s : Session D) (q : List String) → last_accepted (write_front s q) ≡ last_accepted s
  unfolding write_front
  last-write_front s [] = refl
  last-write_front s (m ∷ q) = ground arith

  last-enqueue : (s : Session D) (m : String) → last_accepted (enqueue s m) ≡ last_accepted s
  unfolding enqueue write_next_message
  last-enqueue s m = elim (Bool-cases (has_elements s.write_queue)) [
    | inl e ↦ rw e refl
    | inr e ↦ rw e (last-write_front _ (s.write_queue ++ (m ∷ [])))
  ]

  buffer-write_front : (s : Session D) (q : List String) → (write_front s q).buffer ≡ s.buffer
  unfolding write_front
  buffer-write_front s [] = refl
  buffer-write_front s (m ∷ q) = ground arith

  buffer-enqueue : (s : Session D) (m : String) → (enqueue s m).buffer ≡ s.buffer
  unfolding enqueue write_next_message
  buffer-enqueue s m = elim (Bool-cases (has_elements s.write_queue)) [
    | inl e ↦ rw e refl
    | inr e ↦ rw e (buffer-write_front _ (s.write_queue ++ (m ∷ [])))
  ]

  abbrev pub buffer_of : Session D → String
  buffer_of s = s.buffer

  module _ (J : Json D) (w : World D) (i : ℕ) where
    -- What a packet makes of the last one that its session has accepted.
    pub take_packet-last :
        (p : AccelPacket D)
        → last_accepted ((take_packet J w i p).sessions i)
          ≡ (if repeats w i p then last_accepted (w.sessions i) else some p)
    unfolding take_packet
    take_packet-last p =
        let dropped = put w i (count_dropped (count_received (w.sessions i))) in
        let kept = put w i (count_accepted (count_received (w.sessions i)) p) in
        let sent = forward_accel_packet_to_node_b J kept i p in
        let sends = forward_packet-Kept last_accepted last-enqueue J kept i p (λ s. refl) in
        elim (Bool-cases (repeats w i p)) [
          | inl e ↦ rw e (
              (note_fiftieth-Kept last_accepted _ dropped _).same i
              ∙ (put-Kept last_accepted w i _ refl).same i)
          | inr e ↦
              rw e
                ((note_fiftieth-Kept last_accepted _ sent _).same i ∙ sends.same i ∙ rw (==_refl i))
        ]

    -- Packets and modules leave what is in the buffers.
    pub take_packet-buffer : (p : AccelPacket D) → Kept buffer_of w (take_packet J w i p)
    take_packet-buffer p =
        take_packet-Kept buffer_of buffer-enqueue J w i p (λ s. refl) (λ s. refl) (λ s. refl)

    pub take_module-buffer : (m : AccelModule D) → Kept buffer_of w (take_module J w i m)
    take_module-buffer m = take_module-Kept buffer_of buffer-enqueue J w i m (λ s. refl) (λ s. refl)
