-- ===== src/Server/Invariant/Packets.antt =====
-- The handlers of packets and modules keep the invariant: they change no role and no slot.
use accelerometer_tcp_json_t.Prelude.{
  ℕ, ◌≡◌, refl, ◌≢◌, ◌&&◌, String, Option, none, some, arith, inl, inr, Bool-cases,
}
use accelerometer_tcp_json_t.Prelude.Text.{eq_iff}
use accelerometer_tcp_json_t.Doubles.{Doubles}
use accelerometer_tcp_json_t.Json.{Json}
use accelerometer_tcp_json_t.Packet.{AccelPacket, AccelModule, is_duplicate}
use accelerometer_tcp_json_t.Protocol.{k_role_A, k_role_B, packet_to_json, module_to_json}
use accelerometer_tcp_json_t.Server.State.{lock, get_node_a, get_node_b}
use accelerometer_tcp_json_t.Server.World.{World, alive}
use accelerometer_tcp_json_t.Server.Handlers.{
  count_received, count_dropped, count_accepted, count_forwarded, count_module,
  count_forwarded_module, take_packet, take_module, forward_accel_packet_to_node_b,
  forward_accel_module_to_node_a,
}
use accelerometer_tcp_json_t.Server.Invariant.Defs.{Inv}
use accelerometer_tcp_json_t.Server.Invariant.Frames.{Frame, Frame-trans, put-Frame, Frame-Inv}
use accelerometer_tcp_json_t.Server.Invariant.Sending.{
  wires-Similar, note_fiftieth-Frame, Registered, forward-Frame,
}

module _ {D : Doubles} where
  -- A slot that can be locked names a session with a role.
  lock-Registered :
      (w : World D) (slot : Option ℕ) (role : String)
      → role ≢ ""
      → ((i : ℕ) → slot ≡ some i → (w.sessions i).role ≡ role)
      → Registered w (lock (alive w) slot)
  lock-Registered w none role r h = tt
  lock-Registered w (some i) role r h = elim (Bool-cases (alive w i)) [
    | inl e ↦ rw e (rw (h i refl) r)
    | inr e ↦ rw e tt
  ]

  pub node_a-Registered : (w : World D) → Inv w → Registered w (get_node_a (alive w) w.state)
  unfolding get_node_a
  node_a-Registered w v =
      lock-Registered w w.state.node_a k_role_A (ground (arith, eq_iff k_role_A ""))
        (λ i e. ((v.slot_a i).0 e).0)

  pub node_b-Registered : (w : World D) → Inv w → Registered w (get_node_b (alive w) w.state)
  unfolding get_node_b
  node_b-Registered w v =
      lock-Registered w w.state.node_b k_role_B (ground (arith, eq_iff k_role_B ""))
        (λ i e. ((v.slot_b i).0 e).0)

  module _ (J : Json D) where
    forward_accel_packet_to_node_b-Frame :
        (w : World D) (i : ℕ) (packet : AccelPacket D)
        → Inv w
        → Frame w (forward_accel_packet_to_node_b J w i packet)
    unfolding forward_accel_packet_to_node_b
    forward_accel_packet_to_node_b-Frame w i packet v =
        forward-Frame J w i "packet" _ (get_node_b (alive w) w.state) (packet_to_json J packet) _
          (λ s. wires-Similar s (count_forwarded s) refl) (node_b-Registered w v)

    forward_accel_module_to_node_a-Frame :
        (w : World D) (i : ℕ) (m : AccelModule D)
        → Inv w
        → Frame w (forward_accel_module_to_node_a J w i m)
    unfolding forward_accel_module_to_node_a
    forward_accel_module_to_node_a-Frame w i m v =
        forward-Frame J w i "module" _ (get_node_a (alive w) w.state) (module_to_json J m) _
          (λ s. wires-Similar s (count_forwarded_module s) refl) (node_a-Registered w v)

    pub take_packet-Frame :
        (w : World D) (i : ℕ) (packet : AccelPacket D) → Inv w → Frame w (take_packet J w i packet)
    unfolding take_packet
    take_packet-Frame w i packet v =
        let s = w.sessions i in
        let received = count_received s in
        let dropped = put-Frame w i _ (wires-Similar s (count_dropped received) refl) in
        let accepted = put-Frame w i _ (wires-Similar s (count_accepted received packet) refl) in
        elim (Bool-cases (s.has_last_packet && is_duplicate packet s.last_packet)) [
          | inl e ↦ rw e (Frame-trans dropped (note_fiftieth-Frame _ _ _))
          | inr e ↦ rw e (
              Frame-trans
                (Frame-trans accepted
                  (forward_accel_packet_to_node_b-Frame _ i packet (Frame-Inv accepted v)))
                (note_fiftieth-Frame _ _ _))
        ]

    pub take_module-Frame :
        (w : World D) (i : ℕ) (m : AccelModule D) → Inv w → Frame w (take_module J w i m)
    unfolding take_module
    take_module-Frame w i m v =
        let s = w.sessions i in
        let counted = put-Frame w i _ (wires-Similar s (count_module s) refl) in
        Frame-trans
          (Frame-trans counted (forward_accel_module_to_node_a-Frame _ i m (Frame-Inv counted v)))
          (note_fiftieth-Frame _ _ _)
