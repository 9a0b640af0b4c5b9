-- ===== src/Server/Routing/Lines.antt =====
-- What a line from a client makes the server send.
use accelerometer_tcp_json_t.Prelude.{
  ℕ, ◌≡◌, refl, ◌↔◌, ◌∙◌, sym, Bool, true, false, ◌&&◌, String, Option, none, some, ap,
  if◌then◌else◌, inl, inr, Bool-cases, Option-cases,
}
use accelerometer_tcp_json_t.Doubles.{Doubles}
use accelerometer_tcp_json_t.Json.{Json}
use accelerometer_tcp_json_t.Packet.{AccelPacket, AccelModule, is_duplicate}
use accelerometer_tcp_json_t.Protocol.{packet_to_json, module_to_json}
use accelerometer_tcp_json_t.Server.State.{get_node_a, get_node_b}
use accelerometer_tcp_json_t.Server.World.{World, Notice, put, alive}
use accelerometer_tcp_json_t.Server.Handlers.{
  take_packet, take_module, count_received, count_dropped, count_accepted, count_module,
  note_fiftieth,
}
use accelerometer_tcp_json_t.Server.Events.{Reach}
use accelerometer_tcp_json_t.Server.Invariant.{
  Inv, Frame, Frame-Inv, put-Frame, wires-Similar, Reach-Inv,
}
use accelerometer_tcp_json_t.Server.Roles.{get_node_a_iff, get_node_b_iff}
use accelerometer_tcp_json_t.Server.Routing.Outbox.{outbox, Silent, Delivered, line_of}
use accelerometer_tcp_json_t.Server.Routing.Packets.{
  put-Silent, note_fiftieth_sessions, Silent-Delivered, Delivered-Silent, forward_packet-none,
  forward_packet-some, forward_module-none, forward_module-some,
}

-- An option is known by the value that it has.
option_eq : (o p : Option ℕ) → ((i : ℕ) → (o ≡ some i) ↔ (p ≡ some i)) → o ≡ p
option_eq none none h = refl
option_eq none (some k) h = (h k).1 refl
option_eq (some k) p h = sym ((h k).0 refl)

module _ {D : Doubles} where
  pub Silent-trans : (w u v : World D) → Silent w u → Silent u v → Silent w v
  Silent-trans w u v a b = record { same = λ j. b.same j ∙ a.same j }

  -- A frame keeps the nodes that can be had.
  pub node_b-Frame :
      (w u : World D)
      → Inv w
      → Frame w u
      → get_node_b (alive u) u.state ≡ get_node_b (alive w) w.state
  node_b-Frame w u v f = option_eq _ _ λ i.
      let g = get_node_b_iff u i (Frame-Inv f v) in
      let h = get_node_b_iff w i v in
      let s = f.similar i in
      (
        (λ e. h.1 (sym s.role ∙ (g.0 e).0, sym s.closed ∙ (g.0 e).1)),
        (λ e. g.1 (s.role ∙ (h.0 e).0, s.closed ∙ (h.0 e).1)),
      )

  pub node_a-Frame :
      (w u : World D)
      → Inv w
      → Frame w u
      → get_node_a (alive u) u.state ≡ get_node_a (alive w) w.state
  node_a-Frame w u v f = option_eq _ _ λ i.
      let g = get_node_a_iff u i (Frame-Inv f v) in
      let h = get_node_a_iff w i v in
      let s = f.similar i in
      (
        (λ e. h.1 (sym s.role ∙ (g.0 e).0, sym s.closed ∙ (g.0 e).1)),
        (λ e. g.1 (s.role ∙ (h.0 e).0, s.closed ∙ (h.0 e).1)),
      )

  pub note_fiftieth-Silent :
      (n : ℕ) (w : World D) (notice : Notice D) → Silent w (note_fiftieth n w notice)
  note_fiftieth-Silent n w notice = record {
    same = λ j. ap outbox (note_fiftieth_sessions n w notice j);
  }

  -- The test of HandleAccelPacket for a duplicate.
  abbrev pub repeats : World D → ℕ → AccelPacket D → Bool
  repeats w i packet =
      (w.sessions i).has_last_packet && is_duplicate packet (w.sessions i).last_packet

  module _ (J : Json D) (w : World D) (i : ℕ) (v : Inv w) where
    pub take_packet-dropped :
        (packet : AccelPacket D) → repeats w i packet ≡ true → Silent w (take_packet J w i packet)
    unfolding take_packet
    take_packet-dropped packet e = rw e (
        Silent-trans w (put w i (count_dropped (count_received (w.sessions i)))) _
          (put-Silent w i _ refl) (note_fiftieth-Silent _ _ _))

    abbrev with_packet : AccelPacket D → World D
    with_packet packet = put w i (count_accepted (count_received (w.sessions i)) packet)

    with_packet-Frame : (packet : AccelPacket D) → Frame w (with_packet packet)
    with_packet-Frame packet = put-Frame w i _ (wires-Similar (w.sessions i) _ refl)

    pub take_packet-none :
        (packet : AccelPacket D)
        → repeats w i packet ≡ false
        → get_node_b (alive w) w.state ≡ none
        → Silent w (take_packet J w i packet)
    unfolding take_packet
    take_packet-none packet e f =
        let g = with_packet-Frame packet in
        let fwd =
          forward_packet-none J (with_packet packet) i (Frame-Inv g v) packet
            (node_b-Frame w _ v g ∙ f) in
        rw e (
          Silent-trans w _ _ (Silent-trans w (with_packet packet) _ (put-Silent w i _ refl) fwd)
            (note_fiftieth-Silent _ _ _))

    pub take_packet-some :
        (packet : AccelPacket D) (b : ℕ)
        → repeats w i packet ≡ false
        → get_node_b (alive w) w.state ≡ some b
        → Delivered w (take_packet J w i packet) b (line_of J (packet_to_json J packet))
    unfolding take_packet
    take_packet-some packet b e f =
        let g = with_packet-Frame packet in
        let fwd =
          forward_packet-some J (with_packet packet) i (Frame-Inv g v) packet b
            (node_b-Frame w _ v g ∙ f) in
        rw e (
          Delivered-Silent w _ _ b _
            (Silent-Delivered w (with_packet packet) _ b _ (put-Silent w i _ refl) fwd)
            (note_fiftieth-Silent _ _ _))

    abbrev with_module : World D
    with_module = put w i (count_module (w.sessions i))

    with_module-Frame : Frame w with_module
    with_module-Frame = put-Frame w i _ (wires-Similar (w.sessions i) _ refl)

    pub take_module-none :
        (m : AccelModule D) → get_node_a (alive w) w.state ≡ none → Silent w (take_module J w i m)
    unfolding take_module
    take_module-none m f =
        let g = with_module-Frame in
        let fwd =
          forward_module-none J with_module i (Frame-Inv g v) m (node_a-Frame w _ v g ∙ f) in
        Silent-trans w _ _ (Silent-trans w with_module _ (put-Silent w i _ refl) fwd)
          (note_fiftieth-Silent _ _ _)

    pub take_module-some :
        (m : AccelModule D) (a : ℕ)
        → get_node_a (alive w) w.state ≡ some a
        → Delivered w (take_module J w i m) a (line_of J (module_to_json J m))
    unfolding take_module
    take_module-some m a f =
        let g = with_module-Frame in
        let fwd =
          forward_module-some J with_module i (Frame-Inv g v) m a (node_a-Frame w _ v g ∙ f) in
        Delivered-Silent w _ _ a _
          (Silent-Delivered w with_module _ a _ (put-Silent w i _ refl) fwd)
          (note_fiftieth-Silent _ _ _)

  -- What is sent to a node that can be had, or to none.
  abbrev pub Sent : World D → World D → Option ℕ → String → Type 0
  Sent w u none line = Silent w u
  Sent w u (some node) line = Delivered w u node line

  -- In a reachable world, a packet that a session takes makes the server send its line to Node B
  -- and nothing to any other client, if it is no duplicate of the last that the session has
  -- accepted and there is a Node B; otherwise no client is sent anything.
  pub packet_routing :
      (J : Json D) (w : World D) (i : ℕ) (packet : AccelPacket D)
      → Reach J w
      → Sent w
          (take_packet J w i packet)
          (if repeats w i packet then none else get_node_b (alive w) w.state)
          (line_of J (packet_to_json J packet))
  packet_routing J w i packet r =
      let v = Reach-Inv J r in
      elim (Bool-cases (repeats w i packet)) [
        | inl d ↦ rw d (take_packet-dropped J w i v packet d)
        | inr d ↦ elim (Option-cases (get_node_b (alive w) w.state)) [
          | inl g ↦ rw (d, g) (take_packet-none J w i v packet d g)
          | inr (b, g) ↦ rw (d, g) (take_packet-some J w i v packet b d g)
        ]
      ]

  -- In a reachable world, a module that a session takes makes the server send its line to Node A
  -- and nothing to any other client, if there is a Node A; otherwise no client is sent anything.
  pub module_routing :
      (J : Json D) (w : World D) (i : ℕ) (m : AccelModule D)
      → Reach J w
      → Sent w (take_module J w i m) (get_node_a (alive w) w.state) (line_of J (module_to_json J m))
  module_routing J w i m r =
      let v = Reach-Inv J r in
      elim (Option-cases (get_node_a (alive w) w.state)) [
        | inl g ↦ rw g (take_module-none J w i v m g)
        | inr (a, g) ↦ rw g (take_module-some J w i v m a g)
      ]
