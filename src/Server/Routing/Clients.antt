-- ===== src/Server/Routing/Clients.antt =====
-- Who can make the server send something: every line that a client sends leads to one of three ends.
use accelerometer_tcp_json_t.Prelude.{
  ℕ, ◌≡◌, refl, Bool, true, false, String, some, inl, inr, Bool-cases, Option-cases,
}
use accelerometer_tcp_json_t.Doubles.{Doubles}
use accelerometer_tcp_json_t.Json.{Json}
use accelerometer_tcp_json_t.Packet.{AccelPacket, AccelModule}
use accelerometer_tcp_json_t.Protocol.{
  Result, packet_to_json, module_to_json, parse_json_line, parse_accel_packet, parse_accel_module,
  k_role_A, k_role_B,
}
use accelerometer_tcp_json_t.Server.State.{get_node_a, get_node_b}
use accelerometer_tcp_json_t.Server.World.{World, Notice, note, alive}
use accelerometer_tcp_json_t.Server.Handlers.{
  take_packet, take_module, handle_line, register_role, finish_registration,
}
use accelerometer_tcp_json_t.Server.Events.{Reach}
use accelerometer_tcp_json_t.Server.Cases.{register_role_cases, handle_line_cases}
use accelerometer_tcp_json_t.Server.Invariant.{Inv, Reach-Inv}
use accelerometer_tcp_json_t.Server.Routing.Outbox.{Silent, Delivered, line_of}
use accelerometer_tcp_json_t.Server.Routing.Packets.{put-Silent}
use accelerometer_tcp_json_t.Server.State.{ServerState}
use accelerometer_tcp_json_t.Server.Routing.Lines.{
  repeats, take_packet-dropped, take_packet-none, take_packet-some, take_module-none,
  take_module-some,
}

module _ {D : Doubles} where
  -- What the world `u` after a line from the client `i` has that `w` before it had not.
  pub data Routed (J : Json D) (w : World D) (i : ℕ) (line : String) (u : World D) : Type 0 where
    -- No client was sent anything.
    quiet : Silent w u → Routed J w i line u
    -- The client is Node A, the line is a packet that repeats nothing, and Node B was sent it.
    packet :
        (json : J.Value) (p : AccelPacket D) (b : ℕ)
        → parse_json_line J line ≡ Result.success json
        → parse_accel_packet J json ≡ Result.success p
        → (w.sessions i).role ≡ k_role_A
        → repeats w i p ≡ false
        → get_node_b (alive w) w.state ≡ some b
        → Delivered w u b (line_of J (packet_to_json J p))
        → Routed J w i line u
    -- The client is Node B, the line is a module, and Node A was sent it.
    module_line :
        (json : J.Value) (m : AccelModule D) (a : ℕ)
        → parse_json_line J line ≡ Result.success json
        → parse_accel_module J json ≡ Result.success m
        → (w.sessions i).role ≡ k_role_B
        → get_node_a (alive w) w.state ≡ some a
        → Delivered w u a (line_of J (module_to_json J m))
        → Routed J w i line u

  finish_registration-Silent :
      (w : World D) (i : ℕ) (role : String) (r : ServerState × Bool)
      → Silent w (finish_registration w i role r)
  unfolding finish_registration
  finish_registration-Silent w i role (st, true) = record {
    same = (put-Silent w i (record (w.sessions i) { role = role }) refl).same;
  }
  finish_registration-Silent w i role (st, false) = record { same = λ j. refl }

  register_role-Silent : (w : World D) (i : ℕ) (role : String) → Silent w (register_role w i role)
  register_role-Silent w i role =
      register_role_cases (Silent w) w i role (λ n. record { same = λ j. refl })
        (finish_registration-Silent w i role)

  pub handle_line-Routed :
      (J : Json D) (w : World D) (i : ℕ) (line : String)
      → Inv w
      → Routed J w i line (handle_line J w i line)
  handle_line-Routed J w i line v =
      handle_line_cases J (Routed J w i line) w i (λ n. quiet (record { same = λ j. refl })) line
        (λ json role _ _.
          quiet (record {
            same = (register_role-Silent (note w (Notice.client_role role)) i role).same;
          }))
        packet_case module_case
    where
      packet_case :
          (json : J.Value) (p : AccelPacket D)
          → parse_json_line J line ≡ Result.success json
          → (w.sessions i).role ≡ k_role_A
          → parse_accel_packet J json ≡ Result.success p
          → Routed J w i line (take_packet J w i p)
      packet_case json p e role f = elim (Bool-cases (repeats w i p)) [
        | inl d ↦ quiet (take_packet-dropped J w i v p d)
        | inr d ↦ elim (Option-cases (get_node_b (alive w) w.state)) [
          | inl g ↦ quiet (take_packet-none J w i v p d g)
          | inr (b, g) ↦ packet json p b e f role d g (take_packet-some J w i v p b d g)
        ]
      ]

      module_case :
          (json : J.Value) (m : AccelModule D)
          → parse_json_line J line ≡ Result.success json
          → (w.sessions i).role ≡ k_role_B
          → parse_accel_module J json ≡ Result.success m
          → Routed J w i line (take_module J w i m)
      module_case json m e role f = elim (Option-cases (get_node_a (alive w) w.state)) [
        | inl g ↦ quiet (take_module-none J w i v m g)
        | inr (a, g) ↦ module_line json m a e f role g (take_module-some J w i v m a g)
      ]

  -- In a reachable world, a line from a client makes the server send nothing, unless the client is
  -- Node A and the line a packet that repeats nothing, which Node B is sent, or the client is
  -- Node B and the line a module, which Node A is sent; and then no other client is sent anything.
  pub line_routing :
      (J : Json D) (w : World D) (i : ℕ) (line : String)
      → Reach J w
      → Routed J w i line (handle_line J w i line)
  line_routing J w i line r = handle_line-Routed J w i line (Reach-Inv J r)
