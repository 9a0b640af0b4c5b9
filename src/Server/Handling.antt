-- ===== src/Server/Handling.antt =====
-- What HandleLine makes of a line that a node has printed.
use accelerometer_tcp_json_t.Prelude.{ℕ, ◌≡◌, refl, false, String, Bool-cases, inl, inr}
use accelerometer_tcp_json_t.Prelude.Text.{is_empty, is_empty_iff}
use accelerometer_tcp_json_t.Doubles.{Doubles}
use accelerometer_tcp_json_t.Json.{Json, IsLawful}
use accelerometer_tcp_json_t.Packet.{AccelPacket, AccelModule}
use accelerometer_tcp_json_t.Protocol.{
  Result, Result-cases, ◌>>=◌, parse_json_line, parse_accel_packet, parse_accel_module,
  get_client_role, packet_type, module_type, role_type, k_role_A, k_role_B,
}
use accelerometer_tcp_json_t.Server.World.{World, Notice, note}
use accelerometer_tcp_json_t.Server.Handlers.{
  take_packet, take_module, handle_line, handle_json, handle_message, handle_accel_packet,
  handle_module_packet, handle_hello, register_role,
}

module _ {D : Doubles} (J : Json D) (L : IsLawful J) (w : World D) (i : ℕ) (line : String) where
  -- A line that is read as anything is not empty.
  not_empty : (v : J.Value) → parse_json_line J line ≡ Result.success v → is_empty line ≡ false
  unfolding parse_json_line
  not_empty v f = elim (Bool-cases (is_empty line)) [
    | inl e ↦ cc (f, (is_empty_iff line).0 e, L.parse_empty)
    | inr e ↦ e
  ]

  pub handle_line-packet :
      (p : AccelPacket D)
      → (w.sessions i).role ≡ k_role_A
      → (parse_json_line J line >>= parse_accel_packet J) ≡ Result.success p
      → handle_line J w i line ≡ take_packet J w i p
  unfolding handle_line handle_json handle_message handle_accel_packet
  handle_line-packet p role h = elim (Result-cases (parse_json_line J line)) [
    | inl (e, f) ↦ cc (rw f at h)
    | inr (v, f) ↦
        let g = rw f at h in
        rw
          (
            not_empty v f,
            f,
            handle_json,
            packet_type J L v p g,
            handle_message,
            handle_accel_packet,
            role,
            g,
          )
          refl
  ]

  pub handle_line-module :
      (m : AccelModule D)
      → (w.sessions i).role ≡ k_role_B
      → (parse_json_line J line >>= parse_accel_module J) ≡ Result.success m
      → handle_line J w i line ≡ take_module J w i m
  unfolding handle_line handle_json handle_message handle_module_packet
  handle_line-module m role h = elim (Result-cases (parse_json_line J line)) [
    | inl (e, f) ↦ cc (rw f at h)
    | inr (v, f) ↦
        let g = rw f at h in
        rw
          (
            not_empty v f,
            f,
            handle_json,
            module_type J L v m g,
            handle_message,
            handle_module_packet,
            role,
            g,
          )
          refl
  ]

  pub handle_line-hello :
      (role : String)
      → (parse_json_line J line >>= get_client_role J) ≡ Result.success role
      → handle_line J w i line ≡ register_role (note w (Notice.client_role role)) i role
  unfolding handle_line handle_json handle_message handle_hello
  handle_line-hello role h = elim (Result-cases (parse_json_line J line)) [
    | inl (e, f) ↦ cc (rw f at h)
    | inr (v, f) ↦
        let g = rw f at h in
        rw (not_empty v f, f, handle_json, role_type J L v role g, handle_message, handle_hello, g)
          refl
  ]
