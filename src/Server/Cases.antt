-- ===== src/Server/Cases.antt =====
-- Case rules: what a handler of messages can amount to, for any statement about the world after it.
use accelerometer_tcp_json_t.Prelude.{ℕ, ◌≡◌, Bool, String, inl, inr, Bool-cases}
use accelerometer_tcp_json_t.Prelude.Text.{is_empty, str_eq, eq_iff}
use accelerometer_tcp_json_t.Doubles.{Doubles}
use accelerometer_tcp_json_t.Json.{Json}
use accelerometer_tcp_json_t.Packet.{AccelPacket, AccelModule}
use accelerometer_tcp_json_t.Protocol.{
  Result-cases, Result, parse_accel_packet, parse_accel_module, parse_json_line, get_message_type,
  get_client_role, k_role_A, k_role_B, k_type_hello, k_type_accel, k_type_module,
}
use accelerometer_tcp_json_t.Server.State.{ServerState}
use accelerometer_tcp_json_t.Server.World.{World, Notice, note}
use accelerometer_tcp_json_t.Server.Handlers.{
  take_packet, take_module, handle_accel_packet, handle_module_packet, handle_hello, handle_message,
  handle_json, handle_line, register_role, finish_registration,
}

module _ {D : Doubles} where
  -- RegisterRole prints a refusal, or ends with what a slot has answered.
  pub register_role_cases :
      (P : World D → Type 0) (w : World D) (i : ℕ) (role : String)
      → ((n : Notice D) → P (note w n))
      → ((r : ServerState × Bool) → P (finish_registration w i role r))
      → P (register_role w i role)
  unfolding register_role
  register_role_cases P w i role refused finished = elim (Bool-cases (w.sessions i).has_state) [
    | inr e ↦ simp e (refused _)
    | inl e ↦ elim (Bool-cases (is_empty (w.sessions i).role)) [
      | inr f ↦ simp (e, f) (refused _)
      | inl f ↦ elim (Bool-cases (str_eq role k_role_A)) [
        | inl g ↦ simp (e, f, g) (finished _)
        | inr g ↦ elim (Bool-cases (str_eq role k_role_B)) [
          | inl h ↦ simp (e, f, g, h) (finished _)
          | inr h ↦ simp (e, f, g, h) (refused _)
        ]
      ]
    ]
  ]

module _ {D : Doubles} (J : Json D) (P : World D → Type 0) (w : World D) (i : ℕ) where
  pub handle_accel_packet_cases :
      (json : J.Value)
      → ((n : Notice D) → P (note w n))
      → ((packet : AccelPacket D)
          → (w.sessions i).role ≡ k_role_A
          → parse_accel_packet J json ≡ Result.success packet
          → P (take_packet J w i packet))
      → P (handle_accel_packet J w i json)
  unfolding handle_accel_packet
  handle_accel_packet_cases json refused taken = elim (Bool-cases (is_empty (w.sessions i).role)) [
    | inl e ↦ rw e (refused _)
    | inr e ↦ elim (Bool-cases (str_eq (w.sessions i).role k_role_A)) [
      | inl a ↦ elim (Result-cases (parse_accel_packet J json)) [
        | inl (m, f) ↦ rw (e, a, f) (refused _)
        | inr (packet, f) ↦ rw (e, a, f) (taken packet ((eq_iff _ _).0 a) f)
      ]
      | inr a ↦ rw (e, a) (refused _)
    ]
  ]

  pub handle_module_packet_cases :
      (json : J.Value)
      → ((n : Notice D) → P (note w n))
      → ((m : AccelModule D)
          → (w.sessions i).role ≡ k_role_B
          → parse_accel_module J json ≡ Result.success m
          → P (take_module J w i m))
      → P (handle_module_packet J w i json)
  unfolding handle_module_packet
  handle_module_packet_cases json refused taken = elim (Bool-cases (is_empty (w.sessions i).role)) [
    | inl e ↦ rw e (refused _)
    | inr e ↦ elim (Bool-cases (str_eq (w.sessions i).role k_role_B)) [
      | inl a ↦ elim (Result-cases (parse_accel_module J json)) [
        | inl (m, f) ↦ rw (e, a, f) (refused _)
        | inr (m, f) ↦ rw (e, a, f) (taken m ((eq_iff _ _).0 a) f)
      ]
      | inr a ↦ rw (e, a) (refused _)
    ]
  ]

  module _ (refused : (n : Notice D) → P (note w n)) where
    module _ (json : J.Value)
        (hello : (role : String)
          → get_client_role J json ≡ Result.success role
          → P (register_role (note w (Notice.client_role role)) i role))
        (packet : (packet : AccelPacket D)
          → (w.sessions i).role ≡ k_role_A
          → parse_accel_packet J json ≡ Result.success packet
          → P (take_packet J w i packet))
        (module_case : (m : AccelModule D)
          → (w.sessions i).role ≡ k_role_B
          → parse_accel_module J json ≡ Result.success m
          → P (take_module J w i m)) where
      handle_hello_cases : P (handle_hello J w i json)
      unfolding handle_hello
      handle_hello_cases = elim (Result-cases (get_client_role J json)) [
        | inl (m, e) ↦ rw (e, handle_hello) (refused _)
        | inr (role, e) ↦ rw (e, handle_hello) (hello role e)
      ]

      handle_message_cases : (type : String) → P (handle_message J w i json type)
      unfolding handle_message
      handle_message_cases type = elim (Bool-cases (str_eq type k_type_hello)) [
        | inl a ↦ rw a handle_hello_cases
        | inr a ↦ elim (Bool-cases (str_eq type k_type_accel)) [
          | inl b ↦ rw (a, b) (handle_accel_packet_cases json refused packet)
          | inr b ↦ elim (Bool-cases (str_eq type k_type_module)) [
            | inl c ↦ rw (a, b, c) (handle_module_packet_cases json refused module_case)
            | inr c ↦ rw (a, b, c) (refused _)
          ]
        ]
      ]

      handle_json_cases : P (handle_json J w i json)
      unfolding handle_json
      handle_json_cases = elim (Result-cases (get_message_type J json)) [
        | inl (m, e) ↦ rw (e, handle_json) (refused _)
        | inr (type, e) ↦ rw (e, handle_json) (handle_message_cases type)
      ]

    -- The three things that a line can lead to, beside a printed refusal: a hello, a packet and a
    -- module, each with the value that the line was parsed to.
    pub handle_line_cases :
        (line : String)
        → ((json : J.Value) (role : String)
            → parse_json_line J line ≡ Result.success json
            → get_client_role J json ≡ Result.success role
            → P (register_role (note w (Notice.client_role role)) i role))
        → ((json : J.Value) (packet : AccelPacket D)
            → parse_json_line J line ≡ Result.success json
            → (w.sessions i).role ≡ k_role_A
            → parse_accel_packet J json ≡ Result.success packet
            → P (take_packet J w i packet))
        → ((json : J.Value) (m : AccelModule D)
            → parse_json_line J line ≡ Result.success json
            → (w.sessions i).role ≡ k_role_B
            → parse_accel_module J json ≡ Result.success m
            → P (take_module J w i m))
        → P (handle_line J w i line)
    unfolding handle_line
    handle_line_cases line hello packet m = elim (Bool-cases (is_empty line)) [
      | inl e ↦ rw e (refused _)
      | inr e ↦ elim (Result-cases (parse_json_line J line)) [
        | inl (x, f) ↦ rw (e, f) (refused _)
        | inr (json, f) ↦
            rw (e, f)
              (handle_json_cases json (λ r. hello json r f) (λ p. packet json p f)
                (λ x. m json x f))
      ]
    ]
