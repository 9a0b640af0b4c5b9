-- ===== src/Server/Registry/Joining.antt =====
-- RegisterRole and the other handlers of a line as moves of the registry.
use accelerometer_tcp_json_t.Prelude.{
  ℕ, ◌≡◌, ◌≢◌, refl, sym, ap, ◌∙◌, false, String, arith, inl, inr, Bool-cases, ==_refl,
}
use accelerometer_tcp_json_t.Prelude.Text.{is_empty, is_empty_iff, str_eq, eq_iff}
use accelerometer_tcp_json_t.Doubles.{Doubles}
use accelerometer_tcp_json_t.Json.{Json}
use accelerometer_tcp_json_t.Protocol.{k_role_A, k_role_B}
use accelerometer_tcp_json_t.Server.State.{set_node_a, set_node_b, is_other, lock}
use accelerometer_tcp_json_t.Server.World.{World, Notice, alive, note}
use accelerometer_tcp_json_t.Server.Handlers.{register_role, finish_registration, handle_line}
use accelerometer_tcp_json_t.Server.Cases.{handle_line_cases}
use accelerometer_tcp_json_t.Server.Invariant.{
  Inv, Frame-Inv, note-Frame, Serves, free_slot, take_packet-Frame, take_module-Frame, a_not_empty,
  b_not_empty,
}
use accelerometer_tcp_json_t.Server.Registry.Moves.{
  Client, Move, registry, standing, standing-node, Frame-Move,
}

module _ {D : Doubles} where
  module _ (w : World D) (i : ℕ) (v : Inv w) (r : (w.sessions i).role ≡ "")
      (c : (w.sessions i).closed ≡ false) where
    -- A client without a role is a guest, and serves as nothing.
    a_guest : standing (w.sessions i) ≡ Client.guest
    a_guest = rw (c, r) refl

    pub not_itself : (role : String) → role ≢ "" → (j : ℕ) → Serves (w.sessions j) role → i ≢ j
    not_itself role ne j s e = ne (sym s.0 ∙ ap (λ k. (w.sessions k).role) (sym e) ∙ r)

    set_a-Move :
        Move
          (registry w)
          (registry (finish_registration w i k_role_A (set_node_a (alive w) w.state i)))
    unfolding finish_registration set_node_a
    set_a-Move = elim (Bool-cases (is_other (lock (alive w) w.state.node_a) i)) [
      | inl e ↦ rw e (Frame-Move (note-Frame w (Notice.node_taken k_role_A)))
      | inr e ↦ rw e (
          Move.joins i k_role_A (inl refl) refl a_guest
            (λ j h.
              let s = standing-node (w.sessions j) k_role_A h in
              free_slot w i v r c w.state.node_a j (not_itself k_role_A a_not_empty j s) (λ x. s.1)
                e ((v.slot_a j).1 s))
            (rw (==_refl i, c) refl) (λ j ne. ground arith))
    ]

    set_b-Move :
        Move
          (registry w)
          (registry (finish_registration w i k_role_B (set_node_b (alive w) w.state i)))
    unfolding finish_registration set_node_b
    set_b-Move = elim (Bool-cases (is_other (lock (alive w) w.state.node_b) i)) [
      | inl e ↦ rw e (Frame-Move (note-Frame w (Notice.node_taken k_role_B)))
      | inr e ↦ rw e (
          Move.joins i k_role_B (inr refl) refl a_guest
            (λ j h.
              let s = standing-node (w.sessions j) k_role_B h in
              free_slot w i v r c w.state.node_b j (not_itself k_role_B b_not_empty j s) (λ x. s.1)
                e ((v.slot_b j).1 s))
            (rw (==_refl i, c) refl) (λ j ne. ground arith))
    ]

  register_role-Move :
      (w : World D) (i : ℕ) (role : String)
      → ((w.sessions i).role ≡ "" → (w.sessions i).closed ≡ false)
      → Inv w
      → Move (registry w) (registry (register_role w i role))
  unfolding register_role
  register_role-Move w i role opened v = elim (Bool-cases (is_empty (w.sessions i).role)) [
    | inl e ↦
        let r = (is_empty_iff (w.sessions i).role).0 e in
        elim (Bool-cases (str_eq role k_role_A)) [
          | inl a ↦
              rw ((v.sound i).attached, e, a, (eq_iff role k_role_A).0 a)
                (set_a-Move w i v r (opened r))
          | inr a ↦ elim (Bool-cases (str_eq role k_role_B)) [
            | inl b ↦
                rw ((v.sound i).attached, e, a, b, (eq_iff role k_role_B).0 b)
                  (set_b-Move w i v r (opened r))
            | inr b ↦ rw ((v.sound i).attached, e, a, b) (Move.stays refl (λ j. refl))
          ]
        ]
    | inr e ↦ rw ((v.sound i).attached, e) (Move.stays refl (λ j. refl))
  ]

  pub handle_line-Move :
      (J : Json D) (w : World D) (i : ℕ) (line : String)
      → ((w.sessions i).role ≡ "" → (w.sessions i).closed ≡ false)
      → Inv w
      → Move (registry w) (registry (handle_line J w i line))
  handle_line-Move J w i line opened v =
      handle_line_cases J (λ u. Move (registry w) (registry u)) w i
        (λ n. Frame-Move (note-Frame w n)) line
        (λ json role _ _.
          register_role-Move (note w _) i role opened (Frame-Inv (note-Frame w _) v))
        (λ json p _ _ _. Frame-Move (take_packet-Frame J w i p v))
        (λ json m _ _ _. Frame-Move (take_module-Frame J w i m v))
