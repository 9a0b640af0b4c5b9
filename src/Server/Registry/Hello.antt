-- ===== src/Server/Registry/Hello.antt =====
-- A hello line from a client without a role.
use accelerometer_tcp_json_t.Prelude.{
  ℕ, ◌≡◌, refl, sym, ap, ◌∙◌, ◌⊎◌, true, false, String, Option, none, some, inl, inr, Bool-cases,
  ==_refl, subst,
}
use accelerometer_tcp_json_t.Doubles.{Doubles}
use accelerometer_tcp_json_t.Json.{Json, IsLawful}
use accelerometer_tcp_json_t.Protocol.{k_role_A, k_role_B, make_hello_message, hello_round_trip}
use accelerometer_tcp_json_t.Server.State.{set_node_a, set_node_b, is_other, lock}
use accelerometer_tcp_json_t.Server.World.{World, Notice, alive, note}
use accelerometer_tcp_json_t.Server.Handlers.{register_role, finish_registration, handle_line}
use accelerometer_tcp_json_t.Server.Handling.{handle_line-hello}
use accelerometer_tcp_json_t.Server.Events.{ReadResult, Reach, read_done}
use accelerometer_tcp_json_t.Server.Invariant.{
  Inv, Frame, Frame-trans, Frame-Inv, note-Frame, Serves, Reach-Inv, free_slot, a_not_empty,
  b_not_empty,
}
use accelerometer_tcp_json_t.Server.Routing.{
  left_over, read_over, completed, left_over-Frame, read_over-Frame, read_done-over,
}
use accelerometer_tcp_json_t.Server.Registry.Joining.{not_itself}

module _ {D : Doubles} where
  -- What becomes of a client without a role that has asked for one: it is given the role, which no
  -- client had, or refused, since a client has it.
  pub data Welcomed (w u : World D) (i : ℕ) (role : String) : Type 0 where
    given :
        ((j : ℕ) → ¬ Serves (w.sessions j) role) → Serves (u.sessions i) role → Welcomed w u i role
    refused : (j : ℕ) → Serves (w.sessions j) role → (u.sessions i).role ≡ "" → Welcomed w u i role

  other_in_slot :
      (w : World D) (i : ℕ) (slot : Option ℕ)
      → is_other (lock (alive w) slot) i ≡ true
      → (k : ℕ) × (slot ≡ some k)
  other_in_slot w i none e = cc
  other_in_slot w i (some k) e = (k, refl)

  module _ (w : World D) (i : ℕ) (v : Inv w) (r : (w.sessions i).role ≡ "")
      (c : (w.sessions i).closed ≡ false) where
    set_a-Welcomed :
        Welcomed w (finish_registration w i k_role_A (set_node_a (alive w) w.state i)) i k_role_A
    unfolding finish_registration set_node_a
    set_a-Welcomed = elim (Bool-cases (is_other (lock (alive w) w.state.node_a) i)) [
      | inl e ↦
          let k = other_in_slot w i w.state.node_a e in
          rw e (Welcomed.refused k.0 ((v.slot_a k.0).0 k.1) r)
      | inr e ↦ rw e (
          Welcomed.given
            (λ j s.
              free_slot w i v r c w.state.node_a j (not_itself w i v r c k_role_A a_not_empty j s)
                (λ x. s.1) e ((v.slot_a j).1 s))
            (rw (==_refl i) (refl, c)))
    ]

    set_b-Welcomed :
        Welcomed w (finish_registration w i k_role_B (set_node_b (alive w) w.state i)) i k_role_B
    unfolding finish_registration set_node_b
    set_b-Welcomed = elim (Bool-cases (is_other (lock (alive w) w.state.node_b) i)) [
      | inl e ↦
          let k = other_in_slot w i w.state.node_b e in
          rw e (Welcomed.refused k.0 ((v.slot_b k.0).0 k.1) r)
      | inr e ↦ rw e (
          Welcomed.given
            (λ j s.
              free_slot w i v r c w.state.node_b j (not_itself w i v r c k_role_B b_not_empty j s)
                (λ x. s.1) e ((v.slot_b j).1 s))
            (rw (==_refl i) (refl, c)))
    ]

    register_role-Welcomed :
        (role : String)
        → (role ≡ k_role_A) ⊎ (role ≡ k_role_B)
        → Welcomed w (register_role w i role) i role
    unfolding register_role
    register_role-Welcomed role (inl a) = rw ((v.sound i).attached, r, a) set_a-Welcomed
    register_role-Welcomed role (inr b) = rw ((v.sound i).attached, r, b) set_b-Welcomed

  -- Frames before and after do not change who is welcome.
  Welcomed-Frames :
      (w t u x : World D) (i : ℕ) (role : String)
      → Frame w t
      → Frame u x
      → Welcomed t u i role
      → Welcomed w x i role
  Welcomed-Frames w t u x i role f g (Welcomed.given k s) =
      Welcomed.given (λ j h. k j ((f.similar j).role ∙ h.0, (f.similar j).closed ∙ h.1))
        ((g.similar i).role ∙ s.0, (g.similar i).closed ∙ s.1)
  Welcomed-Frames w t u x i role f g (Welcomed.refused j s z) =
      Welcomed.refused j (sym (f.similar j).role ∙ s.0, sym (f.similar j).closed ∙ s.1)
        ((g.similar i).role ∙ z)

  module _ (J : Json D) (L : IsLawful J) where
    -- If what an open client without a role has sent completes the hello line for role A or B, either
    -- no client has that role and it is given it, or a client has it and it stays without a role.
    pub hello_read :
        (w : World D) (i : ℕ) (part role : String)
        → Reach J w
        → (w.sessions i).role ≡ ""
        → (w.sessions i).closed ≡ false
        → (role ≡ k_role_A) ⊎ (role ≡ k_role_B)
        → completed w i part ≡ J.dump (make_hello_message J role)
        → Welcomed w (read_done J w i (ReadResult.arrived part)) i role
    hello_read w i part role r z c known line =
        let f = left_over-Frame w i part in
        let t = note (left_over w i part) (Notice.client_role role) in
        let ft : Frame w t = Frame-trans f (note-Frame (left_over w i part) _) in
        let eq =
          read_done-over w i J part
          ∙ ap (λ u. read_over u i)
              (ap (handle_line J (left_over w i part) i) line
                ∙ handle_line-hello J L (left_over w i part) i _ role
                    (hello_round_trip J L role known)) in
        subst (λ u. Welcomed w u i role) (sym eq)
          (Welcomed-Frames w t (register_role t i role) _ i role ft
            (read_over-Frame (register_role t i role) i)
            (register_role-Welcomed t i (Frame-Inv ft (Reach-Inv J r)) ((ft.similar i).role ∙ z)
              ((ft.similar i).closed ∙ c) role known))
