-- ===== src/Server/Routing/Packets.antt =====
-- Where packets and modules go: to the other node, as one line, and nowhere else.
use accelerometer_tcp_json_t.Prelude.{
  ℕ, ◌≡◌, refl, ◌∙◌, sym, true, false, not, String, [], ◌∷◌, ◌++◌, none, some, arith, inl, inr,
  Bool-cases, ◌==◌, ==_refl, ==_iff, ap, subst,
}
use accelerometer_tcp_json_t.Doubles.{Doubles}
use accelerometer_tcp_json_t.Json.{Json}
use accelerometer_tcp_json_t.Packet.{AccelPacket, AccelModule}
use accelerometer_tcp_json_t.Protocol.{packet_to_json, module_to_json}
use accelerometer_tcp_json_t.Server.State.{get_node_a, get_node_b}
use accelerometer_tcp_json_t.Server.World.{Session, World, Notice, put, alive}
use accelerometer_tcp_json_t.Server.Session.{enqueue}
use accelerometer_tcp_json_t.Server.Handlers.{
  forward, finish_forward, note_fiftieth, forward_accel_packet_to_node_b,
  forward_accel_module_to_node_a, count_forwarded, count_forwarded_module,
}
use accelerometer_tcp_json_t.Server.Invariant.{Inv}
use accelerometer_tcp_json_t.Server.Roles.{get_node_a_iff, get_node_b_iff}
use accelerometer_tcp_json_t.Server.Routing.Outbox.{
  outbox, Silent, Delivered, line_of, outbox-enqueue, send_json-open,
}

module _ {D : Doubles} where
  -- A change of a session that leaves its outbox alone.
  pub put-Silent :
      (w : World D) (i : ℕ) (s : Session D)
      → outbox s ≡ outbox (w.sessions i)
      → Silent w (put w i s)
  put-Silent w i s h = record {
    same = λ j. elim (Bool-cases (i == j)) [
      | inl e ↦ rw e (h ∙ ap (λ k. outbox (w.sessions k)) ((==_iff i j).0 e))
      | inr e ↦ rw e
    ];
  }

  pub note_fiftieth_sessions :
      (n : ℕ) (w : World D) (notice : Notice D) (j : ℕ)
      → (note_fiftieth n w notice).sessions j ≡ w.sessions j
  note_fiftieth_sessions n w notice j = ground arith

  pub Silent-Delivered :
      (w u v : World D) (b : ℕ) (line : String)
      → Silent w u
      → Delivered u v b line
      → Delivered w v b line
  Silent-Delivered w u v b line s d = record {
    appended = d.appended ∙ ap (λ o. o ++ (line ∷ [])) (s.same b);
    others = λ j ne. d.others j ne ∙ s.same j;
  }

  pub Delivered-Silent :
      (w u v : World D) (b : ℕ) (line : String)
      → Delivered w u b line
      → Silent u v
      → Delivered w v b line
  Delivered-Silent w u v b line d s = record {
    appended = s.same b ∙ d.appended;
    others = λ j ne. s.same j ∙ d.others j ne;
  }

  put-Delivered :
      (w : World D) (b : ℕ) (line : String)
      → Delivered w (put w b (enqueue (w.sessions b) line)) b line
  put-Delivered w b line = record {
    appended = rw (==_refl b) (outbox-enqueue (w.sessions b) line);
    others = λ j ne. ground arith;
  }

  module _ (J : Json D) (w : World D) (i : ℕ) (what : String) (n : ℕ) (json : J.Value)
      (counted : Session D → Session D) (same : (s : Session D) → outbox (counted s) ≡ outbox s)
      (attached : (w.sessions i).has_state ≡ true) where
    forward-none : Silent w (forward J w i what n none json counted)
    unfolding forward
    forward-none = rw attached (record { same = λ j. ap outbox (note_fiftieth_sessions n w _ j) })

    finish-Delivered :
        (u : World D) (b : ℕ) (line : String)
        → Delivered w u b line
        → Delivered w (finish_forward i what counted (u, true)) b line
    unfolding finish_forward
    finish-Delivered u b line d =
        Delivered-Silent w u _ b line d (put-Silent u i _ (same (u.sessions i)))

    forward-some :
        (b : ℕ)
        → (w.sessions b).closed ≡ false
        → (w.sessions b).socket.is_open ≡ true
        → Delivered w (forward J w i what n (some b) json counted) b (line_of J json)
    unfolding forward
    forward-some b c o = rw attached (
        subst (λ r. Delivered w (finish_forward i what counted r) b (line_of J json))
          (sym (send_json-open J w b json c o))
          (finish-Delivered _ b (line_of J json) (put-Delivered w b (line_of J json))))

  module _ (J : Json D) (w : World D) (i : ℕ) (v : Inv w) where
    -- A living node is open, so it takes what is sent to it.
    node_b_open :
        (b : ℕ)
        → get_node_b (alive w) w.state ≡ some b
        → ((w.sessions b).closed ≡ false) × ((w.sessions b).socket.is_open ≡ true)
    node_b_open b e = let c = ((get_node_b_iff w b v).0 e).1 in (c, (v.sound b).opened ∙ ap not c)

    node_a_open :
        (a : ℕ)
        → get_node_a (alive w) w.state ≡ some a
        → ((w.sessions a).closed ≡ false) × ((w.sessions a).socket.is_open ≡ true)
    node_a_open a e = let c = ((get_node_a_iff w a v).0 e).1 in (c, (v.sound a).opened ∙ ap not c)

    pub forward_packet-none :
        (packet : AccelPacket D)
        → get_node_b (alive w) w.state ≡ none
        → Silent w (forward_accel_packet_to_node_b J w i packet)
    unfolding forward_accel_packet_to_node_b
    forward_packet-none packet e = rw e (
        forward-none J w i "packet" (w.sessions i).accepted_packets (packet_to_json J packet)
          count_forwarded (λ s. refl) (v.sound i).attached)

    pub forward_packet-some :
        (packet : AccelPacket D) (b : ℕ)
        → get_node_b (alive w) w.state ≡ some b
        → Delivered w
            (forward_accel_packet_to_node_b J w i packet)
            b
            (line_of J (packet_to_json J packet))
    unfolding forward_accel_packet_to_node_b
    forward_packet-some packet b e = rw e (
        forward-some J w i "packet" (w.sessions i).accepted_packets (packet_to_json J packet)
          count_forwarded (λ s. refl) (v.sound i).attached b (node_b_open b e).0
          (node_b_open b e).1)

    pub forward_module-none :
        (m : AccelModule D)
        → get_node_a (alive w) w.state ≡ none
        → Silent w (forward_accel_module_to_node_a J w i m)
    unfolding forward_accel_module_to_node_a
    forward_module-none m e = rw e (
        forward-none J w i "module" (w.sessions i).received_modules (module_to_json J m)
          count_forwarded_module (λ s. refl) (v.sound i).attached)

    pub forward_module-some :
        (m : AccelModule D) (a : ℕ)
        → get_node_a (alive w) w.state ≡ some a
        → Delivered w (forward_accel_module_to_node_a J w i m) a (line_of J (module_to_json J m))
    unfolding forward_accel_module_to_node_a
    forward_module-some m a e = rw e (
        forward-some J w i "module" (w.sessions i).received_modules (module_to_json J m)
          count_forwarded_module (λ s. refl) (v.sound i).attached a (node_a_open a e).0
          (node_a_open a e).1)
