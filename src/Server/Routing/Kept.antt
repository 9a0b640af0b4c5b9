-- ===== src/Server/Routing/Kept.antt =====
-- What the sending of packets and modules leaves alone in every session.
use accelerometer_tcp_json_t.Prelude.{
  ℕ, ◌≡◌, refl, ap, ◌∙◌, Bool, true, false, not, ◌||◌, ◌&&◌, String, Option, none, some, inl, inr,
  Bool-cases, ◌==◌, ==_iff,
}
use accelerometer_tcp_json_t.Doubles.{Doubles}
use accelerometer_tcp_json_t.Json.{Json}
use accelerometer_tcp_json_t.Packet.{AccelPacket, AccelModule, is_duplicate}
use accelerometer_tcp_json_t.Protocol.{packet_to_json, module_to_json}
use accelerometer_tcp_json_t.Server.State.{get_node_a, get_node_b}
use accelerometer_tcp_json_t.Server.World.{Session, World, Notice, put, alive}
use accelerometer_tcp_json_t.Server.Session.{enqueue, send_json}
use accelerometer_tcp_json_t.Server.Handlers.{
  take_packet, take_module, count_received, count_dropped, count_accepted, count_module,
  forward_accel_packet_to_node_b, count_forwarded, count_forwarded_module,
  forward_accel_module_to_node_a, note_fiftieth, forward, finish_forward,
}
use accelerometer_tcp_json_t.Server.Routing.Packets.{note_fiftieth_sessions}

module _ {ℓ} {D : Doubles} {A : Type ℓ} (view : Session D → A) where
  -- The views of all sessions stay.
  pub record Kept (w u : World D) : Type ℓ where
    pub same : (j : ℕ) → view (u.sessions j) ≡ view (w.sessions j)

  pub Kept-trans : (w u v : World D) → Kept w u → Kept u v → Kept w v
  Kept-trans w u v a b = record { same = λ j. b.same j ∙ a.same j }

  pub put-Kept :
      (w : World D) (i : ℕ) (s : Session D) → view s ≡ view (w.sessions i) → Kept w (put w i s)
  put-Kept w i s h = record {
    same = λ j. elim (Bool-cases (i == j)) [
      | inl e ↦ rw e (h ∙ ap (λ k. view (w.sessions k)) ((==_iff i j).0 e))
      | inr e ↦ rw e
    ];
  }

  pub note_fiftieth-Kept :
      (n : ℕ) (w : World D) (notice : Notice D) → Kept w (note_fiftieth n w notice)
  note_fiftieth-Kept n w notice = record {
    same = λ j. ap view (note_fiftieth_sessions n w notice j);
  }

  -- The view reads neither the queue, nor the outstanding writes, nor the counters of forwarding.
  module _ (queued : (s : Session D) (m : String) → view (enqueue s m) ≡ view s) (J : Json D) where
    module _ (counted : Session D → Session D)
        (counts : (s : Session D) → view (counted s) ≡ view s) where
      finish_forward-Kept :
          (w : World D) (i : ℕ) (what : String) (r : World D × Bool)
          → Kept w r.0
          → Kept w (finish_forward i what counted r)
      unfolding finish_forward
      finish_forward-Kept w i what (u, true) k =
          Kept-trans w u _ k (put-Kept u i (counted (u.sessions i)) (counts (u.sessions i)))
      finish_forward-Kept w i what (u, false) k = record { same = k.same }

      send_json-Kept : (w : World D) (b : ℕ) (json : J.Value) → Kept w (send_json J w b json).0
      unfolding send_json
      send_json-Kept w b json =
          elim (Bool-cases ((w.sessions b).closed || not (w.sessions b).socket.is_open)) [
            | inl e ↦ rw e (record { same = λ j. refl })
            | inr e ↦ rw e (put-Kept w b _ (queued (w.sessions b) _))
          ]

      forward-Kept :
          (w : World D) (i n : ℕ) (what : String) (json : J.Value) (target : Option ℕ)
          → Kept w (forward J w i what n target json counted)
      unfolding forward
      forward-Kept w i n what json none = elim (Bool-cases (w.sessions i).has_state) [
        | inl e ↦ rw e (note_fiftieth-Kept n w (Notice.forward_no_node what))
        | inr e ↦ rw e (record { same = λ j. refl })
      ]
      forward-Kept w i n what json (some b) = elim (Bool-cases (w.sessions i).has_state) [
        | inl e ↦
            rw e (finish_forward-Kept w i what (send_json J w b json) (send_json-Kept w b json))
        | inr e ↦ rw e (record { same = λ j. refl })
      ]

    pub forward_packet-Kept :
        (w : World D) (i : ℕ) (p : AccelPacket D)
        → ((s : Session D) → view (count_forwarded s) ≡ view s)
        → Kept w (forward_accel_packet_to_node_b J w i p)
    unfolding forward_accel_packet_to_node_b
    forward_packet-Kept w i p c =
        forward-Kept count_forwarded c w i (w.sessions i).accepted_packets "packet"
          (packet_to_json J p) (get_node_b (alive w) w.state)

    pub forward_module-Kept :
        (w : World D) (i : ℕ) (m : AccelModule D)
        → ((s : Session D) → view (count_forwarded_module s) ≡ view s)
        → Kept w (forward_accel_module_to_node_a J w i m)
    unfolding forward_accel_module_to_node_a
    forward_module-Kept w i m c =
        forward-Kept count_forwarded_module c w i (w.sessions i).received_modules "module"
          (module_to_json J m) (get_node_a (alive w) w.state)

    -- A packet or a module leaves a view alone that reads no counters either.
    pub take_packet-Kept :
        (w : World D) (i : ℕ) (p : AccelPacket D)
        → ((s : Session D) → view (count_dropped (count_received s)) ≡ view s)
        → ((s : Session D) → view (count_accepted (count_received s) p) ≡ view s)
        → ((s : Session D) → view (count_forwarded s) ≡ view s)
        → Kept w (take_packet J w i p)
    unfolding take_packet
    take_packet-Kept w i p d a c =
        let s = w.sessions i in
        let dropped = put w i (count_dropped (count_received s)) in
        let kept = put w i (count_accepted (count_received s) p) in
        let sent = forward_accel_packet_to_node_b J kept i p in
        elim (Bool-cases (s.has_last_packet && is_duplicate p s.last_packet)) [
          | inl e ↦
              rw e (Kept-trans w dropped _ (put-Kept w i _ (d s)) (note_fiftieth-Kept _ dropped _))
          | inr e ↦ rw e (
              Kept-trans w kept _ (put-Kept w i _ (a s)) (
                Kept-trans kept sent _ (forward_packet-Kept kept i p c)
                  (note_fiftieth-Kept _ sent _)))
        ]

    pub take_module-Kept :
        (w : World D) (i : ℕ) (m : AccelModule D)
        → ((s : Session D) → view (count_module s) ≡ view s)
        → ((s : Session D) → view (count_forwarded_module s) ≡ view s)
        → Kept w (take_module J w i m)
    unfolding take_module
    take_module-Kept w i m a c =
        let kept = put w i (count_module (w.sessions i)) in
        let sent = forward_accel_module_to_node_a J kept i m in
        Kept-trans w kept _ (put-Kept w i _ (a (w.sessions i)))
          (Kept-trans kept sent _ (forward_module-Kept kept i m c) (note_fiftieth-Kept _ sent _))
