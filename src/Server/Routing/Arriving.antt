-- ===== src/Server/Routing/Arriving.antt =====
-- Packets that arrive from Node A as bytes, however they are split.
use accelerometer_tcp_json_t.Prelude.{
  ℕ, ◌≡◌, sym, ap, ◌∙◌, true, String, some, List, [], ◌∷◌, map, subst, arith,
}
use accelerometer_tcp_json_t.Prelude.Text.{◌<>◌, has_newline}
use accelerometer_tcp_json_t.Prelude.Parts.{Carries, Carries-step}
use accelerometer_tcp_json_t.Prelude.Framing.{take_line}
use accelerometer_tcp_json_t.Doubles.{Doubles}
use accelerometer_tcp_json_t.Json.{Json, IsLawful}
use accelerometer_tcp_json_t.Packet.{AccelPacket}
use accelerometer_tcp_json_t.Protocol.{
  k_role_A, IsPlainPacket, AllPackets, packet_text, packet_text-read,
}
use accelerometer_tcp_json_t.Server.State.{get_node_b}
use accelerometer_tcp_json_t.Server.World.{World, alive}
use accelerometer_tcp_json_t.Server.Handlers.{take_packet, handle_line}
use accelerometer_tcp_json_t.Server.Handling.{handle_line-packet}
use accelerometer_tcp_json_t.Server.Events.{ReadResult, Reach, read_done}
use accelerometer_tcp_json_t.Server.Invariant.{Inv, Serves, Frame-Inv, take_packet-Frame, Reach-Inv}
use accelerometer_tcp_json_t.Server.Routing.Outbox.{Sends}
use accelerometer_tcp_json_t.Server.Routing.Lines.{node_b-Frame}
use accelerometer_tcp_json_t.Server.Routing.Latest.{last_accepted, take_packet-buffer}
use accelerometer_tcp_json_t.Server.Routing.Reading.{
  left_over, read_over, completed, left_over-Frame, left_over-last, read_over-last, read_done-over,
}
use accelerometer_tcp_json_t.Server.Routing.Filtering.{
  distinct, latest, packet_lines-cons, take_packet-latest, packet_lines, take_packets,
  take_packets-Sends,
}
use accelerometer_tcp_json_t.Server.Routing.Delivery.{
  receives, Received, Received-trans, Received-none, read_done-Received, read_done-buffer,
}

module _ {D : Doubles} (J : Json D) (L : IsLawful J) where
  module _ (w : World D) (i : ℕ) (part : String) (r : Reach J w) where
    left_over-Inv : Inv (left_over w i part)
    left_over-Inv = Frame-Inv (left_over-Frame w i part) (Reach-Inv J r)

    module _ (p : AccelPacket D) (plain : IsPlainPacket p) (b : ℕ)
        (serves : Serves (w.sessions i) k_role_A) (node : get_node_b (alive w) w.state ≡ some b)
        (complete : has_newline ((w.sessions i).buffer <> part) ≡ true)
        (whole : completed w i part ≡ packet_text J p) where
      packet_handled :
          handle_line J (left_over w i part) i (completed w i part)
          ≡ take_packet J (left_over w i part) i p
      packet_handled =
          ap (handle_line J (left_over w i part) i) whole
          ∙ handle_line-packet J L (left_over w i part) i (packet_text J p) p
              (((left_over-Frame w i part).similar i).role ∙ serves.0)
              (packet_text-read J L p plain)

      packet_sent :
          Sends
            (left_over w i part)
            (take_packet J (left_over w i part) i p)
            b
            (packet_lines J (distinct (last_accepted (w.sessions i)) (p ∷ [])))
      unfolding take_packets
      packet_sent =
          subst
            (λ last.
              Sends (left_over w i part) (take_packet J (left_over w i part) i p) b
                (packet_lines J (distinct last (p ∷ []))))
            ((left_over-last w i part).same i)
            (take_packets-Sends J (left_over w i part) i b (p ∷ []) left_over-Inv
              (node_b-Frame w _ (Reach-Inv J r) (left_over-Frame w i part) ∙ node))

      packet_last :
          last_accepted ((read_done J w i (ReadResult.arrived part)).sessions i)
          ≡ latest (last_accepted (w.sessions i)) p
      packet_last =
          ap (λ u. last_accepted (u.sessions i))
            (read_done-over w i J part ∙ ap (λ u. read_over u i) packet_handled)
          ∙ (read_over-last (take_packet J (left_over w i part) i p) i).same i
          ∙ take_packet-latest J (left_over w i part) i p
          ∙ ap (λ last. latest last p) ((left_over-last w i part).same i)

      packet-Received :
          Received J w
            (read_done J w i (ReadResult.arrived part))
            i
            b
            (packet_lines J (distinct (last_accepted (w.sessions i)) (p ∷ [])))
      packet-Received =
          read_done-Received J w (take_packet J (left_over w i part) i p) i b part _ r serves.1
            complete packet_handled (take_packet-Frame J _ i p left_over-Inv) packet_sent
            (take_packet-buffer J _ i p)

      packet_buffer :
          ((read_done J w i (ReadResult.arrived part)).sessions i).buffer
          ≡ (take_line ((w.sessions i).buffer <> part)).1
      packet_buffer =
          read_done-buffer J w (take_packet J (left_over w i part) i p) i b part _ r serves.1
            complete packet_handled (take_packet-Frame J _ i p left_over-Inv) packet_sent
            (take_packet-buffer J _ i p)

  -- If a client is Node A, there is a Node B, and what Node A sends arrives in parts that complete
  -- the lines of packets, one line each, then the server sends Node B the lines of those that do not
  -- repeat the one before, in their order, and nothing to any other client.
  pub packets_delivered :
      (w : World D) (a b : ℕ) (parts : List String) (ps : List (AccelPacket D))
      → Reach J w
      → Serves (w.sessions a) k_role_A
      → get_node_b (alive w) w.state ≡ some b
      → AllPackets ps
      → Carries (w.sessions a).buffer parts (map (packet_text J) ps)
      → Received J w
          (receives J w a parts)
          a
          b
          (packet_lines J (distinct (last_accepted (w.sessions a)) ps))
  unfolding receives distinct
  packets_delivered w a b [] [] r s g h c = Received-none J w a b r
  packets_delivered w a b [] (p ∷ ps) r s g h c = absurd (omega (arith, c.all))
  packets_delivered w a b (part ∷ parts) [] r s g h c = absurd (omega (arith, c.all))
  packets_delivered w a b (part ∷ parts) (p ∷ ps) r s g h c =
      let step = Carries-step (L.dump_one_line _) c in
      let u = read_done J w a (ReadResult.arrived part) in
      let first = packet-Received w a part r p h.0 b s g c.complete.0 step.0 in
      let similar = first.frame.similar a in
      let after : Carries (u.sessions a).buffer parts (map (packet_text J) ps) =
        subst (λ buffer. Carries buffer parts (map (packet_text J) ps))
          (sym (packet_buffer w a part r p h.0 b s g c.complete.0 step.0)) step.1 in
      let rest =
        packets_delivered u a b parts ps first.reached (similar.role ∙ s.0, similar.closed ∙ s.1)
          (node_b-Frame w u (Reach-Inv J r) first.frame ∙ g) h.1 after in
      subst (λ lines. Received J w (receives J u a parts) a b lines)
        (sym (packet_lines-cons J (last_accepted (w.sessions a)) p ps))
        (Received-trans J w u _ a b _ _ first (
          subst
            (λ last. Received J u (receives J u a parts) a b (packet_lines J (distinct last ps)))
            (packet_last w a part r p h.0 b s g c.complete.0 step.0) rest))
