-- ===== src/Pipeline.antt =====
-- The whole way of a measurement: from Node A through the server to Node B, and as a module back to
-- the file of Node A.
mod Plain
use text.Mathlib.TextLemmas as Texts
use mathlib.Core.List.{append-nil}
use accelerometer_tcp_json_t.Prelude.{
  ℕ, ◌≡◌, refl, ◌≢◌, sym, ap, subst, ◌∙◌, true, String, Option, some, List, [], ◌∷◌, ◌++◌, map,
}
use accelerometer_tcp_json_t.Prelude.Framing.{frames, frames_empty}
use accelerometer_tcp_json_t.Prelude.Parts.{Carries}
use accelerometer_tcp_json_t.Doubles.{Doubles}
use accelerometer_tcp_json_t.Json.{Json, IsLawful}
use accelerometer_tcp_json_t.Packet.{AccelPacket, AccelModule}
use accelerometer_tcp_json_t.Protocol.{
  k_role_A, k_role_B, AllPackets, AllModules, packet_text, module_text, module_texts-AllLines,
  packet_texts-AllLines,
}
use accelerometer_tcp_json_t.Server.{
  distinct-AllPackets, Serves, a_not_b, Received, Reach, Reach-Inv, get_node_a, get_node_b, Sends,
  receives, distinct, last_accepted, packet_lines, module_lines, packets_delivered,
  modules_delivered, get_node_a_iff, get_node_b_iff, node_a-Frame,
}
use accelerometer_tcp_json_t.Server.World.{World, alive}
use accelerometer_tcp_json_t.NodeB.{NodeB, answer, rounds, rounds-replies}
use accelerometer_tcp_json_t.NodeA.{NodeA, Reach-InFile, modules_in}
use accelerometer_tcp_json_t.NodeA as Node
use accelerometer_tcp_json_t.Pipeline.Plain.{replies-packets, modules_in-texts}

module _ {D : Doubles} where
  -- The packets of `ps` that do not repeat the one before, and what packets are answered with.
  abbrev pub news : World D → ℕ → List (AccelPacket D) → List (AccelPacket D)
  news w a ps = distinct (last_accepted (w.sessions a)) ps

  abbrev pub answers : List (AccelPacket D) → List (AccelModule D)
  answers ps = map answer ps

  module _ (J : Json D) where
    -- The worlds `w`, `u`, `v` of the server before, between and after the two ways.
    pub record Measured (w u v : World D) (a b : ℕ) (n m : NodeB D) (x : NodeA D)
        (ps : List (AccelPacket D)) : Type 0 where
      pub forwarded : Sends w u b (packet_lines J (news w a ps))
      pub answered : m.client.sent ≡ n.client.sent ++ module_lines J (answers (news w a ps))
      pub returned : Sends u v a (module_lines J (answers (news w a ps)))
      pub filed : x.module_log ≡ answers (news w a ps)

module _ {D : Doubles} (J : Json D) (L : IsLawful J) where
  module _ (w : World D) (a b : ℕ) (r : Reach J w) (node_a : get_node_a (alive w) w.state ≡ some a)
      (node_b : get_node_b (alive w) w.state ≡ some b) where
    node_a-Serves : Serves (w.sessions a) k_role_A
    node_a-Serves = (get_node_a_iff w a (Reach-Inv J r)).0 node_a

    node_b-Serves : Serves (w.sessions b) k_role_B
    node_b-Serves = (get_node_b_iff w b (Reach-Inv J r)).0 node_b

    two_sessions : a ≢ b
    two_sessions e =
        a_not_b (sym node_a-Serves.0 ∙ ap (λ i. (w.sessions i).role) e ∙ node_b-Serves.0)

    module _ (ps : List (AccelPacket D)) (plain : AllPackets ps)
        (plain_answers : AllModules (answers (news w a ps))) (up back : List String)
        (sent_up : Carries (w.sessions a).buffer up (map (packet_text J) ps))
        (sent_back : Carries
          (w.sessions b).buffer
          back
          (map (module_text J) (answers (news w a ps)))) where
      forth : Received J w (receives J w a up) a b (packet_lines J (news w a ps))
      forth = packets_delivered J L w a b up ps r node_a-Serves node_b plain sent_up

      and_back :
          Received J
            (receives J w a up)
            (receives J (receives J w a up) b back)
            b
            a
            (module_lines J (answers (news w a ps)))
      and_back =
          let f = forth.frame in
          let s = f.similar b in
          modules_delivered J L (receives J w a up) b a back (answers (news w a ps)) forth.reached
            (s.role ∙ node_b-Serves.0, s.closed ∙ node_b-Serves.1)
            (node_a-Frame w _ (Reach-Inv J r) f ∙ node_a) plain_answers
            (subst (λ buffer. Carries buffer back (map (module_text J) (answers (news w a ps))))
              (sym (forth.buffers b two_sessions)) sent_back)

  -- What the file of Node A has, once it has read the bytes of these modules and no others.
  filed_all :
      (x : NodeA D) (ms : List (AccelModule D))
      → Node.Reach J x
      → AllModules ms
      → x.bytes ≡ frames (map (module_text J) ms)
      → x.client.input_buf ≡ ""
      → x.module_log ≡ ms
  filed_all x ms r h e z =
      let texts = map (module_text J) ms in
      let i =
        Reach-InFile J L r texts "" (module_texts-AllLines J L ms) (Texts.append-nil x.bytes ∙ e) in
      let none_left = frames_empty i.rest (sym i.kept ∙ Texts.append-nil _ ∙ z) in
      i.written
      ∙ ap (modules_in J) (sym (i.all ∙ ap (λ rest. i.got ++ rest) none_left ∙ append-nil i.got))
      ∙ modules_in-texts J L ms h

  -- Let the server have a Node A and a Node B, let all numbers be such as JSON has, and let what
  -- the nodes and the server send arrive in parts that complete one line each and are read one
  -- after another: the packets from Node A at the server, those of them that do not repeat the one
  -- before at Node B, their answers at the server, and the bytes of these at Node A. Then the server
  -- sends Node B the packets that do not repeat the one before and nothing to others, Node B answers
  -- each with the timestamp and the magnitude, the server sends these modules to Node A and nothing
  -- to others, and the file of Node A has them, each once and in their order.
  pub measurements_filed :
      (w : World D) (a b : ℕ) (n : NodeB D) (x : NodeA D) (ps : List (AccelPacket D))
      (up across back : List String)
      → Reach J w
      → get_node_a (alive w) w.state ≡ some a
      → get_node_b (alive w) w.state ≡ some b
      → AllPackets ps
      → AllModules (answers (news w a ps))
      → Carries (w.sessions a).buffer up (map (packet_text J) ps)
      → n.running ≡ true
      → n.client.is_open ≡ true
      → Carries n.client.input_buf across (map (packet_text J) (news w a ps))
      → Carries (w.sessions b).buffer back (map (module_text J) (answers (news w a ps)))
      → Node.Reach J x
      → x.bytes ≡ frames (map (module_text J) (answers (news w a ps)))
      → x.client.input_buf ≡ ""
      → Measured J w
          (receives J w a up)
          (receives J (receives J w a up) b back)
          a
          b
          n
          (rounds J n across)
          x
          ps
  measurements_filed w a b n x ps up across back r g h plain ok su runs opened sa sb rx bytes z =
      let qs = news w a ps in
      record {
        forwarded = (forth w a b r g h ps plain ok up back su sb).sends;
        answered =
            rounds-replies J L n across (map (packet_text J) qs) runs opened
              (packet_texts-AllLines J L qs) sa
            ∙ ap (λ lines. n.client.sent ++ lines)
                (replies-packets J L qs (distinct-AllPackets _ ps plain));
        returned = (and_back w a b r g h ps plain ok up back su sb).sends;
        filed = filed_all x (answers qs) rx ok bytes z;
      }
