-- ===== src/Server/Routing/Filtering.antt =====
-- A run of packets from one client: Node B is sent those that do not repeat the one before.
use mathlib.Core.List.{append-nil, map-append}
use accelerometer_tcp_json_t.Prelude.{
  ℕ, ◌≡◌, refl, sym, ap, ◌∙◌, String, Option, none, some, List, [], ◌∷◌, ◌++◌, map, inl, inr,
  Bool-cases, if◌then◌else◌, subst,
}
use accelerometer_tcp_json_t.Doubles.{Doubles}
use accelerometer_tcp_json_t.Json.{Json}
use accelerometer_tcp_json_t.Packet.{AccelPacket, is_duplicate}
use accelerometer_tcp_json_t.Protocol.{packet_to_json, AllPackets}
use accelerometer_tcp_json_t.Server.State.{get_node_b}
use accelerometer_tcp_json_t.Server.World.{World, alive}
use accelerometer_tcp_json_t.Server.Handlers.{take_packet}
use accelerometer_tcp_json_t.Server.Events.{Reach}
use accelerometer_tcp_json_t.Server.Invariant.{Inv, Frame-Inv, take_packet-Frame, Reach-Inv}
use accelerometer_tcp_json_t.Server.Routing.Outbox.{
  outbox, line_of, Sends, Silent-Sends, Delivered-Sends,
}
use accelerometer_tcp_json_t.Server.Routing.Lines.{
  repeats, take_packet-dropped, take_packet-some, node_b-Frame,
}
use accelerometer_tcp_json_t.Server.Routing.Latest.{last_accepted, take_packet-last}

module _ {D : Doubles} where
  -- The packets that do not repeat the one before, where `last` stands before the first.
  unfoldable pub distinct : Option (AccelPacket D) → List (AccelPacket D) → List (AccelPacket D)
  distinct last [] = []
  distinct none (p ∷ ps) = p ∷ distinct (some p) ps
  distinct (some q) (p ∷ ps) =
      let skipped = distinct (some q) ps in
      let kept = p ∷ distinct (some p) ps in if is_duplicate p q then skipped else kept

  pub distinct-AllPackets :
      (last : Option (AccelPacket D)) (ps : List (AccelPacket D))
      → AllPackets ps
      → AllPackets (distinct last ps)
  unfolding distinct
  distinct-AllPackets last [] h = tt
  distinct-AllPackets none (p ∷ ps) h = (h.0, distinct-AllPackets (some p) ps h.1)
  distinct-AllPackets (some q) (p ∷ ps) h = elim (Bool-cases (is_duplicate p q)) [
    | inl e ↦ rw e (distinct-AllPackets (some q) ps h.1)
    | inr e ↦ rw e (h.0, distinct-AllPackets (some p) ps h.1)
  ]

  -- The last packet that has been accepted, once `p` has come.
  pub latest : Option (AccelPacket D) → AccelPacket D → Option (AccelPacket D)
  latest none p = some p
  latest (some q) p = if is_duplicate p q then some q else some p

  distinct-cons :
      (last : Option (AccelPacket D)) (p : AccelPacket D) (ps : List (AccelPacket D))
      → distinct last (p ∷ ps) ≡ distinct last (p ∷ []) ++ distinct (latest last p) ps
  unfolding distinct latest
  distinct-cons none p ps = refl
  distinct-cons (some q) p ps = elim (Bool-cases (is_duplicate p q)) [
    | inl e ↦ rw e refl
    | inr e ↦ rw e refl
  ]

  module _ (J : Json D) where
    pub take_packet-latest :
        (w : World D) (i : ℕ) (p : AccelPacket D)
        → last_accepted ((take_packet J w i p).sessions i) ≡ latest (last_accepted (w.sessions i)) p
    unfolding latest
    take_packet-latest w i p = elim (Bool-cases (w.sessions i).has_last_packet) [
      | inl h ↦ rw h (take_packet-last J w i p ∙ rw h refl)
      | inr h ↦ rw h (take_packet-last J w i p ∙ rw h refl)
    ]

    -- The packets of one session, one after another.
    unfoldable pub take_packets : World D → ℕ → List (AccelPacket D) → World D
    take_packets w i [] = w
    take_packets w i (p ∷ ps) = take_packets (take_packet J w i p) i ps

    -- The lines that Node B is sent for packets.
    abbrev pub packet_lines : List (AccelPacket D) → List String
    packet_lines ps = map (λ p. line_of J (packet_to_json J p)) ps

    pub packet_lines-cons :
        (last : Option (AccelPacket D)) (p : AccelPacket D) (ps : List (AccelPacket D))
        → packet_lines (distinct last (p ∷ ps))
          ≡ packet_lines (distinct last (p ∷ [])) ++ packet_lines (distinct (latest last p) ps)
    packet_lines-cons last p ps =
        ap packet_lines (distinct-cons last p ps)
        ∙ map-append _ (distinct last (p ∷ [])) (distinct (latest last p) ps)

    distinct-step :
        (w : World D) (i : ℕ) (p : AccelPacket D) (ps : List (AccelPacket D))
        → distinct (last_accepted (w.sessions i)) (p ∷ ps) ≡ (
            if repeats w i p
            then distinct (last_accepted (w.sessions i)) ps
            else p ∷ distinct (some p) ps)
    unfolding distinct
    distinct-step w i p ps = elim (Bool-cases (w.sessions i).has_last_packet) [
      | inl e ↦ rw e
      | inr e ↦ rw e
    ]

    pub take_packets-Sends :
        (w : World D) (i b : ℕ) (ps : List (AccelPacket D))
        → Inv w
        → get_node_b (alive w) w.state ≡ some b
        → Sends w
            (take_packets w i ps)
            b
            (packet_lines (distinct (last_accepted (w.sessions i)) ps))
    unfolding take_packets distinct
    take_packets-Sends w i b [] v g = record {
      appended = sym (append-nil (outbox (w.sessions b)));
      others = λ j ne. refl;
    }
    take_packets-Sends w i b (p ∷ ps) v g =
        let u = take_packet J w i p in
        let f = take_packet-Frame J w i p v in
        let rest = take_packets-Sends u i b ps (Frame-Inv f v) (node_b-Frame w u v f ∙ g) in
        let after = take_packets u i ps in
        let goes =
          λ (last : Option (AccelPacket D)). Sends u after b (packet_lines (distinct last ps)) in
        let whole = λ (ls : List (AccelPacket D)). Sends w after b (packet_lines ls) in
        let last = last_accepted (w.sessions i) in
        elim (Bool-cases (repeats w i p)) [
          | inl e ↦
              let here : distinct last (p ∷ ps) ≡ distinct last ps =
                distinct-step w i p ps ∙ rw e in
              let there : last_accepted (u.sessions i) ≡ last = take_packet-last J w i p ∙ rw e in
              subst whole (sym here) (
                Silent-Sends w u after b _ (take_packet-dropped J w i v p e)
                  (subst goes there rest))
          | inr e ↦
              let here : distinct last (p ∷ ps) ≡ p ∷ distinct (some p) ps =
                distinct-step w i p ps ∙ rw e in
              let there : last_accepted (u.sessions i) ≡ some p = take_packet-last J w i p ∙ rw e in
              subst whole (sym here) (
                Delivered-Sends w u after b _ _ (take_packet-some J w i v p b e g)
                  (subst goes there rest))
        ]

    -- In a reachable world that has a Node B, packets that a session takes one after another make
    -- the server send Node B the lines of those that do not repeat the one before, in their order,
    -- and nothing to any other client. The last packet that the session has accepted stands before
    -- the first.
    pub distinct_packets_forwarded :
        (w : World D) (i b : ℕ) (ps : List (AccelPacket D))
        → Reach J w
        → get_node_b (alive w) w.state ≡ some b
        → Sends w
            (take_packets w i ps)
            b
            (packet_lines (distinct (last_accepted (w.sessions i)) ps))
    distinct_packets_forwarded w i b ps r g = take_packets-Sends w i b ps (Reach-Inv J r) g
