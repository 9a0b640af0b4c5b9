-- ===== src/NodeB/Replies.antt =====
-- What Node B sends for one line that it reads.
use mathlib.Core.List.{append-nil}
use accelerometer_tcp_json_t.Prelude.{
  ◌%◌, ◌==◌, ◌≡◌, refl, ◌∙◌, sym, ap, subst, true, String, List, [], ◌∷◌, ◌++◌, Bool-cases, inl,
  inr,
}
use accelerometer_tcp_json_t.Prelude.Text.{◌<>◌, str_eq, eq_iff}
use accelerometer_tcp_json_t.Prelude.Int.{next64}
use accelerometer_tcp_json_t.Doubles.{Doubles}
use accelerometer_tcp_json_t.Json.{Json, IsLawful}
use accelerometer_tcp_json_t.Packet.{AccelPacket}
use accelerometer_tcp_json_t.Protocol.{
  Result, Result-cases, Result-inj, ◌>>=◌, k_type_accel, get_message_type, module_to_json,
  parse_json_line, parse_accel_packet, packet_type,
}
use accelerometer_tcp_json_t.Client.{Written, write_json-open}
use accelerometer_tcp_json_t.NodeB.Defs.{
  NodeB, Notice, answer, say, send_answer, finish_answer, count_answer, take_json, handle_text,
}

module _ {D : Doubles} (J : Json D) where
  -- The messages that Node B owes for a line: one module if the line is a packet, else none.
  abbrev pub reply_to : Result (AccelPacket D) → List String
  reply_to (Result.failure e) = []
  reply_to (Result.success packet) = (J.dump (module_to_json J (answer packet)) <> "\n") ∷ []

  abbrev pub reply : String → List String
  reply line = reply_to (parse_json_line J line >>= parse_accel_packet J)

  abbrev pub replies : List String → List String
  replies [] = []
  replies (line ∷ lines) = reply line ++ replies lines

  module _ (L : IsLawful J) where
    -- After a round: the node runs, and the client has sent so much more.
    pub record After (n u : NodeB D) (more : List String) : Type 0 where
      pub runs : u.running ≡ true
      pub client : u.client ≡ record n.client { sent = n.client.sent ++ more }

    module _ (n : NodeB D) (runs : n.running ≡ true) (opened : n.client.is_open ≡ true) where
      say-After : (notice : Notice D) → After n (say n notice) []
      say-After notice = record {
        runs = runs;
        client = ap (λ s. record n.client { sent = s }) (sym (append-nil n.client.sent));
      }

      send_answer-After :
          (packet : AccelPacket D)
          → After n (send_answer J n packet Written.written) (reply_to (Result.success packet))
      unfolding send_answer finish_answer count_answer
      send_answer-After packet =
          let sent = write_json-open J L n.client (module_to_json J (answer packet)) opened in
          subst (λ q. After n (finish_answer J n packet q) (reply_to (Result.success packet)))
            (sym sent)
            (elim (Bool-cases (next64 n.received_packets_count % 50 == 0)) [
              | inl e ↦ rw e (record { runs = runs; client = refl })
              | inr e ↦ rw e (record { runs = runs; client = refl })
            ])

      take_json-After :
          (v : J.Value) (type : String)
          → get_message_type J v ≡ Result.success type
          → After n (take_json J n v type Written.written) (reply_to (parse_accel_packet J v))
      unfolding take_json
      take_json-After v type t = elim (Result-cases (parse_accel_packet J v)) [
        | inl (e, f) ↦ elim (Bool-cases (str_eq type k_type_accel)) [
          | inl g ↦ rw (f, g) (say-After _)
          | inr g ↦ rw (f, g) (say-After _)
        ]
        | inr (p, f) ↦
            let same : type ≡ k_type_accel = Result-inj (sym t ∙ packet_type J L v p f) in
            rw (f, (eq_iff type k_type_accel).1 same) (send_answer-After p)
      ]

      pub handle_text-After :
          (line : String) → After n (handle_text J n line Written.written) (reply line)
      unfolding handle_text
      handle_text-After line = elim (Result-cases (parse_json_line J line)) [
        | inl (e, f) ↦ rw (f, handle_text) (say-After _)
        | inr (v, f) ↦ elim (Result-cases (get_message_type J v)) [
          | inl (e, t) ↦ elim (Result-cases (parse_accel_packet J v)) [
            | inl (_, g) ↦ rw (f, t, g, handle_text) (say-After _)
            | inr (p, g) ↦ cc (t, packet_type J L v p g)
          ]
          | inr (type, t) ↦ rw (f, t, handle_text) (take_json-After v type t)
        ]
      ]
