-- ===== src/NodeB/Counts.antt =====
-- The counters of Node B, whatever its calls of the network come to.
use accelerometer_tcp_json_t.Prelude.{
  ℕ, ◌%◌, ◌^◌, ◌+◌, ◌==◌, ◌≡◌, refl, ◌∙◌, sym, ap, String, List, [], ◌∷◌, Bool-cases, inl, inr,
  length, length-append, arith,
}
use accelerometer_tcp_json_t.Prelude.Int.{next64}
use accelerometer_tcp_json_t.Prelude.Text.{str_eq}
use accelerometer_tcp_json_t.Doubles.{Doubles}
use accelerometer_tcp_json_t.Json.{Json}
use accelerometer_tcp_json_t.Packet.{AccelPacket}
use accelerometer_tcp_json_t.Protocol.{
  Status, Result, Result-cases, k_type_accel, module_to_json, parse_json_line, parse_accel_packet,
  get_message_type,
}
use accelerometer_tcp_json_t.Client.{
  TcpClient, Connection, Arrival, Written, write_json, write_line, finish_write, finish_read, ended,
  read_line, close_client, connect,
}
use accelerometer_tcp_json_t.NodeB.Defs.{
  NodeB, answer, say, send_answer, finish_answer, count_answer, take_json, handle_text,
  finish_round, round, boot, greet,
}

module _ {D : Doubles} where
  -- Each packet that is counted has its module counted, and, after the hello, sent.
  pub record Counted (n : NodeB D) : Type 0 where
    pub both : n.received_packets_count ≡ n.send_modules_count
    pub sent : length n.client.sent % 2 ^ 64 ≡ next64 n.received_packets_count

  module _ (J : Json D) where
    -- Rounds with these ends of ReadLine and WriteJson.
    abbrev pub history : NodeB D → List (Arrival × Written) → NodeB D
    history n [] = n
    history n ((a, r) ∷ events) = history (round J n a r) events

    -- How many messages a write adds.
    abbrev added : Status → ℕ
    added Status.success = 1
    added (Status.failure e) = 0

    finish_write_sent :
        (c : TcpClient) (m : String) (r : Written)
        → length (finish_write c m r).0.sent ≡ length c.sent + added (finish_write c m r).1
    unfolding finish_write
    finish_write_sent c m Written.written = length-append c.sent (m ∷ [])
    finish_write_sent c m (Written.failed e) = omega arith

    write_json_sent :
        (c : TcpClient) (v : J.Value) (r : Written)
        → length (write_json J c v r).0.sent ≡ length c.sent + added (write_json J c v r).1
    unfolding write_json write_line finish_write
    write_json_sent c v r = elim (Bool-cases c.is_open) [
      | inl e ↦ simp e (finish_write_sent c (ended (J.dump v)) r)
      | inr e ↦ rw e (omega arith)
    ]

    read_line_sent : (c : TcpClient) (a : Arrival) → (read_line c a).0.sent ≡ c.sent
    unfolding read_line finish_read
    read_line_sent c (Arrival.arrived part) = ground arith
    read_line_sent c (Arrival.failed part e) = ground arith

    close_client_sent : (c : TcpClient) → (close_client c).sent ≡ c.sent
    unfolding close_client
    close_client_sent c = ground arith

    -- A change that leaves the counters and what was sent alone.
    Counted-kept :
        (n u : NodeB D)
        → u.client.sent ≡ n.client.sent
        → u.received_packets_count ≡ n.received_packets_count
        → u.send_modules_count ≡ n.send_modules_count
        → Counted n
        → Counted u
    Counted-kept n u e f g v = record { both = f ∙ v.both ∙ sym g; sent = rw (e, f) v.sent }

    count_answer-Counted :
        (n : NodeB D) (packet : AccelPacket D)
        → n.received_packets_count ≡ n.send_modules_count
        → length n.client.sent % 2 ^ 64 ≡ next64 (next64 n.received_packets_count)
        → Counted (count_answer J n packet)
    unfolding count_answer
    count_answer-Counted n packet e f =
        elim (Bool-cases (next64 n.received_packets_count % 50 == 0)) [
          | inl z ↦ rw z (record { both = ap next64 e; sent = f })
          | inr z ↦ rw z (record { both = ap next64 e; sent = f })
        ]

    finish_answer-Counted :
        (n : NodeB D) (packet : AccelPacket D) (q : TcpClient × Status)
        → length q.0.sent ≡ length n.client.sent + added q.1
        → Counted n
        → Counted (finish_answer J n packet q)
    unfolding finish_answer
    finish_answer-Counted n packet (c, Status.failure e) s v = record {
      both = v.both;
      sent = rw (close_client_sent c, s) (omega (arith, v.sent));
    }
    finish_answer-Counted n packet (c, Status.success) s v =
        count_answer-Counted (record n { client = c }) packet v.both (rw s (omega (arith, v.sent)))

    send_answer-Counted :
        (n : NodeB D) (packet : AccelPacket D) (r : Written)
        → Counted n
        → Counted (send_answer J n packet r)
    unfolding send_answer
    send_answer-Counted n packet r v =
        finish_answer-Counted n packet _
          (write_json_sent n.client (module_to_json J (answer packet)) r) v

    take_json-Counted :
        (n : NodeB D) (json : J.Value) (type : String) (r : Written)
        → Counted n
        → Counted (take_json J n json type r)
    unfolding take_json
    take_json-Counted n json type r v = elim (Bool-cases (str_eq type k_type_accel)) [
      | inl e ↦ elim (Result-cases (parse_accel_packet J json)) [
        | inl (m, f) ↦ rw (e, f) (Counted-kept n _ refl refl refl v)
        | inr (p, f) ↦ rw (e, f) (send_answer-Counted n p r v)
      ]
      | inr e ↦ rw e (Counted-kept n _ refl refl refl v)
    ]

    handle_text-Counted :
        (n : NodeB D) (line : String) (r : Written) → Counted n → Counted (handle_text J n line r)
    unfolding handle_text
    handle_text-Counted n line r v = elim (Result-cases (parse_json_line J line)) [
      | inl (e, f) ↦ rw (f, handle_text) (Counted-kept n (say n _) refl refl refl v)
      | inr (json, f) ↦ elim (Result-cases (get_message_type J json)) [
        | inl (e, t) ↦ rw (f, t, handle_text) (Counted-kept n (say n _) refl refl refl v)
        | inr (type, t) ↦ rw (f, t, handle_text) (take_json-Counted n json type r v)
      ]
    ]

    finish_round-Counted :
        (n : NodeB D) (got : TcpClient × Result String) (r : Written)
        → got.0.sent ≡ n.client.sent
        → Counted n
        → Counted (finish_round J n got r)
    unfolding finish_round
    finish_round-Counted n (c, Result.failure e) r s v =
        Counted-kept n _ (close_client_sent c ∙ s) refl refl v
    finish_round-Counted n (c, Result.success line) r s v =
        handle_text-Counted (record n { client = c }) line r (Counted-kept n _ s refl refl v)

    round-Counted : (n : NodeB D) (a : Arrival) (r : Written) → Counted n → Counted (round J n a r)
    unfolding round
    round-Counted n a r v = elim (Bool-cases n.running) [
      | inl e ↦
          simp e (finish_round-Counted n (read_line n.client a) r (read_line_sent n.client a) v)
      | inr e ↦ simp e v
    ]

    history-Counted :
        (n : NodeB D) (events : List (Arrival × Written)) → Counted n → Counted (history n events)
    history-Counted n [] v = v
    history-Counted n ((a, r) ∷ events) v =
        history-Counted (round J n a r) events (round-Counted n a r v)

    boot-Counted : Counted (boot J Connection.connected Written.written)
    unfolding boot connect greet write_json write_line finish_write
    boot-Counted = record { both = refl; sent = refl }

    -- After a connection and a hello that succeeded, whatever ReadLine and WriteJson come to: the
    -- two counters of Node B are equal, and the messages sent are one more, the hello, modulo 2^64.
    pub history_counts :
        (events : List (Arrival × Written))
        → Counted (history (boot J Connection.connected Written.written) events)
    history_counts events = history-Counted _ events boot-Counted
