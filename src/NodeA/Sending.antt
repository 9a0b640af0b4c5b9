-- ===== src/NodeA/Sending.antt =====
-- What Node A sends: its hello, and the packets of the emulator in their order.
use accelerometer_tcp_json_t.Prelude.{
  arith, ℕ, ◌%◌, ◌==◌, ◌≡◌, refl, ap, sym, subst, ◌∙◌, true, String, List, [], ◌∷◌, ◌++◌, map,
  Bool-cases, inl, inr,
}
use mathlib.Core.List.{map-append}
use accelerometer_tcp_json_t.Prelude.Int.{ℤ, next64}
use accelerometer_tcp_json_t.Prelude.Text.{◌<>◌}
use accelerometer_tcp_json_t.Doubles.{Doubles}
use accelerometer_tcp_json_t.Json.{Json, IsLawful}
use accelerometer_tcp_json_t.Packet.{AccelPacket}
use accelerometer_tcp_json_t.Protocol.{Status, k_role_A, make_hello_message, packet_to_json}
use accelerometer_tcp_json_t.Client.{
  Connection, Written, write_json-open, connect, make_client, write_json-failed, close_client,
}
use accelerometer_tcp_json_t.NodeA.Emulator.{next_packet}
use accelerometer_tcp_json_t.NodeA.State.{NodeA, MainPc}
use accelerometer_tcp_json_t.NodeA.Defs.{
  generate, send, finish_send, stop_main, close_main, join, abort, boot, greet, finish_greet,
  initial,
}
use accelerometer_tcp_json_t.NodeA.Steps.{Step, Reach}
use accelerometer_tcp_json_t.NodeA.Threads.{
  MainKept, open_log-MainKept, test_running-MainKept, enter_read-MainKept, receive-MainKept,
  fail_read-MainKept, stop_receiver-MainKept,
}

module _ {D : Doubles} where
  -- The sample of this index, taken at this time.
  abbrev pub sample : ℕ → ℤ → AccelPacket D
  sample k now = (next_packet D (record { sample_index = k }) now).1

  -- The samples from this index on, taken at these times.
  abbrev pub samples : ℕ → List ℤ → List (AccelPacket D)
  samples k [] = []
  samples k (now ∷ times) = sample k now ∷ samples (next64 k) times

-- The index after as many samples.
abbrev pub advance : ℕ → List ℤ → ℕ
advance k [] = k
advance k (now ∷ times) = advance (next64 k) times

advance-append :
    (k : ℕ) (times : List ℤ) (now : ℤ) → advance k (times ++ (now ∷ [])) ≡ next64 (advance k times)
advance-append k [] now = refl
advance-append k (t ∷ times) now = advance-append (next64 k) times now

samples-append :
    {D : Doubles} (k : ℕ) (times : List ℤ) (now : ℤ)
    → samples {D = D} k (times ++ (now ∷ []))
      ≡ samples k times ++ (sample (advance k times) now ∷ [])
samples-append k [] now = refl
samples-append k (t ∷ times) now = ap (λ l. sample k t ∷ l) (samples-append (next64 k) times now)

module _ {D : Doubles} (J : Json D) where
  abbrev pub packet_line : AccelPacket D → String
  packet_line p = J.dump (packet_to_json J p) <> "\n"

  abbrev pub hello_line : String
  hello_line = J.dump (make_hello_message J k_role_A) <> "\n"

  -- Where `main` stands, the client is open, and the next packet is the next sample.
  abbrev pub Ready : MainPc D → NodeA D → Type 0
  Ready MainPc.generating n =
      (n.client.is_open ≡ true) × (n.emulator.sample_index ≡ n.generated_packets_count)
  Ready (MainPc.sending p) n =
      (n.client.is_open ≡ true)
      × (n.emulator.sample_index ≡ next64 n.generated_packets_count)
      × ((now : ℤ) × (p ≡ sample n.generated_packets_count now))
  Ready _ n = Unit

  -- The packets that were sent are samples taken at these times.
  pub record IsSent (times : List ℤ) (n : NodeA D) : Type 0 where
    pub sent : n.client.sent ≡ hello_line ∷ map packet_line (samples 0 times)
    pub counted : n.generated_packets_count ≡ advance 0 times
    pub ready : Ready n.main n

  Ready-kept : (pc : MainPc D) (n u : NodeA D) → MainKept n u → Ready pc n → Ready pc u
  Ready-kept MainPc.generating n u k r =
      (k.opened ∙ r.0, ap (λ e. e.sample_index) k.emulator ∙ r.1 ∙ sym k.generated)
  Ready-kept (MainPc.sending p) n u k (o, e, (now, f)) = (
    k.opened ∙ o,
    ap (λ m. m.sample_index) k.emulator ∙ e ∙ ap next64 (sym k.generated),
    (now, f ∙ ap (λ g. sample g now) (sym k.generated)),
  )
  Ready-kept MainPc.failing n u k r = tt
  Ready-kept MainPc.closing n u k r = tt
  Ready-kept MainPc.joining n u k r = tt
  Ready-kept (MainPc.returned b) n u k r = tt
  Ready-kept MainPc.aborted n u k r = tt

  -- The steps of ReceiveModules keep it.
  IsSent-kept : {times : List ℤ} {n u : NodeA D} → MainKept n u → IsSent times n → IsSent times u
  IsSent-kept {n = n} {u = u} k s = record {
    sent = k.sent ∙ s.sent;
    counted = k.generated ∙ s.counted;
    ready = subst (λ pc. Ready pc u) (sym k.main) (Ready-kept n.main n u k s.ready);
  }

  abbrev Sent : NodeA D → Type 0
  Sent n = (times : List ℤ) × IsSent times n

  module _ (L : IsLawful J) where
    boot-Sent : Sent (boot J Connection.connected Written.written)
    unfolding boot greet finish_greet connect
    boot-Sent =
        subst (λ q. Sent (finish_greet J (initial (record make_client { is_open = true })) q))
          (sym (
            write_json-open J L (record make_client { is_open = true })
              (make_hello_message J k_role_A) refl))
          ([], record { sent = refl; counted = refl; ready = (refl, refl) })

    generate-Sent :
        (n : NodeA D) (now : ℤ) → n.main ≡ MainPc.generating → Sent n → Sent (generate n now)
    unfolding generate
    generate-Sent n now e (times, s) =
        let r : Ready MainPc.generating n = subst (λ pc. Ready pc n) e s.ready in
        (
          times,
          record {
            sent = s.sent;
            counted = s.counted;
            ready = (r.0, ap next64 r.1, (now, ap (λ k. sample k now) r.1));
          },
        )

    -- One more sample is sent.
    sent_next :
        (n : NodeA D) (times : List ℤ) (now : ℤ)
        → IsSent times n
        → n.client.sent ++ (packet_line (sample n.generated_packets_count now) ∷ [])
          ≡ hello_line ∷ map packet_line (samples 0 (times ++ (now ∷ [])))
    sent_next n times now s = rw (s.sent, s.counted, samples-append 0 times now, map-append) refl

    sent-Sent :
        (n : NodeA D) (p : AccelPacket D)
        → Ready (MainPc.sending p) n
        → Sent n
        → Sent (
            finish_send J n p
              (record n.client { sent = n.client.sent ++ (packet_line p ∷ []) }, Status.success))
    unfolding finish_send
    sent-Sent n p (o, e, (now, f)) (times, s) =
        let next = ap (λ q. n.client.sent ++ (packet_line q ∷ [])) f ∙ sent_next n times now s in
        let count = ap next64 s.counted ∙ sym (advance-append 0 times now) in
        elim (Bool-cases (next64 n.generated_packets_count % 50 == 0)) [
          | inl z ↦
              rw z (times ++ (now ∷ []), record { sent = next; counted = count; ready = (o, e) })
          | inr z ↦
              rw z (times ++ (now ∷ []), record { sent = next; counted = count; ready = (o, e) })
        ]

    send-Sent :
        (n : NodeA D) (p : AccelPacket D) (r : Written)
        → Ready (MainPc.sending p) n
        → Sent n
        → Sent (send J n p r)
    unfolding send finish_send
    send-Sent n p Written.written ready s =
        subst (λ q. Sent (finish_send J n p q))
          (sym (write_json-open J L n.client (packet_to_json J p) ready.0)) (sent-Sent n p ready s)
    send-Sent n p (Written.failed e) ready (times, s) =
        subst (λ q. Sent (finish_send J n p q))
          (sym (write_json-failed J L n.client (packet_to_json J p) e ready.0))
          (times, record { sent = s.sent; counted = s.counted; ready = tt })

    close-Sent : (n : NodeA D) → Sent n → Sent (close_main n)
    unfolding close_main close_client
    close-Sent n (times, s) =
        (times, record { sent = ground arith; counted = s.counted; ready = tt })

    Step-Sent : {n u : NodeA D} → Step J n u → Sent n → Sent u
    unfolding stop_main join abort
    Step-Sent (Step.generates now e) s = generate-Sent _ now e s
    Step-Sent {n} (Step.sends p r e) s = send-Sent n p r (subst (λ pc. Ready pc n) e s.1.ready) s
    Step-Sent (Step.stops e) (times, s) =
        (times, record { sent = s.sent; counted = s.counted; ready = tt })
    Step-Sent (Step.closes e) s = close-Sent _ s
    Step-Sent (Step.joins e f) (times, s) =
        (times, record { sent = s.sent; counted = s.counted; ready = tt })
    Step-Sent (Step.aborts e) (times, s) =
        (times, record { sent = s.sent; counted = s.counted; ready = tt })
    Step-Sent (Step.opens opened e) (times, s) = (times, IsSent-kept (open_log-MainKept _ opened) s)
    Step-Sent (Step.tests e) (times, s) = (times, IsSent-kept (test_running-MainKept _) s)
    Step-Sent (Step.enters e) (times, s) = (times, IsSent-kept (enter_read-MainKept _) s)
    Step-Sent (Step.receives a e c) (times, s) = (times, IsSent-kept (receive-MainKept J _ a) s)
    Step-Sent (Step.fails x e) (times, s) = (times, IsSent-kept (fail_read-MainKept _ x) s)
    Step-Sent (Step.finishes e) (times, s) = (times, IsSent-kept (stop_receiver-MainKept _) s)

    -- In every state that Node A comes to after its hello, it has sent the hello and then, in their
    -- order, the samples 0, 1, 2 and so on of the emulator, each once, and its counter is their
    -- number modulo 2^64, in whatever order the two threads have run.
    pub Reach-IsSent : {n : NodeA D} → Reach J n → (times : List ℤ) × IsSent times n
    Reach-IsSent Reach.here = boot-Sent
    Reach-IsSent (Reach.next r st) = Step-Sent st (Reach-IsSent r)
