-- ===== src/NodeA/Shutdown/Orderly.antt =====
-- What holds of `main` and `is_running` in every state of a started Node A.
use accelerometer_tcp_json_t.Prelude.{
  ◌≡◌, ◌≢◌, refl, ap, sym, ◌∙◌, inl, inr, true, false, arith, subst, Bool-cases, ◌==◌, ◌%◌,
}
use accelerometer_tcp_json_t.Prelude.Int.{next64}
use accelerometer_tcp_json_t.Doubles.{Doubles}
use accelerometer_tcp_json_t.Json.{Json, IsLawful}
use accelerometer_tcp_json_t.Packet.{AccelPacket}
use accelerometer_tcp_json_t.Protocol.{Status, packet_to_json, k_role_A, make_hello_message}
use accelerometer_tcp_json_t.Client.{
  TcpClient, Connection, Written, connect, make_client, write_json, write_json-open, close_client,
}
use accelerometer_tcp_json_t.NodeA.State.{NodeA, MainPc, ReceiverPc}
use accelerometer_tcp_json_t.NodeA.Defs.{
  generate, send, finish_send, stop_main, close_main, join, abort, boot, greet, finish_greet,
  initial,
}
use accelerometer_tcp_json_t.NodeA.Steps.{Step, Reach}
use accelerometer_tcp_json_t.NodeA.Shutdown.Falls.{
  has_left, is_present, receiver_rank, Falls, open_log-Falls, test_running-Falls, enter_read-Falls,
  fail_read-Falls, stop_receiver-Falls, receive-Falls,
}

close_client_shut : (c : TcpClient) → (close_client c).is_open ≡ false
unfolding close_client
close_client_shut c = ground arith

module _ {D : Doubles} (J : Json D) where
  -- What holds of `main` and `is_running` all along.
  pub record IsOrderly (n : NodeA D) : Type 0 where
    pub present : n.main ≢ MainPc.aborted → is_present n.receiver ≡ true
    pub stopped : has_left n.main ≡ true → n.is_running ≡ false
    -- The client is closed before the thread is joined.
    pub shut : n.main ≡ MainPc.joining → n.client.is_open ≡ false
    pub ended : n.main ≡ MainPc.returned true → n.receiver ≡ ReceiverPc.finished
    pub succeeded : n.main ≢ MainPc.returned false
    -- std::terminate ends both threads.
    pub dead : n.main ≡ MainPc.aborted → n.receiver ≡ ReceiverPc.aborted

  Falls-IsOrderly : {n u : NodeA D} → Falls n u → IsOrderly n → IsOrderly u
  Falls-IsOrderly {n} {u} f v = record {
    present = λ d. f.present;
    stopped = λ h. f.stopped (v.stopped (ap has_left (sym f.main) ∙ h));
    shut = λ h. f.shut (v.shut (sym f.main ∙ h));
    ended = λ h.
        let e = sym f.main ∙ h in
        let low = f.rank (v.stopped (ap has_left e)) in
        absurd (let r = ap receiver_rank (v.ended e) in omega (arith, low, r));
    succeeded = λ h. v.succeeded (sym f.main ∙ h);
    dead = λ h. absurd (f.lives (v.dead (sym f.main ∙ h)));
  }

  -- `main` goes on, and ReceiveModules stands where it stood.
  in_loop-IsOrderly :
      (n u : NodeA D)
      → u.receiver ≡ n.receiver
      → has_left u.main ≡ false
      → u.main ≢ MainPc.returned false
      → u.main ≢ MainPc.aborted
      → n.main ≢ MainPc.aborted
      → IsOrderly n
      → IsOrderly u
  in_loop-IsOrderly n u r h s d l v = record {
    present = λ t. ap is_present r ∙ v.present l;
    stopped = λ t. cc;
    shut = λ t. cc (h, ap has_left t);
    ended = λ t. cc (h, ap has_left t);
    succeeded = s;
    dead = λ t. absurd (d t);
  }

  finish_send-IsOrderly :
      (n : NodeA D) (p : AccelPacket D) (q : TcpClient × Status)
      → n.main ≢ MainPc.aborted
      → IsOrderly n
      → IsOrderly (finish_send J n p q)
  unfolding finish_send
  finish_send-IsOrderly n p (c, Status.failure e) l v =
      in_loop-IsOrderly n _ refl refl (λ h. cc) (λ h. cc) l v
  finish_send-IsOrderly n p (c, Status.success) l v =
      elim (Bool-cases (next64 n.generated_packets_count % 50 == 0)) [
        | inl z ↦ rw z (in_loop-IsOrderly n _ refl refl (λ h. cc) (λ h. cc) l v)
        | inr z ↦ rw z (in_loop-IsOrderly n _ refl refl (λ h. cc) (λ h. cc) l v)
      ]

  boot-IsOrderly : (L : IsLawful J) → IsOrderly (boot J Connection.connected Written.written)
  unfolding boot greet finish_greet connect
  boot-IsOrderly L =
      subst (λ q. IsOrderly (finish_greet J (initial (record make_client { is_open = true })) q))
        (sym (
          write_json-open J L (record make_client { is_open = true })
            (make_hello_message J k_role_A) refl))
        (record {
          present = λ d. refl;
          stopped = λ h. cc;
          shut = λ h. cc;
          ended = λ h. cc;
          succeeded = λ h. cc;
          dead = λ h. cc;
        })

  pub Step-IsOrderly : {n u : NodeA D} → Step J n u → IsOrderly n → IsOrderly u
  unfolding generate send stop_main close_main join abort
  Step-IsOrderly {n} (Step.generates now e) v =
      in_loop-IsOrderly n _ refl refl (λ h. cc) (λ h. cc) (λ h. cc (e, h)) v
  Step-IsOrderly {n} (Step.sends p r e) v =
      finish_send-IsOrderly n p (write_json J n.client (packet_to_json J p) r) (λ h. cc (e, h)) v
  Step-IsOrderly {n} (Step.stops e) v = record {
    present = λ d. v.present (λ h. cc (e, h));
    stopped = λ h. refl;
    shut = λ h. cc;
    ended = λ h. cc;
    succeeded = λ h. cc;
    dead = λ h. cc;
  }
  Step-IsOrderly {n} (Step.closes e) v = record {
    present = λ d. v.present (λ h. cc (e, h));
    stopped = λ h. v.stopped (ap has_left e);
    shut = λ h. close_client_shut _;
    ended = λ h. cc;
    succeeded = λ h. cc;
    dead = λ h. cc;
  }
  Step-IsOrderly {n} (Step.joins e f) v = record {
    present = λ d. v.present (λ h. cc (e, h));
    stopped = λ h. v.stopped (ap has_left e);
    shut = λ h. cc;
    ended = λ h. f;
    succeeded = λ h. cc;
    dead = λ h. cc;
  }
  Step-IsOrderly {n} (Step.aborts e) v = record {
    present = λ d. absurd (d refl);
    stopped = λ h. cc;
    shut = λ h. cc;
    ended = λ h. cc;
    succeeded = λ h. cc;
    dead = λ h. refl;
  }
  Step-IsOrderly (Step.opens opened e) v = Falls-IsOrderly (open_log-Falls _ opened e) v
  Step-IsOrderly (Step.tests e) v = Falls-IsOrderly (test_running-Falls _ e) v
  Step-IsOrderly (Step.enters e) v = Falls-IsOrderly (enter_read-Falls _ e) v
  Step-IsOrderly (Step.receives a e c) v = Falls-IsOrderly (receive-Falls J _ a e) v
  Step-IsOrderly (Step.fails x e) v = Falls-IsOrderly (fail_read-Falls _ x e) v
  Step-IsOrderly (Step.finishes e) v = Falls-IsOrderly (stop_receiver-Falls _ e) v

  pub Reach-IsOrderly : IsLawful J → {n : NodeA D} → Reach J n → IsOrderly n
  Reach-IsOrderly L Reach.here = boot-IsOrderly L
  Reach-IsOrderly L (Reach.next r st) = Step-IsOrderly st (Reach-IsOrderly L r)
