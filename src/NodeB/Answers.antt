-- ===== src/NodeB/Answers.antt =====
-- What Node B sends for what it reads.
use text.Mathlib.TextLemmas.{nil-append}
use mathlib.Core.List.{append_assoc, append-nil}
use accelerometer_tcp_json_t.Prelude.{
  ◌≡◌, refl, ◌∙◌, sym, ap, if◌then◌else◌, subst, true, not, String, List, [], ◌∷◌, ◌++◌, arith,
}
use accelerometer_tcp_json_t.Prelude.Text.{◌<>◌}
use accelerometer_tcp_json_t.Prelude.Framing.{
  not_nothing, take_line, AllLines, frames, take_line-frames,
}
use accelerometer_tcp_json_t.Prelude.Parts.{AllComplete, joined, regroup, Carries, Carries-step}
use accelerometer_tcp_json_t.Doubles.{Doubles}
use accelerometer_tcp_json_t.Json.{Json, IsLawful}
use accelerometer_tcp_json_t.Client.{read_line, Arrival, Written, read_line-open}
use accelerometer_tcp_json_t.NodeB.Replies.{After, reply, replies, handle_text-After}
use accelerometer_tcp_json_t.NodeB.Defs.{NodeB, finish_round, handle_text, round}

module _ {D : Doubles} (J : Json D) where
  -- Rounds that read these parts, and whose writes succeed.
  abbrev pub rounds : NodeB D → List String → NodeB D
  rounds n [] = n
  rounds n (part ∷ parts) = rounds (round J n (Arrival.arrived part) Written.written) parts

  module _ (L : IsLawful J) where
    -- What Node B has done after its rounds: it still runs, and has answered a first part of the
    -- lines in their order.
    pub record Served (lines : List String) (later : String) (n u : NodeB D) : Type 0 where
      pub got : List String
      pub rest : List String
      pub all : lines ≡ got ++ rest
      pub runs : u.running ≡ true
      pub sent : u.client.sent ≡ n.client.sent ++ replies J got
      pub kept : u.client.input_buf <> later ≡ frames rest

    -- The node after ReadLine.
    abbrev having_read : NodeB D → String → NodeB D
    having_read n part = record n {
      client = record n.client { input_buf = (take_line (n.client.input_buf <> part)).1 };
    }

    round-open :
        (n : NodeB D) (part : String)
        → n.running ≡ true
        → n.client.is_open ≡ true
        → round J n (Arrival.arrived part) Written.written
          ≡ handle_text J
              (having_read n part)
              (take_line (n.client.input_buf <> part)).0
              Written.written
    unfolding round finish_round
    round-open n part r o =
        ap
          (λ b.
            if not b
            then n
            else finish_round J n (read_line n.client (Arrival.arrived part)) Written.written)
          r
        ∙ ap (λ got. finish_round J n got Written.written) (read_line-open n.client part o)

    pub round-After :
        (n : NodeB D) (part : String)
        → n.running ≡ true
        → n.client.is_open ≡ true
        → After J L
            (having_read n part)
            (round J n (Arrival.arrived part) Written.written)
            (reply J (take_line (n.client.input_buf <> part)).0)
    round-After n part r o =
        subst
          (λ u.
            After J L (having_read n part) u (reply J (take_line (n.client.input_buf <> part)).0))
          (sym (round-open n part r o)) (handle_text-After J L (having_read n part) r o _)

    -- If Node B runs and is connected, and the bytes in its buffer with those sent to it are the
    -- frames of some lines, of which each part that it reads completes one, and its writes succeed,
    -- then Node B still runs, has read the first of these lines, and has sent, in their order, one
    -- module for each that is a packet and nothing for the others, however the bytes are split.
    pub rounds_in_order :
        (n : NodeB D) (parts lines : List String) (later : String)
        → n.running ≡ true
        → n.client.is_open ≡ true
        → AllLines lines
        → AllComplete n.client.input_buf parts
        → n.client.input_buf <> (joined parts <> later) ≡ frames lines
        → Served lines later n (rounds n parts)
    rounds_in_order n [] lines later r o v h e = record {
      got = [];
      rest = lines;
      all = refl;
      runs = r;
      sent = sym (append-nil n.client.sent);
      kept = ap (λ s. n.client.input_buf <> s) (sym (nil-append later)) ∙ e;
    }
    rounds_in_order n (part ∷ parts) [] later r o v h e =
        elim (not_nothing (n.client.input_buf <> part) (joined parts <> later) h.0
          (regroup n.client.input_buf part _ later e)) [ ]
    rounds_in_order n (part ∷ parts) (l ∷ ls) later r o v h e =
        let b = n.client.input_buf <> part in
        let step =
          take_line-frames l (frames ls) b (joined parts <> later) v.0 h.0
            (regroup n.client.input_buf part _ later e) in
        let after = round-After n part r o in
        let buf = ap (λ c. c.input_buf) after.client in
        let ih =
          rounds_in_order (round J n (Arrival.arrived part) Written.written) parts ls later
            after.runs (ap (λ c. c.is_open) after.client ∙ o) v.1 (rw buf h.1) (rw buf step.1) in
        record {
          got = l ∷ ih.got;
          rest = ih.rest;
          all = ap (λ k. l ∷ k) ih.all;
          runs = ih.runs;
          sent =
              ih.sent
              ∙ ap (λ c. c.sent ++ replies J ih.got) after.client
              ∙ append_assoc n.client.sent (reply J (take_line b).0) (replies J ih.got)
              ∙ ap (λ k. n.client.sent ++ (reply J k ++ replies J ih.got)) step.0;
          kept = ih.kept;
        }

    -- Rounds that read all of the lines answer all of them.
    pub rounds-replies :
        (n : NodeB D) (parts lines : List String)
        → n.running ≡ true
        → n.client.is_open ≡ true
        → AllLines lines
        → Carries n.client.input_buf parts lines
        → (rounds n parts).client.sent ≡ n.client.sent ++ replies J lines
    rounds-replies n [] [] r o v c = sym (append-nil n.client.sent)
    rounds-replies n [] (l ∷ ls) r o v c = absurd (omega (arith, c.all))
    rounds-replies n (part ∷ parts) [] r o v c = absurd (omega (arith, c.all))
    rounds-replies n (part ∷ parts) (l ∷ ls) r o v c =
        let step = Carries-step v.0 c in
        let after = round-After n part r o in
        let client = after.client in
        rounds-replies (round J n (Arrival.arrived part) Written.written) parts ls after.runs
          (ap (λ k. k.is_open) client ∙ o) v.1
          (subst (λ k. Carries k.input_buf parts ls) (sym client) step.1)
        ∙ ap (λ k. k.sent ++ replies J ls) client
        ∙ append_assoc n.client.sent _ (replies J ls)
        ∙ ap (λ k. n.client.sent ++ (reply J k ++ replies J ls)) step.0
