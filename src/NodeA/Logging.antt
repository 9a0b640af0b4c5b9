-- ===== src/NodeA/Logging.antt =====
-- What Node A writes to its file: the modules among the lines that it has read, in their order.
use text.Mathlib.TextLemmas.{append_assoc}
use mathlib.Core.List as Lists
use accelerometer_tcp_json_t.Prelude.{
  ◌%◌, ◌^◌, ◌≡◌, refl, ap, sym, subst, ◌∙◌, true, String, List, [], ◌∷◌, ◌++◌, length,
}
use accelerometer_tcp_json_t.Prelude.Text.{◌<>◌}
use accelerometer_tcp_json_t.Prelude.Framing.{
  take_line, AllLines, AllLines-append, frames, next_line,
}
use accelerometer_tcp_json_t.Doubles.{Doubles}
use accelerometer_tcp_json_t.Json.{Json, IsLawful}
use accelerometer_tcp_json_t.Packet.{AccelModule}
use accelerometer_tcp_json_t.Protocol.{k_role_A, make_hello_message}
use accelerometer_tcp_json_t.Client.{
  Connection, Written, Arrival, finish_read, write_json-open, make_client, connect, write_json,
}
use accelerometer_tcp_json_t.NodeA.State.{NodeA, ReceiverPc}
use accelerometer_tcp_json_t.NodeA.Defs.{
  finish_receive, receive, boot, greet, finish_greet, initial,
}
use accelerometer_tcp_json_t.NodeA.Steps.{Step, Reach, Completes}
use accelerometer_tcp_json_t.NodeA.Threads.{
  FileKept, abort-FileKept, open_log-FileKept, test_running-FileKept, enter_read-FileKept,
  fail_read-FileKept, stop_receiver-FileKept, generate-ReceiverKept, send-ReceiverKept,
  stop_main-ReceiverKept, close_main-ReceiverKept, join-ReceiverKept,
}
use accelerometer_tcp_json_t.NodeA.Modules.{
  modules_in, module_in, modules_in-append, handle_text-Wrote,
}

module _ {D : Doubles} (J : Json D) where
  module _ (L : IsLawful J) where
    -- The file has the modules of a first part of the lines, and the rest is still to come.
    pub record InFile (n : NodeA D) (lines : List String) (later : String) : Type 0 where
      pub got : List String
      pub rest : List String
      pub all : lines ≡ got ++ rest
      pub written : n.module_log ≡ modules_in J got
      pub counted : n.received_modules_count ≡ length n.module_log % 2 ^ 64
      pub kept : n.client.input_buf <> later ≡ frames rest

    -- Whatever lines the connection carries.
    abbrev Logs : NodeA D → Type 0
    Logs n =
        (lines : List String) (later : String)
        → AllLines lines
        → n.bytes <> later ≡ frames lines
        → InFile n lines later

    Logs-kept : {n u : NodeA D} → FileKept n u → Logs n → Logs u
    Logs-kept k v lines later a e =
        let i = v lines later a (ap (λ b. b <> later) (sym k.bytes) ∙ e) in
        record {
          got = i.got;
          rest = i.rest;
          all = i.all;
          written = k.logged ∙ i.written;
          counted = k.received ∙ i.counted ∙ ap (λ l. length l % 2 ^ 64) (sym k.logged);
          kept = ap (λ b. b <> later) k.input_buf ∙ i.kept;
        }

    next_all :
        (lines got rest others : List String) (l t : String)
        → lines ≡ got ++ rest
        → rest ≡ l ∷ others
        → t ≡ l
        → lines ≡ (got ++ (t ∷ [])) ++ others
    next_all lines got rest others l t e f g = rw (e, f, g, Lists.append_assoc) refl

    next_modules :
        (log : List (AccelModule D)) (got : List String) (t : String)
        → log ≡ modules_in J got
        → log ++ module_in J t ≡ modules_in J (got ++ (t ∷ []))
    next_modules log got t e = rw (e, modules_in-append J, Lists.append-nil) refl

    receive-Logs :
        (n : NodeA D) (a : Arrival) → Completes n.client.input_buf a → Logs n → Logs (receive J n a)
    unfolding receive finish_receive finish_read
    receive-Logs n (Arrival.failed part error) c v lines later a e =
        let i = v lines (part <> later) a (sym (append_assoc n.bytes part later) ∙ e) in
        record {
          got = i.got;
          rest = i.rest;
          all = i.all;
          written = i.written;
          counted = i.counted;
          kept = append_assoc n.client.input_buf part later ∙ i.kept;
        }
    receive-Logs n (Arrival.arrived part) c v lines later a e =
        let b = n.client.input_buf <> part in
        let taken = take_line b in
        let w =
          handle_text-Wrote J L
            (record n {
              client = record n.client { input_buf = taken.1 };
              receiver = ReceiverPc.testing;
              bytes = n.bytes <> part;
            })
            taken.0 in
        let i =
          v lines (part <> later) a
            (sym (append_assoc n.bytes part later) ∙ ap (λ k. k <> later) (sym w.bytes) ∙ e) in
        let next =
          next_line b later i.rest (AllLines-append i.got i.rest (subst AllLines i.all a)) c
            (append_assoc n.client.input_buf part later ∙ i.kept) in
        record {
          got = i.got ++ (taken.0 ∷ []);
          rest = next.rest;
          all = next_all lines i.got i.rest next.rest next.line taken.0 i.all next.all next.taken;
          written = w.written ∙ next_modules n.module_log i.got taken.0 i.written;
          counted = w.counted i.counted;
          kept = ap (λ k. k <> later) w.input_buf ∙ next.kept;
        }

    boot-Logs : Logs (boot J Connection.connected Written.written)
    unfolding boot greet finish_greet connect write_json
    boot-Logs lines later a e =
        subst
          (λ q.
            InFile (finish_greet J (initial (record make_client { is_open = true })) q) lines later)
          (sym (
            write_json-open J L (record make_client { is_open = true })
              (make_hello_message J k_role_A) refl))
          (record {
            got = [];
            rest = lines;
            all = refl;
            written = refl;
            counted = refl;
            kept = ap (λ b. b <> later) refl ∙ e;
          })

    Step-Logs : {n u : NodeA D} → Step J n u → Logs n → Logs u
    Step-Logs (Step.generates now e) v = Logs-kept (generate-ReceiverKept _ now).file v
    Step-Logs (Step.sends p r e) v = Logs-kept (send-ReceiverKept J _ p r).file v
    Step-Logs (Step.stops e) v = Logs-kept (stop_main-ReceiverKept _).file v
    Step-Logs (Step.closes e) v = Logs-kept (close_main-ReceiverKept _).file v
    Step-Logs (Step.joins e f) v = Logs-kept (join-ReceiverKept _).file v
    Step-Logs (Step.receives a e c) v = receive-Logs _ a c v
    Step-Logs (Step.aborts e) v = Logs-kept (abort-FileKept _) v
    Step-Logs (Step.opens opened e) v = Logs-kept (open_log-FileKept _ opened) v
    Step-Logs (Step.tests e) v = Logs-kept (test_running-FileKept _) v
    Step-Logs (Step.enters e) v = Logs-kept (enter_read-FileKept _) v
    Step-Logs (Step.fails x e) v = Logs-kept (fail_read-FileKept _ x) v
    Step-Logs (Step.finishes e) v = Logs-kept (stop_receiver-FileKept _) v

    -- If the bytes that have come in for Node A are a first part of the frames of some lines, then
    -- the file has the modules among a first part of these lines, each once and in their order, its
    -- counter is their number modulo 2^64, and the frames of the other lines are still to be read,
    -- however the bytes were split and in whatever order the two threads have run.
    pub Reach-InFile :
        {n : NodeA D}
        → Reach J n
        → (lines : List String) (later : String) → AllLines lines
        → n.bytes <> later ≡ frames lines
        → InFile n lines later
    Reach-InFile Reach.here lines later a e = boot-Logs lines later a e
    Reach-InFile (Reach.next r st) lines later a e = Step-Logs st (Reach-InFile r) lines later a e
