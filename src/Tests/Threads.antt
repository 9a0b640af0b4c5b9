-- ===== src/Tests/Threads.antt =====
-- A run of Node A's two threads, and the theorems about Node A in it.
use accelerometer_tcp_json_t.Prelude.{◌≤◌, ◌≡◌, refl, ◌⊎◌, true, String, List, [], ◌∷◌}
use accelerometer_tcp_json_t.Prelude.Int.{ℤ, pos, eq_ℤ, to_int32}
use accelerometer_tcp_json_t.Prelude.Text.{◌<>◌, getline, back_is, pop_back, has_newline}
use accelerometer_tcp_json_t.Packet.{AccelModule}
use accelerometer_tcp_json_t.Protocol.{
  make_hello_message, packet_to_json, module_to_json, parse_json_line, get_message_type,
  get_string_field, require_field, validate_protocol_version, validate_message_type,
  parse_accel_module, get_int64_field, get_double_field,
}
use accelerometer_tcp_json_t.Client.{
  Connection, Written, Arrival, connect, write_json, write_line, finish_write, finish_read,
}
use accelerometer_tcp_json_t.NodeA.{
  NodeA, MainPc, Step, Reach, Run, boot, greet, finish_greet, generate, send, finish_send,
  stop_main, close_main, open_log, test_running, enter_read, receive, finish_receive, handle_text,
  next_packet, IsSent, Reach-IsSent, InFile, Reach-InFile, shutdown_terminates, IsPrompt,
}
use accelerometer_tcp_json_t.Tests.Codec.{whole, encode, decode}
use accelerometer_tcp_json_t.Tests.Library.{library, library-IsLawful}

abbrev magnitude : AccelModule whole
magnitude = record { timestamp = pos 5; module_value = 9 }

abbrev module_line : String
module_line = library.dump (module_to_json library magnitude)

unfoldable pub started : NodeA whole
unfolding boot greet finish_greet connect write_json write_line finish_write make_hello_message
    encode back_is
started = boot library Connection.connected Written.written

-- `main` sends a packet, and ReceiveModules reads the module that comes back.
unfoldable pub answered : NodeA whole
unfolding started generate send finish_send packet_to_json next_packet open_log test_running
    enter_read receive finish_receive handle_text finish_read getline pop_back parse_json_line
    get_message_type get_string_field require_field validate_protocol_version validate_message_type
    parse_accel_module get_int64_field get_double_field decode module_to_json eq_ℤ to_int32
answered =
    let sending = generate started (pos 5) in
    let sent =
      send library sending (next_packet whole started.emulator (pos 5)).1 Written.written in
    receive library (enter_read (test_running (open_log sent true)))
      (Arrival.arrived (module_line <> "\n"))

answered-Reach : Reach library answered
unfolding answered has_newline
answered-Reach =
    Reach.next
      (Reach.next
        (Reach.next
          (Reach.next
            (Reach.next (Reach.next Reach.here (Step.generates (pos 5) refl))
              (Step.sends (next_packet whole started.emulator (pos 5)).1 Written.written refl))
            (Step.opens true refl))
          (Step.tests refl))
        (Step.enters refl))
      (Step.receives (Arrival.arrived (module_line <> "\n")) refl refl)

one_module : (answered.received_modules_count ≡ 1) × (answered.generated_packets_count ≡ 1)
unfolding answered
one_module = (refl, refl)

Reach-IsSent_example : (times : List ℤ) × IsSent library times answered
Reach-IsSent_example = Reach-IsSent library library-IsLawful answered-Reach

Reach-InFile_example : InFile library library-IsLawful answered (module_line ∷ []) ""
unfolding answered
Reach-InFile_example =
    Reach-InFile library library-IsLawful answered-Reach (module_line ∷ []) ""
      (library-IsLawful.dump_one_line (module_to_json library magnitude), tt) refl

-- The next packet cannot be sent.
unfoldable leaving : NodeA whole
unfolding answered generate send stop_main
leaving = stop_main (
    send library (generate answered (pos 6)) (next_packet whole answered.emulator (pos 6)).1
      (Written.failed "reset"))

leaving-Reach : Reach library leaving
unfolding leaving
leaving-Reach =
    Reach.next
      (Reach.next (Reach.next answered-Reach (Step.generates (pos 6) refl))
        (Step.sends (next_packet whole answered.emulator (pos 6)).1 (Written.failed "reset") refl))
      (Step.stops refl)

shutdown_terminates_example :
    (1 ≤ 6)
    × (((close_main leaving).main ≡ MainPc.returned true)
        ⊎ (((close_main leaving).main ≡ MainPc.aborted)
            ⊎ ((v : NodeA whole) × (st : Step library (close_main leaving) v) × IsPrompt library
                  st)))
unfolding leaving
shutdown_terminates_example =
    shutdown_terminates library library-IsLawful leaving-Reach refl
      (Run.more Run.still (Step.closes refl))
