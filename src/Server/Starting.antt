-- ===== src/Server/Starting.antt =====
-- How the server starts.
use accelerometer_tcp_json_t.Prelude.{suc, ◌≡◌, ◌↔◌, true, arith, if◌then◌else◌}
use accelerometer_tcp_json_t.Doubles.{Doubles}
use accelerometer_tcp_json_t.Server.World.{World}
use accelerometer_tcp_json_t.Server.Events.{Completion, start_server, accept_next}

module _ {D : Doubles} where
  -- TcpServer::Start succeeds exactly when opening, setting the option, binding and listening all
  -- succeed; then it accepts, and if it fails no accept is added. It makes no session either way.
  pub start_server_lem :
      (w : World D) (opened reused bound listened : Completion)
      → (((start_server w opened reused bound listened).1 ≡ true) ↔ (
          (opened ≡ Completion.done)
          × (reused ≡ Completion.done)
          × (bound ≡ Completion.done)
          × (listened ≡ Completion.done)))
        × ((start_server w opened reused bound listened).0.accepts ≡ (
            if (start_server w opened reused bound listened).1 then suc w.accepts else w.accepts))
        × ((start_server w opened reused bound listened).0.count ≡ w.count)
  unfolding start_server accept_next
  start_server_lem w opened reused bound listened = (ground arith, ground arith, ground arith)
