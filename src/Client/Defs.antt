-- ===== src/Client/Defs.antt =====
-- The members of TcpClient and its functions. How a call of Boost.Asio ends is an argument.
use accelerometer_tcp_json_t.Prelude.{
  Bool, true, false, ◌||◌, not, String, List, [], ◌∷◌, ◌++◌, if◌then◌else◌,
}
use accelerometer_tcp_json_t.Prelude.Text.{◌<>◌, is_empty, back_is}
use accelerometer_tcp_json_t.Prelude.Framing.{take_line}
use accelerometer_tcp_json_t.Doubles.{Doubles}
use accelerometer_tcp_json_t.Json.{Json}
use accelerometer_tcp_json_t.Protocol.{Status, Result}

-- socket_ is whether it is open and the buffers that it was given by writes that succeeded.
pub record TcpClient : Type 0 where
  pub is_open : Bool
  pub sent : List String
  pub input_buf : String

-- The end of `resolve` and `connect`, which opens the socket; a failed connect closes it.
pub data Connection : Type 0 where
  connected : Connection
  resolve_failed connect_failed : String → Connection

-- The end of `write`.
pub data Written : Type 0 where
  written : Written
  failed : String → Written

-- The end of `read_until`: the bytes that it has put into the buffer, and its error if any.
pub data Arrival : Type 0 where
  arrived : String → Arrival
  failed : String → String → Arrival

abbrev pub make_client : TcpClient
make_client = record { is_open = false; sent = []; input_buf = "" }

unfoldable pub connect : TcpClient → Connection → TcpClient × Status
connect c connected = (record c { is_open = true }, Status.success)
connect c (resolve_failed message) = (c, Status.failure ("resolve failed: " <> message))
connect c (connect_failed message) =
    (record c { is_open = false }, Status.failure ("connect failed: " <> message))

-- The buffer that WriteLine makes of a line.
abbrev pub ended : String → String
ended line = if is_empty line || not (back_is b'\n' line) then line <> "\n" else line

unfoldable pub finish_write : TcpClient → String → Written → TcpClient × Status
finish_write c message written = (record c { sent = c.sent ++ (message ∷ []) }, Status.success)
finish_write c message (failed error) = (c, Status.failure ("write failed: " <> error))

unfoldable pub write_line : TcpClient → String → Written → TcpClient × Status
unfolding finish_write
write_line c line w =
    if not c.is_open
    then (c, Status.failure "socket is not connected")
    else finish_write c (ended line) w

unfoldable pub write_json :
    {D : Doubles} (J : Json D) → TcpClient → J.Value → Written → TcpClient × Status
unfolding write_line
write_json J c json w = write_line c (J.dump json) w

unfoldable pub finish_read : TcpClient → Arrival → TcpClient × Result String
finish_read c (arrived bytes) =
    let taken = take_line (c.input_buf <> bytes) in
    (record c { input_buf = taken.1 }, Result.success taken.0)
finish_read c (failed bytes error) =
    (record c { input_buf = c.input_buf <> bytes }, Result.failure ("read failed: " <> error))

unfoldable pub read_line : TcpClient → Arrival → TcpClient × Result String
unfolding finish_read
read_line c a =
    if not c.is_open then (c, Result.failure "socker is not connected") else finish_read c a

unfoldable pub close_client : TcpClient → TcpClient
close_client c = if c.is_open then record c { is_open = false } else c
