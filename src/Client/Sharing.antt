-- ===== src/Client/Sharing.antt =====
-- What reading and writing leave alone of a client: reads keep what was sent, writes the buffer.
use accelerometer_tcp_json_t.Prelude.{◌≡◌, arith, refl}
use accelerometer_tcp_json_t.Doubles.{Doubles}
use accelerometer_tcp_json_t.Json.{Json}
use accelerometer_tcp_json_t.Client.Defs.{
  TcpClient, Arrival, Written, finish_read, finish_write, write_line, write_json,
}

pub finish_read_kept :
    (c : TcpClient) (a : Arrival)
    → ((finish_read c a).0.is_open ≡ c.is_open) × ((finish_read c a).0.sent ≡ c.sent)
unfolding finish_read
finish_read_kept c (Arrival.arrived part) = (refl, refl)
finish_read_kept c (Arrival.failed part e) = (refl, refl)

pub write_json_kept :
    {D : Doubles} (J : Json D) (c : TcpClient) (v : J.Value) (r : Written)
    → ((write_json J c v r).0.is_open ≡ c.is_open)
      × ((write_json J c v r).0.input_buf ≡ c.input_buf)
unfolding write_json write_line finish_write
write_json_kept J c v Written.written = (ground arith, ground arith)
write_json_kept J c v (Written.failed e) = (ground arith, ground arith)
