-- ===== src/Protocol/Numbers.antt =====
-- The integers of a message: what the two readers of integers do with numbers that do not fit.
use accelerometer_tcp_json_t.Prelude.{◌≡◌, true, String}
use accelerometer_tcp_json_t.Prelude.Int.{to_int64}
use accelerometer_tcp_json_t.Doubles.{Doubles}
use accelerometer_tcp_json_t.Json.{Json, IsLawful}
use accelerometer_tcp_json_t.Protocol.Defs.{Result, get_int64_field}
use accelerometer_tcp_json_t.Protocol.Fields.{HasField, get_int64_field_iff}

module _ {D : Doubles} (J : Json D) (L : IsLawful J) where
  -- A field with an unsigned number is read, whatever its size, as the int64_t with the same bits:
  -- the answer is never that the number is too large.
  pub get_int64_field_wraps :
      (v : J.Value) (k : String)
      → HasField J v k
      → J.is_number_unsigned (J.at v k) ≡ true
      → get_int64_field J v k ≡ Result.success (to_int64 (J.get_uint64 (J.at v k)))
  get_int64_field_wraps v k h u = (get_int64_field_iff J L v k _).1 (record {
    has = h;
    kind = L.unsigned_is_integer (J.at v k) u;
    reads = L.get_int64_unsigned (J.at v k) u;
  })
