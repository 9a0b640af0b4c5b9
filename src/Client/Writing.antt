-- ===== src/Client/Writing.antt =====
-- What a connected client sends.
use accelerometer_tcp_json_t.Prelude.{
  ◌≡◌, refl, true, inl, inr, Bool-cases, [], ◌∷◌, ◌++◌, String, arith,
}
use accelerometer_tcp_json_t.Prelude.Text.{◌<>◌, is_empty}
use accelerometer_tcp_json_t.Prelude.Framing.{back_is-one_line}
use accelerometer_tcp_json_t.Doubles.{Doubles}
use accelerometer_tcp_json_t.Json.{Json, IsLawful}
use accelerometer_tcp_json_t.Protocol.{Status}
use accelerometer_tcp_json_t.Client.Defs.{
  TcpClient, Written, ended, write_json, write_line, finish_write,
}

module _ {D : Doubles} (J : Json D) (L : IsLawful J) where
  ended-dump : (v : J.Value) → ended (J.dump v) ≡ J.dump v <> "\n"
  ended-dump v =
      let b = back_is-one_line (J.dump v) (L.dump_one_line v).one_line in
      elim (Bool-cases (is_empty (J.dump v))) [ inl e ↦ rw e refl | inr e ↦ rw (e, b) refl ]

  -- A write that succeeds sends the line of the value.
  pub write_json-open :
      (c : TcpClient) (v : J.Value)
      → c.is_open ≡ true
      → write_json J c v Written.written
        ≡ (record c { sent = c.sent ++ ((J.dump v <> "\n") ∷ []) }, Status.success)
  unfolding write_json
  write_json-open c v o = rw (o, ended-dump v)

  -- A write that fails sends nothing, as far as the client knows.
  pub write_json-failed :
      (c : TcpClient) (v : J.Value) (e : String)
      → c.is_open ≡ true
      → write_json J c v (Written.failed e) ≡ (c, Status.failure ("write failed: " <> e))
  unfolding write_json write_line finish_write
  write_json-failed c v e o = ground arith
