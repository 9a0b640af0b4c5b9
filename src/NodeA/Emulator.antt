-- ===== src/NodeA/Emulator.antt =====
-- include/node_a/accelerometer_emulator.hpp and src/node_a/accelerometer_emulator.cpp.
use accelerometer_tcp_json_t.Prelude.{ℕ}
use accelerometer_tcp_json_t.Prelude.Int.{ℤ, next64}
use accelerometer_tcp_json_t.Doubles.{Doubles}
use accelerometer_tcp_json_t.Packet.{AccelPacket}

pub record AccelerometerEmulator : Type 0 where
  pub sample_index : ℕ

-- AccelerometerEmulator's constructor.
abbrev pub make_emulator : AccelerometerEmulator
make_emulator = record { sample_index = 0 }

module _ (D : Doubles) where
  abbrev pub k_pi : D.Double
  k_pi = D.decimal 3141592 6

  abbrev pub k_sample_rate_hz : D.Double
  k_sample_rate_hz = D.decimal 500 1

  abbrev pub k_gravity : D.Double
  k_gravity = D.decimal 98 1

  -- 2.0 * detail::k_pi * frequency * time_sec
  abbrev pub phase : D.Double → D.Double → D.Double
  phase frequency time_sec = D.mul (D.mul (D.mul (D.decimal 20 1) k_pi) frequency) time_sec

  -- NextPacket, at the time that CurrentTimestampMs has given.
  unfoldable pub next_packet : AccelerometerEmulator → ℤ → AccelerometerEmulator × AccelPacket D
  next_packet e timestamp =
      let time_sec = D.div (D.of_uint64 e.sample_index) k_sample_rate_hz in
      (
        record e { sample_index = next64 e.sample_index },
        record {
          timestamp = timestamp;
          x = D.mul (D.decimal 4 1) (D.sin (phase (D.decimal 7 1) time_sec));
          y = D.add k_gravity (D.mul (D.decimal 2 1) (D.sin (phase (D.decimal 3 1) time_sec)));
          z = D.mul (D.decimal 1 1) (D.cos (phase (D.decimal 5 1) time_sec));
        },
      )
