-- ===== src/Packet/Defs.antt =====
-- The packet, the module, and when two packets count as one.
use accelerometer_tcp_json_t.Prelude.{Bool, ◌&&◌}
use accelerometer_tcp_json_t.Prelude.Int.{ℤ, eq_ℤ}
use accelerometer_tcp_json_t.Doubles.{Doubles}

pub record AccelPacket (D : Doubles) : Type 0 where
  pub timestamp : ℤ
  pub x : D.Double
  pub y : D.Double
  pub z : D.Double

pub record AccelModule (D : Doubles) : Type 0 where
  pub timestamp : ℤ
  pub module_value : D.Double

unfoldable pub round_axis_value : (D : Doubles) → D.Double → ℤ
round_axis_value D value = D.llround (D.mul value (D.decimal 1000 0))

unfoldable pub is_duplicate : {D : Doubles} → AccelPacket D → AccelPacket D → Bool
is_duplicate {D} lhs rhs =
    eq_ℤ (round_axis_value D lhs.x) (round_axis_value D rhs.x)
    && eq_ℤ (round_axis_value D lhs.y) (round_axis_value D rhs.y)
    && eq_ℤ (round_axis_value D lhs.z) (round_axis_value D rhs.z)
