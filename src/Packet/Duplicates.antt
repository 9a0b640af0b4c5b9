-- ===== src/Packet/Duplicates.antt =====
-- When the server takes a packet for a repetition: the axes agree once they are rounded.
use accelerometer_tcp_json_t.Prelude.{
  ℕ, zero, suc, ◌+◌, ◌/◌, ◌%◌, ◌^◌, ◌<◌, ◌≡◌, ◌≢◌, ◌↔◌, true, arith, ◌&&◌,
}
use accelerometer_tcp_json_t.Prelude.Int.{ℤ, pos, negsuc, eq_ℤ, eq_ℤ_iff}
use accelerometer_tcp_json_t.Doubles.{Doubles}
use accelerometer_tcp_json_t.Packet.Defs.{AccelPacket, is_duplicate, round_axis_value}

-- Minus a natural number.
abbrev pub minus : ℕ → ℤ
minus zero = pos zero
minus (suc n) = negsuc n

-- What IEEE arithmetic and llround do to a decimal of four digits behind the point, `m / 10000` or
-- its negative, that is multiplied by 1000: it is rounded to the nearest integer, unless it stands
-- between two. The errors of the literal and of the product are far below a tenth, as long as `m` is
-- below 2^50. `neg` is the minus sign of C++, which this code does not use itself.
pub record RoundsDecimals (D : Doubles) : Type 0 where
  pub neg : D.Double → D.Double
  pub nearest :
      (m : ℕ)
      → m < 2 ^ 50
      → m % 10 ≢ 5
      → D.llround (D.mul (D.decimal m 4) (D.decimal 1000 0)) ≡ pos ((m + 5) / 10)
  pub nearest_neg :
      (m : ℕ)
      → m < 2 ^ 50
      → m % 10 ≢ 5
      → D.llround (D.mul (neg (D.decimal m 4)) (D.decimal 1000 0)) ≡ minus ((m + 5) / 10)

-- Three axes in ten-thousandths.
pub record Axes : Type 0 where
  pub x : ℤ
  pub y : ℤ
  pub z : ℤ

abbrev pub magnitude : ℤ → ℕ
magnitude (pos m) = m
magnitude (negsuc m) = suc m

-- Not half-way between two thousandths.
abbrev pub IsClear : ℤ → Type 0
IsClear v = (magnitude v < 2 ^ 50) × (magnitude v % 10 ≢ 5)

pub record IsClearAxes (a : Axes) : Type 0 where
  pub clear_x : IsClear a.x
  pub clear_y : IsClear a.y
  pub clear_z : IsClear a.z

-- The nearest number of thousandths.
abbrev pub thousandths : ℤ → ℤ
thousandths (pos m) = pos ((m + 5) / 10)
thousandths (negsuc m) = minus ((suc m + 5) / 10)

-- The axes agree to the nearest thousandth.
pub record Agree (a b : Axes) : Type 0 where
  pub same_x : thousandths a.x ≡ thousandths b.x
  pub same_y : thousandths a.y ≡ thousandths b.y
  pub same_z : thousandths a.z ≡ thousandths b.z

Agree-iff :
    (a b : Axes)
    → ((eq_ℤ (thousandths a.x) (thousandths b.x)
          && eq_ℤ (thousandths a.y) (thousandths b.y)
          && eq_ℤ (thousandths a.z) (thousandths b.z))
        ≡ true)
      ↔ Agree a b
Agree-iff a b = ground (
  arith,
  eq_ℤ_iff (thousandths a.x) (thousandths b.x),
  eq_ℤ_iff (thousandths a.y) (thousandths b.y),
  eq_ℤ_iff (thousandths a.z) (thousandths b.z),
)

module _ {D : Doubles} (R : RoundsDecimals D) where
  -- So many ten-thousandths.
  abbrev pub reading : ℤ → D.Double
  reading (pos m) = D.decimal m 4
  reading (negsuc m) = R.neg (D.decimal (suc m) 4)

  -- A packet with these axes.
  abbrev pub reading_of : ℤ → Axes → AccelPacket D
  reading_of timestamp a = record {
    timestamp = timestamp;
    x = reading a.x;
    y = reading a.y;
    z = reading a.z;
  }

  round-reading :
      (v : ℤ) → IsClear v → D.llround (D.mul (reading v) (D.decimal 1000 0)) ≡ thousandths v
  round-reading (pos m) h = R.nearest m h.0 h.1
  round-reading (negsuc m) h = R.nearest_neg (suc m) h.0 h.1

  -- Let llround round to the nearest integer. Then two packets whose axes are decimals of four
  -- digits, less than 2^50 ten-thousandths in magnitude and none half-way between two thousandths,
  -- are duplicates exactly when each axis is the same to the nearest thousandth, whatever their
  -- timestamps.
  pub is_duplicate_iff :
      (t u : ℤ) (a b : Axes)
      → IsClearAxes a
      → IsClearAxes b
      → (is_duplicate (reading_of t a) (reading_of u b) ≡ true) ↔ Agree a b
  unfolding is_duplicate round_axis_value
  is_duplicate_iff t u a b c d =
      rw
        (
          round-reading a.x c.clear_x,
          round-reading a.y c.clear_y,
          round-reading a.z c.clear_z,
          round-reading b.x d.clear_x,
          round-reading b.y d.clear_y,
          round-reading b.z d.clear_z,
        )
        (Agree-iff a b)
