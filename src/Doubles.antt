-- ===== src/Doubles.antt =====
-- `double` and <cmath>, which the program only calls: a type with the operations that it uses.
-- A decimal literal `m / 10 ^ e` of the source is `decimal m e`, and `of_uint64` is a static_cast.
use accelerometer_tcp_json_t.Prelude.{ℕ}
use accelerometer_tcp_json_t.Prelude.Int.{ℤ}

pub record Doubles : Type 1 where
  pub Double : Type 0
  pub decimal : ℕ → ℕ → Double
  pub of_uint64 : ℕ → Double
  pub add : Double → Double → Double
  pub mul : Double → Double → Double
  pub div : Double → Double → Double
  pub sqrt : Double → Double
  pub sin : Double → Double
  pub cos : Double → Double
  pub llround : Double → ℤ
  -- std::isfinite: the values that JSON can carry.
  pub IsFinite : Double → Type 0
