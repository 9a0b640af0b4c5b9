-- ===== src/Tests/Decimals.antt =====
-- Fixed-point numbers in millionths, of which rounding to thousandths can be seen.
use accelerometer_tcp_json_t.Prelude.{
  ℕ, zero, suc, ◌+◌, ◌*◌, ◌/◌, ◌^◌, ◌≡◌, ◌↔◌, refl, true, arith, ap,
}
use accelerometer_tcp_json_t.Prelude.Int.{ℤ, pos, negsuc}
use accelerometer_tcp_json_t.Doubles.{Doubles}
use accelerometer_tcp_json_t.Packet.{
  is_duplicate, is_duplicate_iff, RoundsDecimals, Axes, Agree, reading_of, minus,
}

abbrev negate : ℤ → ℤ
negate (pos m) = minus m
negate (negsuc m) = pos (suc m)

-- A product with a positive number, as the code uses them.
abbrev times : ℤ → ℤ → ℤ
times (pos a) (pos b) = pos (a * b / 1000000)
times (negsuc a) (pos b) = minus (suc a * b / 1000000)
times a (negsuc b) = a

abbrev nearest_int : ℤ → ℤ
nearest_int (pos a) = pos ((a + 500000) / 1000000)
nearest_int (negsuc a) = minus ((suc a + 500000) / 1000000)

abbrev millionths : Doubles
millionths = record {
  Double = ℤ;
  decimal = λ m e. pos (m * 1000000 / 10 ^ e);
  of_uint64 = λ n. pos (n * 1000000);
  add = λ a b. a;
  mul = times;
  div = λ a b. a;
  sqrt = λ a. a;
  sin = λ a. a;
  cos = λ a. a;
  llround = nearest_int;
  IsFinite = λ a. Unit;
}

-- The sign may be taken before or after.
nearest_int-minus : (a : ℕ) → nearest_int (minus a) ≡ minus ((a + 500000) / 1000000)
nearest_int-minus zero = refl
nearest_int-minus (suc a) = refl

times-minus : (a b : ℕ) → times (minus a) (pos b) ≡ minus (a * b / 1000000)
times-minus zero b = let none : 0 * b / 1000000 ≡ 0 = omega arith in rw none refl
times-minus (suc a) b = refl

round-minus :
    (m : ℕ)
    → nearest_int (times (minus (m * 1000000 / 10 ^ 4)) (pos 1000000000)) ≡ minus ((m + 5) / 10)
round-minus m =
    let n = m * 1000000 / 10 ^ 4 in
    rw (times-minus n 1000000000, nearest_int-minus (n * 1000000000 / 1000000))
      (ap minus (omega arith))

millionths-RoundsDecimals : RoundsDecimals millionths
millionths-RoundsDecimals = record {
  neg = negate;
  nearest = λ m h c. ap pos (omega arith);
  nearest_neg = λ m h c. round-minus m;
}

-- 0.1234, -9.8001 and 0, and what differs from it by less than a thousandth.
abbrev still : Axes
still = record { x = pos 1234; y = negsuc 98000; z = pos 0 }

abbrev trembling : Axes
trembling = record { x = pos 1226; y = negsuc 98003; z = negsuc 3 }

is_duplicate_iff_example :
    (is_duplicate {D = millionths}
        (reading_of millionths-RoundsDecimals (pos 1) still)
        (reading_of millionths-RoundsDecimals (pos 2) trembling)
      ≡ true)
    ↔ Agree still trembling
is_duplicate_iff_example =
    is_duplicate_iff millionths-RoundsDecimals (pos 1) (pos 2) still trembling
      (record {
        clear_x = (omega arith, omega arith);
        clear_y = (omega arith, omega arith);
        clear_z = (omega arith, omega arith);
      })
      (record {
        clear_x = (omega arith, omega arith);
        clear_y = (omega arith, omega arith);
        clear_z = (omega arith, omega arith);
      })

they_repeat :
    is_duplicate {D = millionths}
      (reading_of millionths-RoundsDecimals (pos 1) still)
      (reading_of millionths-RoundsDecimals (pos 2) trembling)
    ≡ true
they_repeat = is_duplicate_iff_example.1 (record { same_x = refl; same_y = refl; same_z = refl })
