-- ===== src/Protocol/Defs.antt =====
-- The results, the constants, and the functions of `detail`.
use accelerometer_tcp_json_t.Prelude.{ℕ, ◌-◌, ◌^◌, String, ltb, if◌then◌else◌}
use accelerometer_tcp_json_t.Prelude.Int.{ℤ, pos, to_int64}
use accelerometer_tcp_json_t.Prelude.Text.{◌<>◌}
use accelerometer_tcp_json_t.Doubles.{Doubles}
use accelerometer_tcp_json_t.Json.{Json}

abbrev pub k_protocol_version : ℤ
k_protocol_version = pos 1

abbrev pub k_type_hello : String
k_type_hello = "hello"

abbrev pub k_type_accel : String
k_type_accel = "accel"

abbrev pub k_type_module : String
k_type_module = "module"

abbrev pub k_role_A : String
k_role_A = "A"

abbrev pub k_role_B : String
k_role_B = "B"

-- `Status` and `Result`: `ok` with the value, or not `ok` with the error.
pub data Status : Type 0 where
  success : Status
  failure : String → Status

pub data Result (A : Type 0) : Type 0 where
  success : A → Result A
  failure : String → Result A

-- `if (!status) return failure(status.error);` and what follows it.
infixl 5 ◌>>=◌ ◌>>◌
abbrev pub ◌>>=◌ : {A B : Type 0} → Result A → (A → Result B) → Result B
Result.success a >>= k = k a
Result.failure e >>= k = Result.failure e

abbrev pub ◌>>◌ : {B : Type 0} → Status → Result B → Result B
Status.success >> m = m
Status.failure e >> m = Result.failure e

module _ {D : Doubles} (J : Json D) where
  unfoldable pub validate_object : J.Value → Status
  validate_object json =
      if J.is_object json then Status.success else Status.failure "JSON message must be an object"

  unfoldable pub require_field : J.Value → String → Status
  unfolding validate_object
  require_field json field = elim (validate_object json) [
    | Status.failure e ↦ Status.failure e
    | Status.success ↦
        if J.contains json field
        then Status.success
        else Status.failure ("JSON message does not contain required field: " <> field)
  ]

  abbrev pub int64_max : ℕ
  int64_max = 2 ^ 63 - 1

  -- The two tests of the number, in the order of the code.
  unfoldable pub int64_of_value : J.Value → String → Result ℤ
  int64_of_value value field =
      if J.is_number_integer value
      then Result.success (J.get_int64 value)
      else if J.is_number_unsigned value
      then (if ltb int64_max (J.get_uint64 value)
          then Result.failure ("JSON field is too large for int64_t: " <> field)
          else Result.success (to_int64 (J.get_uint64 value)))
      else Result.failure ("JSON field must be integer: " <> field)

  unfoldable pub get_int64_field : J.Value → String → Result ℤ
  unfolding int64_of_value
  get_int64_field json field = do require_field json field; int64_of_value (J.at json field) field

  unfoldable pub get_double_field : J.Value → String → Result D.Double
  get_double_field json field = do
    require_field json field
    if J.is_number (J.at json field)
        then Result.success (J.get_double (J.at json field))
        else Result.failure ("JSON field must be number: " <> field)

  unfoldable pub get_string_field : J.Value → String → Result String
  get_string_field json field = do
    require_field json field
    if J.is_string (J.at json field)
        then Result.success (J.get_string (J.at json field))
        else Result.failure ("JSON field must be string: " <> field)
