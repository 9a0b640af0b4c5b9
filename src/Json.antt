-- ===== src/Json.antt =====
-- nlohmann::json, which is a dependency of the build: a type of values with the calls that the
-- program makes of it, and the documented behaviour that the proofs rely on.
mod Lookup
pub use Lookup.*
use accelerometer_tcp_json_t.Prelude.{◌≡◌, Bool, true, false, String, List, map, some, ℕ}
use accelerometer_tcp_json_t.Prelude.Int.{ℤ, IsInt64, IsInt32, to_int64, to_int32}
use accelerometer_tcp_json_t.Prelude.Framing.{IsLine}
use accelerometer_tcp_json_t.Doubles.{Doubles}

-- The C++ values that the program writes into a message: int, int64_t, double and std::string.
pub data Scalar (D : Doubles) : Type 0 where
  int : ℤ → Scalar D
  int64 : ℤ → Scalar D
  double : D.Double → Scalar D
  string : String → Scalar D

-- The braced list that a message is made from.
abbrev pub Fields : Doubles → Type 0
Fields D = List (String × Scalar D)

-- The value fits its C++ type, and JSON has a number for it.
abbrev pub IsPlain : {D : Doubles} → Scalar D → Type 0
IsPlain (int z) = IsInt32 z
IsPlain (int64 z) = IsInt64 z
IsPlain {D} (double x) = D.IsFinite x
IsPlain (string s) = Unit

pub record Json (D : Doubles) : Type 1 where
  pub Value : Type 0
  pub object : Fields D → Value
  -- json::parse(text, nullptr, false)
  pub parse : String → Value
  pub dump : Value → String
  pub is_discarded : Value → Bool
  pub is_object : Value → Bool
  pub is_number : Value → Bool
  pub is_number_integer : Value → Bool
  pub is_number_unsigned : Value → Bool
  pub is_string : Value → Bool
  pub contains : Value → String → Bool
  -- json[field] of a constant object that contains the field.
  pub at : Value → String → Value
  -- get<int64_t>, get<uint64_t>, get<int>, get<unsigned int>, get<double>, get<std::string>
  pub get_int64 : Value → ℤ
  pub get_uint64 : Value → ℕ
  pub get_int : Value → ℤ
  pub get_uint : Value → ℕ
  pub get_double : Value → D.Double
  pub get_string : Value → String

module _ {D : Doubles} (J : Json D) where
  -- What reading a value gives back, if it was written from this scalar.
  abbrev pub Holds : J.Value → Scalar D → Type 0
  Holds v (int z) = (J.is_number_integer v ≡ true) × (J.get_int v ≡ z)
  Holds v (int64 z) = (J.is_number_integer v ≡ true) × (J.get_int64 v ≡ z)
  Holds v (double x) = (J.is_number v ≡ true) × (J.get_double v ≡ x)
  Holds v (string s) = (J.is_string v ≡ true) × (J.get_string v ≡ s)

  -- The value is an object in which every one of the fields can be read back.
  pub record Presents (v : J.Value) (m : Fields D) : Type 0 where
    pub kept : J.is_discarded v ≡ false
    pub an_object : J.is_object v ≡ true
    pub present : (k : String) (s : Scalar D) → lookup k m ≡ some s → J.contains v k ≡ true
    pub readable : (k : String) (s : Scalar D) → lookup k m ≡ some s → Holds (J.at v k) s

  -- The documented behaviour.
  pub record IsLawful : Type 0 where
    -- An object made from fields with distinct names, printed and parsed, has these fields.
    pub parse-dump :
        (m : Fields D)
        → IsDistinct m
        → AllFields IsPlain m
        → Presents (J.parse (J.dump (J.object m))) m
    -- A text of no characters is not JSON.
    pub parse_empty : J.is_discarded (J.parse "") ≡ true
    -- `dump()` with no indent is one line, and escapes what it has of control characters.
    pub dump_one_line : (v : J.Value) → IsLine (J.dump v)
    -- is_number_integer() holds of unsigned numbers too.
    pub unsigned_is_integer :
        (v : J.Value) → J.is_number_unsigned v ≡ true → J.is_number_integer v ≡ true
    -- Reading a number into a narrower type is a static_cast.
    pub get_int64_unsigned :
        (v : J.Value) → J.is_number_unsigned v ≡ true → J.get_int64 v ≡ to_int64 (J.get_uint64 v)
    pub get_int_narrows :
        (v : J.Value) → J.is_number_integer v ≡ true → J.get_int v ≡ to_int32 (J.get_int64 v)
