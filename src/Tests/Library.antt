-- ===== src/Tests/Library.antt =====
-- A JSON library over the code, which shows that the assumed behaviour can be met.
use text.Mathlib.TextLemmas.{cons-append}
use accelerometer_tcp_json_t.Prelude.{
  ℕ, ◌≡◌, refl, Bool, true, false, String, Option, none, some, ap, ◌∙◌,
}
use accelerometer_tcp_json_t.Prelude.Int.{ℤ, pos, to_int64, to_int32, to_int32_id}
use accelerometer_tcp_json_t.Prelude.Text.{◌<>◌, str_eq, has_newline, back_is, pop_back}
use accelerometer_tcp_json_t.Prelude.Framing.{IsLine}
use accelerometer_tcp_json_t.Json.{
  Json, IsLawful, Presents, Holds, Scalar, Fields, int, int64, double, string, lookup, IsPlain,
  AllFields, lookup-AllFields,
}
use accelerometer_tcp_json_t.Tests.Codec.{whole, encode, decode, decode-encode, encode_one_line}

-- A message, an object with one unsigned field, a value inside of them, or a failure.
pub data Value : Type 0 where
  invalid : Value
  scalar : Scalar whole → Value
  unsigned : ℕ → Value
  message : Fields whole → Value
  counter : String → ℕ → Value

abbrev found : Option (Scalar whole) → Value
found none = invalid
found (some s) = scalar s

abbrev is_found : Option (Scalar whole) → Bool
is_found none = false
is_found (some s) = true

abbrev or_invalid : Option (Fields whole) → Value
or_invalid none = invalid
or_invalid (some m) = message m

abbrev dump : Value → String
dump (message m) = encode m <> "."
dump _ = ""

abbrev is_discarded : Value → Bool
is_discarded invalid = true
is_discarded _ = false

abbrev is_object : Value → Bool
is_object (message m) = true
is_object (counter k n) = true
is_object _ = false

abbrev is_number : Value → Bool
is_number (scalar (string s)) = false
is_number (scalar v) = true
is_number (unsigned n) = true
is_number _ = false

abbrev is_number_integer : Value → Bool
is_number_integer (scalar (int z)) = true
is_number_integer (scalar (int64 z)) = true
is_number_integer (unsigned n) = true
is_number_integer _ = false

abbrev is_number_unsigned : Value → Bool
is_number_unsigned (unsigned n) = true
is_number_unsigned _ = false

abbrev is_string : Value → Bool
is_string (scalar (string s)) = true
is_string _ = false

abbrev contains : Value → String → Bool
contains (message m) k = is_found (lookup k m)
contains (counter j n) k = str_eq j k
contains _ k = false

abbrev at : Value → String → Value
at (message m) k = found (lookup k m)
at (counter j n) k = unsigned n
at _ k = invalid

abbrev get_int64 : Value → ℤ
get_int64 (scalar (int z)) = z
get_int64 (scalar (int64 z)) = z
get_int64 (unsigned n) = to_int64 n
get_int64 _ = pos 0

abbrev get_uint64 : Value → ℕ
get_uint64 (unsigned n) = n
get_uint64 _ = 0

abbrev get_double : Value → ℕ
get_double (scalar (double x)) = x
get_double _ = 0

abbrev get_string : Value → String
get_string (scalar (string s)) = s
get_string _ = ""

abbrev pub library : Json whole
library = record {
  Value = Value;
  object = message;
  parse = λ text. or_invalid (decode (pop_back text));
  dump = dump;
  is_discarded = is_discarded;
  is_object = is_object;
  is_number = is_number;
  is_number_integer = is_number_integer;
  is_number_unsigned = is_number_unsigned;
  is_string = is_string;
  contains = contains;
  at = at;
  get_int64 = get_int64;
  get_uint64 = get_uint64;
  get_int = λ v. to_int32 (get_int64 v);
  get_uint = get_uint64;
  get_double = get_double;
  get_string = get_string;
}

scalar-Holds : (s : Scalar whole) → IsPlain s → Holds library (scalar s) s
scalar-Holds (int z) p = (refl, to_int32_id z p)
scalar-Holds (int64 z) p = (refl, refl)
scalar-Holds (double x) p = (refl, refl)
scalar-Holds (string t) p = (refl, refl)

message-Presents : (m : Fields whole) → AllFields IsPlain m → Presents library (message m) m
message-Presents m p = record {
  kept = refl;
  an_object = refl;
  present = λ k s e. ap is_found e;
  readable = λ k s e. rw e (scalar-Holds s (lookup-AllFields IsPlain k m s p e));
}

-- The mark at the end of a text.
pop_back-marked : (s : String) → pop_back (s <> ".") ≡ s
unfolding pop_back
pop_back-marked String.[] = refl
pop_back-marked (String.◌∷◌ c String.[]) = rw cons-append refl
pop_back-marked (String.◌∷◌ c (String.◌∷◌ d s)) =
    let ih = pop_back-marked (String.◌∷◌ d s) in
    rw (cons-append, cons-append) (ap (λ t. String.◌∷◌ c t) (rw cons-append at ih))

back_is-marked : (s : String) → back_is b'\r' (s <> ".") ≡ false
unfolding back_is
back_is-marked String.[] = refl
back_is-marked (String.◌∷◌ c String.[]) = rw cons-append refl
back_is-marked (String.◌∷◌ c (String.◌∷◌ d s)) =
    let ih = back_is-marked (String.◌∷◌ d s) in
    rw (cons-append, cons-append) ((rw cons-append at ih))

has_newline-marked : (s : String) → has_newline (s <> ".") ≡ has_newline s
unfolding has_newline
has_newline-marked String.[] = refl
has_newline-marked (String.◌∷◌ c s) = rw (cons-append, has_newline-marked s) refl

dump-IsLine : (v : Value) → IsLine (dump v)
unfolding has_newline back_is
dump-IsLine (message m) = record {
  one_line = has_newline-marked (encode m) ∙ encode_one_line m;
  no_return = back_is-marked (encode m);
}
dump-IsLine _ = record { one_line = refl; no_return = refl }

library_unsigned : (v : Value) → is_number_unsigned v ≡ true → is_number_integer v ≡ true
library_unsigned (unsigned n) e = refl
library_unsigned v e = cc

library_wraps : (v : Value) → is_number_unsigned v ≡ true → get_int64 v ≡ to_int64 (get_uint64 v)
library_wraps (unsigned n) e = refl
library_wraps v e = cc

pub library-IsLawful : IsLawful library
unfolding decode pop_back
library-IsLawful = record {
  parse-dump = λ m d p. rw (pop_back-marked (encode m), decode-encode m) (message-Presents m p);
  parse_empty = refl;
  dump_one_line = dump-IsLine;
  unsigned_is_integer = library_unsigned;
  get_int64_unsigned = library_wraps;
  get_int_narrows = λ v e. refl;
}
