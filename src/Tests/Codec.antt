-- ===== src/Tests/Codec.antt =====
-- A prefix code for the fields of a message, in one line of text, and its decoder.
use Prim.Native.Char.{code}
use Prim.Native.String.{String, ◌∷◌, ◌++◌}
use text.Mathlib.TextLemmas.{nil-append, cons-append}
use text.Mathlib.TextEquality.{Char-path}
use mathlib.Core.List.{List}
use accelerometer_tcp_json_t.Prelude.{
  ℕ, zero, suc, ◌≡◌, refl, ◌∙◌, sym, ap, Bool, true, false, Option, none, some, ◌==◌, ==_iff,
  if◌then◌else◌, Bool-cases, inl, inr, length,
}
use accelerometer_tcp_json_t.Prelude.Int.{ℤ, pos, negsuc}
use accelerometer_tcp_json_t.Prelude.Text.{has_newline}
use accelerometer_tcp_json_t.Doubles.{Doubles}
use accelerometer_tcp_json_t.Json.{Scalar, int, int64, double, string, Fields}

-- Whole numbers in the place of doubles.
abbrev pub whole : Doubles
whole = record {
  Double = ℕ;
  decimal = λ m e. m;
  of_uint64 = λ n. n;
  add = λ a b. a;
  mul = λ a b. a;
  div = λ a b. a;
  sqrt = λ a. a;
  sin = λ a. a;
  cos = λ a. a;
  llround = pos;
  IsFinite = λ a. Unit;
}

infixl 5 ◌>>=◌
abbrev ◌>>=◌ : {A B : Type 0} → Option A → (A → Option B) → Option B
none >>= f = none
some a >>= f = f a

-- A number is so many `s` and an `e`.
put_number : ℕ → String → String
put_number zero rest = "e" ++ rest
put_number (suc n) rest = "s" ++ put_number n rest

get_number : String → Option (ℕ × String)
get_number String.[] = none
get_number (String.◌∷◌ c s) =
    let more = get_number s in
    if code c == b's' then (more >>= λ r. some (suc r.0, r.1)) else some (zero, s)

get_number-put_number : (n : ℕ) (rest : String) → get_number (put_number n rest) ≡ some (n, rest)
unfolding get_number put_number
get_number-put_number zero rest = rw (cons-append, nil-append)
get_number-put_number (suc n) rest = rw (cons-append, nil-append, get_number-put_number n rest)

number_one_line : (n : ℕ) (rest : String) → has_newline (put_number n rest) ≡ has_newline rest
unfolding put_number has_newline
number_one_line zero rest = rw (cons-append, nil-append)
number_one_line (suc n) rest = rw (cons-append, nil-append) (number_one_line n rest)

-- A text is a `c` before each character, an `n` for each '\n', and an `e`.
put_text : String → String → String
put_text String.[] rest = "e" ++ rest
put_text (String.◌∷◌ c s) rest =
    let more = put_text s rest in if code c == b'\n' then "n" ++ more else ("c" ++ (c ∷ more))

-- The flag says that the next character stands for itself.
get_text : Bool → String → Option (String × String)
get_text b String.[] = none
get_text true (String.◌∷◌ c s) = get_text false s >>= λ r. some (c ∷ r.0, r.1)
get_text false (String.◌∷◌ t s) =
    let escaped = get_text false s in
    let plain = get_text true s in
    if code t == b'e'
    then some ("", s)
    else if code t == b'n'
    then (escaped >>= λ r. some ("\n" ++ r.0, r.1))
    else plain

get_text-put_text : (t rest : String) → get_text false (put_text t rest) ≡ some (t, rest)
unfolding get_text put_text
get_text-put_text String.[] rest = rw (cons-append, nil-append)
get_text-put_text (String.◌∷◌ c s) rest = elim (Bool-cases (code c == b'\n')) [
  | inl e ↦
      rw (e, cons-append, nil-append, get_text-put_text s rest, cons-append, nil-append)
        (ap (λ d. some (d ∷ s, rest)) (sym (Char-path c "\n" ((==_iff _ _).0 e))))
  | inr e ↦ rw (e, cons-append, nil-append, get_text-put_text s rest)
]

text_one_line : (t rest : String) → has_newline (put_text t rest) ≡ has_newline rest
unfolding put_text has_newline
text_one_line String.[] rest = rw (cons-append, nil-append)
text_one_line (String.◌∷◌ c s) rest = elim (Bool-cases (code c == b'\n')) [
  | inl e ↦ rw (e, cons-append, nil-append) (text_one_line s rest)
  | inr e ↦ rw (e, cons-append, nil-append, e) (text_one_line s rest)
]

put_integer : ℤ → String → String
put_integer (pos n) rest = "p" ++ put_number n rest
put_integer (negsuc n) rest = "m" ++ put_number n rest

get_integer : String → Option (ℤ × String)
get_integer String.[] = none
get_integer (String.◌∷◌ c s) =
    get_number s >>= λ r. some (if code c == b'p' then pos r.0 else negsuc r.0, r.1)

get_integer-put_integer :
    (z : ℤ) (rest : String) → get_integer (put_integer z rest) ≡ some (z, rest)
unfolding get_integer put_integer
get_integer-put_integer (pos n) rest = rw (cons-append, nil-append, get_number-put_number n rest)
get_integer-put_integer (negsuc n) rest = rw (cons-append, nil-append, get_number-put_number n rest)

integer_one_line : (z : ℤ) (rest : String) → has_newline (put_integer z rest) ≡ has_newline rest
unfolding put_integer has_newline
integer_one_line (pos n) rest = rw (cons-append, nil-append) (number_one_line n rest)
integer_one_line (negsuc n) rest = rw (cons-append, nil-append) (number_one_line n rest)

put_scalar : Scalar whole → String → String
put_scalar (int z) rest = "i" ++ put_integer z rest
put_scalar (int64 z) rest = "l" ++ put_integer z rest
put_scalar (double x) rest = "d" ++ put_number x rest
put_scalar (string t) rest = "t" ++ put_text t rest

get_scalar : String → Option (Scalar whole × String)
get_scalar String.[] = none
get_scalar (String.◌∷◌ c s) =
    if code c == b'i'
    then (get_integer s >>= λ r. some (int r.0, r.1))
    else if code c == b'l'
    then (get_integer s >>= λ r. some (int64 r.0, r.1))
    else if code c == b'd'
    then (get_number s >>= λ r. some (double r.0, r.1))
    else (get_text false s >>= λ r. some (string r.0, r.1))

get_scalar-put_scalar :
    (v : Scalar whole) (rest : String) → get_scalar (put_scalar v rest) ≡ some (v, rest)
unfolding get_scalar put_scalar
get_scalar-put_scalar (int z) rest = rw (cons-append, nil-append, get_integer-put_integer z rest)
get_scalar-put_scalar (int64 z) rest = rw (cons-append, nil-append, get_integer-put_integer z rest)
get_scalar-put_scalar (double x) rest = rw (cons-append, nil-append, get_number-put_number x rest)
get_scalar-put_scalar (string t) rest = rw (cons-append, nil-append, get_text-put_text t rest)

scalar_one_line :
    (v : Scalar whole) (rest : String) → has_newline (put_scalar v rest) ≡ has_newline rest
unfolding put_scalar has_newline
scalar_one_line (int z) rest = rw (cons-append, nil-append) (integer_one_line z rest)
scalar_one_line (int64 z) rest = rw (cons-append, nil-append) (integer_one_line z rest)
scalar_one_line (double x) rest = rw (cons-append, nil-append) (number_one_line x rest)
scalar_one_line (string t) rest = rw (cons-append, nil-append) (text_one_line t rest)

put_fields : Fields whole → String
put_fields List.[] = ""
put_fields (List.◌∷◌ (k, v) m) = put_text k (put_scalar v (put_fields m))

-- As many fields as the number says.
get_fields : ℕ → String → Option (Fields whole)
get_fields zero s = some List.[]
get_fields (suc n) s = get_text false s >>= λ r.
    get_scalar r.1 >>= λ q. get_fields n q.1 >>= λ m. some (List.◌∷◌ (r.0, q.0) m)

get_fields-put_fields : (m : Fields whole) → get_fields (length m) (put_fields m) ≡ some m
unfolding get_fields put_fields
get_fields-put_fields List.[] = refl
get_fields-put_fields (List.◌∷◌ (k, v) m) =
    rw (get_text-put_text k, get_scalar-put_scalar v, get_fields-put_fields m)

fields_one_line : (m : Fields whole) → has_newline (put_fields m) ≡ false
unfolding put_fields has_newline
fields_one_line List.[] = refl
fields_one_line (List.◌∷◌ (k, v) m) = text_one_line k _ ∙ scalar_one_line v _ ∙ fields_one_line m

unfoldable pub encode : Fields whole → String
unfolding put_number put_fields put_text put_scalar put_integer
encode m = put_number (length m) (put_fields m)

unfoldable pub decode : String → Option (Fields whole)
unfolding get_number get_fields get_text get_scalar get_integer
decode s = get_number s >>= λ r. get_fields r.0 r.1

pub decode-encode : (m : Fields whole) → decode (encode m) ≡ some m
unfolding decode encode
decode-encode m = rw (get_number-put_number (length m), get_fields-put_fields m)

pub encode_one_line : (m : Fields whole) → has_newline (encode m) ≡ false
unfolding encode
encode_one_line m = number_one_line (length m) _ ∙ fields_one_line m
