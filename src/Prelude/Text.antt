-- ===== src/Prelude/Text.antt =====
-- `std::string`: its last character, `push_back`, `pop_back`, `std::getline` over a buffer, and
-- `std::to_string` of an `int`.
use Prim.Native.Nat.{ℕ, zero, suc, ◌/◌, ◌%◌}
use Prim.Native.Char.{code}
use Prim.Native.String.{String, ◌∷◌, ◌++◌}
use mathlib.Core.Path.{◌≡◌, refl, ap}
use mathlib.Core.Bool.{Bool, true, false}
use mathlib.Core.Logic.{inl, inr, ◌↔◌}
use native.Mathlib.Omega.{arith}
use text.Mathlib.TextLemmas.{nil-append, cons-append}
use text.Mathlib.TextEquality.{Char-path}
use accelerometer_tcp_json_t.Prelude.Tests.{ltb, ◌==◌, ==_iff, Bool-cases, if◌then◌else◌}
use accelerometer_tcp_json_t.Prelude.Int.{ℤ, pos, negsuc}
pub use Prim.Native.String.{◌++◌ as ◌<>◌}
pub use text.Mathlib.Text.{◌==◌ as str_eq}
pub use text.Mathlib.TextEquality.{eq_iff}
pub use text.Mathlib.TextPositions.{eq_refl}

-- s.empty()
abbrev pub is_empty : String → Bool
is_empty String.[] = true
is_empty (String.◌∷◌ c s) = false

pub is_empty_iff : (s : String) → (is_empty s ≡ true) ↔ (s ≡ "")
is_empty_iff String.[] = ((λ h. refl), (λ h. refl))
is_empty_iff (String.◌∷◌ c s) = ((λ h. cc), (λ h. cc))

-- !s.empty() && s.back() == c, for a character of code c.
unfoldable pub back_is : ℕ → String → Bool
back_is b String.[] = false
back_is b (String.◌∷◌ c String.[]) = code c == b
back_is b (String.◌∷◌ c (String.◌∷◌ d s)) = back_is b (d ∷ s)

-- s.pop_back(), which the program calls on texts that are not empty.
unfoldable pub pop_back : String → String
pop_back String.[] = ""
pop_back (String.◌∷◌ c String.[]) = ""
pop_back (String.◌∷◌ c (String.◌∷◌ d s)) = c ∷ pop_back (d ∷ s)

-- Whether '\n' stands in the text: what `read_until` waits for.
unfoldable pub has_newline : String → Bool
has_newline String.[] = false
has_newline (String.◌∷◌ c s) = if code c == b'\n' then true else has_newline s

-- std::getline: the line without its '\n', and what is left of the buffer.
unfoldable pub getline : String → String × String
getline String.[] = ("", "")
getline (String.◌∷◌ c s) =
    let rest = getline s in if code c == b'\n' then ("", s) else (c ∷ rest.0, rest.1)

-- std::to_string of an `int`; the fuel is the number itself, which its digits never exceed.
digit : ℕ → String
digit d =
    if d == 0
    then "0"
    else if d == 1
    then "1"
    else if d == 2
    then "2"
    else if d == 3
    then "3"
    else if d == 4
    then "4"
    else if d == 5
    then "5"
    else if d == 6
    then "6"
    else if d == 7
    then "7"
    else if d == 8
    then "8"
    else "9"

digits : ℕ → ℕ → String
digits zero n = digit (n % 10)
digits (suc f) n =
    let more = digits f (n / 10) in if ltb n 10 then digit n else (more ++ digit (n % 10))

unfoldable pub to_string : ℤ → String
unfolding digits digit
to_string (pos n) = digits n n
to_string (negsuc n) = "-" ++ digits (suc n) (suc n)

to_string_test : to_string (negsuc 2046) ≡ "-2047"
unfolding to_string
to_string_test = refl

pub getline-append :
    (l rest : String) → has_newline l ≡ false → getline (l ++ ("\n" ++ rest)) ≡ (l, rest)
unfolding getline has_newline
getline-append String.[] rest h = rw (nil-append, cons-append, nil-append) refl
getline-append (String.◌∷◌ c l) rest h = rw cons-append (ground (arith, getline-append l rest))

-- A buffer in which `read_until` has found its '\n' is the line, the '\n' and the rest.
pub getline_splits :
    (b : String)
    → has_newline b ≡ true
    → (b ≡ (getline b).0 ++ ("\n" ++ (getline b).1)) × (has_newline (getline b).0 ≡ false)
unfolding getline has_newline
getline_splits String.[] h = cc
getline_splits (String.◌∷◌ c s) h = elim (Bool-cases (code c == b'\n')) [
  | inl e ↦
      rw (e, nil-append, cons-append, nil-append)
        (ap (λ d. d ∷ s) (Char-path c "\n" ((==_iff _ _).0 e)), refl)
  | inr e ↦
      let ih = getline_splits s (rw e at h) in rw (e, cons-append) (ap (λ t. c ∷ t) ih.0, rw e ih.1)
]
