-- ===== src/Json/Lookup.antt =====
-- Association lists by text, as far as message fields need them.
use accelerometer_tcp_json_t.Prelude.{
  ◌≡◌, Bool, true, false, String, List, [], ◌∷◌, Option, none, some, if◌then◌else◌, Bool-cases, inl,
  inr, subst,
}
use accelerometer_tcp_json_t.Prelude.Text.{str_eq}

module _ {ℓ} {A : Type ℓ} where
  abbrev pub lookup : String → List (String × A) → Option A
  lookup k [] = none
  lookup k ((j, a) ∷ m) = if str_eq j k then some a else lookup k m

  abbrev pub has_key : String → List (String × A) → Bool
  has_key k [] = false
  has_key k ((j, a) ∷ m) = if str_eq j k then true else has_key k m

  abbrev pub IsDistinct : List (String × A) → Type 0
  IsDistinct [] = Unit
  IsDistinct ((j, a) ∷ m) = (has_key j m ≡ false) × IsDistinct m

  abbrev pub AllFields : (A → Type 0) → List (String × A) → Type 0
  AllFields P [] = Unit
  AllFields P ((j, a) ∷ m) = P a × AllFields P m

  -- A field that is found has what all fields have.
  pub lookup-AllFields :
      (P : A → Type 0) (k : String) (m : List (String × A)) (a : A)
      → AllFields P m
      → lookup k m ≡ some a
      → P a
  lookup-AllFields P k [] a h e = cc
  lookup-AllFields P k ((j, b) ∷ m) a h e = elim (Bool-cases (str_eq j k)) [
    | inl f ↦ let q : b ≡ a = cc (rw f at e) in subst P q h.0
    | inr f ↦ lookup-AllFields P k m a h.1 (rw f at e)
  ]
