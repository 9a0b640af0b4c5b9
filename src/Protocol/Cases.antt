-- ===== src/Protocol/Cases.antt =====
-- How a result came out.
use accelerometer_tcp_json_t.Prelude.{◌≡◌, refl, ◌⊎◌, inl, inr, String}
use accelerometer_tcp_json_t.Protocol.Defs.{Result}

pub Result-cases :
    {A : Type 0} (r : Result A)
    → ((e : String) × (r ≡ Result.failure e)) ⊎ ((a : A) × (r ≡ Result.success a))
Result-cases (Result.failure e) = inl (e, refl)
Result-cases (Result.success a) = inr (a, refl)

pub Result-inj : {A : Type 0} {a b : A} → Result.success a ≡ Result.success b → a ≡ b
Result-inj e = cc
