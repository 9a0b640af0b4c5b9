-- ===== src/NodeA/Modules.antt =====
-- What Node A writes to its file for one line that it has read.
use mathlib.Core.List as Lists
use accelerometer_tcp_json_t.Prelude.{
  ◌%◌, ◌^◌, ◌==◌, ◌≡◌, refl, ap, sym, ◌∙◌, String, List, [], ◌∷◌, ◌++◌, Bool-cases, inl, inr,
  length, length-append, arith,
}
use accelerometer_tcp_json_t.Prelude.Int.{next64}
use accelerometer_tcp_json_t.Prelude.Text.{str_eq, eq_iff}
use accelerometer_tcp_json_t.Doubles.{Doubles}
use accelerometer_tcp_json_t.Json.{Json, IsLawful}
use accelerometer_tcp_json_t.Packet.{AccelModule}
use accelerometer_tcp_json_t.Protocol.{
  Result, Result-cases, Result-inj, ◌>>=◌, k_type_module, get_message_type, parse_json_line,
  parse_accel_module, module_type,
}
use accelerometer_tcp_json_t.NodeA.State.{NodeA, Notice}
use accelerometer_tcp_json_t.NodeA.Defs.{say, log_module, take_json, handle_text}

module _ {D : Doubles} (J : Json D) where
  -- The modules that a line is worth: one, if it is a module message.
  abbrev pub module_of : Result (AccelModule D) → List (AccelModule D)
  module_of (Result.failure e) = []
  module_of (Result.success m) = m ∷ []

  abbrev pub module_in : String → List (AccelModule D)
  module_in line = module_of (parse_json_line J line >>= parse_accel_module J)

  abbrev pub modules_in : List String → List (AccelModule D)
  modules_in [] = []
  modules_in (line ∷ lines) = module_in line ++ modules_in lines

  pub modules_in-append :
      (xs ys : List String) → modules_in (xs ++ ys) ≡ modules_in xs ++ modules_in ys
  modules_in-append [] ys = refl
  modules_in-append (x ∷ xs) ys =
      ap (λ l. module_in x ++ l) (modules_in-append xs ys)
      ∙ sym (Lists.append_assoc (module_in x) (modules_in xs) (modules_in ys))

  -- So many modules were written, and counted; the buffer and the bytes are as they were.
  pub record Wrote (n u : NodeA D) (more : List (AccelModule D)) : Type 0 where
    pub written : u.module_log ≡ n.module_log ++ more
    pub counted :
        n.received_modules_count ≡ length n.module_log % 2 ^ 64
        → u.received_modules_count ≡ length u.module_log % 2 ^ 64
    pub input_buf : u.client.input_buf ≡ n.client.input_buf
    pub bytes : u.bytes ≡ n.bytes

  say-Wrote : (n : NodeA D) (x : Notice D) → Wrote n (say n x) []
  say-Wrote n x = record {
    written = sym (Lists.append-nil n.module_log);
    counted = λ h. h;
    input_buf = refl;
    bytes = refl;
  }

  log_module-Wrote : (n : NodeA D) (m : AccelModule D) → Wrote n (log_module n m) (m ∷ [])
  unfolding log_module
  log_module-Wrote n m = elim (Bool-cases (next64 n.received_modules_count % 50 == 0)) [
    | inl z ↦ rw z (record { written = refl; counted = more; input_buf = refl; bytes = refl })
    | inr z ↦ rw z (record { written = refl; counted = more; input_buf = refl; bytes = refl })
  ]
    where
      more :
          n.received_modules_count ≡ length n.module_log % 2 ^ 64
          → next64 n.received_modules_count ≡ length (n.module_log ++ (m ∷ [])) % 2 ^ 64
      more h = omega (arith, length-append n.module_log (m ∷ []))

  module _ (L : IsLawful J) where
    take_json-Wrote :
        (n : NodeA D) (v : J.Value) (type : String)
        → get_message_type J v ≡ Result.success type
        → Wrote n (take_json J n v type) (module_of (parse_accel_module J v))
    unfolding take_json
    take_json-Wrote n v type t = elim (Result-cases (parse_accel_module J v)) [
      | inl (e, f) ↦ elim (Bool-cases (str_eq type k_type_module)) [
        | inl g ↦ rw (f, g) (say-Wrote n _)
        | inr g ↦ rw (f, g) (say-Wrote n _)
      ]
      | inr (m, f) ↦
          let same : type ≡ k_type_module = Result-inj (sym t ∙ module_type J L v m f) in
          rw (f, (eq_iff type k_type_module).1 same) (log_module-Wrote n m)
    ]

    pub handle_text-Wrote :
        (n : NodeA D) (line : String) → Wrote n (handle_text J n line) (module_in line)
    unfolding handle_text
    handle_text-Wrote n line = elim (Result-cases (parse_json_line J line)) [
      | inl (e, f) ↦ rw (f, handle_text) (say-Wrote n _)
      | inr (v, f) ↦ elim (Result-cases (get_message_type J v)) [
        | inl (e, t) ↦ elim (Result-cases (parse_accel_module J v)) [
          | inl (_, g) ↦ rw (f, t, g, handle_text) (say-Wrote n _)
          | inr (m, g) ↦ cc (t, module_type J L v m g)
        ]
        | inr (type, t) ↦ rw (f, t, handle_text) (take_json-Wrote n v type t)
      ]
    ]
