-- ===== src/Protocol/Fields.antt =====
-- What each field reader accepts, and what it reads from a message that presents its fields.
use accelerometer_tcp_json_t.Prelude.{◌≡◌, ◌↔◌, ◌∙◌, sym, true, String, some, arith}
use accelerometer_tcp_json_t.Prelude.Int.{ℤ, eq_ℤ_iff, to_int32}
use accelerometer_tcp_json_t.Prelude.Text.{eq_iff}
use accelerometer_tcp_json_t.Doubles.{Doubles}
use accelerometer_tcp_json_t.Json.{
  Json, IsLawful, Presents, Fields, lookup, Scalar, int, int64, double, string,
}
use accelerometer_tcp_json_t.Protocol.Defs.{
  Status, Result, require_field, get_int64_field, get_double_field, get_string_field,
  k_protocol_version,
}
use accelerometer_tcp_json_t.Protocol.Messages.{
  validate_protocol_version, validate_message_type, get_message_type,
}

module _ {D : Doubles} (J : Json D) where
  -- The value is an object with this field.
  pub record HasField (v : J.Value) (k : String) : Type 0 where
    pub an_object : J.is_object v ≡ true
    pub present : J.contains v k ≡ true

  pub record Int64Field (v : J.Value) (k : String) (z : ℤ) : Type 0 where
    pub has : HasField v k
    pub kind : J.is_number_integer (J.at v k) ≡ true
    pub reads : J.get_int64 (J.at v k) ≡ z

  pub record DoubleField (v : J.Value) (k : String) (x : D.Double) : Type 0 where
    pub has : HasField v k
    pub kind : J.is_number (J.at v k) ≡ true
    pub reads : J.get_double (J.at v k) ≡ x

  pub record StringField (v : J.Value) (k : String) (s : String) : Type 0 where
    pub has : HasField v k
    pub kind : J.is_string (J.at v k) ≡ true
    pub reads : J.get_string (J.at v k) ≡ s

  -- An integer whose low 32 bits are the version.
  pub record VersionField (v : J.Value) : Type 0 where
    pub has : HasField v "version"
    pub kind : J.is_number_integer (J.at v "version") ≡ true
    pub reads : to_int32 (J.get_int64 (J.at v "version")) ≡ k_protocol_version

  require_field_iff :
      (v : J.Value) (k : String) → (require_field J v k ≡ Status.success) ↔ HasField v k
  unfolding require_field
  require_field_iff v k = ground arith

  pub get_double_field_iff :
      (v : J.Value) (k : String) (x : D.Double)
      → (get_double_field J v k ≡ Result.success x) ↔ DoubleField v k x
  unfolding get_double_field
  get_double_field_iff v k x = ground (arith, require_field_iff v k)

  pub get_string_field_iff :
      (v : J.Value) (k : String) (s : String)
      → (get_string_field J v k ≡ Result.success s) ↔ StringField v k s
  unfolding get_string_field
  get_string_field_iff v k s = ground (arith, require_field_iff v k)

  pub validate_message_type_iff :
      (v : J.Value) (t : String)
      → (validate_message_type J v t ≡ Status.success) ↔ StringField v "type" t
  unfolding validate_message_type get_message_type get_string_field
  validate_message_type_iff v t =
      ground (arith, require_field_iff v "type", eq_iff (J.get_string (J.at v "type")) t)

  module _ (L : IsLawful J) where
    pub get_int64_field_iff :
        (v : J.Value) (k : String) (z : ℤ)
        → (get_int64_field J v k ≡ Result.success z) ↔ Int64Field v k z
    unfolding get_int64_field
    get_int64_field_iff v k z =
        ground (arith, require_field_iff v k, L.unsigned_is_integer (J.at v k))

    -- ValidateProtocolVersion succeeds exactly when the value is an object with an integer version
    -- whose low 32 bits, read as an int, are the protocol version.
    pub validate_protocol_version_iff :
        (v : J.Value) → (validate_protocol_version J v ≡ Status.success) ↔ VersionField v
    unfolding validate_protocol_version
    validate_protocol_version_iff v = ground (
      arith,
      require_field_iff v "version",
      L.unsigned_is_integer (J.at v "version"),
      L.get_int_narrows (J.at v "version"),
      eq_ℤ_iff (J.get_int (J.at v "version")) k_protocol_version,
    )

  -- A value that presents these fields has them.
  module _ {v : J.Value} {m : Fields D} (P : Presents J v m) (k : String) where
    Presents-HasField : (s : Scalar D) → lookup k m ≡ some s → HasField v k
    Presents-HasField s e = record { an_object = P.an_object; present = P.present k s e }

    pub Presents-Int64Field : (z : ℤ) → lookup k m ≡ some (int64 z) → Int64Field v k z
    Presents-Int64Field z e = record {
      has = Presents-HasField (int64 z) e;
      kind = (P.readable k (int64 z) e).0;
      reads = (P.readable k (int64 z) e).1;
    }

    pub Presents-DoubleField : (x : D.Double) → lookup k m ≡ some (double x) → DoubleField v k x
    Presents-DoubleField x e = record {
      has = Presents-HasField (double x) e;
      kind = (P.readable k (double x) e).0;
      reads = (P.readable k (double x) e).1;
    }

    pub Presents-StringField : (s : String) → lookup k m ≡ some (string s) → StringField v k s
    Presents-StringField s e = record {
      has = Presents-HasField (string s) e;
      kind = (P.readable k (string s) e).0;
      reads = (P.readable k (string s) e).1;
    }

  pub Presents-VersionField :
      IsLawful J
      → {v : J.Value} {m : Fields D} → Presents J v m
      → lookup "version" m ≡ some (int k_protocol_version)
      → VersionField v
  Presents-VersionField L {v} P e = record {
    has = Presents-HasField P "version" (int k_protocol_version) e;
    kind = (P.readable "version" (int k_protocol_version) e).0;
    reads =
        sym
          (L.get_int_narrows (J.at v "version") (P.readable "version" (int k_protocol_version) e).0)
        ∙ (P.readable "version" (int k_protocol_version) e).1;
  }
