-- ===== src/Wire/Ipfix/Bytes.antt =====
-- The bytes of a IPFIX message, part by part.
use otelcol_exporter_netflow.Common.{
  ℕ, ◌+◌, ◌%◌, ◌^◌, ◌≡◌, ◌≢◌, refl, ap, sym, length-append, Bool, true, false, List, [], ◌∷◌, ◌++◌,
  length, some, if◌then◌else◌, Bool-cases, inl, inr, arith, ◌∙◌,
}
use otelcol_exporter_netflow.Common.BigEndian.{u16_bytes, u32_bytes, u64_bytes}
use otelcol_exporter_netflow.Common.Int.{ℤ, pos, ltb as ltz}
use otelcol_exporter_netflow.Common.Result.{ok}
use otelcol_exporter_netflow.Wire.Model.{
  v5, ipfix, same_protocol, Protocol, Value, WireRecord, FieldDescriptor, DescriptorEncoding,
  unspecified, unsigned8, unsigned16, unsigned32, unsigned64, signed8, signed16, signed32, signed64,
  ipv4_address, ipv6_address, mac_address, octet_array, string, date_time_nanoseconds,
  date_time_milliseconds, byte_len,
}
use otelcol_exporter_netflow.Wire.Descriptors.{is_listed_encoding, natural_encoding_length}
use otelcol_exporter_netflow.Wire.Widths.{
  value_length, fits_encoding, content_length, variable_length,
}
use otelcol_exporter_netflow.Wire.Widths.Facts.{
  validate_descriptor-IsValid, natural-eq-length, is_listed, constant_is_v5, value_length-fixed,
  byte_len_of, value_length-variable, content_length-text, content_length-octets,
  variable_length-pos,
}
use otelcol_exporter_netflow.Wire.Values.{validate_value}
use otelcol_exporter_netflow.Wire.Shapes.{Shape}
use otelcol_exporter_netflow.Wire.Cursor.{put8, put16, ◌>>◌, put_string, skip}
use otelcol_exporter_netflow.Wire.Cursor.Writes.{
  Writes, Writes-skip, Writes-then, Writes-put8, Writes-put16, Writes-put32, Writes-put64,
  Writes-put_copy, Writes-put_string,
}
use otelcol_exporter_netflow.Wire.Encode.{value_uint, value_at, signed_word, as_4, as_16, array}
use otelcol_exporter_netflow.Wire.Encode.Bytes.{
  length-array, length-as_4, length-as_16, octets_of, length-octets_of, Writes-put_octets,
}
use otelcol_exporter_netflow.Wire.Encode.Fields.{fields_bytes, Sound}
use otelcol_exporter_netflow.Wire.Ipfix.Time.{ntp_timestamp, unix_milliseconds}
use otelcol_exporter_netflow.Wire.Ipfix.Emit.{
  write_encoded, write_value, write_fields, write_data_record, write_length, write_string,
  write_octets, or_zero,
}

-- The length in front of a variable value.
abbrev pub length_bytes : ℤ → List ℕ
length_bytes n =
    if ltz n (pos 255) then signed_word 8 n ∷ [] else 255 ∷ u16_bytes (signed_word 16 n)

abbrev pub string_bytes : FieldDescriptor → Value → List ℕ
string_bytes d v = if d.variable then length_bytes (pos (length v.text)) ++ v.text else v.text

abbrev pub octets_bytes : FieldDescriptor → Value → List ℕ
octets_bytes d v = (if d.variable then length_bytes (byte_len v) else []) ++ octets_of v

abbrev pub encoded_bytes : FieldDescriptor → DescriptorEncoding → Value → List ℕ
encoded_bytes d unsigned8 v = value_uint v % 2 ^ 8 ∷ []
encoded_bytes d unsigned16 v = u16_bytes (value_uint v % 2 ^ 16)
encoded_bytes d unsigned32 v = u32_bytes (value_uint v % 2 ^ 32)
encoded_bytes d unsigned64 v = u64_bytes (value_uint v)
encoded_bytes d signed8 v = signed_word 8 v.int_value ∷ []
encoded_bytes d signed16 v = u16_bytes (signed_word 16 v.int_value)
encoded_bytes d signed32 v = u32_bytes (signed_word 32 v.int_value)
encoded_bytes d signed64 v = u64_bytes (signed_word 64 v.int_value)
encoded_bytes d ipv4_address v = as_4 v.ip
encoded_bytes d ipv6_address v = as_16 v.ip
encoded_bytes d mac_address v = array 6 v.mac
encoded_bytes d string v = string_bytes d v
encoded_bytes d octet_array v = octets_bytes d v
encoded_bytes d date_time_nanoseconds v = u64_bytes (or_zero (ntp_timestamp v.uint_value))
encoded_bytes d date_time_milliseconds v = u64_bytes (or_zero (unix_milliseconds v.uint_value))
encoded_bytes d other v = []

unfoldable pub value_bytes : FieldDescriptor → Value → List ℕ
value_bytes d v = encoded_bytes d d.encoding v

Writes-write_length : (n : ℤ) → Writes (write_length n) (length_bytes n)
unfolding write_length
Writes-write_length n = by_size (ltz n (pos 255))
  where
    by_size :
        (b : Bool)
        → Writes
            (if b then put8 (signed_word 8 n) else (put8 255 >> put16 (signed_word 16 n)))
            (if b then signed_word 8 n ∷ [] else 255 ∷ u16_bytes (signed_word 16 n))
    by_size true = Writes-put8 _
    by_size false = Writes-then (Writes-put8 255) (Writes-put16 _)

Writes-write_string :
    (d : FieldDescriptor) (v : Value) → Writes (write_string d v) (string_bytes d v)
unfolding write_string
Writes-write_string d v = by_form d.variable
  where
    by_form :
        (b : Bool)
        → Writes
            (if b
              then write_length (pos (length v.text)) >> put_string v.text
              else put_string v.text)
            (if b then length_bytes (pos (length v.text)) ++ v.text else v.text)
    by_form true =
        Writes-then (Writes-write_length (pos (length v.text))) (Writes-put_string v.text)
    by_form false = Writes-put_string v.text

Writes-write_octets :
    (d : FieldDescriptor) (v : Value) → Writes (write_octets d v) (octets_bytes d v)
unfolding write_octets
Writes-write_octets d v = Writes-then (by_form d.variable) (Writes-put_octets v)
  where
    by_form :
        (b : Bool)
        → Writes
            (if b then write_length (byte_len v) else skip)
            (if b then length_bytes (byte_len v) else [])
    by_form true = Writes-write_length (byte_len v)
    by_form false = Writes-skip

Writes-write_encoded :
    (d : FieldDescriptor) (e : DescriptorEncoding) (v : Value)
    → Writes (write_encoded d e v) (encoded_bytes d e v)
unfolding write_encoded
Writes-write_encoded d unsigned8 v = Writes-put8 _
Writes-write_encoded d unsigned16 v = Writes-put16 _
Writes-write_encoded d unsigned32 v = Writes-put32 _
Writes-write_encoded d unsigned64 v = Writes-put64 _
Writes-write_encoded d signed8 v = Writes-put8 _
Writes-write_encoded d signed16 v = Writes-put16 _
Writes-write_encoded d signed32 v = Writes-put32 _
Writes-write_encoded d signed64 v = Writes-put64 _
Writes-write_encoded d ipv4_address v = Writes-put_copy _
Writes-write_encoded d ipv6_address v = Writes-put_copy _
Writes-write_encoded d mac_address v = Writes-put_copy _
Writes-write_encoded d string v = Writes-write_string d v
Writes-write_encoded d octet_array v = Writes-write_octets d v
Writes-write_encoded d unspecified v = Writes-skip
Writes-write_encoded d date_time_nanoseconds v = Writes-put64 _
Writes-write_encoded d date_time_milliseconds v = Writes-put64 _
Writes-write_encoded d DescriptorEncoding.unlisted v = Writes-skip

pub Writes-write_value :
    (d : FieldDescriptor) (v : Value) → Writes (write_value d v) (value_bytes d v)
unfolding write_value value_bytes
Writes-write_value d v = Writes-write_encoded d d.encoding v

Writes-write_fields :
    (r : WireRecord) (i : ℕ) (ds : List FieldDescriptor)
    → Writes (write_fields r i ds) (fields_bytes value_bytes r i ds)
unfolding write_fields
Writes-write_fields r i [] = Writes-skip
Writes-write_fields r i (d ∷ ds) =
    Writes-then (Writes-write_value d (value_at r i)) (Writes-write_fields r (i + 1) ds)

abbrev pub record_bytes : Shape → WireRecord → List ℕ
record_bytes s r = fields_bytes value_bytes r 0 s.fields

pub Writes-write_data_record :
    (s : Shape) (r : WireRecord) → Writes (write_data_record s r) (record_bytes s r)
unfolding write_data_record
Writes-write_data_record s r = Writes-write_fields r 0 s.fields

-- The bytes of a value of fixed width that fits its encoding.
length-encoded_bytes :
    (e : DescriptorEncoding) (d : FieldDescriptor) (v : Value)
    → d.variable ≡ false
    → fits_encoding d v e ≡ some true
    → (natural_encoding_length e ≢ 0 → natural_encoding_length e ≡ d.length)
    → is_listed_encoding e ≡ true
    → length (encoded_bytes d e v) ≡ d.length
unfolding fits_encoding is_listed_encoding
length-encoded_bytes unsigned8 d v x f w l = w (λ z. absurd (omega (arith, z)))
length-encoded_bytes unsigned16 d v x f w l = w (λ z. absurd (omega (arith, z)))
length-encoded_bytes unsigned32 d v x f w l = w (λ z. absurd (omega (arith, z)))
length-encoded_bytes unsigned64 d v x f w l = w (λ z. absurd (omega (arith, z)))
length-encoded_bytes signed8 d v x f w l = w (λ z. absurd (omega (arith, z)))
length-encoded_bytes signed16 d v x f w l = w (λ z. absurd (omega (arith, z)))
length-encoded_bytes signed32 d v x f w l = w (λ z. absurd (omega (arith, z)))
length-encoded_bytes signed64 d v x f w l = w (λ z. absurd (omega (arith, z)))
length-encoded_bytes date_time_nanoseconds d v x f w l = w (λ z. absurd (omega (arith, z)))
length-encoded_bytes date_time_milliseconds d v x f w l = w (λ z. absurd (omega (arith, z)))
length-encoded_bytes ipv4_address d v x f w l =
    length-as_4 v.ip ∙ w (λ z. absurd (omega (arith, z)))
length-encoded_bytes ipv6_address d v x f w l =
    length-as_16 v.ip ∙ w (λ z. absurd (omega (arith, z)))
length-encoded_bytes mac_address d v x f w l =
    length-array 6 v.mac ∙ w (λ z. absurd (omega (arith, z)))
length-encoded_bytes string d v x f w l =
    ap (λ b. length (if b then length_bytes (pos (length v.text)) ++ v.text else v.text)) x
    ∙ ground arith
length-encoded_bytes octet_array d v x f w l =
    ap (λ b. length ((if b then length_bytes (byte_len v) else []) ++ octets_of v)) x
    ∙ length-octets_of v d.length (byte_len_of (byte_len v) d.length (ground arith))
length-encoded_bytes unspecified d v x f w l = cc
length-encoded_bytes DescriptorEncoding.unlisted d v x f w l = cc

length-length_bytes :
    (k : ℕ) → length (length_bytes (pos k)) ≡ (if ltz (pos k) (pos 255) then 1 else 3)
length-length_bytes k = by_size (ltz (pos k) (pos 255))
  where
    by_size :
        (b : Bool)
        → length
            (if b then signed_word 8 (pos k) ∷ [] else 255 ∷ u16_bytes (signed_word 16 (pos k)))
          ≡ (if b then 1 else 3)
    by_size true = refl
    by_size false = refl

-- The bytes of a variable value, with its length in front.
length-variable_bytes :
    (e : DescriptorEncoding) (d : FieldDescriptor) (v : Value) (z : ℤ) (n : ℕ)
    → d.variable ≡ true
    → validate_value v ≡ ok tt
    → content_length d v e ≡ ok z
    → variable_length d z ≡ ok n
    → length (encoded_bytes d e v) ≡ n
unfolding content_length
length-variable_bytes string d v z n x valid c w =
    let k : ℕ = length v.text in
    ap (λ b. length (if b then length_bytes (pos (length v.text)) ++ v.text else v.text)) x
    ∙ omega (
      arith,
      length-append (length_bytes (pos k)) v.text,
      length-length_bytes k,
      variable_length-pos d k n (sym (ap (variable_length d) (content_length-text d v z c)) ∙ w),
    )
length-variable_bytes octet_array d v z n x valid c w =
    let (k, e, e') = content_length-octets d v z valid c in
    ap (λ b. length ((if b then length_bytes (byte_len v) else []) ++ octets_of v)) x
    ∙ omega (
      arith,
      length-append (length_bytes (byte_len v)) (octets_of v),
      ap (λ y. length (length_bytes y)) e',
      length-length_bytes k,
      length-octets_of v k e',
      variable_length-pos d k n (sym (ap (variable_length d) e) ∙ w),
    )
length-variable_bytes unsigned8 d v z n x valid c w = cc
length-variable_bytes unsigned16 d v z n x valid c w = cc
length-variable_bytes unsigned32 d v z n x valid c w = cc
length-variable_bytes unsigned64 d v z n x valid c w = cc
length-variable_bytes signed8 d v z n x valid c w = cc
length-variable_bytes signed16 d v z n x valid c w = cc
length-variable_bytes signed32 d v z n x valid c w = cc
length-variable_bytes signed64 d v z n x valid c w = cc
length-variable_bytes date_time_nanoseconds d v z n x valid c w = cc
length-variable_bytes date_time_milliseconds d v z n x valid c w = cc
length-variable_bytes ipv4_address d v z n x valid c w = cc
length-variable_bytes ipv6_address d v z n x valid c w = cc
length-variable_bytes mac_address d v z n x valid c w = cc
length-variable_bytes unspecified d v z n x valid c w = cc
length-variable_bytes DescriptorEncoding.unlisted d v z n x valid c w = cc

-- A descriptor that the IPFIX writer takes.
abbrev pub Bound : FieldDescriptor → Type 0
Bound d = Sound ipfix d

pub not_v5 : (p : Protocol) → same_protocol p ipfix ≡ true → same_protocol p v5 ≡ false
not_v5 p e = ground arith

-- The writer puts as many bytes as ValueLength counts.
pub length-value_bytes :
    (d : FieldDescriptor) (v : Value) (n : ℕ)
    → Bound d
    → value_length d v ≡ ok n
    → length (value_bytes d v) ≡ n
unfolding value_bytes
length-value_bytes d v n (valid, same) h =
    let parts = validate_descriptor-IsValid d valid in
    let not_constant = constant_is_v5 d parts.source (not_v5 d.protocol same) in
    elim (Bool-cases d.variable) [
      | inl variable ↦
          let (z, value, content, width) = value_length-variable d v n h not_constant variable in
          length-variable_bytes d.encoding d v z n variable value content width
      | inr fixed ↦
          let (_, fits, exact) = value_length-fixed d v n h not_constant fixed in
          length-encoded_bytes d.encoding d v fixed fits (natural-eq-length d parts.widths fixed)
            (is_listed d parts.encoding)
          ∙ sym exact
    ]
