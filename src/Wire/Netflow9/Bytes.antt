-- ===== src/Wire/Netflow9/Bytes.antt =====
-- The bytes of a NetFlow v9 message, part by part.
use otelcol_exporter_netflow.Common.{
  ℕ, ◌+◌, ◌%◌, ◌^◌, ◌≡◌, ◌≢◌, Bool, true, false, List, [], ◌∷◌, length, some, if◌then◌else◌,
  Bool-cases, inl, inr, arith, ◌∙◌,
}
use otelcol_exporter_netflow.Common.BigEndian.{u16_bytes, u32_bytes, u64_bytes}
use otelcol_exporter_netflow.Common.Result.{ok}
use otelcol_exporter_netflow.Wire.Model.{
  v9, v5, ipfix, same_protocol, Protocol, same_encoding, Value, WireRecord, FieldDescriptor,
  DescriptorEncoding, unspecified, unsigned8, unsigned16, unsigned32, unsigned64, signed8, signed16,
  signed32, signed64, ipv4_address, ipv6_address, mac_address, octet_array, string,
  date_time_nanoseconds, date_time_milliseconds, byte_len,
}
use otelcol_exporter_netflow.Wire.Descriptors.{is_listed_encoding, natural_encoding_length}
use otelcol_exporter_netflow.Wire.Widths.{value_length, fits_encoding}
use otelcol_exporter_netflow.Wire.Widths.Facts.{
  validate_descriptor-IsValid, natural-eq-length, is_listed, no_date_time, v9_is_fixed,
  constant_is_v5, value_length-fixed, byte_len_of,
}
use otelcol_exporter_netflow.Wire.Shapes.{Shape}
use otelcol_exporter_netflow.Wire.Cursor.{put32}
use otelcol_exporter_netflow.Wire.Cursor.Writes.{
  Writes, Writes-skip, Writes-then, Writes-put8, Writes-put16, Writes-put32, Writes-put64,
  Writes-put_copy, Writes-put_string,
}
use otelcol_exporter_netflow.Wire.Encode.{
  elapsed_milliseconds, value_uint, value_at, signed_word, as_4, as_16, array,
}
use otelcol_exporter_netflow.Wire.Encode.Bytes.{
  length-array, length-as_4, length-as_16, octets_of, length-octets_of, Writes-put_octets,
}
use otelcol_exporter_netflow.Wire.Encode.Fields.{fields_bytes, Sound}
use otelcol_exporter_netflow.Wire.Netflow9.{validate_binding}
use otelcol_exporter_netflow.Wire.Netflow9.Emit.{
  write_encoded, write_value, write_fields, write_data_record, is_flow_time,
}

abbrev pub encoded_bytes : DescriptorEncoding → Value → List ℕ
encoded_bytes unsigned8 v = value_uint v % 2 ^ 8 ∷ []
encoded_bytes unsigned16 v = u16_bytes (value_uint v % 2 ^ 16)
encoded_bytes unsigned32 v = u32_bytes (value_uint v % 2 ^ 32)
encoded_bytes unsigned64 v = u64_bytes (value_uint v)
encoded_bytes signed8 v = signed_word 8 v.int_value ∷ []
encoded_bytes signed16 v = u16_bytes (signed_word 16 v.int_value)
encoded_bytes signed32 v = u32_bytes (signed_word 32 v.int_value)
encoded_bytes signed64 v = u64_bytes (signed_word 64 v.int_value)
encoded_bytes ipv4_address v = as_4 v.ip
encoded_bytes ipv6_address v = as_16 v.ip
encoded_bytes mac_address v = array 6 v.mac
encoded_bytes string v = v.text
encoded_bytes octet_array v = octets_of v
encoded_bytes other v = []

unfoldable pub value_bytes : ℕ → FieldDescriptor → Value → List ℕ
value_bytes origin d v =
    if is_flow_time d
    then u32_bytes ((elapsed_milliseconds v.uint_value origin).0 % 2 ^ 32)
    else encoded_bytes d.encoding v

Writes-write_encoded :
    (e : DescriptorEncoding) (v : Value) → Writes (write_encoded e v) (encoded_bytes e v)
unfolding write_encoded
Writes-write_encoded unsigned8 v = Writes-put8 _
Writes-write_encoded unsigned16 v = Writes-put16 _
Writes-write_encoded unsigned32 v = Writes-put32 _
Writes-write_encoded unsigned64 v = Writes-put64 _
Writes-write_encoded signed8 v = Writes-put8 _
Writes-write_encoded signed16 v = Writes-put16 _
Writes-write_encoded signed32 v = Writes-put32 _
Writes-write_encoded signed64 v = Writes-put64 _
Writes-write_encoded ipv4_address v = Writes-put_copy _
Writes-write_encoded ipv6_address v = Writes-put_copy _
Writes-write_encoded mac_address v = Writes-put_copy _
Writes-write_encoded string v = Writes-put_string _
Writes-write_encoded octet_array v = Writes-put_octets v
Writes-write_encoded unspecified v = Writes-skip
Writes-write_encoded date_time_nanoseconds v = Writes-skip
Writes-write_encoded date_time_milliseconds v = Writes-skip
Writes-write_encoded DescriptorEncoding.unlisted v = Writes-skip

pub Writes-write_value :
    (origin : ℕ) (d : FieldDescriptor) (v : Value)
    → Writes (write_value origin d v) (value_bytes origin d v)
unfolding write_value value_bytes
Writes-write_value origin d v = by_time (is_flow_time d)
  where
    by_time :
        (b : Bool)
        → Writes
            (if b
              then put32 ((elapsed_milliseconds v.uint_value origin).0 % 2 ^ 32)
              else write_encoded d.encoding v)
            (if b
              then u32_bytes ((elapsed_milliseconds v.uint_value origin).0 % 2 ^ 32)
              else encoded_bytes d.encoding v)
    by_time true = Writes-put32 _
    by_time false = Writes-write_encoded d.encoding v

Writes-write_fields :
    (origin : ℕ) (r : WireRecord) (i : ℕ) (ds : List FieldDescriptor)
    → Writes (write_fields origin r i ds) (fields_bytes (value_bytes origin) r i ds)
unfolding write_fields
Writes-write_fields origin r i [] = Writes-skip
Writes-write_fields origin r i (d ∷ ds) =
    Writes-then (Writes-write_value origin d (value_at r i))
      (Writes-write_fields origin r (i + 1) ds)

abbrev pub record_bytes : ℕ → Shape → WireRecord → List ℕ
record_bytes origin s r = fields_bytes (value_bytes origin) r 0 s.fields

pub Writes-write_data_record :
    (origin : ℕ) (s : Shape) (r : WireRecord)
    → Writes (write_data_record origin s r) (record_bytes origin s r)
unfolding write_data_record
Writes-write_data_record origin s r = Writes-write_fields origin r 0 s.fields

-- The bytes of a value that fits its encoding.
pub length-encoded_bytes :
    (e : DescriptorEncoding) (d : FieldDescriptor) (v : Value)
    → fits_encoding d v e ≡ some true
    → (natural_encoding_length e ≢ 0 → natural_encoding_length e ≡ d.length)
    → is_listed_encoding e ≡ true
    → same_encoding e date_time_nanoseconds ≡ false
    → same_encoding e date_time_milliseconds ≡ false
    → length (encoded_bytes e v) ≡ d.length
unfolding fits_encoding is_listed_encoding
length-encoded_bytes unsigned8 d v f w l x y = w (λ z. absurd (omega (arith, z)))
length-encoded_bytes unsigned16 d v f w l x y = w (λ z. absurd (omega (arith, z)))
length-encoded_bytes unsigned32 d v f w l x y = w (λ z. absurd (omega (arith, z)))
length-encoded_bytes unsigned64 d v f w l x y = w (λ z. absurd (omega (arith, z)))
length-encoded_bytes signed8 d v f w l x y = w (λ z. absurd (omega (arith, z)))
length-encoded_bytes signed16 d v f w l x y = w (λ z. absurd (omega (arith, z)))
length-encoded_bytes signed32 d v f w l x y = w (λ z. absurd (omega (arith, z)))
length-encoded_bytes signed64 d v f w l x y = w (λ z. absurd (omega (arith, z)))
length-encoded_bytes ipv4_address d v f w l x y =
    length-as_4 v.ip ∙ w (λ z. absurd (omega (arith, z)))
length-encoded_bytes ipv6_address d v f w l x y =
    length-as_16 v.ip ∙ w (λ z. absurd (omega (arith, z)))
length-encoded_bytes mac_address d v f w l x y =
    length-array 6 v.mac ∙ w (λ z. absurd (omega (arith, z)))
length-encoded_bytes string d v f w l x y = ground arith
length-encoded_bytes octet_array d v f w l x y =
    length-octets_of v d.length (byte_len_of (byte_len v) d.length (ground arith))
length-encoded_bytes unspecified d v f w l x y = cc
length-encoded_bytes date_time_nanoseconds d v f w l x y = cc
length-encoded_bytes date_time_milliseconds d v f w l x y = cc
length-encoded_bytes DescriptorEncoding.unlisted d v f w l x y = cc

-- A descriptor that the v9 writer takes.
abbrev pub Bound : FieldDescriptor → Type 0
Bound d = Sound v9 d × (validate_binding d ≡ ok tt)

flow_time_length :
    (d : FieldDescriptor) → validate_binding d ≡ ok tt → is_flow_time d ≡ true → d.length ≡ 4
unfolding validate_binding
flow_time_length d h t = ground arith

other_protocol :
    (p : Protocol)
    → same_protocol p v9 ≡ true
    → (same_protocol p ipfix ≡ false) × (same_protocol p v5 ≡ false)
other_protocol p e = ground arith

-- The writer puts as many bytes as ValueLength counts.
pub length-value_bytes :
    (origin : ℕ) (d : FieldDescriptor) (v : Value) (n : ℕ)
    → Bound d
    → value_length d v ≡ ok n
    → length (value_bytes origin d v) ≡ n
unfolding value_bytes
length-value_bytes origin d v n ((valid, same), bound) h =
    let parts = validate_descriptor-IsValid d valid in
    let (not_ipfix, not_v5) = other_protocol d.protocol same in
    let fixed = v9_is_fixed d parts.rules same in
    let (_, fits, exact) =
      value_length-fixed d v n h (constant_is_v5 d parts.source not_v5) fixed in
    let (no_nanos, no_millis) = no_date_time d parts.encoding not_ipfix in
    let encoded =
      length-encoded_bytes d.encoding d v fits (natural-eq-length d parts.widths fixed)
        (is_listed d parts.encoding) no_nanos no_millis in
    elim (Bool-cases (is_flow_time d)) [
      | inl t ↦ rw t (omega (arith, flow_time_length d bound t, exact))
      | inr t ↦ rw t (omega (arith, encoded, exact))
    ]
