-- ===== src/Wire/Widths/Facts.antt =====
-- What a descriptor that is valid, and a value that has a width, satisfy.
use otelcol_exporter_netflow.Common.{
  ℕ, ◌+◌, ◌≡◌, ◌≢◌, refl, true, false, not, ◌&&◌, some, length, if◌then◌else◌, arith, ◌∙◌, ap,
}
use otelcol_exporter_netflow.Common.Int.{ℤ, pos, negsuc, ◌==◌ as eqz, ltb as ltz, is_negative}
use otelcol_exporter_netflow.Common.Result.{ok, reject_if, >>=-eq-ok}
use otelcol_exporter_netflow.Wire.Model.{
  Protocol, v5, v9, ipfix, same_protocol, is_known, FieldDescriptor, Value, same_encoding,
  date_time_nanoseconds, date_time_milliseconds, string, octet_array, invalid_descriptor,
  invalid_value, is_absolute_time_field, byte_len,
}
use otelcol_exporter_netflow.Wire.Values.{validate_value, validate_kind}
use otelcol_exporter_netflow.Wire.Descriptors.{
  validate_descriptor, validate_source, validate_encoding, validate_protocol_rules, validate_widths,
  validate_v9, checked_add, natural_encoding_length, is_listed_encoding,
}
use otelcol_exporter_netflow.Wire.Widths.{
  value_length, fits_encoding, fixed_length, content_length, variable_length, kind_is_unix_nanos,
  kind_is_bytes, checked_length, to_uint64,
}

-- The checks of a descriptor one by one.
pub record IsValid (d : FieldDescriptor) : Type 0 where
  pub source : validate_source d ≡ ok tt
  pub encoding : validate_encoding d ≡ ok tt
  pub rules : validate_protocol_rules d.protocol d ≡ ok tt
  pub widths : validate_widths d ≡ ok tt

pub validate_descriptor-IsValid : (d : FieldDescriptor) → validate_descriptor d ≡ ok tt → IsValid d
unfolding validate_descriptor
validate_descriptor-IsValid d h =
    let (_, _, h1) = >>=-eq-ok (reject_if (not (is_known d.protocol)) invalid_descriptor) _ h in
    let (_, source, h2) = >>=-eq-ok (validate_source d) _ h1 in
    let (_, encoding, h3) = >>=-eq-ok (validate_encoding d) _ h2 in
    let (_, rules, h4) = >>=-eq-ok (validate_protocol_rules d.protocol d) _ h3 in
    record { source = source; encoding = encoding; rules = rules; widths = h4 }

pub natural-eq-length :
    (d : FieldDescriptor)
    → validate_widths d ≡ ok tt
    → d.variable ≡ false
    → natural_encoding_length d.encoding ≢ 0
    → natural_encoding_length d.encoding ≡ d.length
unfolding validate_widths
natural-eq-length d h fixed some_length = ground arith

pub is_listed :
    (d : FieldDescriptor) → validate_encoding d ≡ ok tt → is_listed_encoding d.encoding ≡ true
unfolding validate_encoding
is_listed d h = ground arith

-- Times in the encodings of IPFIX occur in IPFIX only.
pub no_date_time :
    (d : FieldDescriptor)
    → validate_encoding d ≡ ok tt
    → same_protocol d.protocol ipfix ≡ false
    → (same_encoding d.encoding date_time_nanoseconds ≡ false)
      × (same_encoding d.encoding date_time_milliseconds ≡ false)
unfolding validate_encoding
no_date_time d h e = ground arith

pub v9_is_fixed :
    (d : FieldDescriptor)
    → validate_protocol_rules d.protocol d ≡ ok tt
    → same_protocol d.protocol v9 ≡ true
    → d.variable ≡ false
unfolding validate_protocol_rules validate_v9
v9_is_fixed d h e = by_protocol d.protocol h e
  where
    by_protocol :
        (p : Protocol)
        → validate_protocol_rules p d ≡ ok tt
        → same_protocol p v9 ≡ true
        → d.variable ≡ false
    by_protocol v9 h e = ground arith
    by_protocol v5 h e = cc
    by_protocol ipfix h e = cc
    by_protocol Protocol.unknown h e = cc
    by_protocol Protocol.unlisted h e = cc

pub constant_is_v5 :
    (d : FieldDescriptor)
    → validate_source d ≡ ok tt
    → same_protocol d.protocol v5 ≡ false
    → d.constant ≡ false
unfolding validate_source
constant_is_v5 d h e = ground arith

-- The width of a value that is neither constant nor variable.
pub value_length-fixed :
    (d : FieldDescriptor) (v : Value) (n : ℕ)
    → value_length d v ≡ ok n
    → d.constant ≡ false
    → d.variable ≡ false
    → (validate_descriptor d ≡ ok tt) × (fits_encoding d v d.encoding ≡ some true) × (n ≡ d.length)
unfolding value_length fixed_length
value_length-fixed d v n h not_constant fixed =
    let (_, valid, h1) = >>=-eq-ok (validate_descriptor d) _ h in
    let (_, _, h2) = >>=-eq-ok (validate_value v) _ h1 in
    let (_, _, h3) =
      >>=-eq-ok
        (reject_if (is_absolute_time_field d.field && not (kind_is_unix_nanos v)) invalid_value) _
        h2 in
    (valid, ground arith, ground arith)

pub byte_len_of : (z : ℤ) (n : ℕ) → eqz z (pos n) ≡ true → z ≡ pos n
byte_len_of (pos m) n h = ap pos (ground arith)
byte_len_of (negsuc m) n h = cc

-- What a variable value's width counts: its content behind a length of one or three bytes.
pub value_length-variable :
    (d : FieldDescriptor) (v : Value) (n : ℕ)
    → value_length d v ≡ ok n
    → d.constant ≡ false
    → d.variable ≡ true
    → (z : ℤ) × (validate_value v ≡ ok tt)
      × (content_length d v d.encoding ≡ ok z)
      × (variable_length d z ≡ ok n)
unfolding value_length
value_length-variable d v n h not_constant variable =
    let (_, _, h1) = >>=-eq-ok (validate_descriptor d) _ h in
    let (_, value, h2) = >>=-eq-ok (validate_value v) _ h1 in
    let (_, _, h3) =
      >>=-eq-ok
        (reject_if (is_absolute_time_field d.field && not (kind_is_unix_nanos v)) invalid_value) _
        h2 in
    let (z, content, rest) =
      >>=-eq-ok (content_length d v d.encoding) (variable_length d) (ground arith) in
    (z, value, content, rest)

-- The two encodings whose values may be variable.
pub content_length-text :
    (d : FieldDescriptor) (v : Value) (z : ℤ)
    → content_length d v string ≡ ok z
    → z ≡ pos (length v.text)
unfolding content_length
content_length-text d v z h = ground arith

octets_not_negative :
    (v : Value)
    → validate_value v ≡ ok tt
    → kind_is_bytes v ≡ true
    → is_negative (byte_len v) ≡ false
unfolding validate_value validate_kind kind_is_bytes
octets_not_negative v valid k = ground arith

is_pos : (z : ℤ) → is_negative z ≡ false → (n : ℕ) × (z ≡ pos n)
is_pos (pos n) h = (n, refl)
is_pos (negsuc n) h = cc

content_is_octets :
    (d : FieldDescriptor) (v : Value) (z : ℤ)
    → content_length d v octet_array ≡ ok z
    → (kind_is_bytes v ≡ true) × (z ≡ byte_len v)
unfolding content_length
content_is_octets d v z h = (ground arith, ground arith)

pub content_length-octets :
    (d : FieldDescriptor) (v : Value) (z : ℤ)
    → validate_value v ≡ ok tt
    → content_length d v octet_array ≡ ok z
    → (n : ℕ) × (z ≡ pos n) × (byte_len v ≡ pos n)
content_length-octets d v z valid h =
    let (k, e) = content_is_octets d v z h in
    let (n, p) = is_pos (byte_len v) (octets_not_negative v valid k) in (n, e ∙ p, p)

pub variable_length-pos :
    (d : FieldDescriptor) (k n : ℕ)
    → variable_length d (pos k) ≡ ok n
    → n ≡ (if ltz (pos k) (pos 255) then 1 else 3) + k
unfolding variable_length checked_length checked_add to_uint64
variable_length-pos d k n h = ground arith
