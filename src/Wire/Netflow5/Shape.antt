-- ===== src/Wire/Netflow5/Shape.antt =====
-- The one shape of NetFlow v5, whose records have 48 bytes.
use otelcol_exporter_netflow.Common.{
  ℕ, ◌+◌, ◌≡◌, refl, ◌∙◌, true, false, not, ◌&&◌, ◌||◌, some, List, [], ◌∷◌, length, replicate, All,
  length-append, length-replicate, ◌==◌, arith, Option-cases, inl, inr,
}
use otelcol_exporter_netflow.Common.Result.{Result, ok, reject_if, >>=-eq-ok}
use otelcol_exporter_netflow.Wire.Model.{
  Protocol, Family, v5, v9, ipfix, same_protocol, same_family, ipv4, ipv6, same_encoding,
  ipv4_address, ipv6_address, FieldDescriptor, Value, WireRecord, ContractError, invalid_shape,
  invalid_descriptor, invalid_value, duplicate_identity, is_absolute_time_field,
}
use otelcol_exporter_netflow.Wire.Descriptors.{
  checked_add, validate_descriptor, minimum_length, validate_protocol_rules, validate_v5,
}
use otelcol_exporter_netflow.Wire.Values.{validate_value}
use otelcol_exporter_netflow.Wire.Widths.{value_length, fixed_length, kind_is_unix_nanos}
use otelcol_exporter_netflow.Wire.Widths.Facts.{validate_descriptor-IsValid}
use otelcol_exporter_netflow.Wire.Shapes.{
  Shape, validate_shape, check_shape_bounds, check_fields, is_among, is_exact_v5_shape,
}
use otelcol_exporter_netflow.Wire.Sizes.{record_size}
use otelcol_exporter_netflow.Wire.Encode.Fields.{
  fields_bytes, length-record, Sound, no_sum, some_sum,
}
use otelcol_exporter_netflow.Wire.Stream.Framing.{Sound-fields}

abbrev Fixed : FieldDescriptor → Type 0
Fixed d = d.variable ≡ false

rules-Fixed :
    (p : Protocol) (d : FieldDescriptor)
    → same_protocol p v5 ≡ true
    → validate_protocol_rules p d ≡ ok tt
    → Fixed d
unfolding validate_protocol_rules validate_v5
rules-Fixed v5 d e h = ground arith
rules-Fixed v9 d e h = cc
rules-Fixed ipfix d e h = cc
rules-Fixed Protocol.unknown d e h = cc
rules-Fixed Protocol.unlisted d e h = cc

fields-Fixed : (ds : List FieldDescriptor) → All (Sound v5) ds → All Fixed ds
fields-Fixed [] h = tt
fields-Fixed (d ∷ ds) h = (
  rules-Fixed d.protocol d h.0.1 (validate_descriptor-IsValid d h.0.0).rules,
  fields-Fixed ds h.1,
)

-- A value that is not variable has the width of its descriptor.
width_of :
    (d : FieldDescriptor) (v : Value) (n : ℕ)
    → Fixed d
    → value_length d v ≡ ok n
    → length (replicate {A = ℕ} d.length 0) ≡ n
unfolding value_length fixed_length
width_of d v n fixed h =
    let (_, _, h1) = >>=-eq-ok (validate_descriptor d) _ h in
    let (_, _, h2) = >>=-eq-ok (validate_value v) _ h1 in
    let (_, _, h3) =
      >>=-eq-ok
        (reject_if (is_absolute_time_field d.field && not (kind_is_unix_nanos v)) invalid_value) _
        h2 in
    length-replicate {A = ℕ} d.length 0 ∙ ground arith

abbrev total_length : List FieldDescriptor → ℕ
total_length [] = 0
total_length (d ∷ ds) = d.length + total_length ds

length-zeros :
    (r : WireRecord) (i : ℕ) (ds : List FieldDescriptor)
    → length (fields_bytes (λ d v. replicate d.length 0) r i ds) ≡ total_length ds
length-zeros r i [] = refl
length-zeros r i (d ∷ ds) = omega (
  arith,
  length-append (replicate {A = ℕ} d.length 0)
      (fields_bytes (λ d v. replicate d.length 0) r (i + 1) ds),
  length-replicate {A = ℕ} d.length 0,
  length-zeros r (i + 1) ds,
)

added : (a b m : ℕ) → checked_add a b ≡ some m → m ≡ a + b
unfolding checked_add
added a b m h = ground arith

minimum_of : (d : FieldDescriptor) → Fixed d → minimum_length d ≡ d.length
unfolding minimum_length
minimum_of d h = ground arith

-- The loop over the fields adds up their lengths.
check_fields-total :
    (p : Protocol) (f : Family) (earlier : List FieldDescriptor) (sum m : ℕ)
    (ds : List FieldDescriptor)
    → All Fixed ds
    → check_fields p f earlier sum ds ≡ ok m
    → sum + total_length ds ≡ m
unfolding check_fields
check_fields-total p f earlier sum m [] fixed h = let e : sum ≡ m = ground arith in omega arith
check_fields-total p f earlier sum m (d ∷ ds) fixed h =
    let (_, _, h1) = >>=-eq-ok (validate_descriptor d) _ h in
    let (_, _, h2) =
      >>=-eq-ok (reject_if (not (same_protocol d.protocol p)) invalid_descriptor) _ h1 in
    let (_, _, h3) =
      >>=-eq-ok
        (reject_if
          ((same_encoding d.encoding ipv4_address && not (same_family f ipv4))
            || (same_encoding d.encoding ipv6_address && not (same_family f ipv6)))
          invalid_shape)
        _ h2 in
    let (_, _, h4) = >>=-eq-ok (reject_if (is_among d earlier) duplicate_identity) _ h3 in
    let next : ℕ → Result ContractError ℕ = λ t. check_fields p f (d ∷ earlier) t ds in
    elim (Option-cases (checked_add sum (minimum_length d))) [
      | inl e ↦ absurd (no_sum _ next e h4)
      | inr (sum', e) ↦ omega (
        arith,
        added sum (minimum_length d) sum' e,
        minimum_of d fixed.0,
        check_fields-total p f (d ∷ earlier) sum' m ds fixed.1 (some_sum _ next e h4),
      )
    ]

exact_length :
    (s : Shape)
    → check_shape_bounds s ≡ ok tt
    → same_protocol s.protocol v5 ≡ true
    → s.record_length ≡ 48
unfolding check_shape_bounds is_exact_v5_shape
exact_length s h e = ground arith

-- A v5 record has 48 bytes.
pub record_size_v5 :
    (s : Shape) (r : WireRecord) (n : ℕ)
    → same_protocol s.protocol v5 ≡ true
    → record_size s r ≡ ok n
    → n ≡ 48
unfolding record_size validate_shape
record_size_v5 s r n same h =
    let (_, valid, _) = >>=-eq-ok (validate_shape s) _ h in
    let fixed = fields-Fixed s.fields (Sound-fields v5 s same valid) in
    let (_, front, h1) = >>=-eq-ok (check_shape_bounds s) _ valid in
    let (m, fields, h2) = >>=-eq-ok (check_fields s.protocol s.family [] 0 s.fields) _ h1 in
    let (_, sum, _) = >>=-eq-ok (reject_if (not (m == s.record_length)) invalid_shape) _ h2 in
    omega (
      arith,
      length-record (λ d v. replicate d.length 0) Fixed width_of s r n fixed h,
      length-zeros r 0 s.fields,
      check_fields-total s.protocol s.family [] 0 m s.fields fixed fields,
      same_number m s.record_length sum,
      exact_length s front same,
    )
  where
    same_number : (a b : ℕ) → reject_if (not (a == b)) invalid_shape ≡ ok tt → a ≡ b
    same_number a b h = ground arith
