-- ===== src/Wire/Shapes.antt =====
-- internal/wire/contract.go: shapes, and the checks of a compiled shape.
use otelcol_exporter_netflow.Common.{
  ℕ, Bool, true, false, ◌&&◌, ◌||◌, not, Option, none, some, List, [], ◌∷◌, length, ltb, ◌==◌,
  if◌then◌else◌,
}
use otelcol_exporter_netflow.Common.Result.{Result, ok, err, ◌>>=◌, ◌>>◌, reject_if}
use otelcol_exporter_netflow.Wire.Field
use otelcol_exporter_netflow.Wire.Field.{CanonicalField}
use otelcol_exporter_netflow.Wire.Model.{
  Protocol, v5, ipfix, same_protocol, Family, ipv4, ipv6, same_family, same_bytes, ContractError,
  invalid_descriptor, invalid_shape, duplicate_identity, bounds, FieldDescriptor,
  DescriptorEncoding, same_encoding, unsigned8, unsigned16, unsigned32, ipv4_address, ipv6_address,
  default_max_fields_per_shape, default_max_record_bytes, default_max_template_bytes,
}
use otelcol_exporter_netflow.Wire.Descriptors.{checked_add, validate_descriptor, minimum_length}

-- A compiled shape. The fields of the Go struct are private.
pub record Shape : Type 0 where
  pub protocol : Protocol
  pub family : Family
  pub id : ℕ
  pub fields : List FieldDescriptor
  pub record_length : ℕ
  pub template_bytes : ℕ

unfoldable pub same_bool : Bool → Bool → Bool
same_bool true b = b
same_bool false b = not b

-- Go's `==` on two descriptors.
unfoldable pub same_descriptor : FieldDescriptor → FieldDescriptor → Bool
unfolding same_bool
same_descriptor a b =
    same_protocol a.protocol b.protocol
    && a.field == b.field
    && same_bytes a.source b.source
    && same_bool a.custom b.custom
    && same_bool a.constant b.constant
    && a.id == b.id
    && a.pen == b.pen
    && same_bool a.enterprise b.enterprise
    && same_bool a.private b.private
    && a.length == b.length
    && same_bool a.variable b.variable
    && a.max_length == b.max_length
    && same_encoding a.encoding b.encoding

unfoldable pub v5_field : CanonicalField → Bool → ℕ → ℕ → DescriptorEncoding → FieldDescriptor
v5_field field constant id length encoding = record {
  protocol = v5;
  field = field;
  source = [];
  custom = false;
  constant = constant;
  id = id;
  pen = 0;
  enterprise = false;
  private = false;
  length = length;
  variable = false;
  max_length = 0;
  encoding = encoding;
}

unfoldable pub builtin_v5_exact_fields : List FieldDescriptor
unfolding v5_field
builtin_v5_exact_fields =
    v5_field Field.source_address false 1 4 ipv4_address
    ∷ v5_field Field.destination_address false 2 4 ipv4_address
    ∷ v5_field Field.next_hop false 3 4 ipv4_address
    ∷ v5_field Field.in_if false 4 2 unsigned16
    ∷ v5_field Field.out_if false 5 2 unsigned16
    ∷ v5_field Field.io_packets false 6 4 unsigned32
    ∷ v5_field Field.io_bytes false 7 4 unsigned32
    ∷ v5_field Field.start false 8 4 unsigned32
    ∷ v5_field Field.end false 9 4 unsigned32
    ∷ v5_field Field.source_port false 10 2 unsigned16
    ∷ v5_field Field.destination_port false 11 2 unsigned16
    ∷ v5_field Field.invalid true 12 1 unsigned8
    ∷ v5_field Field.tcp_flags false 13 1 unsigned8
    ∷ v5_field Field.network_transport false 14 1 unsigned8
    ∷ v5_field Field.ip_tos false 15 1 unsigned8
    ∷ v5_field Field.src_as false 16 2 unsigned16
    ∷ v5_field Field.dst_as false 17 2 unsigned16
    ∷ v5_field Field.src_net false 18 1 unsigned8
    ∷ v5_field Field.dst_net false 19 1 unsigned8
    ∷ v5_field Field.invalid true 20 2 unsigned16
    ∷ []

unfoldable pub same_fields : List FieldDescriptor → List FieldDescriptor → Bool
unfolding same_descriptor
same_fields [] [] = true
same_fields [] (b ∷ bs) = false
same_fields (a ∷ as') [] = false
same_fields (a ∷ as') (b ∷ bs) = same_descriptor a b && same_fields as' bs

-- `isExactV5Shape`: both lists have twenty fields when they are compared.
unfoldable pub is_exact_v5_shape : Family → ℕ → List FieldDescriptor → ℕ → Bool
unfolding same_fields
is_exact_v5_shape family id fields record_length =
    same_family family ipv4
    && id == 1
    && record_length == 48
    && length fields == 20
    && same_fields fields builtin_v5_exact_fields

-- Two descriptors name the same wire element.
unfoldable pub same_identity : FieldDescriptor → FieldDescriptor → Bool
same_identity a b = same_protocol a.protocol b.protocol && a.id == b.id && a.pen == b.pen

unfoldable pub is_among : FieldDescriptor → List FieldDescriptor → Bool
is_among d [] = false
is_among d (x ∷ xs) = same_identity x d || is_among d xs

-- The loop over the fields: `earlier` are those already seen, and `sum` their minimum lengths.
unfoldable pub check_fields :
    Protocol → Family → List FieldDescriptor → ℕ → List FieldDescriptor → Result ContractError ℕ
unfolding is_among same_identity
check_fields protocol family earlier sum [] = ok sum
check_fields protocol family earlier sum (d ∷ ds) = do
  validate_descriptor d
  reject_if (not (same_protocol d.protocol protocol)) invalid_descriptor
  reject_if
      ((same_encoding d.encoding ipv4_address && not (same_family family ipv4))
        || (same_encoding d.encoding ipv6_address && not (same_family family ipv6)))
      invalid_shape
  reject_if (is_among d earlier) duplicate_identity
  elim (checked_add sum (minimum_length d)) [
    | none ↦ err bounds
    | some sum' ↦ check_fields protocol family (d ∷ earlier) sum' ds
  ]

unfoldable pub specifier_width : Protocol → FieldDescriptor → ℕ
specifier_width protocol d = if same_protocol protocol ipfix && d.enterprise then 8 else 4

-- The loop of `templateBytesFor`, from the bytes counted so far.
unfoldable pub template_bytes_from : Protocol → ℕ → List FieldDescriptor → Option ℕ
unfolding specifier_width
template_bytes_from protocol total [] = some total
template_bytes_from protocol total (d ∷ ds) =
    elim (checked_add total (specifier_width protocol d)) [
      | none ↦ none
      | some total' ↦ template_bytes_from protocol total' ds
    ]

unfoldable pub template_bytes_for : Protocol → List FieldDescriptor → Option ℕ
unfolding template_bytes_from
template_bytes_for protocol fields =
    if same_protocol protocol v5 then some 0 else template_bytes_from protocol 8 fields

unfoldable pub is_unknown_protocol : Protocol → Bool
is_unknown_protocol p = same_protocol p Protocol.unknown

unfoldable pub is_unknown_family : Family → Bool
is_unknown_family f = same_family f Family.unknown

-- The checks of `Shape.Validate` before its loop.
unfoldable pub check_shape_bounds : Shape → Result ContractError (Unit {0})
unfolding is_unknown_protocol is_unknown_family is_exact_v5_shape
check_shape_bounds s = do
  reject_if
      (is_unknown_protocol s.protocol
        || is_unknown_family s.family
        || length s.fields == 0
        || ltb default_max_fields_per_shape (length s.fields)
        || s.record_length == 0)
      invalid_shape
  reject_if
      (ltb default_max_record_bytes s.record_length
        || ltb default_max_template_bytes s.template_bytes)
      bounds
  reject_if (same_protocol s.protocol v5 && not (same_family s.family ipv4)) invalid_shape
  reject_if
      (same_protocol s.protocol v5
        && not (is_exact_v5_shape s.family s.id s.fields s.record_length))
      invalid_shape
  reject_if (not (same_protocol s.protocol v5) && ltb s.id 256) invalid_shape

unfoldable pub template_matches : Option ℕ → ℕ → Bool
template_matches none n = false
template_matches (some m) n = m == n

unfoldable pub validate_shape : Shape → Result ContractError (Unit {0})
unfolding check_shape_bounds template_matches
validate_shape s = do
  check_shape_bounds s
  sum ← check_fields s.protocol s.family [] 0 s.fields
  reject_if (not (sum == s.record_length)) invalid_shape
  reject_if (not (template_matches (template_bytes_for s.protocol s.fields) s.template_bytes))
      invalid_shape

unfoldable pub has_variable_fields : List FieldDescriptor → Bool
has_variable_fields [] = false
has_variable_fields (d ∷ ds) = d.variable || has_variable_fields ds
