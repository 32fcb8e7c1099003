-- ===== src/Wire/Descriptors.antt =====
-- internal/wire/contract.go: the checks of field descriptors, and the width of a value.
use otelcol_exporter_netflow.Common.{
  ℕ, ◌+◌, ◌-◌, ◌*◌, ◌/◌, ◌^◌, Bool, true, false, ◌&&◌, ◌||◌, not, Option, none, some, length, ltb,
  ◌==◌, if◌then◌else◌,
}
use otelcol_exporter_netflow.Common.Result.{Result, ok, ◌>>◌, reject_if}
use otelcol_exporter_netflow.Wire.Field
use otelcol_exporter_netflow.Wire.Field.{CanonicalField}
use otelcol_exporter_netflow.Wire.Model.{
  Protocol, v5, v9, ipfix, same_protocol, is_known, ContractError, invalid_descriptor,
  hard_max_mapped_value_bytes, FieldDescriptor, DescriptorEncoding, same_encoding, unspecified,
  unsigned8, unsigned16, unsigned32, unsigned64, signed8, signed16, signed32, signed64,
  ipv4_address, ipv6_address, mac_address, octet_array, string, date_time_nanoseconds,
  date_time_milliseconds, is_valid_field,
}
use otelcol_exporter_netflow.Wire.Values.{valid_utf8}
use otelcol_exporter_netflow.Wire.Names.{is_reserved_name}

-- Go's `a + b` on uint64 with the overflow reported instead of wrapped.
unfoldable pub checked_add : ℕ → ℕ → Option ℕ
checked_add a b = if ltb (2 ^ 64 - 1 - a) b then none else some (a + b)

unfoldable pub checked_mul : ℕ → ℕ → Option ℕ
checked_mul a b = if not (a == 0) && ltb ((2 ^ 64 - 1) / a) b then none else some (a * b)

abbrev pub natural_encoding_length : DescriptorEncoding → ℕ
natural_encoding_length unsigned8 = 1
natural_encoding_length signed8 = 1
natural_encoding_length unsigned16 = 2
natural_encoding_length signed16 = 2
natural_encoding_length unsigned32 = 4
natural_encoding_length signed32 = 4
natural_encoding_length unsigned64 = 8
natural_encoding_length signed64 = 8
natural_encoding_length ipv4_address = 4
natural_encoding_length ipv6_address = 16
natural_encoding_length mac_address = 6
natural_encoding_length date_time_nanoseconds = 8
natural_encoding_length date_time_milliseconds = 8
natural_encoding_length other = 0

unfoldable pub validate_source : FieldDescriptor → Result ContractError (Unit {0})
validate_source d =
    if d.custom
    then (do
      reject_if
          (length d.source == 0
            || ltb 1024 (length d.source)
            || not (valid_utf8 d.source)
            || d.constant
            || not (d.field == Field.invalid))
          invalid_descriptor
      reject_if (is_reserved_name d.source) invalid_descriptor)
    else if d.constant
    then reject_if
        (not (same_protocol d.protocol v5)
          || not (d.field == Field.invalid)
          || not (length d.source == 0))
        invalid_descriptor
    else reject_if (not (is_valid_field d.field) || not (length d.source == 0)) invalid_descriptor

unfoldable pub is_listed_encoding : DescriptorEncoding → Bool
is_listed_encoding unspecified = false
is_listed_encoding DescriptorEncoding.unlisted = false
is_listed_encoding other = true

unfoldable pub validate_encoding : FieldDescriptor → Result ContractError (Unit {0})
unfolding is_listed_encoding
validate_encoding d = do
  reject_if
      (d.field == Field.icmp_type_code
        && (not (same_protocol d.protocol v9)
            || not (d.id == 32)
            || not (d.length == 2)
            || not (same_encoding d.encoding unsigned16)))
      invalid_descriptor
  reject_if (not (is_listed_encoding d.encoding)) invalid_descriptor
  reject_if (same_encoding d.encoding date_time_nanoseconds && not (same_protocol d.protocol ipfix))
      invalid_descriptor
  reject_if
      (same_encoding d.encoding date_time_milliseconds
        && (not (same_protocol d.protocol ipfix)
            || d.custom
            || not (d.length == 8)
            || (not (d.field == Field.start) && not (d.field == Field.end))
            || (d.field == Field.start && not (d.id == 152))
            || (d.field == Field.end && not (d.id == 153))))
      invalid_descriptor

unfoldable pub validate_v5 : FieldDescriptor → Result ContractError (Unit {0})
validate_v5 d = do
  reject_if
      (d.custom
        || d.id == 0
        || not (d.pen == 0)
        || d.enterprise
        || d.private
        || d.variable
        || not (d.max_length == 0)
        || d.length == 0)
      invalid_descriptor
  reject_if
      (d.constant
        && not (
            (d.id == 12 && d.length == 1 && same_encoding d.encoding unsigned8)
            || (d.id == 20 && d.length == 2 && same_encoding d.encoding unsigned16)))
      invalid_descriptor

unfoldable pub differ : Bool → Bool → Bool
differ true b = not b
differ false b = b

unfoldable pub validate_v9 : FieldDescriptor → Result ContractError (Unit {0})
unfolding differ
validate_v9 d = do
  reject_if
      (d.id == 0
        || not (d.pen == 0)
        || d.enterprise
        || d.variable
        || not (d.max_length == 0)
        || d.length == 0)
      invalid_descriptor
  reject_if (differ d.private d.custom) invalid_descriptor
  reject_if (if d.private then ltb d.id 256 else ltb 255 d.id) invalid_descriptor

unfoldable pub validate_ipfix : FieldDescriptor → Result ContractError (Unit {0})
unfolding differ
validate_ipfix d = do
  reject_if (d.id == 0 || ltb 32767 d.id || d.private) invalid_descriptor
  reject_if (differ d.enterprise d.custom) invalid_descriptor
  reject_if (if d.enterprise then d.pen == 0 else not (d.pen == 0)) invalid_descriptor
  reject_if
      (if d.variable
        then not d.custom
          || (not (d.length == 65535)
              || d.max_length == 0
              || ltb hard_max_mapped_value_bytes d.max_length)
        else d.length == 0 || d.length == 65535 || not (d.max_length == 0))
      invalid_descriptor
  reject_if
      (not d.enterprise
        && (d.id == 152 || d.id == 153)
        && not (same_encoding d.encoding date_time_milliseconds))
      invalid_descriptor
  reject_if
      (not d.enterprise
        && same_encoding d.encoding date_time_milliseconds
        && not (d.id == 152)
        && not (d.id == 153))
      invalid_descriptor

-- `other` is not reached: the protocol is checked first.
unfoldable pub validate_protocol_rules :
    Protocol → FieldDescriptor → Result ContractError (Unit {0})
unfolding validate_v5 validate_v9 validate_ipfix
validate_protocol_rules v5 d = validate_v5 d
validate_protocol_rules v9 d = validate_v9 d
validate_protocol_rules ipfix d = validate_ipfix d
validate_protocol_rules other d = ok tt

unfoldable pub is_text_or_octets : DescriptorEncoding → Bool
is_text_or_octets e = same_encoding e string || same_encoding e octet_array

unfoldable pub validate_widths : FieldDescriptor → Result ContractError (Unit {0})
unfolding is_text_or_octets
validate_widths d = do
  reject_if
      (not (natural_encoding_length d.encoding == 0)
        && not (natural_encoding_length d.encoding == d.length)
        && not d.variable)
      invalid_descriptor
  reject_if (d.custom && d.variable && not (same_protocol d.protocol ipfix)) invalid_descriptor
  reject_if (d.custom && same_protocol d.protocol v9 && not d.private) invalid_descriptor
  reject_if (d.custom && same_protocol d.protocol ipfix && not d.enterprise) invalid_descriptor
  reject_if (d.custom && not d.variable && is_text_or_octets d.encoding && d.length == 0)
      invalid_descriptor
  reject_if (d.custom && d.variable && not (is_text_or_octets d.encoding)) invalid_descriptor
  reject_if (d.custom && same_encoding d.encoding date_time_nanoseconds) invalid_descriptor

unfoldable pub validate_descriptor : FieldDescriptor → Result ContractError (Unit {0})
unfolding validate_source validate_encoding validate_protocol_rules validate_widths
validate_descriptor d = do
  reject_if (not (is_known d.protocol)) invalid_descriptor
  validate_source d
  validate_encoding d
  validate_protocol_rules d.protocol d
  validate_widths d

unfoldable pub minimum_length : FieldDescriptor → ℕ
minimum_length d = if d.variable then 1 else d.length
