-- ===== src/Wire/Netflow5/Runs.antt =====
-- Concrete NetFlow v5 requests on which the theorems about the writer apply.
use otelcol_exporter_netflow.Common.{ℕ, ◌≡◌, refl, true, List, [], ◌∷◌, replicate}
use otelcol_exporter_netflow.Common.Result.{ok}
use otelcol_exporter_netflow.Wire.Model.{
  v5, ipv4, uint, ip, addr4, Value, unix_nanos, HeaderMetadata, WireRecord, zero_value,
}
use otelcol_exporter_netflow.Wire.Shapes.{Shape}
use otelcol_exporter_netflow.Wire.Sizes.{PacketRequest}
use otelcol_exporter_netflow.Wire.Preflight.{DataPacketRequest}
use otelcol_exporter_netflow.Wire.Stream.{reset}
use otelcol_exporter_netflow.Wire.Stream.Packet.{append_each}
use otelcol_exporter_netflow.Wire.Stream.Slice.{Written}
use otelcol_exporter_netflow.Wire.Stream.Equivalence.{stream}
use otelcol_exporter_netflow.Wire.Stream.Accepted.{request_of}
use otelcol_exporter_netflow.Wire.Netflow5.{format}
use otelcol_exporter_netflow.Wire.Netflow5.Writer.{layout, v5_write-Written, v5_write-stream}
use otelcol_exporter_netflow.Wire.Values.{
  between, lead_byte, next_byte, utf8_from, valid_utf8, validate_unix_nanos, no_int, no_uint,
  no_text, no_octets, no_ip, mac_is_zero, validate_kind, validate_value, validate_value_for_family,
  validate_values, validate_record as wire_validate_record,
}
use otelcol_exporter_netflow.Wire.Descriptors.{
  checked_add, checked_mul, validate_source, is_listed_encoding, validate_encoding, validate_v5,
  differ, validate_v9, validate_ipfix, validate_protocol_rules, is_text_or_octets, validate_widths,
  validate_descriptor, minimum_length,
}
use otelcol_exporter_netflow.Wire.Widths.{
  kind_is_uint, kind_is_unix_nanos, kind_is_bytes, kind_is_ip, natural_fits, unsigned_fits,
  timestamp_fits, unsigned_fits_descriptor, signed_in_range, signed_fits, fits_encoding,
  fixed_length, checked_length, content_length, to_uint64, variable_length, value_length,
}
use otelcol_exporter_netflow.Wire.Shapes.{
  same_bool, same_descriptor, v5_field, builtin_v5_exact_fields, same_fields, is_exact_v5_shape,
  same_identity, is_among, check_fields, specifier_width, template_bytes_from, template_bytes_for,
  is_unknown_protocol, is_unknown_family, check_shape_bounds, template_matches, validate_shape,
  has_variable_fields,
}
use otelcol_exporter_netflow.Wire.Sizes.{
  record_length_from, trusted_record_size, record_size, padding_for, encoded_set, filled_set,
  empty_set, data_set_size_for_encoded, records_bytes_from, trusted_data_set_size, data_set_size,
  validate_payload_length, validate_header as wire_validate_header,
}
use otelcol_exporter_netflow.Wire.Preflight.{
  check_counts, template_product, check_templates, check_data, message_length, preflight,
  validate_data_packet_request,
}
use otelcol_exporter_netflow.Wire.Cursor.{
  ◌>>◌ as ◌and◌, new, remaining, advance, write_byte, write_uint8, write_uint16, write_uint32,
  write_uint64, reserve, copy, skip, put8, put16, put32, put64, put_copy, put_string, put_each,
  put_zeros,
}
use otelcol_exporter_netflow.Wire.Stream.{
  write, admit_begin, opened, begin, require_active, admit_record, appended, append, admit_finish,
  finished, finish,
}
use otelcol_exporter_netflow.Wire.Encode.{
  elapsed_milliseconds, value_uint as wire_value_uint, signed_word, array, as_4, as_16, byte_at,
  put_bytes_from, put_octets,
}
use otelcol_exporter_netflow.Wire.Model.{
  is_valid_field, is_absolute_time_field, same_bytes, byte_len, uint_value_of,
}
use otelcol_exporter_netflow.Wire.Netflow5.Emit.{
  value_uint, write_header, write_ipv4, number8, number16, number32, uptime32, write_record,
  write_message,
}
use otelcol_exporter_netflow.Wire.Netflow5.{
  validate_header, validate_record, validate_records, validate,
}

abbrev shape : Shape
shape = record {
  protocol = v5;
  family = ipv4;
  id = 1;
  fields = builtin_v5_exact_fields;
  record_length = 48;
  template_bytes = 0;
}

abbrev header_of : ℕ → HeaderMetadata
header_of count = record {
  protocol = v5;
  sequence = 7;
  observation_domain_id = 0;
  source_id = 0;
  engine_type = 0;
  engine_id = 0;
  sampling_mode = 0;
  sampling_interval = 0;
  count = count;
  export_time_unix_nanos = 3000000000;
  uptime_origin_unix_nanos = 1000000000;
  has_uptime_origin = true;
}

abbrev number : ℕ → Value
number n = record zero_value { kind = uint; uint_value = n }

abbrev address : ℕ → Value
address n = record zero_value { kind = ip; ip = addr4 (10 ∷ 0 ∷ 0 ∷ n ∷ []) }

abbrev time : ℕ → Value
time n = record zero_value { kind = unix_nanos; uint_value = n }

-- A flow of two packets, within the uptime.
abbrev flow : WireRecord
flow = record {
  family = ipv4;
  values =
      address 1
      ∷ address 2
      ∷ address 3
      ∷ number 4
      ∷ number 5
      ∷ number 2
      ∷ number 1500
      ∷ time 1500000000
      ∷ time 2000000000
      ∷ number 443
      ∷ number 50000
      ∷ number 0
      ∷ number 16
      ∷ number 6
      ∷ number 0
      ∷ number 64512
      ∷ number 64513
      ∷ number 24
      ∷ number 16
      ∷ number 0
      ∷ [];
}

abbrev request : PacketRequest
request = record {
  header = header_of 1;
  shape = shape;
  records = flow ∷ [];
  template_records = 0;
  template_bytes = 0;
  data_bytes = 0;
  max_datagram_bytes = 1400;
}

abbrev buffer : List ℕ
buffer = replicate 80 170

request_written : (write format buffer request).1 ≡ ok 72
unfolding between lead_byte next_byte utf8_from valid_utf8 validate_unix_nanos no_int no_uint
    no_text no_octets no_ip mac_is_zero validate_kind validate_value validate_value_for_family
    validate_values wire_validate_record checked_add checked_mul validate_source is_listed_encoding
    validate_encoding validate_v5 differ validate_v9 validate_ipfix validate_protocol_rules
    is_text_or_octets validate_widths validate_descriptor minimum_length kind_is_uint
    kind_is_unix_nanos kind_is_bytes kind_is_ip natural_fits unsigned_fits timestamp_fits
    unsigned_fits_descriptor signed_in_range signed_fits fits_encoding fixed_length checked_length
    content_length to_uint64 variable_length value_length same_bool same_descriptor v5_field
    builtin_v5_exact_fields same_fields is_exact_v5_shape same_identity is_among check_fields
    specifier_width template_bytes_from template_bytes_for is_unknown_protocol is_unknown_family
    check_shape_bounds template_matches validate_shape has_variable_fields record_length_from
    trusted_record_size record_size padding_for encoded_set filled_set empty_set
    data_set_size_for_encoded records_bytes_from trusted_data_set_size data_set_size
    validate_payload_length wire_validate_header check_counts template_product check_templates
    check_data message_length preflight validate_data_packet_request new remaining advance
    write_byte write_uint8 write_uint16 write_uint32 write_uint64 reserve copy skip put8 put16 put32
    put64 put_copy put_string put_each put_zeros ◌and◌ write admit_begin opened begin require_active
    admit_record appended append admit_finish finished finish elapsed_milliseconds wire_value_uint
    signed_word array as_4 as_16 byte_at put_bytes_from put_octets is_valid_field
    is_absolute_time_field same_bytes byte_len uint_value_of value_uint write_header write_ipv4
    number8 number16 number32 uptime32 write_record write_message validate_header validate_record
    validate_records validate append_each stream
request_written = refl

v5_write-Written_example : Written format layout buffer request 72
v5_write-Written_example = v5_write-Written buffer request 72 refl request_written

abbrev data_request : DataPacketRequest
data_request = record {
  header = header_of 0;
  shape = shape;
  max_datagram_bytes = 1400;
  max_records = 0;
}

abbrev one_record : List WireRecord
one_record = flow ∷ []

record_streamed : (stream format buffer data_request one_record reset).1 ≡ ok 72
unfolding between lead_byte next_byte utf8_from valid_utf8 validate_unix_nanos no_int no_uint
    no_text no_octets no_ip mac_is_zero validate_kind validate_value validate_value_for_family
    validate_values wire_validate_record checked_add checked_mul validate_source is_listed_encoding
    validate_encoding validate_v5 differ validate_v9 validate_ipfix validate_protocol_rules
    is_text_or_octets validate_widths validate_descriptor minimum_length kind_is_uint
    kind_is_unix_nanos kind_is_bytes kind_is_ip natural_fits unsigned_fits timestamp_fits
    unsigned_fits_descriptor signed_in_range signed_fits fits_encoding fixed_length checked_length
    content_length to_uint64 variable_length value_length same_bool same_descriptor v5_field
    builtin_v5_exact_fields same_fields is_exact_v5_shape same_identity is_among check_fields
    specifier_width template_bytes_from template_bytes_for is_unknown_protocol is_unknown_family
    check_shape_bounds template_matches validate_shape has_variable_fields record_length_from
    trusted_record_size record_size padding_for encoded_set filled_set empty_set
    data_set_size_for_encoded records_bytes_from trusted_data_set_size data_set_size
    validate_payload_length wire_validate_header check_counts template_product check_templates
    check_data message_length preflight validate_data_packet_request new remaining advance
    write_byte write_uint8 write_uint16 write_uint32 write_uint64 reserve copy skip put8 put16 put32
    put64 put_copy put_string put_each put_zeros ◌and◌ write admit_begin opened begin require_active
    admit_record appended append admit_finish finished finish elapsed_milliseconds wire_value_uint
    signed_word array as_4 as_16 byte_at put_bytes_from put_octets is_valid_field
    is_absolute_time_field same_bytes byte_len uint_value_of value_uint write_header write_ipv4
    number8 number16 number32 uptime32 write_record write_message validate_header validate_record
    validate_records validate append_each stream
record_streamed = refl

v5_write-stream_example :
    write format buffer (request_of data_request one_record)
    ≡ ((stream format buffer data_request one_record reset).0.dst, ok 72)
v5_write-stream_example = v5_write-stream buffer data_request one_record reset 72 record_streamed
