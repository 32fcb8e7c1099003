-- ===== src/Wire/Netflow9/Runs.antt =====
-- Concrete NetFlow v9 requests on which the theorems about the writer apply.
use otelcol_exporter_netflow.Common.{arith, ℕ, ◌≡◌, refl, true, false, List, [], ◌∷◌, replicate}
use otelcol_exporter_netflow.Common.Result.{ok}
use otelcol_exporter_netflow.Wire.Field
use otelcol_exporter_netflow.Wire.Model.{
  v9, ipv4, unsigned32, uint, unix_nanos, FieldDescriptor, HeaderMetadata, WireRecord, zero_value,
}
use otelcol_exporter_netflow.Wire.Shapes.{Shape}
use otelcol_exporter_netflow.Wire.Sizes.{PacketRequest}
use otelcol_exporter_netflow.Wire.Preflight.{DataPacketRequest}
use otelcol_exporter_netflow.Wire.Stream.{reset}
use otelcol_exporter_netflow.Wire.Stream.Packet.{append_each}
use otelcol_exporter_netflow.Wire.Stream.Slice.{Written}
use otelcol_exporter_netflow.Wire.Stream.Equivalence.{stream}
use otelcol_exporter_netflow.Wire.Stream.Accepted.{request_of}
use otelcol_exporter_netflow.Wire.Netflow9.{format}
use otelcol_exporter_netflow.Wire.Netflow9.Messages.{layout}
use otelcol_exporter_netflow.Wire.Encode.{value_at}
use otelcol_exporter_netflow.Wire.Cursor.Written.{written}
use otelcol_exporter_netflow.Wire.Netflow9.FlowTimes.{IsUptime, write_value-IsUptime}
use otelcol_exporter_netflow.Wire.Netflow9.Writer.{v9_write-Written, v9_write-stream}
use otelcol_exporter_netflow.Wire.Values.{
  between, lead_byte, next_byte, utf8_from, valid_utf8, validate_unix_nanos, no_int, no_uint,
  no_text, no_octets, no_ip, mac_is_zero, validate_kind, validate_value, validate_value_for_family,
  validate_values, validate_record,
}
use otelcol_exporter_netflow.Wire.Descriptors.{
  checked_add, checked_mul, validate_source, is_listed_encoding, validate_encoding, validate_v5,
  differ, validate_v9, validate_ipfix, validate_protocol_rules, is_text_or_octets, validate_widths,
  validate_descriptor, minimum_length,
}
use otelcol_exporter_netflow.Wire.Widths.{
  kind_is_uint, kind_is_unix_nanos, kind_is_bytes, kind_is_ip, natural_fits, unsigned_fits,
  timestamp_fits, unsigned_fits_descriptor, signed_in_range, signed_fits, fits_encoding,
  fixed_length, checked_length, content_length, to_uint64, variable_length, value_length,
}
use otelcol_exporter_netflow.Wire.Shapes.{
  same_bool, same_descriptor, v5_field, builtin_v5_exact_fields, same_fields, is_exact_v5_shape,
  same_identity, is_among, check_fields, specifier_width, template_bytes_from, template_bytes_for,
  is_unknown_protocol, is_unknown_family, check_shape_bounds, template_matches, validate_shape,
  has_variable_fields,
}
use otelcol_exporter_netflow.Wire.Sizes.{
  record_length_from, trusted_record_size, record_size, padding_for, encoded_set, filled_set,
  empty_set, data_set_size_for_encoded, records_bytes_from, trusted_data_set_size, data_set_size,
  validate_payload_length, validate_header as wire_validate_header,
}
use otelcol_exporter_netflow.Wire.Preflight.{
  check_counts, template_product, check_templates, check_data, message_length, preflight,
  validate_data_packet_request,
}
use otelcol_exporter_netflow.Wire.Cursor.{
  Cursor, ◌>>◌ as ◌and◌, new, remaining, advance, write_byte, write_uint8, write_uint16,
  write_uint32, write_uint64, reserve, copy, skip, put8, put16, put32, put64, put_copy, put_string,
  put_each, put_zeros,
}
use otelcol_exporter_netflow.Wire.Stream.{
  write, admit_begin, opened, begin, require_active, admit_record, appended, append, admit_finish,
  finished, finish,
}
use otelcol_exporter_netflow.Wire.Encode.{
  elapsed_milliseconds, value_uint, signed_word, array, as_4, as_16, byte_at, put_bytes_from,
  put_octets,
}
use otelcol_exporter_netflow.Wire.Model.{
  is_valid_field, is_absolute_time_field, same_bytes, byte_len, uint_value_of,
}
use otelcol_exporter_netflow.Wire.Netflow9.Emit.{
  write_header, write_specifier, write_template_flow_set, write_encoded, write_value, write_fields,
  write_data_record, write_set_header, write_data_flow_set, write_templates, write_message,
  write_front,
}
use otelcol_exporter_netflow.Wire.Netflow9.{
  validate_header, validate_binding, validate_bindings, validate_shape_bindings, in_order,
  time_of_field, record_times, validate_record_time, validate_record_times, validate, close_set,
}

abbrev bytes_field : FieldDescriptor
bytes_field = record {
  protocol = v9;
  field = Field.io_bytes;
  source = [];
  custom = false;
  constant = false;
  id = 1;
  pen = 0;
  enterprise = false;
  private = false;
  length = 4;
  variable = false;
  max_length = 0;
  encoding = unsigned32;
}

abbrev shape : Shape
shape = record {
  protocol = v9;
  family = ipv4;
  id = 256;
  fields = bytes_field ∷ [];
  record_length = 4;
  template_bytes = 12;
}

abbrev header_of : ℕ → HeaderMetadata
header_of count = record {
  protocol = v9;
  sequence = 7;
  observation_domain_id = 0;
  source_id = 1;
  engine_type = 0;
  engine_id = 0;
  sampling_mode = 0;
  sampling_interval = 0;
  count = count;
  export_time_unix_nanos = 3000000000;
  uptime_origin_unix_nanos = 1000000000;
  has_uptime_origin = true;
}

abbrev record_of : ℕ → WireRecord
record_of n = record {
  family = ipv4;
  values = record zero_value { kind = uint; uint_value = n } ∷ [];
}

-- A template and two records.
abbrev request : PacketRequest
request = record {
  header = header_of 3;
  shape = shape;
  records = record_of 1500 ∷ record_of 70000 ∷ [];
  template_records = 1;
  template_bytes = 12;
  data_bytes = 0;
  max_datagram_bytes = 1400;
}

abbrev buffer : List ℕ
buffer = replicate 50 170

request_written : (write format buffer request).1 ≡ ok 44
unfolding between lead_byte next_byte utf8_from valid_utf8 validate_unix_nanos no_int no_uint
    no_text no_octets no_ip mac_is_zero validate_kind validate_value validate_value_for_family
    validate_values validate_record checked_add checked_mul validate_source is_listed_encoding
    validate_encoding validate_v5 differ validate_v9 validate_ipfix validate_protocol_rules
    is_text_or_octets validate_widths validate_descriptor minimum_length kind_is_uint
    kind_is_unix_nanos kind_is_bytes kind_is_ip natural_fits unsigned_fits timestamp_fits
    unsigned_fits_descriptor signed_in_range signed_fits fits_encoding fixed_length checked_length
    content_length to_uint64 variable_length value_length same_bool same_descriptor v5_field
    builtin_v5_exact_fields same_fields is_exact_v5_shape same_identity is_among check_fields
    specifier_width template_bytes_from template_bytes_for is_unknown_protocol is_unknown_family
    check_shape_bounds template_matches validate_shape has_variable_fields record_length_from
    trusted_record_size record_size padding_for encoded_set filled_set empty_set
    data_set_size_for_encoded records_bytes_from trusted_data_set_size data_set_size
    validate_payload_length wire_validate_header check_counts template_product check_templates
    check_data message_length preflight validate_data_packet_request new remaining advance
    write_byte write_uint8 write_uint16 write_uint32 write_uint64 reserve copy skip put8 put16 put32
    put64 put_copy put_string put_each put_zeros ◌and◌ write admit_begin opened begin require_active
    admit_record appended append admit_finish finished finish elapsed_milliseconds value_uint
    signed_word array as_4 as_16 byte_at put_bytes_from put_octets is_valid_field
    is_absolute_time_field same_bytes byte_len uint_value_of write_header write_specifier
    write_template_flow_set write_encoded write_value write_fields write_data_record
    write_set_header write_data_flow_set write_templates write_message write_front validate_header
    validate_binding validate_bindings validate_shape_bindings in_order time_of_field record_times
    validate_record_time validate_record_times validate close_set append_each stream
request_written = refl

v9_write-Written_example : Written format layout buffer request 44
v9_write-Written_example = v9_write-Written buffer request 44 request_written

abbrev data_request : DataPacketRequest
data_request = record {
  header = header_of 0;
  shape = shape;
  max_datagram_bytes = 1400;
  max_records = 0;
}

abbrev two_records : List WireRecord
two_records = record_of 1500 ∷ record_of 70000 ∷ []

records_streamed : (stream format buffer data_request two_records reset).1 ≡ ok 32
unfolding between lead_byte next_byte utf8_from valid_utf8 validate_unix_nanos no_int no_uint
    no_text no_octets no_ip mac_is_zero validate_kind validate_value validate_value_for_family
    validate_values validate_record checked_add checked_mul validate_source is_listed_encoding
    validate_encoding validate_v5 differ validate_v9 validate_ipfix validate_protocol_rules
    is_text_or_octets validate_widths validate_descriptor minimum_length kind_is_uint
    kind_is_unix_nanos kind_is_bytes kind_is_ip natural_fits unsigned_fits timestamp_fits
    unsigned_fits_descriptor signed_in_range signed_fits fits_encoding fixed_length checked_length
    content_length to_uint64 variable_length value_length same_bool same_descriptor v5_field
    builtin_v5_exact_fields same_fields is_exact_v5_shape same_identity is_among check_fields
    specifier_width template_bytes_from template_bytes_for is_unknown_protocol is_unknown_family
    check_shape_bounds template_matches validate_shape has_variable_fields record_length_from
    trusted_record_size record_size padding_for encoded_set filled_set empty_set
    data_set_size_for_encoded records_bytes_from trusted_data_set_size data_set_size
    validate_payload_length wire_validate_header check_counts template_product check_templates
    check_data message_length preflight validate_data_packet_request new remaining advance
    write_byte write_uint8 write_uint16 write_uint32 write_uint64 reserve copy skip put8 put16 put32
    put64 put_copy put_string put_each put_zeros ◌and◌ write admit_begin opened begin require_active
    admit_record appended append admit_finish finished finish elapsed_milliseconds value_uint
    signed_word array as_4 as_16 byte_at put_bytes_from put_octets is_valid_field
    is_absolute_time_field same_bytes byte_len uint_value_of write_header write_specifier
    write_template_flow_set write_encoded write_value write_fields write_data_record
    write_set_header write_data_flow_set write_templates write_message write_front validate_header
    validate_binding validate_bindings validate_shape_bindings in_order time_of_field record_times
    validate_record_time validate_record_times validate close_set append_each stream
records_streamed = refl

v9_write-stream_example :
    write format buffer (request_of data_request two_records)
    ≡ ((stream format buffer data_request two_records reset).0.dst, ok 32)
v9_write-stream_example = v9_write-stream buffer data_request two_records reset 32 records_streamed

abbrev start_field : FieldDescriptor
start_field = record bytes_field { field = Field.start; id = 22 }

abbrev timed : Shape
timed = record shape {
  fields = bytes_field ∷ start_field ∷ [];
  record_length = 8;
  template_bytes = 16;
}

-- A flow that begins half a second after the origin.
abbrev flow : WireRecord
flow = record {
  family = ipv4;
  values =
      record zero_value { kind = uint; uint_value = 1500 }
      ∷ record zero_value { kind = unix_nanos; uint_value = 1500000000 }
      ∷ [];
}

flow_taken : validate_record_time timed flow 1000000000 2000 ≡ ok tt
unfolding between lead_byte next_byte utf8_from valid_utf8 validate_unix_nanos no_int no_uint
    no_text no_octets no_ip mac_is_zero validate_kind validate_value validate_value_for_family
    validate_values validate_record checked_add checked_mul validate_source is_listed_encoding
    validate_encoding validate_v5 differ validate_v9 validate_ipfix validate_protocol_rules
    is_text_or_octets validate_widths validate_descriptor minimum_length kind_is_uint
    kind_is_unix_nanos kind_is_bytes kind_is_ip natural_fits unsigned_fits timestamp_fits
    unsigned_fits_descriptor signed_in_range signed_fits fits_encoding fixed_length checked_length
    content_length to_uint64 variable_length value_length same_bool same_descriptor v5_field
    builtin_v5_exact_fields same_fields is_exact_v5_shape same_identity is_among check_fields
    specifier_width template_bytes_from template_bytes_for is_unknown_protocol is_unknown_family
    check_shape_bounds template_matches validate_shape has_variable_fields record_length_from
    trusted_record_size record_size padding_for encoded_set filled_set empty_set
    data_set_size_for_encoded records_bytes_from trusted_data_set_size data_set_size
    validate_payload_length wire_validate_header check_counts template_product check_templates
    check_data message_length preflight validate_data_packet_request new remaining advance
    write_byte write_uint8 write_uint16 write_uint32 write_uint64 reserve copy skip put8 put16 put32
    put64 put_copy put_string put_each put_zeros ◌and◌ write admit_begin opened begin require_active
    admit_record appended append admit_finish finished finish elapsed_milliseconds value_uint
    signed_word array as_4 as_16 byte_at put_bytes_from put_octets is_valid_field
    is_absolute_time_field same_bytes byte_len uint_value_of write_header write_specifier
    write_template_flow_set write_encoded write_value write_fields write_data_record
    write_set_header write_data_flow_set write_templates write_message write_front validate_header
    validate_binding validate_bindings validate_shape_bindings in_order time_of_field record_times
    validate_record_time validate_record_times validate close_set append_each stream
flow_taken = refl

write_value-IsUptime_example :
    let before : Cursor = record { buf = replicate 8 9; off = 2 } in
    let after = write_value 1000000000 start_field (value_at flow 1) before in
    (after.off ≡ 6) × IsUptime 1500000000 1000000000 2000 (written before after)
write_value-IsUptime_example =
    write_value-IsUptime timed flow 1000000000 2000 1 start_field
      (record { buf = replicate 8 9; off = 2 }) flow_taken refl refl (omega arith)
