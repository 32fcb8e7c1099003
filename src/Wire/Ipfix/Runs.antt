-- ===== src/Wire/Ipfix/Runs.antt =====
-- Concrete IPFIX requests on which the theorems about the writer apply.
use otelcol_exporter_netflow.Common.{
  ℕ, arith, ◌≡◌, refl, true, false, List, [], ◌∷◌, replicate, some,
}
use otelcol_exporter_netflow.Common.Int.{negsuc}
use otelcol_exporter_netflow.Common.Result.{ok}
use otelcol_exporter_netflow.Wire.Field
use otelcol_exporter_netflow.Wire.Model.{
  ipfix, ipv4, unsigned32, uint, int, signed16, Value, FieldDescriptor, HeaderMetadata, WireRecord,
  zero_value,
}
use otelcol_exporter_netflow.Wire.Shapes.{Shape}
use otelcol_exporter_netflow.Wire.Sizes.{PacketRequest}
use otelcol_exporter_netflow.Wire.Preflight.{DataPacketRequest}
use otelcol_exporter_netflow.Wire.Stream.{reset}
use otelcol_exporter_netflow.Wire.Stream.Packet.{append_each}
use otelcol_exporter_netflow.Wire.Stream.Slice.{Written}
use otelcol_exporter_netflow.Wire.Stream.Equivalence.{stream}
use otelcol_exporter_netflow.Wire.Stream.Accepted.{request_of}
use otelcol_exporter_netflow.Wire.Ipfix.{format}
use otelcol_exporter_netflow.Wire.Ipfix.Messages.{layout}
use otelcol_exporter_netflow.Common.BigEndian.{read}
use otelcol_exporter_netflow.Wire.Ipfix.Time.Rounding.{IsNearest, ntp_timestamp-IsNearest}
use otelcol_exporter_netflow.Wire.Cursor.Written.{written}
use otelcol_exporter_netflow.Wire.Ipfix.RoundTrip.{
  is_unsigned, signed_bits, signed_of, read-write_value, signed_of-write_value,
}
use otelcol_exporter_netflow.Wire.Ipfix.Writer.{ipfix_write-Written, ipfix_write-stream}
use otelcol_exporter_netflow.Wire.Values.{
  between, lead_byte, next_byte, utf8_from, valid_utf8, validate_unix_nanos, no_int, no_uint,
  no_text, no_octets, no_ip, mac_is_zero, validate_kind, validate_value, validate_value_for_family,
  validate_values, validate_record as wire_validate_record,
}
use otelcol_exporter_netflow.Wire.Descriptors.{
  checked_add, checked_mul, validate_source, is_listed_encoding, validate_encoding, validate_v5,
  differ, validate_v9, validate_ipfix, validate_protocol_rules, is_text_or_octets, validate_widths,
  validate_descriptor, minimum_length,
}
use otelcol_exporter_netflow.Wire.Widths.{
  kind_is_uint, kind_is_unix_nanos, kind_is_bytes, kind_is_ip, natural_fits, unsigned_fits,
  timestamp_fits, unsigned_fits_descriptor, signed_in_range, signed_fits, fits_encoding,
  fixed_length, checked_length, content_length, to_uint64, variable_length, value_length,
}
use otelcol_exporter_netflow.Wire.Shapes.{
  same_bool, same_descriptor, v5_field, builtin_v5_exact_fields, same_fields, is_exact_v5_shape,
  same_identity, is_among, check_fields, specifier_width, template_bytes_from, template_bytes_for,
  is_unknown_protocol, is_unknown_family, check_shape_bounds, template_matches, validate_shape,
  has_variable_fields,
}
use otelcol_exporter_netflow.Wire.Sizes.{
  record_length_from, trusted_record_size, record_size, padding_for, encoded_set, filled_set,
  empty_set, data_set_size_for_encoded, records_bytes_from, trusted_data_set_size, data_set_size,
  validate_payload_length, validate_header as wire_validate_header,
}
use otelcol_exporter_netflow.Wire.Preflight.{
  check_counts, template_product, check_templates, check_data, message_length, preflight,
  validate_data_packet_request,
}
use otelcol_exporter_netflow.Wire.Cursor.{
  Cursor, ◌>>◌ as ◌and◌, new, remaining, advance, write_byte, write_uint8, write_uint16,
  write_uint32, write_uint64, reserve, copy, skip, put8, put16, put32, put64, put_copy, put_string,
  put_each, put_zeros,
}
use otelcol_exporter_netflow.Wire.Stream.{
  write, admit_begin, opened, begin, require_active, admit_record, appended, append, admit_finish,
  finished, finish,
}
use otelcol_exporter_netflow.Wire.Encode.{
  elapsed_milliseconds, value_uint, signed_word, array, as_4, as_16, byte_at, put_bytes_from,
  put_octets,
}
use otelcol_exporter_netflow.Wire.Model.{
  is_valid_field, is_absolute_time_field, same_bytes, byte_len, uint_value_of,
}
use otelcol_exporter_netflow.Wire.Ipfix.Time.{ntp_timestamp, unix_milliseconds}
use otelcol_exporter_netflow.Wire.Ipfix.Emit.{
  write_header, write_specifier, write_template_set, write_length, write_string, write_octets,
  write_encoded, write_value, write_fields, write_data_record, write_set_header, write_data_set,
  write_templates, write_message, write_front,
}
use otelcol_exporter_netflow.Wire.Ipfix.{
  validate_header, validate_field_time, validate_fields, validate_record, custom_last,
  validate_shape_ordering, validate_records, validate, close_set,
}

abbrev bytes_field : FieldDescriptor
bytes_field = record {
  protocol = ipfix;
  field = Field.io_bytes;
  source = [];
  custom = false;
  constant = false;
  id = 1;
  pen = 0;
  enterprise = false;
  private = false;
  length = 4;
  variable = false;
  max_length = 0;
  encoding = unsigned32;
}

abbrev shape : Shape
shape = record {
  protocol = ipfix;
  family = ipv4;
  id = 256;
  fields = bytes_field ∷ [];
  record_length = 4;
  template_bytes = 12;
}

abbrev header_of : ℕ → HeaderMetadata
header_of count = record {
  protocol = ipfix;
  sequence = 7;
  observation_domain_id = 1;
  source_id = 0;
  engine_type = 0;
  engine_id = 0;
  sampling_mode = 0;
  sampling_interval = 0;
  count = count;
  export_time_unix_nanos = 3000000000;
  uptime_origin_unix_nanos = 1000000000;
  has_uptime_origin = true;
}

abbrev record_of : ℕ → WireRecord
record_of n = record {
  family = ipv4;
  values = record zero_value { kind = uint; uint_value = n } ∷ [];
}

-- A template and two records.
abbrev request : PacketRequest
request = record {
  header = header_of 0;
  shape = shape;
  records = record_of 1500 ∷ record_of 70000 ∷ [];
  template_records = 1;
  template_bytes = 12;
  data_bytes = 0;
  max_datagram_bytes = 1400;
}

abbrev buffer : List ℕ
buffer = replicate 50 170

request_written : (write format buffer request).1 ≡ ok 40
unfolding between lead_byte next_byte utf8_from valid_utf8 validate_unix_nanos no_int no_uint
    no_text no_octets no_ip mac_is_zero validate_kind validate_value validate_value_for_family
    validate_values wire_validate_record checked_add checked_mul validate_source is_listed_encoding
    validate_encoding validate_v5 differ validate_v9 validate_ipfix validate_protocol_rules
    is_text_or_octets validate_widths validate_descriptor minimum_length kind_is_uint
    kind_is_unix_nanos kind_is_bytes kind_is_ip natural_fits unsigned_fits timestamp_fits
    unsigned_fits_descriptor signed_in_range signed_fits fits_encoding fixed_length checked_length
    content_length to_uint64 variable_length value_length same_bool same_descriptor v5_field
    builtin_v5_exact_fields same_fields is_exact_v5_shape same_identity is_among check_fields
    specifier_width template_bytes_from template_bytes_for is_unknown_protocol is_unknown_family
    check_shape_bounds template_matches validate_shape has_variable_fields record_length_from
    trusted_record_size record_size padding_for encoded_set filled_set empty_set
    data_set_size_for_encoded records_bytes_from trusted_data_set_size data_set_size
    validate_payload_length wire_validate_header check_counts template_product check_templates
    check_data message_length preflight validate_data_packet_request new remaining advance
    write_byte write_uint8 write_uint16 write_uint32 write_uint64 reserve copy skip put8 put16 put32
    put64 put_copy put_string put_each put_zeros ◌and◌ write admit_begin opened begin require_active
    admit_record appended append admit_finish finished finish elapsed_milliseconds value_uint
    signed_word array as_4 as_16 byte_at put_bytes_from put_octets is_valid_field
    is_absolute_time_field same_bytes byte_len uint_value_of ntp_timestamp unix_milliseconds
    write_header write_specifier write_template_set write_length write_string write_octets
    write_encoded write_value write_fields write_data_record write_set_header write_data_set
    write_templates write_message write_front validate_header validate_field_time validate_fields
    validate_record custom_last validate_shape_ordering validate_records validate close_set
    append_each stream
request_written = refl

ipfix_write-Written_example : Written format layout buffer request 40
ipfix_write-Written_example = ipfix_write-Written buffer request 40 request_written

abbrev data_request : DataPacketRequest
data_request = record {
  header = header_of 0;
  shape = shape;
  max_datagram_bytes = 1400;
  max_records = 0;
}

abbrev two_records : List WireRecord
two_records = record_of 1500 ∷ record_of 70000 ∷ []

records_streamed : (stream format buffer data_request two_records reset).1 ≡ ok 28
unfolding between lead_byte next_byte utf8_from valid_utf8 validate_unix_nanos no_int no_uint
    no_text no_octets no_ip mac_is_zero validate_kind validate_value validate_value_for_family
    validate_values wire_validate_record checked_add checked_mul validate_source is_listed_encoding
    validate_encoding validate_v5 differ validate_v9 validate_ipfix validate_protocol_rules
    is_text_or_octets validate_widths validate_descriptor minimum_length kind_is_uint
    kind_is_unix_nanos kind_is_bytes kind_is_ip natural_fits unsigned_fits timestamp_fits
    unsigned_fits_descriptor signed_in_range signed_fits fits_encoding fixed_length checked_length
    content_length to_uint64 variable_length value_length same_bool same_descriptor v5_field
    builtin_v5_exact_fields same_fields is_exact_v5_shape same_identity is_among check_fields
    specifier_width template_bytes_from template_bytes_for is_unknown_protocol is_unknown_family
    check_shape_bounds template_matches validate_shape has_variable_fields record_length_from
    trusted_record_size record_size padding_for encoded_set filled_set empty_set
    data_set_size_for_encoded records_bytes_from trusted_data_set_size data_set_size
    validate_payload_length wire_validate_header check_counts template_product check_templates
    check_data message_length preflight validate_data_packet_request new remaining advance
    write_byte write_uint8 write_uint16 write_uint32 write_uint64 reserve copy skip put8 put16 put32
    put64 put_copy put_string put_each put_zeros ◌and◌ write admit_begin opened begin require_active
    admit_record appended append admit_finish finished finish elapsed_milliseconds value_uint
    signed_word array as_4 as_16 byte_at put_bytes_from put_octets is_valid_field
    is_absolute_time_field same_bytes byte_len uint_value_of ntp_timestamp unix_milliseconds
    write_header write_specifier write_template_set write_length write_string write_octets
    write_encoded write_value write_fields write_data_record write_set_header write_data_set
    write_templates write_message write_front validate_header validate_field_time validate_fields
    validate_record custom_last validate_shape_ordering validate_records validate close_set
    append_each stream
records_streamed = refl

ipfix_write-stream_example :
    write format buffer (request_of data_request two_records)
    ≡ ((stream format buffer data_request two_records reset).0.dst, ok 28)
ipfix_write-stream_example =
    ipfix_write-stream buffer data_request two_records reset 28 records_streamed

ntp_timestamp-IsNearest_example :
    (x : ℕ) × (ntp_timestamp 1500000000 ≡ ok x) × IsNearest 1500000000 x
ntp_timestamp-IsNearest_example = ntp_timestamp-IsNearest 1500000000 (omega arith)

abbrev volume : Value
volume = record zero_value { kind = uint; uint_value = 70000 }

volume_sound :
    (validate_descriptor bytes_field ≡ ok tt)
    × (value_length bytes_field volume ≡ ok 4)
    × (is_unsigned unsigned32 ≡ true)
    × (value_uint volume ≡ 70000)
    × (is_absolute_time_field bytes_field.field ≡ false)
unfolding is_unsigned between lead_byte next_byte utf8_from valid_utf8 validate_unix_nanos no_int
    no_uint no_text no_octets no_ip mac_is_zero validate_kind validate_value
    validate_value_for_family validate_values wire_validate_record checked_add checked_mul
    validate_source is_listed_encoding validate_encoding validate_v5 differ validate_v9
    validate_ipfix validate_protocol_rules is_text_or_octets validate_widths validate_descriptor
    minimum_length kind_is_uint kind_is_unix_nanos kind_is_bytes kind_is_ip natural_fits
    unsigned_fits timestamp_fits unsigned_fits_descriptor signed_in_range signed_fits fits_encoding
    fixed_length checked_length content_length to_uint64 variable_length value_length same_bool
    same_descriptor v5_field builtin_v5_exact_fields same_fields is_exact_v5_shape same_identity
    is_among check_fields specifier_width template_bytes_from template_bytes_for is_unknown_protocol
    is_unknown_family check_shape_bounds template_matches validate_shape has_variable_fields
    record_length_from trusted_record_size record_size padding_for encoded_set filled_set empty_set
    data_set_size_for_encoded records_bytes_from trusted_data_set_size data_set_size
    validate_payload_length wire_validate_header check_counts template_product check_templates
    check_data message_length preflight validate_data_packet_request new remaining advance
    write_byte write_uint8 write_uint16 write_uint32 write_uint64 reserve copy skip put8 put16 put32
    put64 put_copy put_string put_each put_zeros ◌and◌ write admit_begin opened begin require_active
    admit_record appended append admit_finish finished finish elapsed_milliseconds value_uint
    signed_word array as_4 as_16 byte_at put_bytes_from put_octets is_valid_field
    is_absolute_time_field same_bytes byte_len uint_value_of ntp_timestamp unix_milliseconds
    write_header write_specifier write_template_set write_length write_string write_octets
    write_encoded write_value write_fields write_data_record write_set_header write_data_set
    write_templates write_message write_front validate_header validate_field_time validate_fields
    validate_record custom_last validate_shape_ordering validate_records validate close_set
    append_each stream
volume_sound = (refl, refl, refl, refl, refl)

-- Eight bytes, of which two are written.
abbrev partly : Cursor
partly = record { buf = replicate 8 9; off = 2 }

read-write_value_example :
    let c = write_value bytes_field volume partly in
    (c.off ≡ 6) × (read (written partly c) ≡ value_uint volume)
read-write_value_example =
    read-write_value bytes_field volume 4 partly (volume_sound.0, refl) volume_sound.1
      volume_sound.2 volume_sound.4 (omega (arith, volume_sound.3)) (omega arith)

abbrev signed_field : FieldDescriptor
signed_field = record bytes_field { length = 2; encoding = signed16 }

abbrev offset : Value
offset = record zero_value { kind = int; int_value = negsuc 299 }

offset_sound :
    (validate_descriptor signed_field ≡ ok tt)
    × (value_length signed_field offset ≡ ok 2)
    × (signed_bits signed16 ≡ some 16)
    × (signed_in_range (negsuc 299) 64 ≡ true)
unfolding signed_bits between lead_byte next_byte utf8_from valid_utf8 validate_unix_nanos no_int
    no_uint no_text no_octets no_ip mac_is_zero validate_kind validate_value
    validate_value_for_family validate_values wire_validate_record checked_add checked_mul
    validate_source is_listed_encoding validate_encoding validate_v5 differ validate_v9
    validate_ipfix validate_protocol_rules is_text_or_octets validate_widths validate_descriptor
    minimum_length kind_is_uint kind_is_unix_nanos kind_is_bytes kind_is_ip natural_fits
    unsigned_fits timestamp_fits unsigned_fits_descriptor signed_in_range signed_fits fits_encoding
    fixed_length checked_length content_length to_uint64 variable_length value_length same_bool
    same_descriptor v5_field builtin_v5_exact_fields same_fields is_exact_v5_shape same_identity
    is_among check_fields specifier_width template_bytes_from template_bytes_for is_unknown_protocol
    is_unknown_family check_shape_bounds template_matches validate_shape has_variable_fields
    record_length_from trusted_record_size record_size padding_for encoded_set filled_set empty_set
    data_set_size_for_encoded records_bytes_from trusted_data_set_size data_set_size
    validate_payload_length wire_validate_header check_counts template_product check_templates
    check_data message_length preflight validate_data_packet_request new remaining advance
    write_byte write_uint8 write_uint16 write_uint32 write_uint64 reserve copy skip put8 put16 put32
    put64 put_copy put_string put_each put_zeros ◌and◌ write admit_begin opened begin require_active
    admit_record appended append admit_finish finished finish elapsed_milliseconds value_uint
    signed_word array as_4 as_16 byte_at put_bytes_from put_octets is_valid_field
    is_absolute_time_field same_bytes byte_len uint_value_of ntp_timestamp unix_milliseconds
    write_header write_specifier write_template_set write_length write_string write_octets
    write_encoded write_value write_fields write_data_record write_set_header write_data_set
    write_templates write_message write_front validate_header validate_field_time validate_fields
    validate_record custom_last validate_shape_ordering validate_records validate close_set
    append_each stream
offset_sound = (refl, refl, refl, refl)

signed_of-write_value_example :
    let c = write_value signed_field offset partly in
    (c.off ≡ 4) × (signed_of 16 (read (written partly c)) ≡ negsuc 299)
signed_of-write_value_example =
    signed_of-write_value signed_field offset 2 16 partly (offset_sound.0, refl) offset_sound.1
      offset_sound.2 offset_sound.3 (omega arith)
