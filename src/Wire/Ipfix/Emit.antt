-- ===== src/Wire/Ipfix/Emit.antt =====
-- internal/wire/ipfix/writer.go: what is written, in the order of the code.
use otelcol_exporter_netflow.Common.{
  bit_or, ℕ, zero, suc, ◌+◌, ◌/◌, ◌%◌, ◌^◌, List, [], ◌∷◌, length, ◌==◌, if◌then◌else◌,
}
use otelcol_exporter_netflow.Common.Int.{ℤ, pos, ltb as ltz}
use otelcol_exporter_netflow.Common.Result.{Result, ok, err}
use otelcol_exporter_netflow.Wire.Model.{
  Value, WireRecord, HeaderMetadata, FieldDescriptor, DescriptorEncoding, unsigned8, unsigned16,
  unsigned32, unsigned64, signed8, signed16, signed32, signed64, ipv4_address, ipv6_address,
  mac_address, octet_array, string, ContractError, date_time_nanoseconds, date_time_milliseconds,
  byte_len,
}
use otelcol_exporter_netflow.Wire.Ipfix.Time.{ntp_timestamp, unix_milliseconds}
use otelcol_exporter_netflow.Wire.Shapes.{Shape}
use otelcol_exporter_netflow.Wire.Sizes.{PacketRequest, DataSetSize, data_set_size}
use otelcol_exporter_netflow.Wire.Cursor.{
  Put, ◌>>◌, skip, put8, put16, put32, put64, put_copy, put_string, put_each, put_zeros,
}
use otelcol_exporter_netflow.Wire.Encode.{
  nanos_per_second, value_uint, value_at, signed_word, as_4, as_16, array, put_octets,
}

-- The header ends in the export time in seconds, the sequence and the domain.
unfoldable pub write_header : HeaderMetadata → ℕ → Put
write_header h length =
    put16 10
    >> put16 length
    >> put32 (h.export_time_unix_nanos / nanos_per_second % 2 ^ 32)
    >> put32 h.sequence
    >> put32 h.observation_domain_id

-- An enterprise element has its bit set and its number behind the length.
unfoldable pub write_specifier : FieldDescriptor → Put
write_specifier d =
    put16 (if d.enterprise then bit_or d.id 0x8000 else d.id)
    >> put16 d.length
    >> (if d.enterprise then put32 d.pen else skip)

unfoldable pub write_template_set : Shape → Put
unfolding write_specifier
write_template_set s =
    put16 2
    >> put16 (s.template_bytes % 2 ^ 16)
    >> put16 s.id
    >> put16 (length s.fields % 2 ^ 16)
    >> put_each write_specifier s.fields

abbrev pub or_zero : Result ContractError ℕ → ℕ
or_zero (ok n) = n
or_zero (err e) = 0

-- The length in front of a variable value.
unfoldable pub write_length : ℤ → Put
write_length n =
    if ltz n (pos 255) then put8 (signed_word 8 n) else put8 255 >> put16 (signed_word 16 n)

unfoldable pub write_string : FieldDescriptor → Value → Put
unfolding write_length
write_string d v =
    if d.variable
    then write_length (pos (length v.text)) >> put_string v.text
    else put_string v.text

unfoldable pub write_octets : FieldDescriptor → Value → Put
unfolding write_length
write_octets d v = (if d.variable then write_length (byte_len v) else skip) >> put_octets v

unfoldable pub write_encoded : FieldDescriptor → DescriptorEncoding → Value → Put
unfolding write_string write_octets ntp_timestamp unix_milliseconds
write_encoded d unsigned8 v = put8 (value_uint v % 2 ^ 8)
write_encoded d unsigned16 v = put16 (value_uint v % 2 ^ 16)
write_encoded d unsigned32 v = put32 (value_uint v % 2 ^ 32)
write_encoded d unsigned64 v = put64 (value_uint v)
write_encoded d signed8 v = put8 (signed_word 8 v.int_value)
write_encoded d signed16 v = put16 (signed_word 16 v.int_value)
write_encoded d signed32 v = put32 (signed_word 32 v.int_value)
write_encoded d signed64 v = put64 (signed_word 64 v.int_value)
write_encoded d ipv4_address v = put_copy (as_4 v.ip)
write_encoded d ipv6_address v = put_copy (as_16 v.ip)
write_encoded d mac_address v = put_copy (array 6 v.mac)
write_encoded d string v = write_string d v
write_encoded d octet_array v = write_octets d v
write_encoded d date_time_nanoseconds v = put64 (or_zero (ntp_timestamp v.uint_value))
write_encoded d date_time_milliseconds v = put64 (or_zero (unix_milliseconds v.uint_value))
write_encoded d other v = skip

unfoldable pub write_value : FieldDescriptor → Value → Put
unfolding write_encoded
write_value d v = write_encoded d d.encoding v

-- The loop over the fields, from the index of the first one on.
unfoldable pub write_fields : WireRecord → ℕ → List FieldDescriptor → Put
write_fields r i [] = skip
write_fields r i (d ∷ ds) = write_value d (value_at r i) >> write_fields r (i + 1) ds

unfoldable pub write_data_record : Shape → WireRecord → Put
unfolding write_fields
write_data_record s r = write_fields r 0 s.fields

unfoldable pub write_set_header : Shape → ℕ → Put
write_set_header s size = put16 s.id >> put16 (size % 2 ^ 16)

unfoldable pub write_data_set : Shape → List WireRecord → DataSetSize → Put
unfolding write_set_header
write_data_set s rs size =
    write_set_header s size.length >> put_each (write_data_record s) rs >> put_zeros size.padding

-- `for i := 0; i < TemplateRecords; i++ { writeTemplateSet }`
unfoldable pub write_templates : ℕ → Shape → Put
write_templates zero s = skip
write_templates (suc n) s = write_template_set s >> write_templates n s

-- `size, _ := request.Shape.DataSetSize(request.Records)`
abbrev pub size_or_zero : Result ContractError DataSetSize → DataSetSize
size_or_zero (ok size) = size
size_or_zero (err e) = record { length = 0; padding = 0 }

-- The body of Write.
unfoldable pub write_message : PacketRequest → ℕ → Put
write_message req n =
    write_header req.header (n % 2 ^ 16)
    >> write_templates req.template_records req.shape
    >> (if length req.records == 0
        then skip
        else write_data_set req.shape req.records
            (size_or_zero (data_set_size req.shape req.records)))

-- What Begin writes.
unfoldable pub write_front : HeaderMetadata → Shape → Put
write_front h s = write_header h 0 >> write_set_header s 0
