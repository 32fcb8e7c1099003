-- ===== src/Wire/Netflow9/Emit.antt =====
-- internal/wire/netflow9/writer.go: what is written, in the order of the code.
use otelcol_exporter_netflow.Common.{
  ℕ, zero, suc, ◌+◌, ◌/◌, ◌%◌, ◌^◌, Bool, ◌||◌, List, [], ◌∷◌, length, ◌==◌, if◌then◌else◌,
}
use otelcol_exporter_netflow.Common.Result.{Result, ok, err}
use otelcol_exporter_netflow.Wire.Field
use otelcol_exporter_netflow.Wire.Model.{
  Value, WireRecord, HeaderMetadata, FieldDescriptor, DescriptorEncoding, unsigned8, unsigned16,
  unsigned32, unsigned64, signed8, signed16, signed32, signed64, ipv4_address, ipv6_address,
  mac_address, octet_array, string, ContractError,
}
use otelcol_exporter_netflow.Wire.Shapes.{Shape}
use otelcol_exporter_netflow.Wire.Sizes.{PacketRequest, DataSetSize, data_set_size}
use otelcol_exporter_netflow.Wire.Cursor.{
  Put, ◌>>◌, skip, put8, put16, put32, put64, put_copy, put_string, put_each, put_zeros,
}
use otelcol_exporter_netflow.Wire.Encode.{
  nanos_per_second, elapsed_milliseconds, value_uint, value_at, signed_word, as_4, as_16, array,
  put_octets,
}

unfoldable pub write_header : HeaderMetadata → ℕ → Put
write_header h count =
    put16 9
    >> put16 count
    >> put32 ((elapsed_milliseconds h.export_time_unix_nanos h.uptime_origin_unix_nanos).0 % 2 ^ 32)
    >> put32 (h.export_time_unix_nanos / nanos_per_second % 2 ^ 32)
    >> put32 h.sequence
    >> put32 h.source_id

unfoldable pub write_specifier : FieldDescriptor → Put
write_specifier d = put16 d.id >> put16 d.length

unfoldable pub write_template_flow_set : Shape → Put
unfolding write_specifier
write_template_flow_set s =
    put16 0
    >> put16 (s.template_bytes % 2 ^ 16)
    >> put16 s.id
    >> put16 (length s.fields % 2 ^ 16)
    >> put_each write_specifier s.fields

abbrev pub is_flow_time : FieldDescriptor → Bool
is_flow_time d = d.field == Field.start || d.field == Field.end

unfoldable pub write_encoded : DescriptorEncoding → Value → Put
write_encoded unsigned8 v = put8 (value_uint v % 2 ^ 8)
write_encoded unsigned16 v = put16 (value_uint v % 2 ^ 16)
write_encoded unsigned32 v = put32 (value_uint v % 2 ^ 32)
write_encoded unsigned64 v = put64 (value_uint v)
write_encoded signed8 v = put8 (signed_word 8 v.int_value)
write_encoded signed16 v = put16 (signed_word 16 v.int_value)
write_encoded signed32 v = put32 (signed_word 32 v.int_value)
write_encoded signed64 v = put64 (signed_word 64 v.int_value)
write_encoded ipv4_address v = put_copy (as_4 v.ip)
write_encoded ipv6_address v = put_copy (as_16 v.ip)
write_encoded mac_address v = put_copy (array 6 v.mac)
write_encoded string v = put_string v.text
write_encoded octet_array v = put_octets v
write_encoded other v = skip

-- Flow times are relative to the origin of the uptime.
unfoldable pub write_value : ℕ → FieldDescriptor → Value → Put
unfolding write_encoded
write_value origin d v =
    if is_flow_time d
    then put32 ((elapsed_milliseconds v.uint_value origin).0 % 2 ^ 32)
    else write_encoded d.encoding v

-- The loop over the fields, from the index of the first one on.
unfoldable pub write_fields : ℕ → WireRecord → ℕ → List FieldDescriptor → Put
write_fields origin r i [] = skip
write_fields origin r i (d ∷ ds) =
    write_value origin d (value_at r i) >> write_fields origin r (i + 1) ds

unfoldable pub write_data_record : ℕ → Shape → WireRecord → Put
unfolding write_fields
write_data_record origin s r = write_fields origin r 0 s.fields

unfoldable pub write_set_header : Shape → ℕ → Put
write_set_header s size = put16 s.id >> put16 (size % 2 ^ 16)

unfoldable pub write_data_flow_set : ℕ → Shape → List WireRecord → DataSetSize → Put
unfolding write_set_header
write_data_flow_set origin s rs size =
    write_set_header s size.length
    >> put_each (write_data_record origin s) rs
    >> put_zeros size.padding

-- `for i := 0; i < TemplateRecords; i++ { writeTemplateFlowSet }`
unfoldable pub write_templates : ℕ → Shape → Put
write_templates zero s = skip
write_templates (suc n) s = write_template_flow_set s >> write_templates n s

-- `size, _ := request.Shape.DataSetSize(request.Records)`
abbrev pub size_or_zero : Result ContractError DataSetSize → DataSetSize
size_or_zero (ok size) = size
size_or_zero (err e) = record { length = 0; padding = 0 }

-- The body of Write.
unfoldable pub write_message : PacketRequest → ℕ → Put
write_message req n =
    write_header req.header req.header.count
    >> write_templates req.template_records req.shape
    >> (if length req.records == 0
        then skip
        else write_data_flow_set req.header.uptime_origin_unix_nanos req.shape req.records
            (size_or_zero (data_set_size req.shape req.records)))

-- What Begin writes.
unfoldable pub write_front : HeaderMetadata → Shape → Put
write_front h s = write_header h 0 >> write_set_header s 0
