-- ===== src/Wire/Ipfix.antt =====
-- internal/wire/ipfix: the IPFIX writer, with its checks.
pub mod Time
pub mod Emit
pub mod Bytes
pub mod Messages
pub mod Writer
pub mod RoundTrip
mod Runs
use otelcol_exporter_netflow.Common.{
  ℕ, ◌+◌, ◌/◌, ◌%◌, ◌^◌, Bool, true, false, ◌||◌, not, List, [], ◌∷◌, replicate, ltb, ◌==◌,
  if◌then◌else◌,
}
use otelcol_exporter_netflow.Common.BigEndian.{u16_bytes}
use otelcol_exporter_netflow.Common.Result.{Result, ok, err, ◌>>=◌, ◌>>◌, reject_if}
use otelcol_exporter_netflow.Wire.Model.{
  ipfix, same_protocol, WireRecord, HeaderMetadata, FieldDescriptor, same_encoding,
  date_time_nanoseconds, ContractError, invalid_header, invalid_shape, invalid_descriptor,
}
use otelcol_exporter_netflow.Wire.Shapes.{Shape}
use otelcol_exporter_netflow.Wire.Sizes.{PacketRequest, DataSetSize}
use otelcol_exporter_netflow.Wire.Cursor.{place}
use otelcol_exporter_netflow.Wire.Encode.{nanos_per_second, max_uint32, value_at}
use otelcol_exporter_netflow.Wire.Ipfix.Time.{ntp_timestamp}
use otelcol_exporter_netflow.Wire.Ipfix.Emit.{write_message, write_front, write_data_record}
use otelcol_exporter_netflow.Wire.Stream.{Format}

unfoldable pub validate_header : HeaderMetadata → Result ContractError (Unit {0})
validate_header h = do
  reject_if
      (not (h.source_id == 0)
        || not (h.engine_type == 0)
        || not (h.engine_id == 0)
        || not (h.sampling_mode == 0)
        || not (h.sampling_interval == 0))
      invalid_header
  reject_if (ltb max_uint32 (h.export_time_unix_nanos / nanos_per_second)) invalid_header

unfoldable pub validate_field_time :
    WireRecord → ℕ → FieldDescriptor → Result ContractError (Unit {0})
validate_field_time r i d =
    if same_encoding d.encoding date_time_nanoseconds
    then (ntp_timestamp (value_at r i).uint_value >>= λ _. ok tt)
    else ok tt

-- The loop of validateRecord, from the index of the first field on.
unfoldable pub validate_fields :
    WireRecord → ℕ → List FieldDescriptor → Result ContractError (Unit {0})
unfolding validate_field_time
validate_fields r i [] = ok tt
validate_fields r i (d ∷ ds) =
    let rest = validate_fields r (i + 1) ds in do validate_field_time r i d; rest

unfoldable pub validate_record : Shape → WireRecord → Result ContractError (Unit {0})
unfolding validate_fields
validate_record s r = validate_fields r 0 s.fields

-- Custom fields stand behind the others; `seen_custom` is whether there was one already.
unfoldable pub custom_last : Bool → List FieldDescriptor → Result ContractError (Unit {0})
custom_last seen_custom [] = ok tt
custom_last seen_custom (d ∷ ds) =
    let rest = custom_last (seen_custom || d.custom) ds in
    if d.custom then rest else if seen_custom then err invalid_descriptor else rest

unfoldable pub validate_shape_ordering : Shape → Result ContractError (Unit {0})
unfolding custom_last
validate_shape_ordering s = custom_last false s.fields

unfoldable pub validate_records : Shape → List WireRecord → Result ContractError (Unit {0})
validate_records s [] = ok tt
validate_records s (r ∷ rs) = let rest = validate_records s rs in do validate_record s r; rest

unfoldable pub validate : PacketRequest → Result ContractError (Unit {0})
validate req = do
  validate_header req.header
  reject_if (not (same_protocol req.shape.protocol ipfix)) invalid_shape
  validate_shape_ordering req.shape
  validate_records req.shape req.records

-- The length of the set goes to bytes 18:20, and the padding behind the records.
unfoldable pub close_set : ℕ → DataSetSize → List ℕ → List ℕ
close_set end size dst =
    place (place dst 18 (u16_bytes (size.length % 2 ^ 16))) end (replicate size.padding 0)

-- The package: its Writer and its dataPacketAppender.
abbrev pub format : Format
format = record {
  protocol = ipfix;
  header_length = 16;
  data_offset = 20;
  validate = validate;
  validate_header = validate_header;
  validate_shape = validate_shape_ordering;
  validate_record = λ h s r. validate_record s r;
  tests_wrap = false;
  write_message = write_message;
  write_front = write_front;
  write_record = λ h s r. write_data_record s r;
  header_word = λ records total. total % 2 ^ 16;
  close_set = close_set;
}
