-- ===== src/Wire/Netflow9.antt =====
-- internal/wire/netflow9: the NetFlow v9 writer, with its checks.
pub mod Emit
pub mod Bytes
pub mod Messages
pub mod Writer
pub mod FlowTimes
mod Runs
use otelcol_exporter_netflow.Common.{
  ℕ, ◌+◌, ◌/◌, ◌%◌, ◌^◌, Bool, true, false, ◌&&◌, ◌||◌, not, Option, none, some, List, [], ◌∷◌,
  length, replicate, ltb, ◌==◌, if◌then◌else◌,
}
use otelcol_exporter_netflow.Common.BigEndian.{u16_bytes}
use otelcol_exporter_netflow.Common.Result.{Result, ok, err, ◌>>=◌, ◌>>◌, reject_if}
use otelcol_exporter_netflow.Wire.Field
use otelcol_exporter_netflow.Wire.Model.{
  v9, same_protocol, WireRecord, HeaderMetadata, FieldDescriptor, DescriptorEncoding, same_encoding,
  unsigned32, ContractError, invalid_header, invalid_shape, invalid_descriptor, invalid_value,
}
use otelcol_exporter_netflow.Wire.Shapes.{Shape}
use otelcol_exporter_netflow.Wire.Sizes.{PacketRequest, DataSetSize}
use otelcol_exporter_netflow.Wire.Cursor.{place}
use otelcol_exporter_netflow.Wire.Encode.{
  nanos_per_second, max_uint32, elapsed_milliseconds, value_at,
}
use otelcol_exporter_netflow.Wire.Netflow9.Emit.{write_message, write_front, write_data_record}
use otelcol_exporter_netflow.Wire.Stream.{Format}

unfoldable pub validate_header : HeaderMetadata → Result ContractError (Unit {0})
validate_header h =
    let (uptime, whole) =
      elapsed_milliseconds h.export_time_unix_nanos h.uptime_origin_unix_nanos in
    do
      reject_if (not (h.observation_domain_id == 0) && not (h.observation_domain_id == h.source_id))
          invalid_header
      reject_if (not h.has_uptime_origin) invalid_header
      reject_if (ltb h.export_time_unix_nanos h.uptime_origin_unix_nanos) invalid_header
      reject_if (ltb max_uint32 (h.export_time_unix_nanos / nanos_per_second)) invalid_header
      reject_if (not whole || ltb max_uint32 uptime) invalid_header
      reject_if (not (h.sampling_mode == 0) || not (h.sampling_interval == 0)) invalid_header

-- The binding that an absolute time must have.
unfoldable pub validate_binding : FieldDescriptor → Result ContractError (Unit {0})
validate_binding d =
    if d.field == Field.time_received
    then err invalid_shape
    else if d.field == Field.start
    then reject_if
        (not (d.id == 22) || not (d.length == 4) || not (same_encoding d.encoding unsigned32))
        invalid_descriptor
    else if d.field == Field.end
    then reject_if
        (not (d.id == 21) || not (d.length == 4) || not (same_encoding d.encoding unsigned32))
        invalid_descriptor
    else ok tt

unfoldable pub validate_bindings : List FieldDescriptor → Result ContractError (Unit {0})
unfolding validate_binding
validate_bindings [] = ok tt
validate_bindings (d ∷ ds) = let rest = validate_bindings ds in do validate_binding d; rest

unfoldable pub validate_shape_bindings : Shape → Result ContractError (Unit {0})
unfolding validate_bindings
validate_shape_bindings s = validate_bindings s.fields

-- The first and the last time of the record, as far as they have been seen.
pub record Times : Type 0 where
  pub first : Option ℕ
  pub last : Option ℕ

unfoldable pub in_order : Times → Bool
in_order t = elim t.first [
  | none ↦ true
  | some first ↦ elim t.last [ none ↦ true | some last ↦ not (ltb last first) ]
]

-- One round of the loop of validateRecordTime.
unfoldable pub time_of_field :
    WireRecord → ℕ → ℕ → ℕ → FieldDescriptor → Times → Result ContractError Times
time_of_field r origin uptime i d t =
    let (elapsed, whole) = elapsed_milliseconds (value_at r i).uint_value origin in
    if not (d.field == Field.start) && not (d.field == Field.end) then ok t else (do
      reject_if (not whole || ltb max_uint32 elapsed || ltb uptime elapsed) invalid_value
      ok (
          if d.field == Field.start
          then record t { first = some elapsed }
          else record t { last = some elapsed }))

-- The loop, from the index of the first field on.
unfoldable pub record_times :
    WireRecord → ℕ → ℕ → ℕ → List FieldDescriptor → Times → Result ContractError Times
unfolding time_of_field
record_times r origin uptime i [] t = ok t
record_times r origin uptime i (d ∷ ds) t = do
  t' ← time_of_field r origin uptime i d t
  record_times r origin uptime (i + 1) ds t'

unfoldable pub validate_record_time : Shape → WireRecord → ℕ → ℕ → Result ContractError (Unit {0})
unfolding record_times in_order
validate_record_time s r origin uptime = do
  t ← record_times r origin uptime 0 s.fields (record { first = none; last = none })
  reject_if (not (in_order t)) invalid_value

unfoldable pub validate_record_times :
    Shape → List WireRecord → ℕ → ℕ → Result ContractError (Unit {0})
validate_record_times s [] origin uptime = ok tt
validate_record_times s (r ∷ rs) origin uptime =
    let rest = validate_record_times s rs origin uptime in
    do validate_record_time s r origin uptime; rest

-- The uptime at the time of the export.
abbrev pub system_uptime : HeaderMetadata → ℕ
system_uptime h = (elapsed_milliseconds h.export_time_unix_nanos h.uptime_origin_unix_nanos).0

unfoldable pub validate : PacketRequest → Result ContractError (Unit {0})
validate req = do
  validate_header req.header
  reject_if (not (same_protocol req.shape.protocol v9)) invalid_shape
  validate_shape_bindings req.shape
  validate_record_times req.shape req.records req.header.uptime_origin_unix_nanos
      (system_uptime req.header)

-- The length of the set goes to bytes 22:24, and the padding behind the records.
unfoldable pub close_set : ℕ → DataSetSize → List ℕ → List ℕ
close_set end size dst =
    place (place dst 22 (u16_bytes (size.length % 2 ^ 16))) end (replicate size.padding 0)

-- The package: its Writer and its dataPacketAppender.
abbrev pub format : Format
format = record {
  protocol = v9;
  header_length = 20;
  data_offset = 24;
  validate = validate;
  validate_header = validate_header;
  validate_shape = validate_shape_bindings;
  validate_record = λ h s r. validate_record_time s r h.uptime_origin_unix_nanos (system_uptime h);
  tests_wrap = false;
  write_message = write_message;
  write_front = write_front;
  write_record = λ h s r. write_data_record h.uptime_origin_unix_nanos s r;
  header_word = λ records total. records % 2 ^ 16;
  close_set = close_set;
}
