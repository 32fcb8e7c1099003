-- ===== src/Wire/Sizes.antt =====
-- internal/wire/contract.go and stream.go: the sizes of records, data sets and messages, and the
-- checks that a writer makes before it touches the caller's buffer.
pub mod Padding
pub mod Sums
use otelcol_exporter_netflow.Common.{
  ℕ, zero, suc, ◌+◌, ◌-◌, ◌*◌, ◌%◌, ◌^◌, Bool, true, false, ◌&&◌, ◌||◌, not, Option, none, some,
  List, [], ◌∷◌, length, ltb, leb, ◌==◌, if◌then◌else◌,
}
use otelcol_exporter_netflow.Common.Result.{Result, ok, err, ◌>>=◌, ◌>>◌, reject_if, lift_error}
use otelcol_exporter_netflow.Wire.Model.{
  Protocol, v5, v9, ipfix, protocol_code, same_protocol, is_known, same_family, Value, WireRecord,
  HeaderMetadata, ContractError, invalid_family, invalid_value, invalid_header, invalid_shape,
  bounds, short_buffer, FieldDescriptor, default_max_records, default_max_set_bytes,
  default_max_template_bytes, default_max_message_bytes,
}
use otelcol_exporter_netflow.Wire.Values.{validate_record, validate_unix_nanos}
use otelcol_exporter_netflow.Wire.Descriptors.{checked_add, checked_mul}
use otelcol_exporter_netflow.Wire.Widths.{value_length}
use otelcol_exporter_netflow.Wire.Shapes.{Shape, validate_shape, has_variable_fields}

abbrev pub or_bounds : Option ℕ → Result ContractError ℕ
or_bounds none = err bounds
or_bounds (some n) = ok n

-- `recordLengthFor`: the descriptors and the values side by side.
unfoldable pub record_length_from : ℕ → List FieldDescriptor → List Value → Result ContractError ℕ
record_length_from total [] vs = ok total
record_length_from total (d ∷ ds) [] = err invalid_value
record_length_from total (d ∷ ds) (v ∷ vs) = do
  n ← value_length d v
  total' ← or_bounds (checked_add total n)
  record_length_from total' ds vs

-- `recordSize`, for a shape that is already validated.
unfoldable pub trusted_record_size : Shape → WireRecord → Result ContractError ℕ
trusted_record_size s r = do
  validate_record r
  reject_if (not (same_family r.family s.family)) invalid_family
  reject_if (not (length r.values == length s.fields)) invalid_value
  record_length_from 0 s.fields r.values

unfoldable pub record_size : Shape → WireRecord → Result ContractError ℕ
record_size s r = do validate_shape s; trusted_record_size s r

pub record DataSetSize : Type 0 where
  pub length : ℕ
  pub padding : ℕ

-- Alignment to four bytes, unless the padding could be read as a record.
unfoldable pub padding_for : ℕ → ℕ → ℕ
padding_for record_length raw =
    if raw % 4 == 0 then 0 else if ltb (4 - raw % 4) record_length then 4 - raw % 4 else 0

unfoldable pub encoded_set : Shape → ℕ → Result ContractError DataSetSize
encoded_set s record_bytes =
    if same_protocol s.protocol v5
    then (do
      reject_if (ltb default_max_set_bytes record_bytes) bounds
      ok (record { length = record_bytes; padding = 0 }))
    else (do
      raw ← or_bounds (checked_add 4 record_bytes)
      reject_if (ltb default_max_set_bytes raw) bounds
      total ← or_bounds (checked_add raw (padding_for s.record_length raw))
      reject_if (ltb default_max_set_bytes total) bounds
      ok (record { length = total; padding = padding_for s.record_length raw }))

abbrev pub no_data_set : DataSetSize
no_data_set = record { length = 0; padding = 0 }

-- The size of at least one record, once the shape and the count are checked.
unfoldable pub filled_set : Shape → ℕ → ℕ → Result ContractError DataSetSize
filled_set s record_bytes record_count = do
  minimum_bytes ← or_bounds (checked_mul record_count s.record_length)
  reject_if (ltb record_bytes minimum_bytes) bounds
  reject_if (not (has_variable_fields s.fields) && not (record_bytes == minimum_bytes)) bounds
  encoded_set s record_bytes

unfoldable pub empty_set : ℕ → Result ContractError DataSetSize
empty_set record_bytes = do reject_if (not (record_bytes == 0)) bounds; ok no_data_set

-- `DataSetSizeForEncoded`.
unfoldable pub data_set_size_for_encoded : Shape → ℕ → ℕ → Result ContractError DataSetSize
data_set_size_for_encoded s record_bytes record_count = do
  validate_shape s
  reject_if (ltb default_max_records record_count) bounds
  if record_count == 0 then empty_set record_bytes else filled_set s record_bytes record_count

unfoldable pub records_bytes_from : Shape → ℕ → List WireRecord → Result ContractError ℕ
records_bytes_from s total [] = ok total
records_bytes_from s total (r ∷ rs) = do
  n ← trusted_record_size s r
  total' ← or_bounds (checked_add total n)
  records_bytes_from s total' rs

unfoldable pub trusted_data_set_size : Shape → List WireRecord → Result ContractError DataSetSize
trusted_data_set_size s rs = do
  reject_if (ltb default_max_records (length rs)) bounds
  total ← records_bytes_from s 0 rs
  data_set_size_for_encoded s total (length rs)

-- `DataSetSize`.
unfoldable pub data_set_size : Shape → List WireRecord → Result ContractError DataSetSize
data_set_size s rs = do validate_shape s; trusted_data_set_size s rs

unfoldable pub validate_payload_length : ℕ → ℕ → Result ContractError (Unit {0})
validate_payload_length payload budget = do
  reject_if (ltb 65535 payload) bounds
  reject_if (not (budget == 0) && (ltb 65535 budget || ltb budget payload)) bounds

abbrev pub protocol_header_length : Protocol → ℕ
protocol_header_length v5 = 24
protocol_header_length v9 = 20
protocol_header_length ipfix = 16
protocol_header_length other = 0

abbrev pub map_error :
    Result ContractError (Unit {0}) → ContractError → Result ContractError (Unit {0})
map_error r e = lift_error (λ _. e) r

-- `HeaderMetadata.Validate`.
unfoldable pub validate_header : HeaderMetadata → Result ContractError (Unit {0})
validate_header h = do
  reject_if (not (is_known h.protocol)) invalid_header
  map_error (validate_unix_nanos h.export_time_unix_nanos) invalid_header
  if h.has_uptime_origin
      then (do
        map_error (validate_unix_nanos h.uptime_origin_unix_nanos) invalid_header
        reject_if (ltb h.export_time_unix_nanos h.uptime_origin_unix_nanos) invalid_header)
      else ok tt
  reject_if (ltb 3 h.sampling_mode || ltb 16383 h.sampling_interval) invalid_header

pub record PacketRequest : Type 0 where
  pub header : HeaderMetadata
  pub shape : Shape
  pub records : List WireRecord
  pub template_records : ℕ
  pub template_bytes : ℕ
  pub data_bytes : ℕ
  pub max_datagram_bytes : ℕ
