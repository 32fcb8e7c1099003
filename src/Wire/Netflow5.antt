-- ===== src/Wire/Netflow5.antt =====
-- internal/wire/netflow5: the NetFlow v5 writer, with its checks.
pub mod Emit
pub mod Bytes
pub mod Shape
pub mod Writer
mod Runs
use otelcol_exporter_netflow.Common.{
  ℕ, ◌/◌, ◌%◌, ◌^◌, Bool, true, false, ◌||◌, not, List, [], ◌∷◌, length, ltb, ◌==◌,
}
use otelcol_exporter_netflow.Common.Result.{Result, ok, err, ◌>>=◌, ◌>>◌, reject_if}
use otelcol_exporter_netflow.Wire.Model.{
  v5, ipv4, same_family, WireRecord, HeaderMetadata, ContractError, invalid_header, invalid_shape,
  invalid_value, bounds,
}
use otelcol_exporter_netflow.Wire.Sizes.{PacketRequest, DataSetSize}
use otelcol_exporter_netflow.Wire.Encode.{
  nanos_per_second, max_uint32, elapsed_milliseconds, value_at,
}
use otelcol_exporter_netflow.Wire.Netflow5.Emit.{
  value_uint, write_header, write_record, write_message,
}
use otelcol_exporter_netflow.Wire.Stream.{Format}

unfoldable pub validate_header : HeaderMetadata → Result ContractError (Unit {0})
validate_header h =
    let (uptime, whole) =
      elapsed_milliseconds h.export_time_unix_nanos h.uptime_origin_unix_nanos in
    do
      reject_if (not (h.source_id == 0) || not (h.observation_domain_id == 0)) invalid_header
      reject_if (not h.has_uptime_origin) invalid_header
      reject_if (ltb h.export_time_unix_nanos h.uptime_origin_unix_nanos) invalid_header
      reject_if (ltb max_uint32 (h.export_time_unix_nanos / nanos_per_second)) invalid_header
      reject_if (not whole || ltb max_uint32 uptime) invalid_header

unfoldable pub validate_record : HeaderMetadata → WireRecord → Result ContractError (Unit {0})
validate_record h r =
    let origin : ℕ = h.uptime_origin_unix_nanos in
    let (uptime, _) = elapsed_milliseconds h.export_time_unix_nanos origin in
    let (first, first_whole) = elapsed_milliseconds (value_at r 7).uint_value origin in
    let (last, last_whole) = elapsed_milliseconds (value_at r 8).uint_value origin in
    do
      reject_if (not (same_family r.family ipv4) || not (length r.values == 20)) invalid_shape
      reject_if (ltb 32 (value_uint (value_at r 17)) || ltb 32 (value_uint (value_at r 18)))
          invalid_value
      reject_if (not first_whole) invalid_value
      reject_if
          (not last_whole
            || ltb last first
            || ltb uptime last
            || ltb max_uint32 first
            || ltb max_uint32 last)
          invalid_value

unfoldable pub validate_records : HeaderMetadata → List WireRecord → Result ContractError (Unit {0})
unfolding validate_record
validate_records h [] = ok tt
validate_records h (r ∷ rs) = let rest = validate_records h rs in do validate_record h r; rest

unfoldable pub validate : PacketRequest → Result ContractError (Unit {0})
unfolding validate_header validate_records
validate req = do
  validate_header req.header
  reject_if (ltb (length req.records) 1 || ltb 30 (length req.records)) bounds
  validate_records req.header req.records

-- The package: its Writer and its dataPacketAppender. There is no set header and no padding.
abbrev pub format : Format
format = record {
  protocol = v5;
  header_length = 24;
  data_offset = 24;
  validate = validate;
  validate_header = validate_header;
  validate_shape = λ s. ok tt;
  validate_record = λ h s r. validate_record h r;
  tests_wrap = true;
  write_message = write_message;
  write_front = λ h s. write_header h 0;
  write_record = λ h s r. write_record h.uptime_origin_unix_nanos r;
  header_word = λ records total. records % 2 ^ 16;
  close_set = λ end size dst. dst;
}
