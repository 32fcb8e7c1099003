-- ===== src/Wire/Preflight.antt =====
-- internal/wire/contract.go and stream.go: what a writer checks before it touches the buffer.
pub mod Safety
pub mod Measured
use otelcol_exporter_netflow.Common.{
  ℕ, ◌+◌, Bool, false, ◌&&◌, ◌||◌, not, Option, none, some, length, ltb, ◌==◌, if◌then◌else◌,
}
use otelcol_exporter_netflow.Common.Result.{Result, ok, ◌>>=◌, ◌>>◌, reject_if}
use otelcol_exporter_netflow.Wire.Model.{
  v5, v9, ipfix, same_protocol, HeaderMetadata, ContractError, invalid_header, invalid_shape,
  bounds, short_buffer, default_max_records, default_max_set_bytes, default_max_template_bytes,
  default_max_message_bytes,
}
use otelcol_exporter_netflow.Wire.Descriptors.{checked_add, checked_mul}
use otelcol_exporter_netflow.Wire.Shapes.{Shape, validate_shape}
use otelcol_exporter_netflow.Wire.Sizes.{
  PacketRequest, or_bounds, trusted_data_set_size, validate_payload_length, protocol_header_length,
  validate_header,
}

-- The header's count against the records and templates of the request.
unfoldable pub check_counts : PacketRequest → ℕ → Result ContractError (Unit {0})
check_counts req record_count = do
  reject_if (ltb default_max_records record_count || ltb default_max_records req.template_records)
      bounds
  reject_if (same_protocol req.shape.protocol v5 && (record_count == 0 || ltb 30 record_count))
      bounds
  reject_if
      (same_protocol req.shape.protocol v5
        && (not (req.template_records == 0) || not (req.template_bytes == 0)))
      invalid_shape
  reject_if
      (same_protocol req.shape.protocol v9
        && not (req.header.count == record_count + req.template_records))
      invalid_header
  reject_if (same_protocol req.shape.protocol v5 && not (req.header.count == record_count))
      invalid_header
  reject_if (same_protocol req.shape.protocol ipfix && not (req.header.count == 0)) invalid_header

unfoldable pub template_product : Option ℕ → ℕ → Bool
template_product none n = false
template_product (some m) n = n == m

unfoldable pub check_templates : PacketRequest → Result ContractError (Unit {0})
unfolding template_product
check_templates req = do
  reject_if
      (ltb default_max_template_bytes req.template_bytes
        || ltb default_max_message_bytes req.template_bytes)
      bounds
  reject_if (req.template_records == 0 && not (req.template_bytes == 0)) invalid_shape
  reject_if
      (not (req.template_records == 0)
        && not (
            template_product (checked_mul req.template_records req.shape.template_bytes)
              req.template_bytes))
      invalid_shape
  reject_if
      (not (req.template_bytes == 0)
        && not (req.template_bytes == req.shape.template_bytes)
        && req.template_records == 0)
      invalid_shape

unfoldable pub check_data : PacketRequest → ℕ → ℕ → Result ContractError (Unit {0})
check_data req record_count data_bytes = do
  reject_if (not (req.data_bytes == 0) && not (req.data_bytes == data_bytes)) bounds
  reject_if (ltb default_max_set_bytes data_bytes) bounds
  reject_if (not (same_protocol req.shape.protocol v5) && not (data_bytes == 0) && ltb data_bytes 4)
      bounds
  reject_if (record_count == 0 && not (data_bytes == 0)) bounds

unfoldable pub message_length : PacketRequest → ℕ → Result ContractError ℕ
message_length req data_bytes = do
  front ← or_bounds (checked_add (protocol_header_length req.header.protocol) req.template_bytes)
  message ← or_bounds (checked_add front data_bytes)
  reject_if (ltb default_max_message_bytes message || ltb 65535 message) bounds
  ok message

-- `Preflight` for a buffer of `capacity` bytes: the exact length of the message.
unfoldable pub preflight : ℕ → PacketRequest → Result ContractError ℕ
unfolding check_counts check_templates check_data message_length
preflight capacity req = do
  validate_header req.header
  validate_shape req.shape
  reject_if (not (same_protocol req.shape.protocol req.header.protocol)) invalid_shape
  check_counts req (length req.records)
  check_templates req
  set ← trusted_data_set_size req.shape req.records
  check_data req (length req.records) set.length
  message ← message_length req set.length
  validate_payload_length message req.max_datagram_bytes
  reject_if (ltb capacity message) short_buffer
  ok message

pub record DataPacketRequest : Type 0 where
  pub header : HeaderMetadata
  pub shape : Shape
  pub max_datagram_bytes : ℕ
  pub max_records : ℕ

-- `DataPacketRequest.Validate`: the cap on the records of one streamed packet.
unfoldable pub validate_data_packet_request : DataPacketRequest → Result ContractError ℕ
validate_data_packet_request r =
    let limit : ℕ = if same_protocol r.shape.protocol v5 then 30 else 65535 in
    do
      validate_header r.header
      validate_shape r.shape
      reject_if (not (same_protocol r.shape.protocol r.header.protocol)) invalid_shape
      reject_if (not (r.header.count == 0)) invalid_header
      validate_payload_length 0 r.max_datagram_bytes
      if r.max_records == 0
          then ok limit
          else (do reject_if (ltb limit r.max_records) bounds; ok r.max_records)
