-- ===== src/Wire/Netflow9/Writer.antt =====
-- What the NetFlow v9 writer guarantees, at once and record by record.
use otelcol_exporter_netflow.Common.{ℕ, ◌+◌, ◌≡◌, refl, true, List, length, arith, All}
use otelcol_exporter_netflow.Common.Result.{ok}
use otelcol_exporter_netflow.Wire.Model.{v9, same_protocol, WireRecord}
use otelcol_exporter_netflow.Wire.Sizes.{PacketRequest, protocol_header_length}
use otelcol_exporter_netflow.Wire.Preflight.{DataPacketRequest, preflight}
use otelcol_exporter_netflow.Wire.Preflight.Safety.{preflight-Fits}
use otelcol_exporter_netflow.Wire.Stream.{DataPacket, write}
use otelcol_exporter_netflow.Wire.Stream.Layout.{Implements, Taken}
use otelcol_exporter_netflow.Wire.Stream.Slice.{Written, write-Written, write-eq-ok}
use otelcol_exporter_netflow.Wire.Stream.Accepted.{request_of}
use otelcol_exporter_netflow.Wire.Stream.Equivalence.{Streams, stream, write-stream}
use otelcol_exporter_netflow.Wire.Stream.Framing.{framed_size}
use otelcol_exporter_netflow.Wire.Encode.Templates.{preflight-templates, preflight-protocol}
use otelcol_exporter_netflow.Wire.Netflow9.{
  format, validate, validate_header, validate_shape_bindings,
}
use otelcol_exporter_netflow.Wire.Netflow9.Bytes.{Writes-write_data_record}
use otelcol_exporter_netflow.Wire.Netflow9.Messages.{
  layout, Writes-write_front, Writes-write_message, record_bytes_size, length-templates_bytes,
  validate-parts, validate-v9, v9_header_length, not_v5, close_set_framed,
  Taken-validate_record_times,
}

validate_of :
    (r : DataPacketRequest) (rs : List WireRecord)
    → same_protocol r.shape.protocol v9 ≡ true
    → validate_header r.header ≡ ok tt
    → validate_shape_bindings r.shape ≡ ok tt
    → All (Taken format r.header r.shape) rs
    → validate (request_of r rs) ≡ ok tt
unfolding validate validate_header
validate_of r rs same header shape taken =
    rw (header, same, shape, Taken-validate_record_times r.header r.shape rs taken) refl

pub implements : Implements format layout
implements = record {
  front_puts = Writes-write_front;
  record_puts = λ h s r. Writes-write_data_record h.uptime_origin_unix_nanos s r;
  message_puts = λ capacity req n set same fits sized _.
      Writes-write_message capacity req n set same fits sized;
  header_small = omega arith;
  header_size = λ h. refl;
  set_header_size = λ s n. refl;
  record_size = λ h s r n same bound sized _. record_bytes_size h s r n same bound sized;
  templates_size = λ capacity req n same fits _. templates_size capacity req n same fits;
  validate_parts = λ req _ valid. validate-parts req valid;
  set_size = λ s m k set same some_records sized.
      omega (arith, framed_size s m k set (not_v5 s.protocol same) some_records sized);
  close = λ xs front body s k set _ _ _ e. close_set_framed xs front body s set e;
}
  where
    templates_size :
        (capacity : ℕ) (req : PacketRequest) (n : ℕ)
        → same_protocol req.shape.protocol v9 ≡ true
        → preflight capacity req ≡ ok n
        → protocol_header_length req.header.protocol + req.template_bytes
          ≡ 20 + length (layout.templates req)
    templates_size capacity req n same fits = omega (
      arith,
      v9_header_length req.header.protocol (preflight-protocol capacity req n v9 fits same),
      preflight-templates capacity req n fits,
      length-templates_bytes req.template_records req.shape same
          (preflight-Fits capacity req n fits).shape,
    )

streams : Streams format layout
streams = record {
  header_length_of = v9_header_length;
  rest_of = λ h k. refl;
  record_of = λ h k. refl;
  no_templates = λ req e. rw e refl;
  validate_of = λ r rs same header shape taken _ _. validate_of r rs same header shape taken;
}

-- A write that succeeds leaves the message of the request in the buffer: the header, a template
-- flow set for each template record, and the data flow set with its padding. The length that it
-- returns is the message's, and does not pass the end of the buffer.
pub v9_write-Written :
    (dst : List ℕ) (req : PacketRequest) (n : ℕ)
    → (write format dst req).1 ≡ ok n
    → Written format layout dst req n
v9_write-Written dst req n h =
    let (_, valid, _) = write-eq-ok format dst req n h in
    write-Written implements dst req n (validate-v9 req valid) h

-- A data packet that is streamed leaves the same bytes in the buffer as Write of the same records.
pub v9_write-stream :
    (dst : List ℕ) (r : DataPacketRequest) (rs : List WireRecord) (p : DataPacket) (n : ℕ)
    → (stream format dst r rs p).1 ≡ ok n
    → write format dst (request_of r rs) ≡ ((stream format dst r rs p).0.dst, ok n)
v9_write-stream = write-stream implements streams
