-- ===== src/Wire/Ipfix/Writer.antt =====
-- What the IPFIX writer guarantees, at once and record by record.
use otelcol_exporter_netflow.Common.{ℕ, ◌+◌, ◌≡◌, refl, true, List, length, arith, All}
use otelcol_exporter_netflow.Common.Result.{ok}
use otelcol_exporter_netflow.Wire.Model.{ipfix, same_protocol, WireRecord}
use otelcol_exporter_netflow.Wire.Sizes.{PacketRequest, protocol_header_length}
use otelcol_exporter_netflow.Wire.Preflight.{DataPacketRequest, preflight}
use otelcol_exporter_netflow.Wire.Preflight.Safety.{preflight-Fits}
use otelcol_exporter_netflow.Wire.Stream.{DataPacket, write}
use otelcol_exporter_netflow.Wire.Stream.Layout.{Implements, Taken}
use otelcol_exporter_netflow.Wire.Stream.Slice.{Written, write-Written, write-eq-ok}
use otelcol_exporter_netflow.Wire.Stream.Accepted.{request_of}
use otelcol_exporter_netflow.Wire.Stream.Equivalence.{Streams, stream, write-stream}
use otelcol_exporter_netflow.Wire.Stream.Framing.{framed_size}
use otelcol_exporter_netflow.Wire.Encode.Templates.{preflight-templates, preflight-protocol}
use otelcol_exporter_netflow.Wire.Ipfix.{format, validate, validate_header, validate_shape_ordering}
use otelcol_exporter_netflow.Wire.Ipfix.Bytes.{Writes-write_data_record}
use otelcol_exporter_netflow.Wire.Ipfix.Messages.{
  layout, Writes-write_front, Writes-write_message, record_bytes_size, length-templates_bytes,
  validate-parts, validate-ipfix, ipfix_header_length, not_v5, close_set_framed,
  Taken-validate_records,
}

validate_of :
    (r : DataPacketRequest) (rs : List WireRecord)
    → same_protocol r.shape.protocol ipfix ≡ true
    → validate_header r.header ≡ ok tt
    → validate_shape_ordering r.shape ≡ ok tt
    → All (Taken format r.header r.shape) rs
    → validate (request_of r rs) ≡ ok tt
unfolding validate validate_header
validate_of r rs same header shape taken =
    rw (header, same, shape, Taken-validate_records r.header r.shape rs taken) refl

pub implements : Implements format layout
implements = record {
  front_puts = Writes-write_front;
  record_puts = λ h s r. Writes-write_data_record s r;
  message_puts =
      λ capacity req n set _ fits sized _. Writes-write_message capacity req n set fits sized;
  header_small = omega arith;
  header_size = λ h. refl;
  set_header_size = λ s n. refl;
  record_size = λ h s r n same _ sized _. record_bytes_size s r n same sized;
  templates_size = λ capacity req n same fits _. templates_size capacity req n same fits;
  validate_parts = λ req _ valid. validate-parts req valid;
  set_size = λ s m k set same some_records sized.
      omega (arith, framed_size s m k set (not_v5 s.protocol same) some_records sized);
  close = λ xs front body s k set _ _ _ e. close_set_framed xs front body s set e;
}
  where
    templates_size :
        (capacity : ℕ) (req : PacketRequest) (n : ℕ)
        → same_protocol req.shape.protocol ipfix ≡ true
        → preflight capacity req ≡ ok n
        → protocol_header_length req.header.protocol + req.template_bytes
          ≡ 16 + length (layout.templates req)
    templates_size capacity req n same fits = omega (
      arith,
      ipfix_header_length req.header.protocol (preflight-protocol capacity req n ipfix fits same),
      preflight-templates capacity req n fits,
      length-templates_bytes req.template_records req.shape same
          (preflight-Fits capacity req n fits).shape,
    )

streams : Streams format layout
streams = record {
  header_length_of = ipfix_header_length;
  rest_of = λ h k. refl;
  record_of = λ h k. refl;
  no_templates = λ req e. rw e refl;
  validate_of = λ r rs same header shape taken _ _. validate_of r rs same header shape taken;
}

-- A write that succeeds leaves the message of the request in the buffer: the header, a template
-- set for each template record, and the data set with its padding. The length that it
-- returns is the message's, and does not pass the end of the buffer.
pub ipfix_write-Written :
    (dst : List ℕ) (req : PacketRequest) (n : ℕ)
    → (write format dst req).1 ≡ ok n
    → Written format layout dst req n
ipfix_write-Written dst req n h =
    let (_, valid, _) = write-eq-ok format dst req n h in
    write-Written implements dst req n (validate-ipfix req valid) h

-- A data packet that is streamed leaves the same bytes in the buffer as Write of the same records.
pub ipfix_write-stream :
    (dst : List ℕ) (r : DataPacketRequest) (rs : List WireRecord) (p : DataPacket) (n : ℕ)
    → (stream format dst r rs p).1 ≡ ok n
    → write format dst (request_of r rs) ≡ ((stream format dst r rs p).0.dst, ok n)
ipfix_write-stream = write-stream implements streams
