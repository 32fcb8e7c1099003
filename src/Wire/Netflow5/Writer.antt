-- ===== src/Wire/Netflow5/Writer.antt =====
-- What the NetFlow v5 writer guarantees, at once and record by record.
use otelcol_exporter_netflow.Common.{
  ℕ, ◌+◌, ◌*◌, ◌/◌, ◌%◌, ◌^◌, ◌≡◌, ◌≢◌, ◌≤◌, refl, ap, sym, ◌∙◌, true, false, ◌||◌, List, [], ◌∷◌,
  ◌++◌, length, replicate, All, arith, ltb, bit_or, if◌then◌else◌,
}
use mathlib.Core.Path.{ap₂}
use mathlib.Core.List.{append-nil}
use otelcol_exporter_netflow.Common.BigEndian.{u16_bytes, u32_bytes}
use otelcol_exporter_netflow.Common.Result.{ok, reject_if, >>=-eq-ok}
use otelcol_exporter_netflow.Wire.Model.{
  v5, v9, ipfix, Protocol, same_protocol, WireRecord, HeaderMetadata, bounds,
}
use otelcol_exporter_netflow.Wire.Shapes.{Shape}
use otelcol_exporter_netflow.Wire.Sizes.{
  PacketRequest, DataSetSize, protocol_header_length, trusted_data_set_size,
  data_set_size_for_encoded,
}
use otelcol_exporter_netflow.Wire.Sizes.Padding.{data_set_size_for_encoded-Sized}
use otelcol_exporter_netflow.Wire.Preflight.{DataPacketRequest, preflight}
use otelcol_exporter_netflow.Wire.Cursor.{place}
use otelcol_exporter_netflow.Wire.Cursor.Writes.{
  Writes, Writes-then, Writes-put8, Writes-put16, Writes-put32, Writes-put_each, Writes-congr,
  bytes_of_each,
}
use otelcol_exporter_netflow.Wire.Encode.{nanos_per_second, elapsed_milliseconds}
use otelcol_exporter_netflow.Wire.Encode.Templates.{preflight-count_v5, preflight-protocol}
use otelcol_exporter_netflow.Wire.Stream.{DataPacket, write}
use otelcol_exporter_netflow.Wire.Stream.Layout.{
  Layout, Implements, Taken, with_count, message, header_bytes, data_bytes,
}
use otelcol_exporter_netflow.Wire.Stream.Slice.{Written, write-Written, trusted_data_set_size-ok}
use otelcol_exporter_netflow.Wire.Stream.Accepted.{request_of}
use otelcol_exporter_netflow.Wire.Stream.Equivalence.{Streams, stream, write-stream}
use otelcol_exporter_netflow.Wire.Stream.Framing.{u16_bytes_of_word}
use otelcol_exporter_netflow.Wire.Netflow5.{
  format, validate, validate_header, validate_records, validate_record,
}
use otelcol_exporter_netflow.Wire.Netflow5.Emit.{write_header, write_record, write_message}
use otelcol_exporter_netflow.Wire.Netflow5.Bytes.{
  record_bytes, length-record_bytes, Writes-write_record,
}
use otelcol_exporter_netflow.Wire.Netflow5.Shape.{record_size_v5}

abbrev rest_bytes : HeaderMetadata → List ℕ
rest_bytes h =
    u32_bytes
      ((elapsed_milliseconds h.export_time_unix_nanos h.uptime_origin_unix_nanos).0 % 2 ^ 32)
    ++ (u32_bytes (h.export_time_unix_nanos / nanos_per_second % 2 ^ 32)
        ++ (u32_bytes (h.export_time_unix_nanos % nanos_per_second % 2 ^ 32)
            ++ (u32_bytes h.sequence
                ++ ((h.engine_type ∷ [])
                    ++ ((h.engine_id ∷ [])
                        ++ u16_bytes
                            (bit_or (h.sampling_mode * 2 ^ 14 % 2 ^ 16) h.sampling_interval))))))

-- The layout of a NetFlow v5 message, which has neither templates nor set headers.
abbrev pub layout : Layout
layout = record {
  version = 5;
  header_rest = rest_bytes;
  templates = λ req. [];
  set_header = λ s n. [];
  record_bytes = λ h s r. record_bytes h.uptime_origin_unix_nanos r;
}

Writes-write_header :
    (h : HeaderMetadata) (k : ℕ) → Writes (write_header h k) (header_bytes layout h k)
unfolding write_header
Writes-write_header h k = Writes-then (Writes-put16 5) (
    Writes-then (Writes-put16 k) (
      Writes-then (Writes-put32 _) (
        Writes-then (Writes-put32 _) (
          Writes-then (Writes-put32 _) (
            Writes-then (Writes-put32 _)
              (Writes-then (Writes-put8 _) (Writes-then (Writes-put8 _) (Writes-put16 _))))))))

not_framed : (p : Protocol) → same_protocol p v5 ≡ true → protocol_header_length p ≡ 24
not_framed v5 h = refl
not_framed v9 h = cc
not_framed ipfix h = cc
not_framed Protocol.unknown h = cc
not_framed Protocol.unlisted h = cc

plain_set :
    (s : Shape) (m k : ℕ) (set : DataSetSize)
    → same_protocol s.protocol v5 ≡ true
    → k ≢ 0
    → data_set_size_for_encoded s m k ≡ ok set
    → (set.length ≡ m) × (set.padding ≡ 0)
plain_set s m k set same some_records h =
    let plain = (data_set_size_for_encoded-Sized s m k h).plain some_records same in
    (plain.whole, plain.unpadded)

unpadded :
    (bytes : List ℕ) (set : DataSetSize)
    → set.padding ≡ 0
    → bytes ≡ bytes ++ replicate set.padding 0
unpadded bytes set e = sym (append-nil bytes) ∙ ap (λ k. bytes ++ replicate k 0) (sym e)

data_bytes_plain :
    (h : HeaderMetadata) (s : Shape) (rs : List WireRecord) (set : DataSetSize)
    → same_protocol s.protocol v5 ≡ true
    → trusted_data_set_size s rs ≡ ok set
    → bytes_of_each (record_bytes h.uptime_origin_unix_nanos) rs ≡ data_bytes layout h s rs set
data_bytes_plain h s [] set same sized = refl
data_bytes_plain h s (r ∷ rs) set same sized =
    let (m, _, e) = trusted_data_set_size-ok s (r ∷ rs) set sized in
    unpadded _ set (plain_set s m (length (r ∷ rs)) set same (λ z. absurd (omega (arith, z))) e).1

Writes-write_message :
    (capacity : ℕ) (req : PacketRequest) (n : ℕ) (set : DataSetSize)
    → same_protocol req.shape.protocol v5 ≡ true
    → preflight capacity req ≡ ok n
    → trusted_data_set_size req.shape req.records ≡ ok set
    → Writes
        (write_message req n)
        (message layout req ((length req.records + req.template_records) % 2 ^ 16) set)
unfolding write_message
Writes-write_message capacity req n set same fits sized =
    let (counted, none_left, _) = preflight-count_v5 capacity req n fits same in
    let h = req.header in
    let total : h.count ≡ length req.records + req.template_records =
      omega (arith, counted, none_left) in
    let parts = Writes-then (Writes-write_header h h.count) (
      Writes-put_each (write_record h.uptime_origin_unix_nanos)
        (record_bytes h.uptime_origin_unix_nanos) req.records
        (Writes-write_record h.uptime_origin_unix_nanos)) in
    Writes-congr
      (ap₂ (λ word bytes. (u16_bytes 5 ++ (word ++ rest_bytes h)) ++ bytes)
        (ap u16_bytes total ∙ sym (u16_bytes_of_word (length req.records + req.template_records)))
        (data_bytes_plain h req.shape req.records set same sized))
      parts

validate_records-Taken :
    (h : HeaderMetadata) (s : Shape) (rs : List WireRecord)
    → validate_records h rs ≡ ok tt
    → All (Taken format h s) rs
unfolding validate_records
validate_records-Taken h s [] e = tt
validate_records-Taken h s (r ∷ rs) e =
    let (_, here, rest) = >>=-eq-ok (validate_record h r) _ e in
    (here, validate_records-Taken h s rs rest)

Taken-validate_records :
    (h : HeaderMetadata) (s : Shape) (rs : List WireRecord) (k : ℕ)
    → All (Taken format h s) rs
    → validate_records (with_count h k) rs ≡ ok tt
unfolding validate_records validate_record
Taken-validate_records h s [] k e = refl
Taken-validate_records h s (r ∷ rs) k (here, rest) =
    rw (here, Taken-validate_records h s rs k rest) refl

validate-parts :
    (req : PacketRequest)
    → validate req ≡ ok tt
    → All (Taken format req.header req.shape) req.records
unfolding validate
validate-parts req h =
    let (_, _, h1) = >>=-eq-ok (validate_header req.header) _ h in
    let (_, _, h2) =
      >>=-eq-ok (reject_if (ltb (length req.records) 1 || ltb 30 (length req.records)) bounds) _
        h1 in
    validate_records-Taken req.header req.shape req.records h2

validate_of :
    (r : DataPacketRequest) (rs : List WireRecord)
    → validate_header r.header ≡ ok tt
    → All (Taken format r.header r.shape) rs
    → length rs ≢ 0
    → length rs ≤ 30
    → validate (request_of r rs) ≡ ok tt
unfolding validate validate_header
validate_of r rs header taken some_records few =
    let within : (ltb (length rs) 1 || ltb 30 (length rs)) ≡ false = ground arith in
    rw (header, within)
      (Taken-validate_records r.header r.shape rs
        (if same_protocol r.shape.protocol ipfix then 0 else length rs) taken)

pub implements : Implements format layout
implements = record {
  front_puts =
      λ h s. Writes-congr (sym (append-nil (header_bytes layout h 0))) (Writes-write_header h 0);
  record_puts = λ h s r. Writes-write_record h.uptime_origin_unix_nanos r;
  message_puts = λ capacity req n set same fits sized _.
      Writes-write_message capacity req n set same fits sized;
  header_small = omega arith;
  header_size = λ h. refl;
  set_header_size = λ s n. refl;
  record_size = λ h s r n same _ sized _.
      length-record_bytes h.uptime_origin_unix_nanos r ∙ sym (record_size_v5 s r n same sized);
  templates_size = λ capacity req n same fits _. templates_size capacity req n same fits;
  validate_parts = λ req _ valid. (refl, validate-parts req valid);
  set_size = λ s m k set same some_records sized. set_size s m k set same some_records sized;
  close = λ xs front body s k set same some_records sized _.
      ap (λ b. place xs 0 (front ++ b))
        (unpadded body set (plain_set s (length body) k set same some_records sized).1);
}
  where
    templates_size :
        (capacity : ℕ) (req : PacketRequest) (n : ℕ)
        → same_protocol req.shape.protocol v5 ≡ true
        → preflight capacity req ≡ ok n
        → protocol_header_length req.header.protocol + req.template_bytes ≡ 24 + 0
    templates_size capacity req n same fits = omega (
      arith,
      not_framed req.header.protocol (preflight-protocol capacity req n v5 fits same),
      (preflight-count_v5 capacity req n fits same).2,
    )

    set_size :
        (s : Shape) (m k : ℕ) (set : DataSetSize)
        → same_protocol s.protocol v5 ≡ true
        → k ≢ 0
        → data_set_size_for_encoded s m k ≡ ok set
        → 24 + set.length ≡ 24 + m + set.padding
    set_size s m k set same some_records sized =
        let (whole, none_left) = plain_set s m k set same some_records sized in
        omega (arith, whole, none_left)

streams : Streams format layout
streams = record {
  header_length_of = not_framed;
  rest_of = λ h k. refl;
  record_of = λ h k. refl;
  no_templates = λ req e. refl;
  validate_of = λ r rs same header _ taken some_records few.
      validate_of r rs header taken some_records (few same);
}

-- A write of a v5 request that succeeds leaves its message in the buffer: the header and 48 bytes
-- for each record. The length that it returns is the message's, and does not pass the end of the
-- buffer.
pub v5_write-Written :
    (dst : List ℕ) (req : PacketRequest) (n : ℕ)
    → same_protocol req.shape.protocol v5 ≡ true
    → (write format dst req).1 ≡ ok n
    → Written format layout dst req n
v5_write-Written dst req n same h = write-Written implements dst req n same h

-- A data packet that is streamed leaves the same bytes in the buffer as Write of the same records.
pub v5_write-stream :
    (dst : List ℕ) (r : DataPacketRequest) (rs : List WireRecord) (p : DataPacket) (n : ℕ)
    → (stream format dst r rs p).1 ≡ ok n
    → write format dst (request_of r rs) ≡ ((stream format dst r rs p).0.dst, ok n)
v5_write-stream = write-stream implements streams
