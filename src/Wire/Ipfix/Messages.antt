-- ===== src/Wire/Ipfix/Messages.antt =====
-- The messages of the IPFIX writer.
use otelcol_exporter_netflow.Common.{
  ℕ, zero, suc, ◌+◌, ◌*◌, ◌/◌, ◌%◌, ◌^◌, ◌≡◌, refl, ap, true, false, Bool, not, List, [], ◌∷◌, ◌++◌,
  length, replicate, All, length-append, arith, ◌==◌, if◌then◌else◌, if_cases, bit_or,
}
use otelcol_exporter_netflow.Common.BigEndian.{u16_bytes, u32_bytes}
use otelcol_exporter_netflow.Common.Result.{ok, reject_if, >>=-eq-ok}
use otelcol_exporter_netflow.Wire.Model.{
  v5, v9, ipfix, same_protocol, Protocol, FieldDescriptor, WireRecord, HeaderMetadata,
  invalid_shape,
}
use otelcol_exporter_netflow.Wire.Shapes.{Shape, validate_shape, specifier_width}
use otelcol_exporter_netflow.Wire.Sizes.{
  PacketRequest, DataSetSize, record_size, trusted_data_set_size, data_set_size,
  protocol_header_length,
}
use otelcol_exporter_netflow.Wire.Preflight.{preflight}
use otelcol_exporter_netflow.Wire.Preflight.Safety.{preflight-Fits}
use otelcol_exporter_netflow.Wire.Cursor.{put32, place, skip}
use otelcol_exporter_netflow.Wire.Cursor.Writes.{
  Writes, Writes-skip, Writes-then, Writes-put16, Writes-put32, Writes-put_each, Writes-put_zeros,
  Writes-congr, bytes_of_each,
}
use otelcol_exporter_netflow.Wire.Encode.{nanos_per_second}
use otelcol_exporter_netflow.Wire.Encode.Fields.{length-record}
use otelcol_exporter_netflow.Wire.Encode.Templates.{length-template}
use otelcol_exporter_netflow.Wire.Stream.Layout.{Layout, Taken, data_bytes, message, header_bytes}
use otelcol_exporter_netflow.Wire.Stream.Packet.{passed}
use otelcol_exporter_netflow.Wire.Stream.Framing.{set_header_bytes, close_framed, Sound-fields}
use otelcol_exporter_netflow.Wire.Ipfix.{
  format, validate, validate_header, validate_shape_ordering, validate_records, validate_record,
  close_set,
}
use otelcol_exporter_netflow.Wire.Ipfix.Emit.{
  write_header, write_specifier, write_template_set, write_templates, write_set_header,
  write_data_record, write_data_set, write_message, write_front, size_or_zero,
}
use otelcol_exporter_netflow.Wire.Ipfix.Bytes.{
  value_bytes, record_bytes, Writes-write_data_record, length-value_bytes, Bound,
}

abbrev rest_bytes : HeaderMetadata → List ℕ
rest_bytes h =
    u32_bytes (h.export_time_unix_nanos / nanos_per_second % 2 ^ 32)
    ++ (u32_bytes h.sequence ++ u32_bytes h.observation_domain_id)

-- An element's id and length, and the number of its enterprise.
abbrev specifier_bytes : FieldDescriptor → List ℕ
specifier_bytes d =
    u16_bytes (if d.enterprise then bit_or d.id 0x8000 else d.id)
    ++ (u16_bytes d.length ++ (if d.enterprise then u32_bytes d.pen else []))

-- A template set: four bytes of header, the id, the number of fields and their specifiers.
abbrev template_bytes : Shape → List ℕ
template_bytes s =
    u16_bytes 2
    ++ (u16_bytes (s.template_bytes % 2 ^ 16)
        ++ (u16_bytes s.id
            ++ (u16_bytes (length s.fields % 2 ^ 16) ++ bytes_of_each specifier_bytes s.fields)))

abbrev templates_bytes : ℕ → Shape → List ℕ
templates_bytes zero s = []
templates_bytes (suc n) s = template_bytes s ++ templates_bytes n s

-- The layout of a IPFIX message.
abbrev pub layout : Layout
layout = record {
  version = 10;
  header_rest = rest_bytes;
  templates = λ req. templates_bytes req.template_records req.shape;
  set_header = set_header_bytes;
  record_bytes = λ h s r. record_bytes s r;
}

pub Writes-write_header :
    (h : HeaderMetadata) (k : ℕ) → Writes (write_header h k) (header_bytes layout h k)
unfolding write_header
Writes-write_header h k = Writes-then (Writes-put16 10) (
    Writes-then (Writes-put16 k)
      (Writes-then (Writes-put32 _) (Writes-then (Writes-put32 _) (Writes-put32 _))))

pub Writes-write_set_header :
    (s : Shape) (n : ℕ) → Writes (write_set_header s n) (set_header_bytes s n)
unfolding write_set_header
Writes-write_set_header s n = Writes-then (Writes-put16 s.id) (Writes-put16 _)

pub Writes-write_front :
    (h : HeaderMetadata) (s : Shape)
    → Writes (write_front h s) (header_bytes layout h 0 ++ set_header_bytes s 0)
unfolding write_front
Writes-write_front h s = Writes-then (Writes-write_header h 0) (Writes-write_set_header s 0)

pub Writes-write_specifier : (d : FieldDescriptor) → Writes (write_specifier d) (specifier_bytes d)
unfolding write_specifier
Writes-write_specifier d =
    Writes-then (Writes-put16 _) (Writes-then (Writes-put16 d.length) (by_kind d.enterprise))
  where
    by_kind :
        (b : Bool) → Writes (if b then put32 d.pen else skip) (if b then u32_bytes d.pen else [])
    by_kind true = Writes-put32 d.pen
    by_kind false = Writes-skip

pub Writes-write_templates :
    (n : ℕ) (s : Shape) → Writes (write_templates n s) (templates_bytes n s)
unfolding write_templates write_template_set
Writes-write_templates zero s = Writes-skip
Writes-write_templates (suc n) s =
    Writes-then
      (Writes-then (Writes-put16 2) (
        Writes-then (Writes-put16 _) (
          Writes-then (Writes-put16 s.id) (
            Writes-then (Writes-put16 _)
              (Writes-put_each write_specifier specifier_bytes s.fields Writes-write_specifier)))))
      (Writes-write_templates n s)

pub Writes-payload :
    (h : HeaderMetadata) (s : Shape) (rs : List WireRecord) (set : DataSetSize)
    → Writes
        (if length rs == 0 then skip else write_data_set s rs set)
        (data_bytes layout h s rs set)
unfolding write_data_set
Writes-payload h s [] set = Writes-skip
Writes-payload h s (r ∷ rs) set =
    if_cases (λ put. Writes put (data_bytes layout h s (r ∷ rs) set)) (length (r ∷ rs) == 0)
      (λ e. absurd (ground (arith, e)))
      (λ _. Writes-then (Writes-write_set_header s set.length) (
        Writes-then
          (Writes-put_each (write_data_record s) (record_bytes s) (r ∷ rs)
            (Writes-write_data_record s))
          (Writes-put_zeros set.padding)))

pub Writes-write_message :
    (capacity : ℕ) (req : PacketRequest) (n : ℕ) (set : DataSetSize)
    → preflight capacity req ≡ ok n
    → trusted_data_set_size req.shape req.records ≡ ok set
    → Writes (write_message req n) (message layout req (n % 2 ^ 16) set)
unfolding write_message data_set_size
Writes-write_message capacity req n set fits sized =
    let valid = (preflight-Fits capacity req n fits).shape in
    let known : data_set_size req.shape req.records ≡ ok set = rw (valid, sized) refl in
    let parts = Writes-then (Writes-write_header req.header (n % 2 ^ 16)) (
      Writes-then (Writes-write_templates req.template_records req.shape) (
        Writes-payload req.header req.shape req.records
          (size_or_zero (data_set_size req.shape req.records)))) in
    Writes-congr
      (ap
        (λ size.
          header_bytes layout req.header (n % 2 ^ 16)
          ++ (templates_bytes req.template_records req.shape
              ++ data_bytes layout req.header req.shape req.records size))
        (ap size_or_zero known))
      parts

specifier_size :
    (p : Protocol) (d : FieldDescriptor)
    → same_protocol p ipfix ≡ true
    → length (specifier_bytes d) ≡ specifier_width p d
unfolding specifier_width
specifier_size p d same = ground arith

pub length-templates_bytes :
    (n : ℕ) (s : Shape)
    → same_protocol s.protocol ipfix ≡ true
    → validate_shape s ≡ ok tt
    → length (templates_bytes n s) ≡ n * s.template_bytes
length-templates_bytes zero s same valid = omega arith
length-templates_bytes (suc n) s same valid = omega (
  arith,
  length-append (template_bytes s) (templates_bytes n s),
  length-template s specifier_bytes (not_v5 s.protocol same) (λ d. specifier_size s.protocol d same)
      valid,
  length-templates_bytes n s same valid,
)
  where
    not_v5 : (p : Protocol) → same_protocol p ipfix ≡ true → same_protocol p v5 ≡ false
    not_v5 p e = ground arith

validate_records-Taken :
    (h : HeaderMetadata) (s : Shape) (rs : List WireRecord)
    → validate_records s rs ≡ ok tt
    → All (Taken format h s) rs
unfolding validate_records
validate_records-Taken h s [] e = tt
validate_records-Taken h s (r ∷ rs) e =
    let (_, here, rest) = >>=-eq-ok (validate_record s r) _ e in
    (here, validate_records-Taken h s rs rest)

pub Taken-validate_records :
    (h : HeaderMetadata) (s : Shape) (rs : List WireRecord)
    → All (Taken format h s) rs
    → validate_records s rs ≡ ok tt
unfolding validate_records
Taken-validate_records h s [] e = refl
Taken-validate_records h s (r ∷ rs) (here, rest) =
    rw (here, Taken-validate_records h s rs rest) refl

pub validate-parts :
    (req : PacketRequest)
    → validate req ≡ ok tt
    → (validate_shape_ordering req.shape ≡ ok tt)
      × All (Taken format req.header req.shape) req.records
unfolding validate
validate-parts req h =
    let (_, _, h1) = >>=-eq-ok (validate_header req.header) _ h in
    let (_, _, h2) =
      >>=-eq-ok (reject_if (not (same_protocol req.shape.protocol ipfix)) invalid_shape) _ h1 in
    let (_, bound, h3) = >>=-eq-ok (validate_shape_ordering req.shape) _ h2 in
    (bound, validate_records-Taken req.header req.shape req.records h3)

-- The IPFIX writer takes only shapes of IPFIX.
pub validate-ipfix :
    (req : PacketRequest) → validate req ≡ ok tt → same_protocol req.shape.protocol ipfix ≡ true
unfolding validate
validate-ipfix req h =
    let (_, _, h1) = >>=-eq-ok (validate_header req.header) _ h in
    let (_, same, _) =
      >>=-eq-ok (reject_if (not (same_protocol req.shape.protocol ipfix)) invalid_shape) _ h1 in
    passed _ invalid_shape same

pub record_bytes_size :
    (s : Shape) (r : WireRecord) (n : ℕ)
    → same_protocol s.protocol ipfix ≡ true
    → record_size s r ≡ ok n
    → length (record_bytes s r) ≡ n
unfolding record_size
record_bytes_size s r n same sized =
    let (_, valid, _) = >>=-eq-ok (validate_shape s) _ sized in
    length-record value_bytes Bound length-value_bytes s r n (Sound-fields ipfix s same valid) sized

pub ipfix_header_length :
    (p : Protocol) → same_protocol p ipfix ≡ true → protocol_header_length p ≡ 16
ipfix_header_length v9 h = cc
ipfix_header_length v5 h = cc
ipfix_header_length ipfix h = refl
ipfix_header_length Protocol.unknown h = cc
ipfix_header_length Protocol.unlisted h = cc

pub not_v5 : (p : Protocol) → same_protocol p ipfix ≡ true → same_protocol p v5 ≡ false
not_v5 p e = ground arith

pub close_set_framed :
    (xs front body : List ℕ) (s : Shape) (set : DataSetSize)
    → length front ≡ 16
    → close_set (20 + length body) set (place xs 0 (front ++ (set_header_bytes s 0 ++ body)))
      ≡ place xs 0 (front ++ (set_header_bytes s set.length ++ (body ++ replicate set.padding 0)))
unfolding close_set
close_set_framed xs front body s set e =
    close_framed xs front body s set.length set.padding 18 (20 + length body) (omega (arith, e))
      (omega (arith, e))
