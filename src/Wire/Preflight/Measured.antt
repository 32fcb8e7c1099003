-- ===== src/Wire/Preflight/Measured.antt =====
-- The length that Preflight returns, measured part by part.
use otelcol_exporter_netflow.Common.{
  ℕ, ◌+◌, ◌*◌, ◌≤◌, ◌≡◌, List, [], ◌∷◌, length, replicate, if◌then◌else◌, ◌⊎◌,
}
use otelcol_exporter_netflow.Common.Result.{ok}
use otelcol_exporter_netflow.Wire.Model.{Protocol, v5, same_protocol, FieldDescriptor}
use otelcol_exporter_netflow.Wire.Shapes.{Shape, specifier_width}
use otelcol_exporter_netflow.Wire.Sizes.{
  PacketRequest, DataSetSize, records_bytes_from, protocol_header_length,
}
use otelcol_exporter_netflow.Wire.Sizes.Padding.{Sized}
use otelcol_exporter_netflow.Wire.Cursor.Writes.{bytes_of_each}

-- The widths of the field specifiers together.
abbrev pub specifier_widths : Protocol → List FieldDescriptor → ℕ
specifier_widths p [] = 0
specifier_widths p (d ∷ ds) = specifier_width p d + specifier_widths p ds

-- A template record with its set header: eight bytes and the field specifiers. v5 has none.
abbrev pub template_width : Shape → ℕ
template_width s =
    if same_protocol s.protocol v5 then 0 else 8 + specifier_widths s.protocol s.fields

-- The parts of a message and its length: the protocol header, the templates field by field, and the
-- data set of the records with its padding.
pub record Measured (capacity : ℕ) (req : PacketRequest) (n : ℕ) : Type 0 where
  pub record_bytes : ℕ
  pub sum : records_bytes_from req.shape 0 req.records ≡ ok record_bytes
  pub set : DataSetSize
  pub sized : Sized req.shape record_bytes (length req.records) set
  pub exact :
      n
      ≡ protocol_header_length req.header.protocol
        + req.template_records * template_width req.shape
        + set.length
  pub claimed : req.template_bytes ≡ req.template_records * template_width req.shape
  pub wire : n ≤ 65535
  pub buffer : n ≤ capacity
  pub budget : (req.max_datagram_bytes ≡ 0) ⊎ (n ≤ req.max_datagram_bytes)

-- Specifiers of zeros.
abbrev blank : Protocol → List FieldDescriptor → List ℕ
blank p ds = bytes_of_each (λ d. replicate (specifier_width p d) 0) ds
