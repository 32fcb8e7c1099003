-- ===== src/Wire/Stream/Layout.antt =====
-- The bytes of a message as a format prescribes them, and what relates a Format to them.
use otelcol_exporter_netflow.Common.{
  ℕ, ◌+◌, ◌≤◌, ◌≡◌, ◌≢◌, true, List, [], ◌∷◌, ◌++◌, length, replicate, All,
}
use otelcol_exporter_netflow.Common.Result.{ok}
use otelcol_exporter_netflow.Common.BigEndian.{u16_bytes}
use otelcol_exporter_netflow.Wire.Model.{HeaderMetadata, WireRecord, same_protocol}
use otelcol_exporter_netflow.Wire.Shapes.{Shape}
use otelcol_exporter_netflow.Wire.Sizes.{
  PacketRequest, DataSetSize, record_size, protocol_header_length, trusted_data_set_size,
  data_set_size_for_encoded,
}
use otelcol_exporter_netflow.Wire.Preflight.{preflight}
use otelcol_exporter_netflow.Wire.Cursor.{place}
use otelcol_exporter_netflow.Wire.Cursor.Writes.{Writes, bytes_of_each}
use otelcol_exporter_netflow.Wire.Stream.{Format}

-- The parts of a message behind its version and its count or length.
pub record Layout : Type 0 where
  pub version : ℕ
  pub header_rest : HeaderMetadata → List ℕ
  pub templates : PacketRequest → List ℕ
  -- The set header for a length; nothing in v5.
  pub set_header : Shape → ℕ → List ℕ
  pub record_bytes : HeaderMetadata → Shape → WireRecord → List ℕ

module _ (l : Layout) where
  abbrev pub header_bytes : HeaderMetadata → ℕ → List ℕ
  header_bytes h word = u16_bytes l.version ++ (u16_bytes word ++ l.header_rest h)

  abbrev pub records_bytes : HeaderMetadata → Shape → List WireRecord → List ℕ
  records_bytes h s rs = bytes_of_each (l.record_bytes h s) rs

  -- A set of records; no records make no set.
  abbrev pub data_bytes : HeaderMetadata → Shape → List WireRecord → DataSetSize → List ℕ
  data_bytes h s [] set = []
  data_bytes h s (r ∷ rs) set =
      l.set_header s set.length ++ (records_bytes h s (r ∷ rs) ++ replicate set.padding 0)

  -- A whole message: header, templates and data.
  abbrev pub message : PacketRequest → ℕ → DataSetSize → List ℕ
  message req word set =
      header_bytes req.header word
      ++ (l.templates req ++ data_bytes req.header req.shape req.records set)

-- A header for another count of records.
abbrev pub with_count : HeaderMetadata → ℕ → HeaderMetadata
with_count h k = record h { count = k }

-- A record that the writer takes.
abbrev pub Taken : Format → HeaderMetadata → Shape → WireRecord → Type 0
Taken f h s r = f.validate_record h s r ≡ ok tt

-- What a protocol's package establishes about its Format.
pub record Implements (f : Format) (l : Layout) : Type 0 where
  pub front_puts :
      (h : HeaderMetadata) (s : Shape)
      → Writes (f.write_front h s) (header_bytes l h 0 ++ l.set_header s 0)
  pub record_puts :
      (h : HeaderMetadata) (s : Shape) (r : WireRecord)
      → Writes (f.write_record h s r) (l.record_bytes h s r)
  pub message_puts :
      (capacity : ℕ) (req : PacketRequest) (n : ℕ) (set : DataSetSize)
      → same_protocol req.shape.protocol f.protocol ≡ true
      → preflight capacity req ≡ ok n
      → trusted_data_set_size req.shape req.records ≡ ok set
      → f.validate req ≡ ok tt
      → Writes
          (f.write_message req n)
          (message l req (f.header_word (length req.records + req.template_records) n) set)
  pub header_small : f.header_length ≤ 24
  pub header_size : (h : HeaderMetadata) → 4 + length (l.header_rest h) ≡ f.header_length
  pub set_header_size :
      (s : Shape) (n : ℕ) → f.header_length + length (l.set_header s n) ≡ f.data_offset
  pub record_size :
      (h : HeaderMetadata) (s : Shape) (r : WireRecord) (n : ℕ)
      → same_protocol s.protocol f.protocol ≡ true
      → f.validate_shape s ≡ ok tt
      → record_size s r ≡ ok n
      → Taken f h s r
      → length (l.record_bytes h s r) ≡ n
  pub templates_size :
      (capacity : ℕ) (req : PacketRequest) (n : ℕ)
      → same_protocol req.shape.protocol f.protocol ≡ true
      → preflight capacity req ≡ ok n
      → f.validate req ≡ ok tt
      → protocol_header_length req.header.protocol + req.template_bytes
        ≡ f.header_length + length (l.templates req)
  -- The parts of `validate`.
  pub validate_parts :
      (req : PacketRequest)
      → same_protocol req.shape.protocol f.protocol ≡ true
      → f.validate req ≡ ok tt
      → (f.validate_shape req.shape ≡ ok tt) × All (Taken f req.header req.shape) req.records
  -- The set adds up to what stands behind the header.
  pub set_size :
      (s : Shape) (m k : ℕ) (set : DataSetSize)
      → same_protocol s.protocol f.protocol ≡ true
      → k ≢ 0
      → data_set_size_for_encoded s m k ≡ ok set
      → f.header_length + set.length ≡ f.data_offset + m + set.padding
  pub close :
      (xs front body : List ℕ) (s : Shape) (k : ℕ) (set : DataSetSize)
      → same_protocol s.protocol f.protocol ≡ true
      → k ≢ 0
      → data_set_size_for_encoded s (length body) k ≡ ok set
      → length front ≡ f.header_length
      → f.close_set
          (f.data_offset + length body)
          set
          (place xs 0 (front ++ (l.set_header s 0 ++ body)))
        ≡ place xs 0 (front ++ (l.set_header s set.length ++ (body ++ replicate set.padding 0)))
