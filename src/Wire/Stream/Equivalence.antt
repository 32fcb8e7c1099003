-- ===== src/Wire/Stream/Equivalence.antt =====
-- Streaming a packet and writing it at once give the same datagram.
use otelcol_exporter_netflow.Common.{
  ℕ, ◌+◌, ◌≡◌, ◌≢◌, refl, ap, sym, ◌∙◌, true, List, [], ◌∷◌, ◌++◌, length, replicate, All, arith,
  if◌then◌else◌, ◌≤◌,
}
use otelcol_exporter_netflow.Common.BigEndian.{u16_bytes}
use otelcol_exporter_netflow.Common.Result.{Result, ok}
use otelcol_exporter_netflow.Wire.Model.{
  Protocol, ipfix, WireRecord, HeaderMetadata, ContractError, same_protocol, v5,
}
use otelcol_exporter_netflow.Wire.Shapes.{Shape}
use otelcol_exporter_netflow.Wire.Sizes.{
  PacketRequest, DataSetSize, protocol_header_length, trusted_data_set_size,
}
use otelcol_exporter_netflow.Wire.Preflight.{DataPacketRequest}
use otelcol_exporter_netflow.Wire.Cursor.{place}
use otelcol_exporter_netflow.Wire.Cursor.Writes.{bytes_of_each}
use otelcol_exporter_netflow.Wire.Stream.{Format, DataPacket, write, begin, finish}
use otelcol_exporter_netflow.Wire.Stream.Layout.{
  Layout, Implements, Taken, with_count, message, header_bytes, data_bytes,
}
use otelcol_exporter_netflow.Wire.Stream.Slice.{write-Written}
use otelcol_exporter_netflow.Wire.Stream.Packet.{
  append_each, on_ok, on_ok-eq-ok, Begun, Filled, active, begin-Filled,
}
use otelcol_exporter_netflow.Wire.Stream.Finish.{Finished, append_each-Filled, finish-Finished}
use otelcol_exporter_netflow.Wire.Encode.Templates.{same_by}
use otelcol_exporter_netflow.Wire.Stream.Accepted.{request_of, preflight_of}

-- A packet from Begin to Finish, up to the first call that returns an error.
unfoldable pub stream :
    Format
    → List ℕ
    → DataPacketRequest
    → List WireRecord
    → DataPacket
    → DataPacket × Result ContractError ℕ
stream f dst r rs p = on_ok (begin f dst r p) λ p. on_ok (append_each f rs p) (finish f)

-- That a protocol's writer does not read the header's count but in one place, and the checks of a
-- whole request that follow from those of the appender.
pub record Streams (f : Format) (l : Layout) : Type 0 where
  pub header_length_of :
      (p : Protocol)
      → same_protocol p f.protocol ≡ true
      → protocol_header_length p ≡ f.header_length
  pub rest_of : (h : HeaderMetadata) (k : ℕ) → l.header_rest (with_count h k) ≡ l.header_rest h
  pub record_of : (h : HeaderMetadata) (k : ℕ) → l.record_bytes (with_count h k) ≡ l.record_bytes h
  pub no_templates : (req : PacketRequest) → req.template_records ≡ 0 → l.templates req ≡ []
  pub validate_of :
      (r : DataPacketRequest) (rs : List WireRecord)
      → same_protocol r.shape.protocol f.protocol ≡ true
      → f.validate_header r.header ≡ ok tt
      → f.validate_shape r.shape ≡ ok tt
      → All (Taken f r.header r.shape) rs
      → length rs ≢ 0
      → (same_protocol r.shape.protocol v5 ≡ true → length rs ≤ 30)
      → f.validate (request_of r rs) ≡ ok tt

pub record Streamed (f : Format) (l : Layout) (dst : List ℕ) (r : DataPacketRequest)
    (rs : List WireRecord) (p : DataPacket) (n : ℕ) : Type 0 where
  pub limit : ℕ
  pub m : ℕ
  pub begun : Begun f dst r limit
  pub filled : Filled f dst r limit rs m
  pub finished : Finished f l dst r rs m n (stream f dst r rs p).0

module _ {f : Format} {l : Layout} (i : Implements f l) where
  stream-Streamed :
      (dst : List ℕ) (r : DataPacketRequest) (rs : List WireRecord) (p : DataPacket) (n : ℕ)
      → (stream f dst r rs p).1 ≡ ok n
      → Streamed f l dst r rs p n
  unfolding stream
  stream-Streamed dst r rs p n h =
      let (_, first, out) = on_ok-eq-ok (begin f dst r p) _ n h in
      let (limit, begun, empty, opened) = begin-Filled i dst r p first in
      let e : stream f dst r rs p
          ≡ on_ok (append_each f rs (active l dst r limit [] 0)) (finish f) =
        out ∙ ap (λ p. on_ok (append_each f rs p) (finish f)) opened in
      let (_, second, out') =
        on_ok-eq-ok (append_each f rs (active l dst r limit [] 0)) (finish f) n
          (sym (ap (λ o. o.1) e) ∙ h) in
      let (m, filled, held) = append_each-Filled i dst r limit [] 0 rs begun empty second in
      let e' : stream f dst r rs p ≡ finish f (active l dst r limit rs m) =
        e ∙ out' ∙ ap (finish f) held in
      record {
        limit = limit;
        m = m;
        begun = begun;
        filled = filled;
        finished =
            rw e' (finish-Finished i dst r limit rs m n begun filled (sym (ap (λ o. o.1) e') ∙ h));
      }

  -- Where a packet streams, Write takes its request.
  write_of_stream :
      Streams f l
      → (dst : List ℕ) (r : DataPacketRequest) (rs : List WireRecord) (p : DataPacket) (n : ℕ)
      → (s : Streamed f l dst r rs p n)
      → ((write f dst (request_of r rs)).1 ≡ ok n)
        × (trusted_data_set_size r.shape rs ≡ ok s.finished.set)
  unfolding write
  write_of_stream w dst r rs p n s =
      let few_v5 : same_protocol r.shape.protocol v5 ≡ true → length rs ≤ 30 =
        (λ e. at_most s.filled.few (s.begun.request.few_v5 e)) in
      let header_length = w.header_length_of r.header.protocol (
        same_by r.shape.protocol r.header.protocol f.protocol s.begun.request.agree
          s.begun.protocol) in
      let fits =
        preflight_of (length dst) r rs s.m n s.finished.set s.begun.request.header
          s.begun.request.agree s.finished.some_records (at_most s.filled.few s.begun.request.few)
          few_v5 s.filled.sum s.finished.sized (omega (arith, s.finished.total, header_length))
          s.finished.payload s.finished.room in
      let valid =
        w.validate_of r rs s.begun.protocol s.begun.header s.begun.shape s.filled.taken
          s.finished.some_records few_v5 in
      (rw (fits.0, valid) refl, fits.1)
    where
      at_most : {a b c : ℕ} → a ≤ b → b ≤ c → a ≤ c
      at_most p q = omega (arith, p, q)

  data_bytes_congr :
      (h h' : HeaderMetadata) (s : Shape) (rs : List WireRecord) (set : DataSetSize)
      → l.record_bytes h ≡ l.record_bytes h'
      → data_bytes l h s rs set ≡ data_bytes l h' s rs set
  data_bytes_congr h h' s [] set e = refl
  data_bytes_congr h h' s (r ∷ rs) set e =
      ap
        (λ bytes.
          l.set_header s set.length
          ++ (bytes_of_each (bytes s) (r ∷ rs) ++ replicate set.padding 0))
        e

  message_of_request :
      Streams f l
      → (r : DataPacketRequest) (rs : List WireRecord) (n : ℕ) (set : DataSetSize)
      → message l (request_of r rs) (f.header_word (length rs + 0) n) set
        ≡ header_bytes l r.header (f.header_word (length rs) n)
          ++ data_bytes l r.header r.shape rs set
  message_of_request w r rs n set =
      let k : ℕ = if same_protocol r.shape.protocol ipfix then 0 else length rs in
      let word = f.header_word (length rs) n in
      let plain : length rs + 0 ≡ length rs = omega arith in
      rw
        (
          plain,
          w.no_templates (request_of r rs) refl,
          data_bytes_congr (with_count r.header k) r.header r.shape rs set (w.record_of r.header k),
        )
        (ap
          (λ rest.
            (u16_bytes l.version ++ (u16_bytes word ++ rest))
            ++ data_bytes l r.header r.shape rs set)
          (w.rest_of r.header k))

  -- A packet that is streamed leaves in the buffer what Write leaves there.
  pub write-stream :
      Streams f l
      → (dst : List ℕ) (r : DataPacketRequest) (rs : List WireRecord) (p : DataPacket) (n : ℕ)
      → (stream f dst r rs p).1 ≡ ok n
      → write f dst (request_of r rs) ≡ ((stream f dst r rs p).0.dst, ok n)
  write-stream w dst r rs p n h =
      let s = stream-Streamed dst r rs p n h in
      let (taken, sized) = write_of_stream w dst r rs p n s in
      let written = write-Written i dst (request_of r rs) n s.begun.protocol taken in
      let same : written.set ≡ s.finished.set =
        same_set written.set s.finished.set (sym written.sized ∙ sized) in
      pair_eq
        (written.bytes
          ∙ ap (place dst 0) (
              message_of_request w r rs n written.set
              ∙ ap
                  (λ set.
                    header_bytes l r.header (f.header_word (length rs) n)
                    ++ data_bytes l r.header r.shape rs set)
                  same)
          ∙ sym s.finished.bytes)
        taken
    where
      same_set :
          (a b : DataSetSize) → ◌≡◌ {A = Result ContractError DataSetSize} (ok a) (ok b) → a ≡ b
      same_set a b e = cc

      pair_eq :
          {o : List ℕ × Result ContractError ℕ} {bytes : List ℕ} {result : Result ContractError ℕ}
          → o.0 ≡ bytes
          → o.1 ≡ result
          → o ≡ (bytes, result)
      pair_eq p q = λ i. (p i, q i)
