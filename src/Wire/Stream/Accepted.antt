-- ===== src/Wire/Stream/Accepted.antt =====
-- The request of Write for the records of a streamed packet, and that Preflight accepts it.
use otelcol_exporter_netflow.Common.{
  ℕ, ◌+◌, ◌≤◌, ◌≡◌, ◌≢◌, true, false, List, length, ltb, if◌then◌else◌, arith,
}
use otelcol_exporter_netflow.Common.Result.{ok, ◌>>◌, reject_if}
use otelcol_exporter_netflow.Wire.Model.{
  v5, ipfix, WireRecord, HeaderMetadata, ContractError, same_protocol, short_buffer,
}
use otelcol_exporter_netflow.Wire.Descriptors.{checked_add}
use otelcol_exporter_netflow.Wire.Sizes.{
  PacketRequest, DataSetSize, records_bytes_from, trusted_data_set_size, data_set_size_for_encoded,
  validate_payload_length, protocol_header_length, validate_header,
}
use otelcol_exporter_netflow.Wire.Sizes.Sums.{trusted_data_set_size_of}
use otelcol_exporter_netflow.Wire.Sizes.Padding.{data_set_size_for_encoded-Sized}
use otelcol_exporter_netflow.Wire.Preflight.{
  DataPacketRequest, preflight, check_counts, check_data, message_length,
}
use otelcol_exporter_netflow.Wire.Stream.Layout.{with_count}

-- The same records and limits; the count of the header is the records', and 0 in IPFIX.
abbrev pub request_of : DataPacketRequest → List WireRecord → PacketRequest
request_of r rs = record {
  header = with_count r.header (if same_protocol r.shape.protocol ipfix then 0 else length rs);
  shape = r.shape;
  records = rs;
  template_records = 0;
  template_bytes = 0;
  data_bytes = 0;
  max_datagram_bytes = r.max_datagram_bytes;
}

counts_ok :
    (r : DataPacketRequest) (rs : List WireRecord)
    → length rs ≢ 0
    → length rs ≤ 65535
    → (same_protocol r.shape.protocol v5 ≡ true → length rs ≤ 30)
    → check_counts (request_of r rs) (length rs) ≡ ok tt
unfolding check_counts
counts_ok r rs some_records few few_v5 = ground arith

data_ok :
    (r : DataPacketRequest) (rs : List WireRecord) (k d : ℕ)
    → k ≢ 0
    → d ≤ 65535
    → (same_protocol r.shape.protocol v5 ≡ false → 4 ≤ d)
    → check_data (request_of r rs) k d ≡ ok tt
unfolding check_data
data_ok r rs k d some_records small framed = ground arith

message_ok :
    (r : DataPacketRequest) (rs : List WireRecord) (d n : ℕ)
    → n ≡ protocol_header_length r.header.protocol + d
    → n ≤ 65535
    → message_length (request_of r rs) d ≡ ok n
unfolding message_length checked_add
message_ok r rs d n e small = ground arith

payload_small : (n b : ℕ) → validate_payload_length n b ≡ ok tt → n ≤ 65535
unfolding validate_payload_length
payload_small n b h = ground arith

header_ok :
    (h : HeaderMetadata) (k : ℕ)
    → validate_header h ≡ ok tt
    → validate_header (with_count h k) ≡ ok tt
unfolding validate_header
header_ok h k e = e

pub preflight_of :
    (capacity : ℕ) (r : DataPacketRequest) (rs : List WireRecord) (m n : ℕ) (set : DataSetSize)
    → validate_header r.header ≡ ok tt
    → same_protocol r.shape.protocol r.header.protocol ≡ true
    → length rs ≢ 0
    → length rs ≤ 65535
    → (same_protocol r.shape.protocol v5 ≡ true → length rs ≤ 30)
    → records_bytes_from r.shape 0 rs ≡ ok m
    → data_set_size_for_encoded r.shape m (length rs) ≡ ok set
    → n ≡ protocol_header_length r.header.protocol + set.length
    → validate_payload_length n r.max_datagram_bytes ≡ ok tt
    → n ≤ capacity
    → (preflight capacity (request_of r rs) ≡ ok n) × (trusted_data_set_size r.shape rs ≡ ok set)
unfolding preflight
preflight_of capacity r rs m n set header same some_records few few_v5 sum sized total payload
      room =
    let s = data_set_size_for_encoded-Sized r.shape m (length rs) sized in
    let trusted = trusted_data_set_size_of r.shape rs m set few sum sized in
    (
      rw
          (
            header_ok r.header (if same_protocol r.shape.protocol ipfix then 0 else length rs)
                header,
            s.valid,
            same,
            counts_ok r rs some_records few few_v5,
            trusted,
            data_ok r rs (length rs) set.length some_records s.fits
                (λ p. omega (arith, (s.framed some_records p).adds_up)),
            message_ok r rs set.length n total (payload_small n r.max_datagram_bytes payload),
            payload,
          )
          (fits n capacity short_buffer room),
      trusted,
    )
  where
    fits :
        (n capacity : ℕ) (e : ContractError)
        → n ≤ capacity
        → (reject_if (ltb capacity n) e >> ok n) ≡ ok n
    fits n capacity e h = ground arith
