-- ===== src/Wire/Preflight/Safety.antt =====
-- What a request satisfies that Preflight accepts.
use otelcol_exporter_netflow.Common.{
  ℕ, ◌+◌, ◌≤◌, ◌≡◌, ap, subst, false, not, length, ltb, arith, ◌⊎◌,
}
use otelcol_exporter_netflow.Common.Result.{Result, ok, err, reject_if, >>=-eq-ok, reject_if-eq-ok}
use otelcol_exporter_netflow.Wire.Model.{ContractError, invalid_shape, short_buffer, same_protocol}
use otelcol_exporter_netflow.Wire.Descriptors.{checked_add}
use otelcol_exporter_netflow.Wire.Shapes.{validate_shape}
use otelcol_exporter_netflow.Wire.Sizes.{
  PacketRequest, DataSetSize, trusted_data_set_size, validate_payload_length,
  protocol_header_length, validate_header,
}
use otelcol_exporter_netflow.Wire.Preflight.{
  preflight, check_counts, check_templates, check_data, message_length,
}

-- The exact length of a message, and the limits that it keeps.
pub record Fits (capacity : ℕ) (req : PacketRequest) (n : ℕ) : Type 0 where
  pub header : validate_header req.header ≡ ok tt
  pub shape : validate_shape req.shape ≡ ok tt
  pub set : DataSetSize
  pub sized : trusted_data_set_size req.shape req.records ≡ ok set
  pub exact : n ≡ protocol_header_length req.header.protocol + req.template_bytes + set.length
  pub wire : n ≤ 65535
  pub buffer : n ≤ capacity
  -- A budget of 0 is no budget.
  pub budget : (req.max_datagram_bytes ≡ 0) ⊎ (n ≤ req.max_datagram_bytes)

message_length-ok :
    (req : PacketRequest) (d n : ℕ)
    → message_length req d ≡ ok n
    → n ≡ protocol_header_length req.header.protocol + req.template_bytes + d
unfolding message_length checked_add
message_length-ok req d n h = ground arith

validate_payload_length-ok :
    (n budget : ℕ) (u : Unit {0})
    → validate_payload_length n budget ≡ ok u
    → (n ≤ 65535) × ((budget ≡ 0) ⊎ (n ≤ budget))
unfolding validate_payload_length
validate_payload_length-ok n budget u h = ground arith

number : Result ContractError ℕ → ℕ
number (ok n) = n
number (err e) = 0

-- A message that Preflight accepts has a valid header and shape, and its length is the protocol
-- header, the templates and the data set together; it is at most 65535 bytes, at most the caller's
-- buffer, and at most the datagram budget where there is one.
pub preflight-Fits :
    (capacity : ℕ) (req : PacketRequest) (n : ℕ)
    → preflight capacity req ≡ ok n
    → Fits capacity req n
unfolding preflight number
preflight-Fits capacity req n h =
    let (_, head, h1) = >>=-eq-ok (validate_header req.header) _ h in
    let (_, shape, h2) = >>=-eq-ok (validate_shape req.shape) _ h1 in
    let (_, _, h3) =
      >>=-eq-ok
        (reject_if (not (same_protocol req.shape.protocol req.header.protocol)) invalid_shape) _
        h2 in
    let (_, _, h4) = >>=-eq-ok (check_counts req (length req.records)) _ h3 in
    let (_, _, h5) = >>=-eq-ok (check_templates req) _ h4 in
    let (set, sized, h6) = >>=-eq-ok (trusted_data_set_size req.shape req.records) _ h5 in
    let (_, _, h7) = >>=-eq-ok (check_data req (length req.records) set.length) _ h6 in
    let (m, exact, h8) = >>=-eq-ok (message_length req set.length) _ h7 in
    let (u, payload, h9) = >>=-eq-ok (validate_payload_length m req.max_datagram_bytes) _ h8 in
    let (_, short, h10) = >>=-eq-ok (reject_if (ltb capacity m) short_buffer) _ h9 in
    let e : m ≡ n = ap number h10 in
    let limits = validate_payload_length-ok m req.max_datagram_bytes u payload in
    subst (Fits capacity req) e (record {
      header = head;
      shape = shape;
      set = set;
      sized = sized;
      exact = message_length-ok req set.length m exact;
      wire = limits.0;
      buffer = at_most m capacity (reject_if-eq-ok _ _ short);
      budget = limits.1;
    })
  where
    at_most : (a b : ℕ) → ltb b a ≡ false → a ≤ b
    at_most a b e = ground arith
