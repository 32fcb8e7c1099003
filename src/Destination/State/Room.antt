-- ===== src/Destination/State/Room.antt =====
-- The limits of a streamed packet.
use otelcol_exporter_netflow.Common.{
  ℕ, ◌+◌, ◌-◌, ◌%◌, ◌^◌, ◌≤◌, ◌<◌, ◌≡◌, refl, ap, subst, false, Option, none, some, not, ◌&&◌, ◌||◌,
  ltb, leb, ◌==◌, if◌then◌else◌, arith,
}
use otelcol_exporter_netflow.Common.Result.{
  Result, ok, err, reject_if, lift_error, >>=-eq-ok, reject_if-eq-ok,
}
use otelcol_exporter_netflow.Wire.Model.{
  Protocol, v5, v9, ipfix, same_protocol, WireRecord, ContractError, bounds, short_buffer,
}
use otelcol_exporter_netflow.Wire.Sizes.{
  DataSetSize, record_size, data_set_size_for_encoded, protocol_header_length,
}
use otelcol_exporter_netflow.Destination.Error.{Error, invalid_config, wire}
use otelcol_exporter_netflow.Destination.State.{State, Packet, StreamPacketState}
use otelcol_exporter_netflow.Destination.State.Begin.{within_budget, checked_packet_length}
use otelcol_exporter_netflow.Destination.State.Data.{within_budget-eq_ok}
use otelcol_exporter_netflow.Destination.State.Stream.{Extended, extend}

-- What holds of the packet once a record is accepted.
pub record Room {A : Type 0} (s : State A) (pending : Packet) (stream : StreamPacketState)
    (r : WireRecord) (x : Extended) : Type 0 where
  pub size : ℕ
  pub sized : record_size pending.request.shape r ≡ ok size
  pub bytes : (x.bytes ≡ stream.bytes + size) × (x.bytes < 2 ^ 64)
  pub records : (x.records ≡ stream.records + 1) × (x.records ≤ s.config.max_records_per_message)
  -- The data set is the one of all the bytes and records, and the datagram is it behind the header.
  pub set : DataSetSize
  pub set_sized : data_set_size_for_encoded pending.request.shape x.bytes x.records ≡ ok set
  pub data_bytes : x.data_bytes ≡ set.length
  pub total : x.datagram_length ≡ protocol_header_length s.config.protocol + set.length
  pub datagram :
      (x.datagram_length ≤ s.config.max_datagram_size) × (x.datagram_length ≤ stream.capacity)

abbrev wire_result : {B : Type 0} → Result Error B → Result ContractError B
wire_result (ok n) = ok n
wire_result (err e) = err bounds

lift_error-eq_ok :
    {B : Type 0} (m : Result ContractError B) (n : B) → lift_error wire m ≡ ok n → m ≡ ok n
lift_error-eq_ok (ok a) n h = ap wire_result h
lift_error-eq_ok (err e) n h = cc

within_budget-eq_some : (o : Option ℕ) (budget n : ℕ) → within_budget o budget ≡ ok n → o ≡ some n
within_budget-eq_some none budget n h = cc
within_budget-eq_some (some m) budget n h = ground arith

-- A datagram without templates is the header of the protocol and the data set.
packet_length :
    (p : Protocol) (d n : ℕ)
    → checked_packet_length p 0 0 d ≡ some n
    → n ≡ protocol_header_length p + d
unfolding checked_packet_length
packet_length v5 d n h = ground arith
packet_length v9 d n h = ground arith
packet_length ipfix d n h = ground arith
packet_length Protocol.unlisted d n h = cc
packet_length Protocol.unknown d n h = cc

module _ {A : Type 0} where
  -- A record that is accepted into a streamed packet adds its own size without overflow; the packet
  -- keeps to the configured number of records, to the datagram budget and to the caller's buffer.
  pub extend-Room :
      (s : State A) (pending : Packet) (stream : StreamPacketState) (r : WireRecord) (sampling : ℕ)
      (x : Extended)
      → stream.bytes < 2 ^ 64
      → extend s pending stream r sampling ≡ ok x
      → Room s pending stream r x
  unfolding extend
  extend-Room s pending stream r sampling x small h =
      let (_, _, h1) =
        >>=-eq-ok
          (reject_if
            (if same_protocol s.config.protocol v5
              then ltb 16383 sampling || not (sampling % 2 ^ 16 == stream.sampling_interval)
              else not (sampling == 0))
            invalid_config)
          _ h in
      let (_, few, h2) =
        >>=-eq-ok (reject_if (leb s.config.max_records_per_message stream.records) (wire bounds)) _
          h1 in
      let (_, _, h3) =
        >>=-eq-ok
          (reject_if (same_protocol s.config.protocol v5 && leb 30 stream.records) (wire bounds)) _
          h2 in
      let (n, size, h4) = >>=-eq-ok (lift_error wire (record_size pending.request.shape r)) _ h3 in
      let (_, whole, h5) =
        >>=-eq-ok (reject_if (ltb (2 ^ 64 - 1 - stream.bytes) n) (wire bounds)) _ h4 in
      let (set, encoded, h6) =
        >>=-eq-ok
          (lift_error wire (
            data_set_size_for_encoded pending.request.shape (stream.bytes + n)
              (stream.records + 1)))
          _ h5 in
      let (length, budget, h7) =
        >>=-eq-ok
          (within_budget (checked_packet_length s.config.protocol 0 0 set.length)
            s.config.max_datagram_size)
          _ h6 in
      let (_, buffer, h8) =
        >>=-eq-ok (reject_if (ltb stream.capacity length) (wire short_buffer)) _ h7 in
      subst (Room s pending stream r) (ap (found x) h8) (record {
        size = n;
        sized = lift_error-eq_ok _ n size;
        bytes = (refl, no_wrap stream.bytes n small (reject_if-eq-ok _ _ whole));
        records = (refl, one_more stream.records _ (reject_if-eq-ok _ _ few));
        set = set;
        set_sized = lift_error-eq_ok _ set encoded;
        data_bytes = refl;
        total = packet_length s.config.protocol set.length length (
            within_budget-eq_some (checked_packet_length s.config.protocol 0 0 set.length)
              s.config.max_datagram_size length budget);
        datagram = (
          within_budget-eq_ok (checked_packet_length s.config.protocol 0 0 set.length)
              s.config.max_datagram_size length budget,
          at_most length _ (reject_if-eq-ok _ _ buffer),
        );
      })
    where
      found : Extended → Result Error Extended → Extended
      found d (ok y) = y
      found d (err e) = d

      no_wrap : (a b : ℕ) → a < 2 ^ 64 → ltb (2 ^ 64 - 1 - a) b ≡ false → a + b < 2 ^ 64
      no_wrap a b h e = ground arith

      one_more : (a b : ℕ) → leb b a ≡ false → a + 1 ≤ b
      one_more a b e = ground arith

      at_most : (a b : ℕ) → ltb b a ≡ false → a ≤ b
      at_most a b e = ground arith
