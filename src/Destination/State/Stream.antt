-- ===== src/Destination/State/Stream.antt =====
-- internal/destination/write.go: a data packet whose records are appended one at a time.
use otelcol_exporter_netflow.Common.{
  ℕ, ◌+◌, ◌-◌, ◌%◌, ◌^◌, Bool, true, false, ◌&&◌, ◌||◌, not, Option, none, some, [], ltb, leb, ◌==◌,
  if◌then◌else◌,
}
use otelcol_exporter_netflow.Common.Int.{ℤ, pos, negsuc}
use otelcol_exporter_netflow.Common.Result.{Result, ok, err, ◌>>=◌, ◌>>◌, reject_if, lift_error}
use otelcol_exporter_netflow.Wire.Model.{
  v5, ipfix, same_protocol, HeaderMetadata, ContractError, WireRecord, bounds, short_buffer,
}
use otelcol_exporter_netflow.Wire.Shapes.{Shape}
use otelcol_exporter_netflow.Wire.Sizes.{record_size, data_set_size_for_encoded}
use otelcol_exporter_netflow.Wire.Preflight.{DataPacketRequest}
use otelcol_exporter_netflow.Destination.Error.{
  Error, transaction, streaming_unsupported, invalid_config, encoding, wire,
}
use otelcol_exporter_netflow.Destination.State.{
  State, Appender, Packet, StreamPacketState, reset_stream, reserve_wall, header,
  restore_encode_reservation, is_current, on_ok, checked, is_some,
}
use otelcol_exporter_netflow.Destination.State.Begin.{
  shape_in, admit_data, checked_packet_length, within_budget,
}

-- What is in the stream once one more record is.
pub record Extended : Type 0 where
  pub bytes : ℕ
  pub records : ℕ
  pub data_bytes : ℕ
  pub datagram_length : ℕ

unfoldable pub extended : Packet → StreamPacketState → Extended → Packet
extended pending stream x = record pending {
  data_records = x.records;
  request = record pending.request { data_bytes = x.data_bytes };
  datagram_length = x.datagram_length;
  stream = some (record stream { bytes = x.bytes; records = x.records });
}

module _ {A : Type 0} where
  unfoldable pub check_stream : State A → ℤ → ℕ → Result Error Shape
  check_stream s shape_index sampling = do
    shape ← shape_in s.catalog shape_index
    reject_if s.epoch.uptime_exhausted Error.uptime_exhausted
    reject_if
        (ltb 16383 sampling || not (same_protocol s.config.protocol v5) && not (sampling == 0))
        invalid_config
    ok shape

  unfoldable pub stream_packet :
      State A → State A → Shape → HeaderMetadata → ℤ → ℕ → ℕ → ℕ → ℕ → Packet
  stream_packet before s shape head shape_index mono instant sampling capacity = record {
    owner = some s.self;
    epoch_id = s.epoch.id;
    token = (s.next_token + 1) % 2 ^ 64;
    request = record {
      header = head;
      shape = shape;
      records = [];
      template_records = 0;
      template_bytes = 0;
      data_bytes = 0;
      max_datagram_bytes = s.config.max_datagram_size;
    };
    shape_index = shape_index;
    template_records = 0;
    data_records = 0;
    monotonic_nanos = mono;
    logical_instant = instant;
    datagram_length = 0;
    encoded = false;
    stream = some (record {
      sampling_interval = sampling % 2 ^ 16;
      records = 0;
      bytes = 0;
      capacity = capacity;
      length = 0;
    });
    prior_refresh_active = before.refresh_active;
    prior_refresh_due = before.refresh_due;
    prior_next_template_index = before.next_template_index;
    prior_template_round = before.template_round;
    prior_reserved_wall = before.last_reserved_wall;
    prior_have_reserved_wall = before.have_reserved_wall;
    prior_start_origin = before.epoch.start_origin;
    prior_has_start_origin = before.epoch.has_start_origin;
  }

  -- The checks of one more record, before the appender sees it.
  unfoldable pub extend :
      State A → Packet → StreamPacketState → WireRecord → ℕ → Result Error Extended
  extend s pending stream r sampling = do
    reject_if
        (if same_protocol s.config.protocol v5
          then ltb 16383 sampling || not (sampling % 2 ^ 16 == stream.sampling_interval)
          else not (sampling == 0))
        invalid_config
    reject_if (leb s.config.max_records_per_message stream.records) (wire bounds)
    reject_if (same_protocol s.config.protocol v5 && leb 30 stream.records) (wire bounds)
    n ← lift_error wire (record_size pending.request.shape r)
    reject_if (ltb (2 ^ 64 - 1 - stream.bytes) n) (wire bounds)
    set ←
        lift_error wire
          (data_set_size_for_encoded pending.request.shape (stream.bytes + n) (stream.records + 1))
    length ←
        within_budget (checked_packet_length s.config.protocol 0 0 set.length)
          s.config.max_datagram_size
    reject_if (ltb stream.capacity length) (wire short_buffer)
    ok (record {
      bytes = stream.bytes + n;
      records = stream.records + 1;
      data_bytes = set.length;
      datagram_length = length;
    })

  -- The final length of a stream with records.
  unfoldable pub final_length : State A → Packet → StreamPacketState → Result Error Extended
  final_length s pending stream = do
    set ←
        lift_error wire
          (data_set_size_for_encoded pending.request.shape stream.bytes stream.records)
    length ←
        within_budget (checked_packet_length s.config.protocol 0 0 set.length)
          s.config.max_datagram_size
    reject_if (ltb stream.capacity length) (wire short_buffer)
    ok (record {
      bytes = stream.bytes;
      records = stream.records;
      data_bytes = set.length;
      datagram_length = length;
    })

  unfoldable pub finished : State A → Packet → StreamPacketState → Extended → Packet
  finished s pending stream x = record pending {
    stream = some (record stream { length = x.datagram_length });
    datagram_length = x.datagram_length;
    request = record pending.request {
      data_bytes = x.data_bytes;
      header = record pending.request.header {
        count =
            if same_protocol s.config.protocol ipfix
            then pending.request.header.count
            else stream.records % 2 ^ 16;
      };
    };
    encoded = true;
  }

  -- The pending packet and its stream, where `p` is a streamed packet that is still pending.
  abbrev pub streamed : State A → Packet → Option Packet → Option (Packet × StreamPacketState)
  streamed s p none = none
  streamed s p (some pending) = stream_of pending.stream
    where
      stream_of : Option StreamPacketState → Option (Packet × StreamPacketState)
      stream_of none = none
      stream_of (some stream) =
          if is_some p.stream && is_current s p (some pending) && not pending.encoded
          then some (pending, stream)
          else none

module _ {A : Type 0} (api : Appender A) where
  -- The appender takes the packet, or the reservation is rolled back.
  abbrev pub started : State A → Packet → A × Option ContractError → State A × Result Error Packet
  started s p (a, none) = (record s { stream = some a }, ok p)
  started s p (a, some e) =
      (restore_encode_reservation api (record s { stream = some a }) p, err (wire e))

  abbrev pub start_stream :
      State A → Packet → DataPacketRequest → ℕ → Option A → State A × Result Error Packet
  start_stream s p request capacity none = (s, err streaming_unsupported)
  start_stream s p request capacity (some a) = started s p (api.start a capacity request)

  -- A header that is refused gives the reserved wall time back here, unlike in beginPacket.
  abbrev pub or_restore :
      State A
      → State A
      → Result Error HeaderMetadata
      → (HeaderMetadata → State A × Result Error Packet)
      → State A × Result Error Packet
  or_restore before s (ok head) k = k head
  or_restore before s (err e) k = (
    record s {
      last_reserved_wall = before.last_reserved_wall;
      have_reserved_wall = before.have_reserved_wall;
    },
    err e,
  )

  unfoldable pub reserve_stream :
      State A → Shape → ℕ → ℕ → ℤ → ℕ → ℕ → State A × Result Error Packet
  reserve_stream before shape wall mono shape_index capacity sampling =
      on_ok (reserve_wall before wall) λ s instant.
        or_restore before s (header s instant (sampling % 2 ^ 16)) λ head.
          let p = stream_packet before s shape head shape_index mono instant sampling capacity in
          let request : DataPacketRequest = record {
            header = head;
            shape = shape;
            max_datagram_bytes = s.config.max_datagram_size;
            max_records = s.config.max_records_per_message;
          } in
          start_stream (record s { next_token = (s.next_token + 1) % 2 ^ 64; pending = some p }) p
            request capacity s.stream

  unfoldable pub begin_data_stream : State A → ℕ → ℕ → ℤ → ℕ → ℕ → State A × Result Error Packet
  begin_data_stream s wall mono shape_index capacity sampling =
      if not (is_some s.stream)
      then (s, err streaming_unsupported)
      else if is_some s.pending
      then (s, err transaction)
      else (let clean = reset_stream api s in
          checked clean (check_stream clean shape_index sampling) λ shape.
            on_ok (admit_data clean mono)
              λ ready u. reserve_stream ready shape wall mono shape_index capacity sampling)

  abbrev pub appended :
      State A
      → Packet
      → StreamPacketState
      → Extended
      → A × Option ContractError
      → State A × Option Error
  appended s pending stream x (a, none) =
      (record s { stream = some a; pending = some (extended pending stream x) }, none)
  appended s pending stream x (a, some e) = (record s { stream = some a }, some (wire e))

  -- A streamed packet is only pending where there is an appender; without one the code would panic.
  abbrev pub append_checked :
      State A
      → Packet
      → StreamPacketState
      → WireRecord
      → Result Error Extended
      → Option A
      → State A × Option Error
  append_checked s pending stream r (err e) a = (s, some e)
  append_checked s pending stream r (ok x) none = (s, some transaction)
  append_checked s pending stream r (ok x) (some a) = appended s pending stream x (api.append a r)

  abbrev pub append_to :
      State A → WireRecord → ℕ → Option (Packet × StreamPacketState) → State A × Option Error
  append_to s r sampling none = (s, some transaction)
  append_to s r sampling (some (pending, stream)) =
      append_checked s pending stream r (extend s pending stream r sampling) s.stream

  unfoldable pub append : State A → Packet → WireRecord → ℕ → State A × Option Error
  append s p r sampling = append_to s r sampling (streamed s p s.pending)

  -- The appender's count has to be the length that was computed.
  abbrev pub is_length : ℤ → ℕ → Bool
  is_length (pos n) length = not (n == 0) && n == length
  is_length (negsuc n) length = false

  abbrev pub closed_stream :
      State A
      → Packet
      → StreamPacketState
      → Extended
      → A × Result ContractError ℤ
      → State A × Result Error ℤ
  closed_stream s pending stream x (a, err e) =
      (restore_encode_reservation api (record s { stream = some a }) pending, err (wire e))
  closed_stream s pending stream x (a, ok n) =
      let s' = record s { stream = some a } in
      if not (is_length n x.datagram_length)
      then (restore_encode_reservation api s' pending, err encoding)
      else (record (reset_stream api s') { pending = some (finished s pending stream x) }, ok n)

  -- An empty packet is never sent, whatever the appender says.
  abbrev pub closed_empty : State A → Packet → A × Result ContractError ℤ → State A × Result Error ℤ
  closed_empty s pending (a, ok n) =
      (restore_encode_reservation api (record s { stream = some a }) pending, err encoding)
  closed_empty s pending (a, err e) =
      (restore_encode_reservation api (record s { stream = some a }) pending, err (wire e))

  abbrev pub finish_checked :
      State A → Packet → StreamPacketState → Result Error Extended → A → State A × Result Error ℤ
  finish_checked s pending stream (err e) a = (restore_encode_reservation api s pending, err e)
  finish_checked s pending stream (ok x) a = closed_stream s pending stream x (api.finish a)

  abbrev pub finish_to :
      State A → Option (Packet × StreamPacketState) → Option A → State A × Result Error ℤ
  finish_to s none a = (s, err transaction)
  finish_to s (some x) none = (s, err transaction)
  finish_to s (some (pending, stream)) (some a) =
      if stream.records == 0
      then closed_empty s pending (api.finish a)
      else finish_checked s pending stream (final_length s pending stream) a

  unfoldable pub finish : State A → Packet → State A × Result Error ℤ
  finish s p = finish_to s (streamed s p s.pending) s.stream
