-- ===== src/Wire/Stream.antt =====
-- The part that the three protocol writers share: Write over a slice (writer.go) and the
-- dataPacketAppender (stream.go), whose Begin, Append, Finish and Reset are the same code in
-- internal/wire/netflow5, netflow9 and ipfix up to what a Format names.
pub mod Layout
pub mod Slice
pub mod Packet
pub mod Finish
pub mod Accepted
pub mod Framing
pub mod Equivalence
use otelcol_exporter_netflow.Common.{
  ℕ, zero, ◌+◌, ◌-◌, ◌%◌, ◌^◌, Bool, true, false, ◌&&◌, not, List, [], length, take, drop, ltb, leb,
  ◌==◌, if◌then◌else◌,
}
use otelcol_exporter_netflow.Common.Result.{Result, ok, err, ◌>>=◌, ◌>>◌, reject_if}
use otelcol_exporter_netflow.Common.BigEndian.{u16_bytes}
use otelcol_exporter_netflow.Wire.Model.{
  Protocol, same_protocol, Family, WireRecord, HeaderMetadata, ContractError, invalid_shape, bounds,
  short_buffer, packet_not_begun, packet_finished, packet_empty,
}
use otelcol_exporter_netflow.Wire.Shapes.{Shape}
use otelcol_exporter_netflow.Wire.Sizes.{
  PacketRequest, DataSetSize, record_size, data_set_size_for_encoded, validate_payload_length,
}
use otelcol_exporter_netflow.Wire.Preflight.{
  DataPacketRequest, validate_data_packet_request, preflight,
}
use otelcol_exporter_netflow.Wire.Cursor.{Put, place, new}

-- What one protocol's package supplies.
pub record Format : Type 0 where
  pub protocol : Protocol
  pub header_length : ℕ
  -- Where the records begin: behind the header, and behind the set header if there is one.
  pub data_offset : ℕ
  -- `validate` of a whole request, and its parts that the appender calls.
  pub validate : PacketRequest → Result ContractError (Unit {0})
  pub validate_header : HeaderMetadata → Result ContractError (Unit {0})
  pub validate_shape : Shape → Result ContractError (Unit {0})
  pub validate_record : HeaderMetadata → Shape → WireRecord → Result ContractError (Unit {0})
  -- Append of v5 tests once more that its total does not wrap around.
  pub tests_wrap : Bool
  -- The body of Write, for a message of a given length.
  pub write_message : PacketRequest → ℕ → Put
  -- The front of a data packet, as Begin writes it: the header and the set header, with zeros for
  -- the count and the lengths.
  pub write_front : HeaderMetadata → Shape → Put
  pub write_record : HeaderMetadata → Shape → WireRecord → Put
  -- What Finish puts into bytes 2:4, from the records and the total length.
  pub header_word : ℕ → ℕ → ℕ
  -- The length and the padding of the set, which end at a given index before the padding.
  pub close_set : ℕ → DataSetSize → List ℕ → List ℕ

-- All checks come first: an error leaves the state as it is.
abbrev pub guarded {ℓ κ μ} :
    {A : Type ℓ} {B : Type κ} {C : Type μ}
    → Result ContractError B
    → A
    → (B → A × Result ContractError C)
    → A × Result ContractError C
guarded (ok b) s next = next b
guarded (err e) s next = (s, err e)

-- `Writer.Write`: the buffer behind the call, and the length of the message.
unfoldable pub write : Format → List ℕ → PacketRequest → List ℕ × Result ContractError ℕ
write format dst req =
    guarded (preflight (length dst) req >>= λ n. format.validate req >> ok n) dst
      λ n. (place dst 0 (format.write_message req n (new (take n dst))).buf, ok n)

-- dataPacketAppender. `dst` is the caller's buffer, which it shares.
pub record DataPacket : Type 0 where
  pub dst : List ℕ
  pub header : HeaderMetadata
  pub shape : Shape
  pub budget : ℕ
  pub record_cap : ℕ
  pub records : ℕ
  pub record_bytes : ℕ
  pub begun : Bool
  pub done : Bool

abbrev zero_header : HeaderMetadata
zero_header = record {
  protocol = Protocol.unknown;
  sequence = 0;
  observation_domain_id = 0;
  source_id = 0;
  engine_type = 0;
  engine_id = 0;
  sampling_mode = 0;
  sampling_interval = 0;
  count = 0;
  export_time_unix_nanos = 0;
  uptime_origin_unix_nanos = 0;
  has_uptime_origin = false;
}

abbrev zero_shape : Shape
zero_shape = record {
  protocol = Protocol.unknown;
  family = Family.unknown;
  id = 0;
  fields = [];
  record_length = 0;
  template_bytes = 0;
}

-- `*p = dataPacketAppender{}`, which is also what NewDataPacket returns.
abbrev pub reset : DataPacket
reset = record {
  dst = [];
  header = zero_header;
  shape = zero_shape;
  budget = 0;
  record_cap = 0;
  records = 0;
  record_bytes = 0;
  begun = false;
  done = false;
}

-- The checks of Begin, which give the cap on the records.
unfoldable pub admit_begin : Format → List ℕ → DataPacketRequest → Result ContractError ℕ
admit_begin format dst r = do
  limit ← validate_data_packet_request r
  reject_if (not (same_protocol r.shape.protocol format.protocol)) invalid_shape
  format.validate_header r.header
  format.validate_shape r.shape
  validate_payload_length format.data_offset r.max_datagram_bytes
  reject_if (ltb (length dst) format.data_offset) short_buffer
  ok limit

unfoldable pub opened : Format → List ℕ → DataPacketRequest → ℕ → DataPacket
opened format dst r limit = record {
  dst = place dst 0 (format.write_front r.header r.shape (new (take format.data_offset dst))).buf;
  header = r.header;
  shape = r.shape;
  budget = r.max_datagram_bytes;
  record_cap = limit;
  records = 0;
  record_bytes = 0;
  begun = true;
  done = false;
}

unfoldable pub begin :
    Format → List ℕ → DataPacketRequest → DataPacket → DataPacket × Result ContractError (Unit {0})
unfolding admit_begin opened
begin format dst r p =
    guarded (admit_begin format dst r) p λ limit. (opened format dst r limit, ok tt)

-- The guards in front of Append and Finish.
unfoldable pub require_active : DataPacket → Result ContractError (Unit {0})
require_active p = do
  reject_if (not p.begun && p.done) packet_finished
  reject_if (not p.begun) packet_not_begun
  reject_if p.done packet_finished

-- The checks of Append, which give the length of the record.
unfoldable pub admit_record : Format → DataPacket → WireRecord → Result ContractError ℕ
admit_record format p r = do
  require_active p
  reject_if (leb p.record_cap p.records) bounds
  n ← record_size p.shape r
  format.validate_record p.header p.shape r
  reject_if (ltb (2 ^ 64 - 1 - p.record_bytes) n) bounds
  set ← data_set_size_for_encoded p.shape (p.record_bytes + n) ((p.records + 1) % 2 ^ 64)
  reject_if
      (format.tests_wrap && ltb ((format.header_length + set.length) % 2 ^ 64) format.header_length)
      bounds
  validate_payload_length ((format.header_length + set.length) % 2 ^ 64) p.budget
  reject_if (ltb (length p.dst) ((format.header_length + set.length) % 2 ^ 64)) short_buffer
  ok n

unfoldable pub appended : Format → DataPacket → WireRecord → ℕ → DataPacket
appended format p r n =
    let at : ℕ = format.data_offset + p.record_bytes in
    record p {
      dst =
          place p.dst at
            (format.write_record p.header p.shape r (new (take n (drop at p.dst)))).buf;
      records = (p.records + 1) % 2 ^ 64;
      record_bytes = p.record_bytes + n;
    }

unfoldable pub append :
    Format → WireRecord → DataPacket → DataPacket × Result ContractError (Unit {0})
unfolding admit_record appended
append format r p = guarded (admit_record format p r) p λ n. (appended format p r n, ok tt)

-- The checks of Finish, which give the size of the data set.
unfoldable pub admit_finish : Format → DataPacket → Result ContractError DataSetSize
admit_finish format p = do
  require_active p
  reject_if (p.records == 0) packet_empty
  set ← data_set_size_for_encoded p.shape p.record_bytes p.records
  validate_payload_length ((format.header_length + set.length) % 2 ^ 64) p.budget
  reject_if (ltb (length p.dst) ((format.header_length + set.length) % 2 ^ 64)) short_buffer
  ok set

unfoldable pub finished : Format → DataPacket → DataSetSize → DataPacket
finished format p set =
    let total : ℕ = (format.header_length + set.length) % 2 ^ 64 in
    record p {
      dst =
          format.close_set (format.data_offset + p.record_bytes) set
            (place p.dst 2 (u16_bytes (format.header_word p.records total)));
      done = true;
    }

unfoldable pub finish : Format → DataPacket → DataPacket × Result ContractError ℕ
unfolding admit_finish finished
finish format p =
    guarded (admit_finish format p) p
      λ set. (finished format p set, ok ((format.header_length + set.length) % 2 ^ 64))
