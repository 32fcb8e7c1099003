-- ===== src/Wire/Netflow5/Emit.antt =====
-- internal/wire/netflow5/writer.go: what is written, in the order of the code.
use otelcol_exporter_netflow.Common.{ℕ, ◌*◌, ◌/◌, ◌%◌, ◌^◌, bit_or}
use otelcol_exporter_netflow.Common.Int.{pos, negsuc}
use otelcol_exporter_netflow.Wire.Model.{Value, int, uint, WireRecord, HeaderMetadata}
use otelcol_exporter_netflow.Wire.Sizes.{PacketRequest}
use otelcol_exporter_netflow.Wire.Cursor.{Put, ◌>>◌, put8, put16, put32, put_copy, put_each}
use otelcol_exporter_netflow.Wire.Encode.{
  nanos_per_second, max_uint64, elapsed_milliseconds, value_at, as_4,
}

-- `valueUint` of netflow5, which takes no timestamp.
unfoldable pub value_uint : Value → ℕ
value_uint v = elim v.kind [
  | uint ↦ v.uint_value
  | int ↦ elim v.int_value [ pos n ↦ n | negsuc n ↦ max_uint64 ]
  | _ ↦ max_uint64
]

unfoldable pub write_header : HeaderMetadata → ℕ → Put
write_header h count =
    put16 5
    >> put16 count
    >> put32 ((elapsed_milliseconds h.export_time_unix_nanos h.uptime_origin_unix_nanos).0 % 2 ^ 32)
    >> put32 (h.export_time_unix_nanos / nanos_per_second % 2 ^ 32)
    >> put32 (h.export_time_unix_nanos % nanos_per_second % 2 ^ 32)
    >> put32 h.sequence
    >> put8 h.engine_type
    >> put8 h.engine_id
    >> put16 (bit_or (h.sampling_mode * 2 ^ 14 % 2 ^ 16) h.sampling_interval)

unfoldable pub write_ipv4 : Value → Put
write_ipv4 v = put_copy (as_4 v.ip)

-- The value of a record at an index, written as an unsigned number.
unfoldable pub number8 : WireRecord → ℕ → Put
number8 r i = put8 (value_uint (value_at r i) % 2 ^ 8)

unfoldable pub number16 : WireRecord → ℕ → Put
number16 r i = put16 (value_uint (value_at r i) % 2 ^ 16)

unfoldable pub number32 : WireRecord → ℕ → Put
number32 r i = put32 (value_uint (value_at r i) % 2 ^ 32)

-- A time at an index, as the milliseconds since the origin.
unfoldable pub uptime32 : ℕ → WireRecord → ℕ → Put
uptime32 origin r i = put32 ((elapsed_milliseconds (value_at r i).uint_value origin).0 % 2 ^ 32)

unfoldable pub write_record : ℕ → WireRecord → Put
unfolding write_ipv4 number8 number16 number32 uptime32
write_record origin r =
    write_ipv4 (value_at r 0)
    >> write_ipv4 (value_at r 1)
    >> write_ipv4 (value_at r 2)
    >> number16 r 3
    >> number16 r 4
    >> number32 r 5
    >> number32 r 6
    >> uptime32 origin r 7
    >> uptime32 origin r 8
    >> number16 r 9
    >> number16 r 10
    >> put8 0
    >> number8 r 12
    >> number8 r 13
    >> number8 r 14
    >> number16 r 15
    >> number16 r 16
    >> number8 r 17
    >> number8 r 18
    >> put16 0

-- The body of Write.
unfoldable pub write_message : PacketRequest → ℕ → Put
write_message req n =
    write_header req.header req.header.count
    >> put_each (write_record req.header.uptime_origin_unix_nanos) req.records
