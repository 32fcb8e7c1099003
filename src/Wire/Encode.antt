-- ===== src/Wire/Encode.antt =====
-- What the writers of internal/wire/netflow5, netflow9 and ipfix do with one value. Each package
-- has its own copy of these functions.
pub mod Bytes
pub mod Fields
pub mod Templates
use otelcol_exporter_netflow.Common.{
  ℕ, zero, suc, ◌+◌, ◌-◌, ◌*◌, ◌/◌, ◌%◌, ◌^◌, Bool, true, false, not, Option, none, some, List, [],
  ◌∷◌, ◌++◌, get_or, take, drop, replicate, ltb, ◌==◌, if◌then◌else◌,
}
use otelcol_exporter_netflow.Common.Int.{ℤ, pos, negsuc}
use otelcol_exporter_netflow.Wire.Model.{
  Value, ValueKind, int, uint, unix_nanos, WireRecord, zero_value, Addr, no_addr, addr4, addr6,
  byte_len,
}
use otelcol_exporter_netflow.Wire.Cursor.{Put, ◌>>◌, skip, put8}

abbrev pub nanos_per_second : ℕ
nanos_per_second = 1000000000

abbrev pub nanos_per_millisecond : ℕ
nanos_per_millisecond = 1000000

abbrev pub max_uint32 : ℕ
max_uint32 = 2 ^ 32 - 1

abbrev pub max_uint64 : ℕ
max_uint64 = 2 ^ 64 - 1

-- `WireRecord.ValueAt`: the zero value out of range.
abbrev pub value_at : WireRecord → ℕ → Value
value_at r i = get_or r.values i zero_value

-- The milliseconds from an origin to a time, if the time is not before it and they are whole.
unfoldable pub elapsed_milliseconds : ℕ → ℕ → ℕ × Bool
elapsed_milliseconds value origin =
    if ltb value origin
    then (0, false)
    else if not ((value - origin) % nanos_per_millisecond == 0)
    then (0, false)
    else ((value - origin) / nanos_per_millisecond, true)

-- `valueUint` of netflow9 and ipfix.
unfoldable pub value_uint : Value → ℕ
value_uint v = elim v.kind [
  | uint ↦ v.uint_value
  | unix_nanos ↦ v.uint_value
  | int ↦ elim v.int_value [ pos n ↦ n | negsuc n ↦ max_uint64 ]
  | _ ↦ max_uint64
]

-- A Go conversion of a signed number to `w` bits, in two's complement.
unfoldable pub signed_word : ℕ → ℤ → ℕ
signed_word w (pos n) = n % 2 ^ w
signed_word w (negsuc n) = 2 ^ w - 1 - n % 2 ^ w

-- A Go array of `n` bytes, read off by index.
unfoldable pub array : ℕ → List ℕ → List ℕ
array n bytes = take n (bytes ++ replicate n 0)

-- `netip.Addr.As4`. It panics on an address that is neither an IPv4 one nor mapped into IPv6, which
-- Preflight has refused.
unfoldable pub as_4 : Addr → List ℕ
unfolding array
as_4 no_addr = array 4 []
as_4 (addr4 octets) = array 4 octets
as_4 (addr6 octets zone) = array 4 (drop 12 octets)

-- `netip.Addr.As16`.
unfoldable pub as_16 : Addr → List ℕ
unfolding array
as_16 no_addr = array 16 []
as_16 (addr4 octets) = replicate 10 0 ++ (255 ∷ 255 ∷ array 4 octets)
as_16 (addr6 octets zone) = array 16 octets

unfoldable pub byte_at : Value → ℕ → ℕ
byte_at v i = elim v.borrowed [ none ↦ get_or v.octets i 0 | some view ↦ view.at i ]

-- `for i := 0; i < n; i++ { c.WriteUint8(value.ByteAt(i)) }`, from an index on.
unfoldable pub put_bytes_from : Value → ℕ → ℕ → Put
put_bytes_from v i zero = skip
put_bytes_from v i (suc n) = put8 (byte_at v i) >> put_bytes_from v (i + 1) n

unfoldable pub put_octets : Value → Put
unfolding put_bytes_from
put_octets v = elim (byte_len v) [ pos n ↦ put_bytes_from v 0 n | negsuc n ↦ skip ]
