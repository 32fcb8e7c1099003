-- ===== src/Wire/Widths.antt =====
-- internal/wire/contract.go: the encoded width of one value under a descriptor.
pub mod Facts
use otelcol_exporter_netflow.Common.{
  ℕ, ◌+◌, ◌-◌, ◌^◌, Bool, true, false, ◌&&◌, ◌||◌, not, Option, none, some, length, ltb, leb, ◌==◌,
  if◌then◌else◌,
}
use otelcol_exporter_netflow.Common.Int.{ℤ, pos, negsuc, ltb as ltz, ◌==◌ as eqz}
use otelcol_exporter_netflow.Common.Result.{Result, ok, err, ◌>>=◌, ◌>>◌, reject_if}
use otelcol_exporter_netflow.Wire.Model.{
  ContractError, invalid_value, invalid_descriptor, bounds, int, uint, text, bytes, ip, mac,
  unix_nanos, Value, is_4, is_6, byte_len, max_int64, FieldDescriptor, DescriptorEncoding,
  unspecified, unsigned8, unsigned16, unsigned32, unsigned64, signed8, signed16, signed32, signed64,
  ipv4_address, ipv6_address, mac_address, octet_array, string, date_time_nanoseconds,
  date_time_milliseconds, is_absolute_time_field,
}
use otelcol_exporter_netflow.Wire.Values.{valid_utf8, validate_value}
use otelcol_exporter_netflow.Wire.Descriptors.{checked_add, validate_descriptor}

-- The kinds as tests.
unfoldable pub kind_is_uint : Value → Bool
kind_is_uint v = elim v.kind [ uint ↦ true | _ ↦ false ]

unfoldable pub kind_is_unix_nanos : Value → Bool
kind_is_unix_nanos v = elim v.kind [ unix_nanos ↦ true | _ ↦ false ]

kind_is_text : Value → Bool
kind_is_text v = elim v.kind [ text ↦ true | _ ↦ false ]

unfoldable pub kind_is_bytes : Value → Bool
kind_is_bytes v = elim v.kind [ bytes ↦ true | _ ↦ false ]

unfoldable pub kind_is_ip : Value → Bool
kind_is_ip v = elim v.kind [ ip ↦ true | _ ↦ false ]

kind_is_mac : Value → Bool
kind_is_mac v = elim v.kind [ mac ↦ true | _ ↦ false ]

unfoldable pub natural_fits : ℤ → ℕ → Bool
natural_fits (negsuc n) bits = false
natural_fits (pos n) bits = if bits == 64 then true else ltb n (2 ^ bits)

-- `unsignedFits`: an unsigned value, or a signed one that is not negative.
unfoldable pub unsigned_fits : Value → ℕ → Bool
unfolding natural_fits
unsigned_fits v bits = elim v.kind [
  | uint ↦ natural_fits (pos v.uint_value) bits
  | int ↦ natural_fits v.int_value bits
  | _ ↦ false
]

unfoldable pub timestamp_fits : Value → Bool
unfolding kind_is_unix_nanos
timestamp_fits v = kind_is_unix_nanos v && leb v.uint_value max_int64

-- `unsignedFitsDescriptor`: an absolute time is a timestamp instead.
unfoldable pub unsigned_fits_descriptor : FieldDescriptor → Value → ℕ → Bool
unfolding unsigned_fits timestamp_fits
unsigned_fits_descriptor d v bits =
    if is_absolute_time_field d.field then timestamp_fits v else unsigned_fits v bits

-- `-2^(bits-1) <= n && n <= 2^(bits-1) - 1`
unfoldable pub signed_in_range : ℤ → ℕ → Bool
signed_in_range (pos n) bits = leb n (2 ^ (bits - 1) - 1)
signed_in_range (negsuc n) bits = leb (n + 1) (2 ^ (bits - 1))

unfoldable pub signed_fits : Value → ℕ → Bool
unfolding signed_in_range
signed_fits v bits = elim v.kind [
  | int ↦ if bits == 64 then true else signed_in_range v.int_value bits
  | _ ↦ false
]

-- What a fixed-width encoding asks of the value; `none` is an encoding that is not listed.
unfoldable pub fits_encoding : FieldDescriptor → Value → DescriptorEncoding → Option Bool
unfolding unsigned_fits_descriptor signed_fits kind_is_ip kind_is_mac kind_is_text kind_is_bytes
fits_encoding d v unsigned8 = some (unsigned_fits_descriptor d v 8)
fits_encoding d v unsigned16 = some (unsigned_fits_descriptor d v 16)
fits_encoding d v unsigned32 = some (unsigned_fits_descriptor d v 32)
fits_encoding d v unsigned64 = some (unsigned_fits_descriptor d v 64)
fits_encoding d v signed8 = some (signed_fits v 8)
fits_encoding d v signed16 = some (signed_fits v 16)
fits_encoding d v signed32 = some (signed_fits v 32)
fits_encoding d v signed64 = some (signed_fits v 64)
fits_encoding d v ipv4_address = some (kind_is_ip v && is_4 v.ip)
fits_encoding d v ipv6_address = some (kind_is_ip v && is_6 v.ip && not (is_4 v.ip))
fits_encoding d v mac_address = some (kind_is_mac v)
fits_encoding d v string = some (kind_is_text v && valid_utf8 v.text && length v.text == d.length)
fits_encoding d v octet_array = some (kind_is_bytes v && eqz (byte_len v) (pos d.length))
fits_encoding d v date_time_nanoseconds = some (timestamp_fits v)
fits_encoding d v date_time_milliseconds = some (timestamp_fits v)
fits_encoding d v unspecified = some true
fits_encoding d v DescriptorEncoding.unlisted = none

unfoldable pub fixed_length : FieldDescriptor → Option Bool → Result ContractError ℕ
fixed_length d none = err invalid_descriptor
fixed_length d (some false) = err invalid_value
fixed_length d (some true) = ok d.length

unfoldable pub checked_length : ℕ → ℕ → Result ContractError ℕ
checked_length a b = elim (checked_add a b) [
  | none ↦ err bounds
  | some total ↦ if ltb 65535 total then err bounds else ok total
]

-- The content length of a variable value.
unfoldable pub content_length :
    FieldDescriptor → Value → DescriptorEncoding → Result ContractError ℤ
unfolding kind_is_text kind_is_bytes
content_length d v string = do
  reject_if (not (kind_is_text v)) invalid_value
  reject_if (not (valid_utf8 v.text)) invalid_value
  ok (pos (length v.text))
content_length d v octet_array = do reject_if (not (kind_is_bytes v)) invalid_value; ok (byte_len v)
content_length d v other = err invalid_descriptor

-- `uint64(length)` of a Go int.
unfoldable pub to_uint64 : ℤ → ℕ
to_uint64 (pos n) = n
to_uint64 (negsuc n) = 2 ^ 64 - 1 - n

-- One length byte in front of fewer than 255 bytes, otherwise three.
unfoldable pub variable_length : FieldDescriptor → ℤ → Result ContractError ℕ
unfolding checked_length to_uint64
variable_length d n = do
  reject_if (ltz (pos d.max_length) n) bounds
  checked_length (if ltz n (pos 255) then 1 else 3) (to_uint64 n)

-- `FieldDescriptor.ValueLength`.
unfoldable pub value_length : FieldDescriptor → Value → Result ContractError ℕ
unfolding kind_is_uint kind_is_unix_nanos fixed_length fits_encoding content_length variable_length
value_length d v = do
  validate_descriptor d
  validate_value v
  reject_if (is_absolute_time_field d.field && not (kind_is_unix_nanos v)) invalid_value
  if d.constant
      then (do
        reject_if (not (kind_is_uint v) || not (v.uint_value == 0)) invalid_value
        ok d.length)
      else if d.variable
      then (do n ← content_length d v d.encoding; variable_length d n)
      else fixed_length d (fits_encoding d v d.encoding)
