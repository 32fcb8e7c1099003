-- ===== src/Wire/Values.antt =====
-- internal/wire/model.go: the checks of values and of wire records.
use otelcol_exporter_netflow.Common.{
  ℕ, zero, suc, Bool, true, false, ◌&&◌, ◌||◌, not, List, [], ◌∷◌, length, ltb, leb, ◌==◌,
  if◌then◌else◌,
}
use otelcol_exporter_netflow.Common.Int.{pos, is_negative, ltb as ltz, ◌==◌ as eqz}
use otelcol_exporter_netflow.Common.Result.{Result, ok, err, ◌>>◌, reject_if}
use otelcol_exporter_netflow.Wire.Model.{
  ContractError, invalid_family, invalid_value, record_value_limit, time_out_of_range, Family, ipv4,
  ipv6, same_family, is_address_family, ValueKind, int, uint, text, bytes, ip, mac, unix_nanos,
  Value, WireRecord, is_valid_addr, is_4, is_6, zone, same_bytes, no_mac, byte_len,
  max_record_fields, max_normalized_value_bytes, max_int64,
}

-- What the next byte of a text must be: anything that begins a character, or a continuation byte
-- between two bounds with `more` plain ones behind it.
pub data Utf8 : Type 0 where
  boundary bad : Utf8
  expect : ℕ → ℕ → ℕ → Utf8

unfoldable pub between : ℕ → ℕ → ℕ → Bool
between lo hi b = leb lo b && leb b hi

unfoldable pub lead_byte : ℕ → Utf8
unfolding between
lead_byte b =
    if ltb b 0x80
    then boundary
    else if between 0xc2 0xdf b
    then expect 0 0x80 0xbf
    else if b == 0xe0
    then expect 1 0xa0 0xbf
    else if b == 0xed
    then expect 1 0x80 0x9f
    else if between 0xe1 0xef b
    then expect 1 0x80 0xbf
    else if b == 0xf0
    then expect 2 0x90 0xbf
    else if between 0xf1 0xf3 b
    then expect 2 0x80 0xbf
    else if b == 0xf4
    then expect 2 0x80 0x8f
    else bad

unfoldable pub next_byte : Utf8 → ℕ → Utf8
unfolding lead_byte between
next_byte boundary b = lead_byte b
next_byte bad b = bad
next_byte (expect zero lo hi) b = if between lo hi b then boundary else bad
next_byte (expect (suc more) lo hi) b = if between lo hi b then expect more 0x80 0xbf else bad

unfoldable pub utf8_from : Utf8 → List ℕ → Bool
utf8_from boundary [] = true
utf8_from other [] = false
utf8_from state (b ∷ bs) = utf8_from (next_byte state b) bs

-- `utf8.ValidString` of Go's library.
unfoldable pub valid_utf8 : List ℕ → Bool
unfolding utf8_from next_byte
valid_utf8 content = utf8_from boundary content

unfoldable pub validate_unix_nanos : ℕ → Result ContractError (Unit {0})
validate_unix_nanos v = reject_if (ltb max_int64 v) time_out_of_range

-- The parts of the union that a kind leaves unused.
unfoldable pub no_int : Value → Bool
no_int v = eqz v.int_value (pos 0)

unfoldable pub no_uint : Value → Bool
no_uint v = v.uint_value == 0

unfoldable pub no_text : Value → Bool
no_text v = length v.text == 0

unfoldable pub no_octets : Value → Bool
no_octets v = not v.octets_set

unfoldable pub no_ip : Value → Bool
no_ip v = not (is_valid_addr v.ip)

unfoldable pub mac_is_zero : Value → Bool
mac_is_zero v = same_bytes v.mac no_mac

unfoldable pub validate_kind : ValueKind → Value → Result ContractError (Unit {0})
unfolding no_int no_uint no_text no_octets no_ip mac_is_zero
validate_kind int v =
    reject_if (not (no_uint v && no_text v && no_octets v && no_ip v && mac_is_zero v))
      invalid_value
validate_kind uint v =
    reject_if (not (no_int v && no_text v && no_octets v && no_ip v && mac_is_zero v)) invalid_value
validate_kind text v = do
  reject_if (not (no_int v && no_uint v && no_octets v && no_ip v && mac_is_zero v)) invalid_value
  reject_if (not (valid_utf8 v.text)) invalid_value
  reject_if (ltb max_normalized_value_bytes (length v.text)) record_value_limit
validate_kind bytes v = do
  reject_if (not (no_int v && no_uint v && no_text v && no_ip v && mac_is_zero v && v.octets_set))
      invalid_value
  reject_if (is_negative (byte_len v) || ltz (pos max_normalized_value_bytes) (byte_len v))
      record_value_limit
validate_kind ip v =
    reject_if
      (not (
        no_int v
        && no_uint v
        && no_text v
        && no_octets v
        && is_valid_addr v.ip
        && length (zone v.ip) == 0
        && mac_is_zero v))
      invalid_value
validate_kind mac v =
    reject_if (not (no_int v && no_uint v && no_text v && no_octets v && no_ip v)) invalid_value
validate_kind unix_nanos v = do
  reject_if (not (no_int v && no_text v && no_octets v && no_ip v && mac_is_zero v)) invalid_value
  validate_unix_nanos v.uint_value
validate_kind other v = err invalid_value

unfoldable pub validate_value : Value → Result ContractError (Unit {0})
unfolding validate_kind
validate_value v = validate_kind v.kind v

abbrev pub is_ip : ValueKind → Bool
is_ip ip = true
is_ip other = false

unfoldable pub validate_value_for_family : Value → Family → Result ContractError (Unit {0})
validate_value_for_family v family = do
  validate_value v
  reject_if
      (is_ip v.kind
        && ((same_family family ipv4 && not (is_4 v.ip))
            || (same_family family ipv6 && (not (is_6 v.ip) || is_4 v.ip))))
      invalid_value

unfoldable pub validate_values : Family → List Value → Result ContractError (Unit {0})
validate_values family [] = ok tt
validate_values family (v ∷ vs) =
    let rest = validate_values family vs in do validate_value_for_family v family; rest

-- `WireRecord.Validate`; `new_wire_record` is NewWireRecord, which makes the same checks.
unfoldable pub validate_record : WireRecord → Result ContractError (Unit {0})
validate_record r = do
  reject_if (not (is_address_family r.family)) invalid_family
  reject_if (length r.values == 0 || ltb max_record_fields (length r.values)) record_value_limit
  validate_values r.family r.values

pub new_wire_record : Family → List Value → Result ContractError WireRecord
new_wire_record family values = do
  reject_if (not (is_address_family family)) invalid_family
  reject_if (length values == 0 || ltb max_record_fields (length values)) record_value_limit
  validate_values family values
  ok (record { family = family; values = values })
