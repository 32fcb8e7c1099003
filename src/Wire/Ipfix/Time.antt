-- ===== src/Wire/Ipfix/Time.antt =====
-- internal/wire/ipfix/writer.go: the two representations of a time.
pub mod Rounding
use otelcol_exporter_netflow.Common.{
  ℕ, ◌+◌, ◌-◌, ◌*◌, ◌/◌, ◌%◌, ◌^◌, Bool, true, false, ltb, leb, if◌then◌else◌,
}
use otelcol_exporter_netflow.Common.Result.{Result, ok, err, ◌>>=◌, ◌>>◌, reject_if}
use otelcol_exporter_netflow.Wire.Model.{ContractError, time_out_of_range}
use otelcol_exporter_netflow.Wire.Values.{validate_unix_nanos}
use otelcol_exporter_netflow.Wire.Encode.{nanos_per_second, nanos_per_millisecond, max_uint32}

abbrev pub ntp_epoch_offset : ℕ
ntp_epoch_offset = 2208988800

abbrev pub ntp_fraction_scale : ℕ
ntp_fraction_scale = 4294967296

abbrev pub max_unix_nanos_ipfix : ℕ
max_unix_nanos_ipfix = 2085978495999999999

-- `ntpTimestamp`: seconds since 1900 and a rounded fraction.
unfoldable pub ntp_timestamp : ℕ → Result ContractError ℕ
ntp_timestamp unix_nanos =
    let seconds : ℕ = unix_nanos / nanos_per_second + ntp_epoch_offset in
    let fraction : ℕ =
      (unix_nanos % nanos_per_second * ntp_fraction_scale + 500000000) / nanos_per_second in
    let carried : Bool = leb ntp_fraction_scale fraction in
    let seconds' : ℕ = if carried then seconds + 1 else seconds in
    let fraction' : ℕ = if carried then fraction - ntp_fraction_scale else fraction in
    do
      reject_if (ltb max_unix_nanos_ipfix unix_nanos) time_out_of_range
      reject_if (ltb max_uint32 seconds') time_out_of_range
      ok (seconds' * 2 ^ 32 + fraction' % 2 ^ 32)

unfoldable pub unix_milliseconds : ℕ → Result ContractError ℕ
unix_milliseconds unix_nanos = do
  validate_unix_nanos unix_nanos
  ok (unix_nanos / nanos_per_millisecond)
