-- ===== src/Wire/Ipfix/Time/Rounding.antt =====
-- How exact the two representations of a time are.
use otelcol_exporter_netflow.Common.{ℕ, ◌+◌, ◌*◌, ◌/◌, ◌%◌, ◌^◌, ◌≤◌, ◌<◌, ◌≡◌, refl, arith}
use otelcol_exporter_netflow.Common.Result.{ok}
use otelcol_exporter_netflow.Wire.Ipfix.Time.{ntp_timestamp}

-- A 64-bit NTP timestamp counts units of 2^-32 seconds since 1900.
pub record IsNearest (unix_nanos timestamp : ℕ) : Type 0 where
  pub word : timestamp < 2 ^ 64
  -- It differs from the exact time by at most half a unit; both sides are multiplied by 10^9.
  pub not_above :
      timestamp * 1000000000 ≤ (unix_nanos + 2208988800 * 1000000000) * 2 ^ 32 + 500000000
  pub not_below :
      (unix_nanos + 2208988800 * 1000000000) * 2 ^ 32 < timestamp * 1000000000 + 500000000

-- The fraction of a second as the code rounds it.
abbrev fraction : ℕ → ℕ
fraction t = (t % 1000000000 * 4294967296 + 500000000) / 1000000000

fraction_small : (t : ℕ) → fraction t < 4294967296
fraction_small t = omega arith

ntp_timestamp-eq :
    (t : ℕ)
    → t ≤ 2085978495999999999
    → ntp_timestamp t ≡ ok ((t / 1000000000 + 2208988800) * 2 ^ 32 + fraction t)
unfolding ntp_timestamp
ntp_timestamp-eq t h =
    let small = fraction_small t in
    let whole : t / 1000000000 + 2208988800 ≤ 4294967295 = omega (arith, h) in ground arith

fraction_bounds :
    (t : ℕ)
    → (fraction t * 1000000000 ≤ t % 1000000000 * 4294967296 + 500000000)
      × (t % 1000000000 * 4294967296 < fraction t * 1000000000 + 500000000)
fraction_bounds t = (omega arith, omega arith)

nearest :
    (t seconds f : ℕ)
    → t ≤ 2085978495999999999
    → seconds ≡ t / 1000000000
    → f < 4294967296
    → f * 1000000000 ≤ t % 1000000000 * 4294967296 + 500000000
    → t % 1000000000 * 4294967296 < f * 1000000000 + 500000000
    → IsNearest t ((seconds + 2208988800) * 2 ^ 32 + f)
nearest t seconds f small e g above below = record {
  word = omega arith;
  not_above = omega arith;
  not_below = omega arith;
}

-- Every time from the epoch to the last one that 32 bits of seconds since 1900 can hold has a
-- timestamp, of 64 bits, which is the nearest one: it differs from the exact time by at most half of
-- its unit.
pub ntp_timestamp-IsNearest :
    (t : ℕ) → t ≤ 2085978495999999999 → (x : ℕ) × (ntp_timestamp t ≡ ok x) × IsNearest t x
ntp_timestamp-IsNearest t h = (
  (t / 1000000000 + 2208988800) * 2 ^ 32 + fraction t,
  ntp_timestamp-eq t h,
  nearest t (t / 1000000000) (fraction t) h refl (fraction_small t) (fraction_bounds t).0
      (fraction_bounds t).1,
)
