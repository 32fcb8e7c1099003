-- ===== src/Destination/Config.antt =====
-- internal/destination/state.go: the state's configuration and its defaults.
pub mod Normal
use otelcol_exporter_netflow.Common.{
  ℕ, ◌+◌, ◌-◌, ◌*◌, ◌^◌, Bool, true, false, ◌&&◌, ◌||◌, not, ltb, leb, ◌==◌, if◌then◌else◌,
}
use otelcol_exporter_netflow.Common.Result.{Result, ok, err, ◌>>=◌, ◌>>◌, reject_if}
use otelcol_exporter_netflow.Wire.Model.{
  Protocol, v5, v9, ipfix, same_protocol, is_known, max_int64,
}
use otelcol_exporter_netflow.Destination.Error.{Error, invalid_config}

-- Durations are in nanoseconds; a negative one is refused by the same test as a short one.
pub record Config : Type 0 where
  pub protocol : Protocol
  pub source_id : ℕ
  pub observation_domain_id : ℕ
  pub engine_type : ℕ
  pub engine_id : ℕ
  pub sampling_mode : ℕ
  pub has_uptime_origin : Bool
  pub uptime_origin_unix_nanos : ℕ
  pub max_datagram_size : ℕ
  pub max_records_per_message : ℕ
  pub initial_copies : ℕ
  pub refresh_interval : ℕ
  pub v9_refresh_packet_count : ℕ
  pub ipfix_data_message_refresh_count : ℕ

abbrev pub second : ℕ
second = 1_000_000_000

abbrev pub default_max_datagram_size : ℕ
default_max_datagram_size = 464

abbrev pub default_initial_copies : ℕ
default_initial_copies = 2

abbrev pub default_refresh_interval : ℕ
default_refresh_interval = 600 * second

abbrev pub default_v9_refresh_packets : ℕ
default_v9_refresh_packets = 20

abbrev pub default_max_records_per_message : Protocol → ℕ
default_max_records_per_message p = if same_protocol p v5 then 30 else 256

unfoldable pub default_config : Protocol → Config
default_config p = record {
  protocol = p;
  source_id = 0;
  observation_domain_id = 0;
  engine_type = 0;
  engine_id = 0;
  sampling_mode = 0;
  has_uptime_origin = false;
  uptime_origin_unix_nanos = 0;
  max_datagram_size = default_max_datagram_size;
  max_records_per_message = default_max_records_per_message p;
  initial_copies = default_initial_copies;
  refresh_interval = default_refresh_interval;
  v9_refresh_packet_count = default_v9_refresh_packets;
  ipfix_data_message_refresh_count = 0;
}

abbrev pub or_default : ℕ → ℕ → ℕ
or_default n d = if n == 0 then d else n

unfoldable pub with_defaults : Config → Config
with_defaults c = record c {
  max_datagram_size = or_default c.max_datagram_size default_max_datagram_size;
  max_records_per_message =
      or_default c.max_records_per_message (default_max_records_per_message c.protocol);
  initial_copies = or_default c.initial_copies default_initial_copies;
  refresh_interval = or_default c.refresh_interval default_refresh_interval;
  v9_refresh_packet_count =
      if c.v9_refresh_packet_count == 0 && same_protocol c.protocol v9
      then default_v9_refresh_packets
      else c.v9_refresh_packet_count;
}

unfoldable pub check_ranges : Config → Result Error (Unit {0})
check_ranges c = do
  reject_if (ltb c.max_datagram_size 128 || ltb 65507 c.max_datagram_size) invalid_config
  reject_if (ltb c.max_records_per_message 1 || ltb 1024 c.max_records_per_message) invalid_config
  reject_if (same_protocol c.protocol v5 && ltb 30 c.max_records_per_message) invalid_config
  reject_if (ltb c.initial_copies 2 || ltb 8 c.initial_copies) invalid_config
  reject_if (ltb c.refresh_interval (30 * second) || ltb (86400 * second) c.refresh_interval)
      invalid_config
  reject_if
      (same_protocol c.protocol v9
        && (ltb c.v9_refresh_packet_count 1 || ltb 1000 c.v9_refresh_packet_count))
      invalid_config
  reject_if (same_protocol c.protocol ipfix && ltb 1000 c.ipfix_data_message_refresh_count)
      invalid_config

unfoldable pub check_identity : Config → Result Error (Unit {0})
check_identity c = do
  reject_if
      (same_protocol c.protocol v5
        && (not (c.source_id == 0) || not (c.observation_domain_id == 0)))
      invalid_config
  reject_if
      (same_protocol c.protocol v9
        && not (c.observation_domain_id == 0)
        && not (c.observation_domain_id == c.source_id))
      invalid_config
  reject_if
      (same_protocol c.protocol v9
        && (not (c.engine_type == 0) || not (c.engine_id == 0) || not (c.sampling_mode == 0)))
      invalid_config
  reject_if
      (same_protocol c.protocol ipfix
        && (not (c.source_id == 0)
            || not (c.engine_type == 0)
            || not (c.engine_id == 0)
            || not (c.sampling_mode == 0)
            || c.has_uptime_origin))
      invalid_config
  reject_if (same_protocol c.protocol v5 && not c.has_uptime_origin) invalid_config
  reject_if (c.has_uptime_origin && ltb max_int64 c.uptime_origin_unix_nanos) invalid_config
  reject_if (same_protocol c.protocol v5 && ltb 3 c.sampling_mode) invalid_config

unfoldable pub normalized : Config → Result Error Config
unfolding with_defaults check_ranges check_identity
normalized c = do
  reject_if (not (is_known c.protocol)) invalid_config
  check_ranges (with_defaults c)
  check_identity (with_defaults c)
  ok (with_defaults c)
