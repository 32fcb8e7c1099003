-- ===== src/Destination/Error.antt =====
-- internal/destination: the errors of the state and of its packets.
use otelcol_exporter_netflow.Wire.Model.{ContractError}

pub data Error : Type 0 where
  invalid_config not_ready refresh_required refresh_not_due uptime_exhausted : Error
  time_not_representable transaction encoding invalid_write shape_not_in_catalog : Error
  template_progress streaming_unsupported : Error
  wire : ContractError → Error
