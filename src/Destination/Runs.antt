-- ===== src/Destination/Runs.antt =====
-- Concrete writes and configurations on which the theorems about them apply.
use otelcol_exporter_netflow.Common.{◌≡◌, true}
use otelcol_exporter_netflow.Common.Int.{pos}
use otelcol_exporter_netflow.Wire.Model.{v9}
use otelcol_exporter_netflow.Destination.WriteClass.{classify_write}
use otelcol_exporter_netflow.Destination.WriteClass.Partition.{Outcome, classify_write-Outcome}
use otelcol_exporter_netflow.Destination.Config.{default_config, with_defaults, normalized}
use otelcol_exporter_netflow.Destination.Config.Normal.{
  Defaulted, NormalizedAnswer, normalized-NormalizedAnswer,
}

classify_write-Outcome_example : Outcome (classify_write (pos 3) (pos 8) true) (pos 3) (pos 8) true
classify_write-Outcome_example = classify_write-Outcome (pos 3) (pos 8) true

normalized-NormalizedAnswer_example :
    NormalizedAnswer (default_config v9) (normalized (default_config v9))
    × Defaulted (default_config v9) (with_defaults (default_config v9))
    × (normalized (with_defaults (default_config v9)) ≡ normalized (default_config v9))
normalized-NormalizedAnswer_example = normalized-NormalizedAnswer (default_config v9)
