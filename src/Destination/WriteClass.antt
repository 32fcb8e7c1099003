-- ===== src/Destination/WriteClass.antt =====
-- internal/destination/state.go: the partition of a local write's outcomes.
pub mod Partition
use otelcol_exporter_netflow.Common.{Bool, ◌&&◌, ◌||◌, not, if◌then◌else◌}
use otelcol_exporter_netflow.Common.Int.{ℤ, pos, is_negative, ltb, ◌==◌}

pub data WriteClass : Type 0 where
  full short_nil zero_nil short_error zero_error full_error invalid : WriteClass

-- `failed` says that the write's error is not nil; its content is never read.
unfoldable pub classify_write : ℤ → ℤ → Bool → WriteClass
classify_write n length failed =
    if is_negative length || is_negative n || ltb length n
    then WriteClass.invalid
    else if n == length && not failed
    then full
    else if n == length
    then full_error
    else if n == pos 0 && not failed
    then zero_nil
    else if n == pos 0
    then zero_error
    else if not failed
    then short_nil
    else short_error
