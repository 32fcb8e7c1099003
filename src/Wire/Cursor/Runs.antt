-- ===== src/Wire/Cursor/Runs.antt =====
-- Concrete cursors on which the theorem about the operations of a cursor applies.
use otelcol_exporter_netflow.Common.{◌≡◌, refl, [], ◌∷◌, replicate, some, none, arith}
use otelcol_exporter_netflow.Wire.Cursor.{Cursor, short_buffer, advance, write_uint16, write_uint32}
use otelcol_exporter_netflow.Wire.Cursor.Safety.{uint16_op, uint32_op, Kept, run, run-Kept}

-- Four bytes, of which one is written.
abbrev half : Cursor
half = record { buf = 7 ∷ replicate 3 0; off = 1 }

half_uint16 : run (uint16_op 258) half ≡ (record { buf = 7 ∷ 1 ∷ 2 ∷ 0 ∷ []; off = 3 }, none)
unfolding run write_uint16 advance
half_uint16 = refl

half_uint32 : run (uint32_op 258) half ≡ (half, some short_buffer)
unfolding run write_uint32
half_uint32 = refl

run-Kept_example : Kept half (run (uint16_op 258) half)
run-Kept_example = run-Kept half (omega arith) (uint16_op 258)
