-- ===== src/Wire/Cursor/Safety.antt =====
-- What every operation of the cursor leaves alone.
use otelcol_exporter_netflow.Common.{
  ℕ, zero, suc, ◌+◌, ◌-◌, ◌≤◌, ◌≡◌, refl, ap, Bool, false, Option, none, some, List, [], ◌∷◌,
  length, take, drop, ltb, leb, if◌then◌else◌, if_cases, arith,
}
use otelcol_exporter_netflow.Common.BigEndian.{u16_bytes, u32_bytes, u64_bytes}
use otelcol_exporter_netflow.Common.Int.{ℤ, pos, negsuc}
use otelcol_exporter_netflow.Wire.Cursor.{
  Cursor, CursorError, short_buffer, invalid_length, place, advance, write_byte, write_uint8,
  write_uint16, write_uint32, write_uint64, reserve, copy,
}
use otelcol_exporter_netflow.Wire.Cursor.Place.{length-place}

-- The operations of a cursor.
pub data Op : Type 0 where
  byte_op uint8_op uint16_op uint32_op uint64_op : ℕ → Op
  reserve_op : ℤ → Op
  copy_op : List ℕ → Op

unfoldable pub run : Op → Cursor → Cursor × Option CursorError
run (byte_op v) c = write_byte v c
run (uint8_op v) c = write_uint8 v c
run (uint16_op v) c = write_uint16 v c
run (uint32_op v) c = write_uint32 v c
run (uint64_op v) c = write_uint64 v c
run (reserve_op n) c = ((reserve n c).0, (reserve n c).2)
run (copy_op src) c = copy src c

-- An operation stays within the slice, moves forward, and leaves the bytes before the old offset
-- and behind the new one as they were. If it returns an error it leaves everything as it was.
pub record Kept (c : Cursor) (out : Cursor × Option CursorError) : Type 0 where
  pub within : out.0.off ≤ length out.0.buf
  pub size : length out.0.buf ≡ length c.buf
  pub forward : c.off ≤ out.0.off
  pub front : take c.off out.0.buf ≡ take c.off c.buf
  pub back : drop out.0.off out.0.buf ≡ drop out.0.off c.buf
  pub refused : (e : CursorError) → out.1 ≡ some e → out.0 ≡ c

take-place : (xs : List ℕ) (i : ℕ) (bs : List ℕ) → take i (place xs i bs) ≡ take i xs
take-place [] i bs = refl
take-place (x ∷ xs) zero bs = refl
take-place (x ∷ xs) (suc i) bs = ap (λ ys. x ∷ ys) (take-place xs i bs)

drop-place :
    (xs : List ℕ) (i j : ℕ) (bs : List ℕ) → j ≡ i + length bs → drop j (place xs i bs) ≡ drop j xs
drop-place [] i j bs e = refl
drop-place (x ∷ xs) zero zero [] e = refl
drop-place (x ∷ xs) zero zero (b ∷ bs) e = absurd (omega (arith, e))
drop-place (x ∷ xs) zero (suc j) [] e = absurd (omega (arith, e))
drop-place (x ∷ xs) zero (suc j) (b ∷ bs) e = drop-place xs zero j bs (omega (arith, e))
drop-place (x ∷ xs) (suc i) zero bs e = absurd (omega (arith, e))
drop-place (x ∷ xs) (suc i) (suc j) bs e = drop-place xs i j bs (omega (arith, e))

module _ (c : Cursor) (inside : c.off ≤ length c.buf) where
  refused-Kept : (e : CursorError) → Kept c (c, some e)
  refused-Kept e = record {
    within = inside;
    size = refl;
    forward = omega arith;
    front = refl;
    back = refl;
    refused = λ e _. refl;
  }

  advance-Kept : (bs : List ℕ) → c.off + length bs ≤ length c.buf → Kept c (advance c bs, none)
  unfolding advance
  advance-Kept bs room = record {
    within = omega (arith, room, length-place c.buf c.off bs);
    size = length-place c.buf c.off bs;
    forward = omega arith;
    front = take-place c.buf c.off bs;
    back = drop-place c.buf c.off (c.off + length bs) bs refl;
    refused = λ e h. cc;
  }

  guarded-Kept :
      (short : Bool) (bs : List ℕ)
      → (short ≡ false → c.off + length bs ≤ length c.buf)
      → Kept c (if short then (c, some short_buffer) else (advance c bs, none))
  guarded-Kept short bs room =
      if_cases (Kept c) short (λ _. refused-Kept short_buffer) (λ e. advance-Kept bs (room e))

  skipped-Kept : (n : ℕ) → c.off + n ≤ length c.buf → Kept c (record c { off = c.off + n }, none)
  skipped-Kept n room = record {
    within = room;
    size = refl;
    forward = omega arith;
    front = refl;
    back = refl;
    refused = λ e h. cc;
  }

  -- Every operation of a cursor whose offset is within its slice keeps the offset there, and changes
  -- no byte but those that it moves over. One that returns an error changes nothing.
  pub run-Kept : (op : Op) → Kept c (run op c)
  unfolding run write_byte write_uint8 write_uint16 write_uint32 write_uint64 reserve copy
  run-Kept (byte_op v) = guarded-Kept (leb (length c.buf) c.off) (v ∷ []) (λ e. ground arith)
  run-Kept (uint8_op v) = guarded-Kept (leb (length c.buf) c.off) (v ∷ []) (λ e. ground arith)
  run-Kept (uint16_op v) =
      guarded-Kept (ltb (length c.buf - c.off) 2) (u16_bytes v) (λ e. ground arith)
  run-Kept (uint32_op v) =
      guarded-Kept (ltb (length c.buf - c.off) 4) (u32_bytes v) (λ e. ground arith)
  run-Kept (uint64_op v) =
      guarded-Kept (ltb (length c.buf - c.off) 8) (u64_bytes v) (λ e. ground arith)
  run-Kept (reserve_op (negsuc n)) = refused-Kept invalid_length
  run-Kept (reserve_op (pos n)) =
      if_cases (λ (out : Cursor × (ℕ × ℕ) × Option CursorError). Kept c (out.0, out.2))
        (ltb (length c.buf - c.off) n) (λ _. refused-Kept short_buffer)
        (λ e. skipped-Kept n (ground arith))
  run-Kept (copy_op src) =
      guarded-Kept (ltb (length c.buf - c.off) (length src)) src (λ e. ground arith)
