-- ===== src/Wire/Cursor.antt =====
-- internal/wire/internal/cursor/cursor.go: the checked cursor that the writers put bytes with.
-- `buf` is the caller's slice. `binary.BigEndian` and `copy` are the standard library's.
pub mod Place
pub mod Writes
pub mod Written
pub mod Safety
mod Runs
use otelcol_exporter_netflow.Common.{
  ℕ, zero, suc, ◌+◌, ◌-◌, Option, none, some, List, [], ◌∷◌, length, take, drop, ltb, leb,
  if◌then◌else◌,
}
use otelcol_exporter_netflow.Common.BigEndian.{u16_bytes, u32_bytes, u64_bytes}
use otelcol_exporter_netflow.Common.Int.{ℤ, pos, negsuc}

-- `io.ErrShortBuffer` and ErrInvalidLength.
pub data CursorError : Type 0 where
  short_buffer invalid_length : CursorError

pub record Cursor : Type 0 where
  pub buf : List ℕ
  pub off : ℕ

-- The slice with bytes copied over it from an index on; what does not fit is dropped.
abbrev pub place : List ℕ → ℕ → List ℕ → List ℕ
place [] i bytes = []
place (x ∷ xs) zero [] = x ∷ xs
place (x ∷ xs) zero (b ∷ bytes) = b ∷ place xs zero bytes
place (x ∷ xs) (suc i) bytes = x ∷ place xs i bytes

unfoldable pub new : List ℕ → Cursor
new buf = record { buf = buf; off = 0 }

pub offset : Cursor → ℕ
offset c = c.off

-- The offset of a cursor never passes the end of its slice, so this does not stop at 0.
unfoldable pub remaining : Cursor → ℕ
remaining c = length c.buf - c.off

-- The bytes behind the offset are replaced, and the offset moves past them.
unfoldable pub advance : Cursor → List ℕ → Cursor
advance c bytes = record { buf = place c.buf c.off bytes; off = c.off + length bytes }

unfoldable pub write_byte : ℕ → Cursor → Cursor × Option CursorError
unfolding advance
write_byte v c =
    if leb (length c.buf) c.off then (c, some short_buffer) else (advance c (v ∷ []), none)

unfoldable pub write_uint8 : ℕ → Cursor → Cursor × Option CursorError
unfolding write_byte
write_uint8 v c = write_byte v c

unfoldable pub write_uint16 : ℕ → Cursor → Cursor × Option CursorError
unfolding advance
write_uint16 v c =
    if ltb (length c.buf - c.off) 2 then (c, some short_buffer) else (advance c (u16_bytes v), none)

unfoldable pub write_uint32 : ℕ → Cursor → Cursor × Option CursorError
unfolding advance
write_uint32 v c =
    if ltb (length c.buf - c.off) 4 then (c, some short_buffer) else (advance c (u32_bytes v), none)

unfoldable pub write_uint64 : ℕ → Cursor → Cursor × Option CursorError
unfolding advance
write_uint64 v c =
    if ltb (length c.buf - c.off) 8 then (c, some short_buffer) else (advance c (u64_bytes v), none)

-- The reserved slice is returned as the range that it aliases: its start and its length.
unfoldable pub reserve : ℤ → Cursor → Cursor × (ℕ × ℕ) × Option CursorError
reserve (negsuc n) c = (c, (0, 0), some invalid_length)
reserve (pos n) c =
    if ltb (length c.buf - c.off) n
    then (c, (0, 0), some short_buffer)
    else (record c { off = c.off + n }, (c.off, n), none)

unfoldable pub copy : List ℕ → Cursor → Cursor × Option CursorError
unfolding advance
copy src c =
    if ltb (length c.buf - c.off) (length src)
    then (c, some short_buffer)
    else (advance c src, none)

-- What a writer does with the cursor. It ignores the errors, as in `_ = c.WriteUint16(5)`.
abbrev pub Put : Type 0
Put = Cursor → Cursor

abbrev pub ignore : (Cursor → Cursor × Option CursorError) → Put
ignore op c = (op c).0

infixr 5 ◌>>◌
unfoldable pub ◌>>◌ : Put → Put → Put
(first >> second) c = second (first c)

unfoldable pub skip : Put
skip c = c

unfoldable pub put8 : ℕ → Put
put8 v = ignore (write_uint8 v)

unfoldable pub put16 : ℕ → Put
put16 v = ignore (write_uint16 v)

unfoldable pub put32 : ℕ → Put
put32 v = ignore (write_uint32 v)

unfoldable pub put64 : ℕ → Put
put64 v = ignore (write_uint64 v)

unfoldable pub put_copy : List ℕ → Put
put_copy src = ignore (copy src)

-- `reserved, _ := c.Reserve(len(value)); copy(reserved, value)`: at most the reserved bytes.
unfoldable pub put_string : List ℕ → Put
unfolding reserve
put_string value c =
    let (c', (start, n), _) = reserve (pos (length value)) c in
    record c' { buf = place c'.buf start (take n value) }

-- `for _, x := range xs { put(x) }`
unfoldable pub put_each {ℓ} : {A : Type ℓ} → (A → Put) → List A → Put
put_each put [] = skip
put_each put (x ∷ xs) = put x >> put_each put xs

-- `for i := 0; i < n; i++ { c.WriteUint8(0) }`
unfoldable pub put_zeros : ℕ → Put
put_zeros zero = skip
put_zeros (suc n) = put8 0 >> put_zeros n
