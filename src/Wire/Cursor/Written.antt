-- ===== src/Wire/Cursor/Written.antt =====
-- The bytes that an operation of the cursor leaves in the slice, read back from it.
use otelcol_exporter_netflow.Common.{
  ℕ, zero, suc, ◌+◌, ◌-◌, ◌≤◌, ◌≡◌, refl, ap, ◌∙◌, List, [], ◌∷◌, length, take, drop, arith,
}
use otelcol_exporter_netflow.Wire.Cursor.{Cursor, Put, place, advance}
use otelcol_exporter_netflow.Wire.Cursor.Writes.{Writes}

-- What stands in the slice of `after` between the offsets of the two cursors.
abbrev pub written : Cursor → Cursor → List ℕ
written before after = take (after.off - before.off) (drop before.off after.buf)

take-place :
    (xs : List ℕ) (k : ℕ) (bs : List ℕ)
    → k ≡ length bs
    → length bs ≤ length xs
    → take k (place xs 0 bs) ≡ bs
take-place xs zero [] e h = refl
take-place xs (suc k) [] e h = absurd (omega (arith, e))
take-place [] k (b ∷ bs) e h = absurd (omega (arith, h))
take-place (x ∷ xs) zero (b ∷ bs) e h = absurd (omega (arith, e))
take-place (x ∷ xs) (suc k) (b ∷ bs) e h =
    ap (λ ys. b ∷ ys) (take-place xs k bs (omega (arith, e)) (omega (arith, h)))

take-drop-place :
    (xs : List ℕ) (i k : ℕ) (bs : List ℕ)
    → k ≡ length bs
    → i + length bs ≤ length xs
    → take k (drop i (place xs i bs)) ≡ bs
take-drop-place xs zero k bs e h = take-place xs k bs e (omega (arith, h))
take-drop-place [] (suc i) k bs e h = absurd (omega (arith, h))
take-drop-place (x ∷ xs) (suc i) k bs e h = take-drop-place xs i k bs e (omega (arith, h))

-- An operation that puts some bytes leaves exactly them where the cursor was.
pub written-Writes :
    {f : Put} {bytes : List ℕ}
    → Writes f bytes
    → (c : Cursor) → c.off + length bytes ≤ length c.buf
    → ((f c).off ≡ c.off + length bytes) × (written c (f c) ≡ bytes)
unfolding advance
written-Writes {f} {bytes} w c room = (
  ap (λ c'. c'.off) (w.run c room),
  ap (written c) (w.run c room)
      ∙ take-drop-place c.buf c.off (c.off + length bytes - c.off) bytes (omega arith) room,
)
