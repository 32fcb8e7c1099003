-- ===== src/Destination/Ledger/Store.antt =====
-- The packed classification store of the ledger: two bits for each ordinal, four ordinals a byte.
pub mod Laws
pub mod Growth
pub mod Ranges
use Prim.Native.Nat.{bit_xor}
use otelcol_exporter_netflow.Common.{
  zero, suc, ◌-◌, ◌+◌, ◌++◌, replicate, Option, none, some, not, ℕ, ◌+◌, ◌*◌, ◌/◌, ◌%◌, ◌^◌, ◌<◌,
  ◌≡◌, refl, Bool, true, false, ◌&&◌, List, length, get_or, set, bit_and, bit_or, leb, ltb, ◌==◌,
  if◌then◌else◌,
}

pub data SourceClass : Type 0 where
  uncovered unsent_valid confirmed invalid ambiguous : SourceClass

abbrev pub is_unsent : SourceClass → Bool
is_unsent unsent_valid = true
is_unsent other = false

abbrev pub is_invalid : SourceClass → Bool
is_invalid invalid = true
is_invalid other = false

-- `(b >> (2 * k)) & 3`
unfoldable pub two_bits : ℕ → ℕ → ℕ
two_bits b k = b / 2 ^ (k * 2) % 4

-- `(b &^ byte(3 << (2 * k))) | byte(v << (2 * k))`
unfoldable pub put_bits : ℕ → ℕ → ℕ → ℕ
put_bits b k v = bit_or (bit_and b (bit_xor 255 (3 * 2 ^ (k * 2) % 256))) (v * 2 ^ (k * 2) % 256)

unfoldable pub class_of_bits : ℕ → SourceClass
class_of_bits bits =
    if bits == 1
    then confirmed
    else if bits == 2
    then invalid
    else if bits == 3
    then ambiguous
    else unsent_valid

unfoldable pub bits_of_class : SourceClass → ℕ
bits_of_class confirmed = 1
bits_of_class invalid = 2
bits_of_class ambiguous = 3
bits_of_class other = 0

unfoldable pub stored_class : List ℕ → ℕ → SourceClass
stored_class classes ordinal =
    if leb (length classes) (ordinal / 4)
    then uncovered
    else class_of_bits (two_bits (get_or classes (ordinal / 4) 0) (ordinal % 4))

-- A slot out of range, at which Go would panic, is left alone here.
unfoldable pub set_stored_class : List ℕ → ℕ → SourceClass → List ℕ
set_stored_class classes ordinal class =
    set classes (ordinal / 4)
      (put_bits (get_or classes (ordinal / 4) 0) (ordinal % 4) (bits_of_class class))

-- The length of the grown classification store: at least `need`, and at least twice the old one.
abbrev pub grown_length : ℕ → ℕ → ℕ
grown_length need old = if ltb need (old * 2) then (if old * 2 == 0 then 1 else old * 2) else need

-- `none` is ErrLedgerCapacity. The new slice is zeroed behind the copied bytes.
unfoldable pub ensure_ordinal : List ℕ → ℕ → Option (List ℕ)
ensure_ordinal classes ordinal =
    let need = ordinal / 4 + 1 in
    if ltb (2 ^ 63 - 1) need
    then none
    else if leb need (length classes)
    then some classes
    else some (classes ++ replicate (grown_length need (length classes) - length classes) 0)

-- for ordinal := start; ordinal < start + rounds; ordinal++
unfoldable pub invalid_gap_loop : List ℕ → ℕ → ℕ → Bool
invalid_gap_loop classes zero ordinal = true
invalid_gap_loop classes (suc rounds) ordinal =
    let rest = invalid_gap_loop classes rounds (ordinal + 1) in
    if not (is_invalid (stored_class classes ordinal)) then false else rest

abbrev pub invalid_gap : List ℕ → ℕ → ℕ → Bool
invalid_gap classes start end = invalid_gap_loop classes (end - start) start

unfoldable pub mark_loop : List ℕ → ℕ → ℕ → SourceClass → List ℕ
mark_loop classes zero ordinal class = classes
mark_loop classes (suc rounds) ordinal class =
    mark_loop
      (if is_unsent (stored_class classes ordinal)
        then set_stored_class classes ordinal class
        else classes)
      rounds (ordinal + 1) class
