-- ===== src/Common/BigEndian.antt =====
-- encoding/binary's big-endian byte order, as the wire formats use it.
use Prim.Native.Nat.{ℕ, ◌+◌, ◌*◌, ◌/◌, ◌%◌, ◌^◌, ◌<◌}
use mathlib.Core.Path.{◌≡◌}
use mathlib.Core.List.{List, [], ◌∷◌}
use native.Mathlib.Omega.{arith}

abbrev pub u16_bytes : ℕ → List ℕ
u16_bytes v = v / 2 ^ 8 % 256 ∷ v % 256 ∷ []

abbrev pub u32_bytes : ℕ → List ℕ
u32_bytes v = v / 2 ^ 24 % 256 ∷ v / 2 ^ 16 % 256 ∷ v / 2 ^ 8 % 256 ∷ v % 256 ∷ []

abbrev pub u64_bytes : ℕ → List ℕ
u64_bytes v =
    v / 2 ^ 56 % 256
    ∷ v / 2 ^ 48 % 256
    ∷ v / 2 ^ 40 % 256
    ∷ v / 2 ^ 32 % 256
    ∷ v / 2 ^ 24 % 256
    ∷ v / 2 ^ 16 % 256
    ∷ v / 2 ^ 8 % 256
    ∷ v % 256
    ∷ []

abbrev read_from : ℕ → List ℕ → ℕ
read_from total [] = total
read_from total (b ∷ bs) = read_from (total * 256 + b) bs

-- The number that bytes in this order stand for.
abbrev pub read : List ℕ → ℕ
read bytes = read_from 0 bytes

pub read-u16_bytes : (v : ℕ) → v < 2 ^ 16 → read (u16_bytes v) ≡ v
read-u16_bytes v h = omega arith

pub read-u32_bytes : (v : ℕ) → v < 2 ^ 32 → read (u32_bytes v) ≡ v
read-u32_bytes v h = omega arith

pub read-u64_bytes : (v : ℕ) → v < 2 ^ 64 → read (u64_bytes v) ≡ v
read-u64_bytes v h = omega arith
