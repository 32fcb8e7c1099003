-- ===== src/Common/Int.antt =====
-- Go's signed `int`, as far as the code tests its sign.
use Prim.Native.Nat.{ℕ, compare, Ordering}
use mathlib.Core.Bool.{Bool, true, false}

-- `negsuc n` is -(n + 1).
pub data ℤ : Type 0 where
  pos : ℕ → ℤ
  negsuc : ℕ → ℤ

abbrev pub is_negative : ℤ → Bool
is_negative (pos n) = false
is_negative (negsuc n) = true

abbrev pub ltb : ℤ → ℤ → Bool
ltb (pos a) (pos b) = elim (compare a b) [ Ordering.lt ↦ true | _ ↦ false ]
ltb (pos a) (negsuc b) = false
ltb (negsuc a) (pos b) = true
ltb (negsuc a) (negsuc b) = elim (compare b a) [ Ordering.lt ↦ true | _ ↦ false ]

infix 50 ◌==◌
abbrev pub ◌==◌ : ℤ → ℤ → Bool
pos a == pos b = elim (compare a b) [ Ordering.eq ↦ true | _ ↦ false ]
pos a == negsuc b = false
negsuc a == pos b = false
negsuc a == negsuc b = elim (compare a b) [ Ordering.eq ↦ true | _ ↦ false ]
