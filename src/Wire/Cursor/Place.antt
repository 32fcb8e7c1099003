-- ===== src/Wire/Cursor/Place.antt =====
-- Bytes copied over a slice.
use otelcol_exporter_netflow.Common.{
  ℕ, zero, suc, ◌+◌, ◌≤◌, ◌≡◌, refl, ap, List, [], ◌∷◌, ◌++◌, length, take, drop, arith,
}
use otelcol_exporter_netflow.Wire.Cursor.{place}

pub length-place : (xs : List ℕ) (i : ℕ) (bs : List ℕ) → length (place xs i bs) ≡ length xs
length-place [] i bs = refl
length-place (x ∷ xs) zero [] = refl
length-place (x ∷ xs) zero (b ∷ bs) = ap suc (length-place xs zero bs)
length-place (x ∷ xs) (suc i) bs = ap suc (length-place xs i bs)

pub place_nothing : (xs : List ℕ) (i : ℕ) → place xs i [] ≡ xs
place_nothing [] i = refl
place_nothing (x ∷ xs) zero = refl
place_nothing (x ∷ xs) (suc i) = ap (λ ys. x ∷ ys) (place_nothing xs i)

-- Two copies one behind the other are one.
pub place_behind :
    (xs : List ℕ) (i j : ℕ) (as' bs : List ℕ)
    → j ≡ i + length as'
    → place (place xs i as') j bs ≡ place xs i (as' ++ bs)
place_behind [] i j as' bs e = refl
place_behind (x ∷ xs) zero zero [] bs e = refl
place_behind (x ∷ xs) zero (suc j) [] bs e = absurd (omega (arith, e))
place_behind (x ∷ xs) zero zero (a ∷ as') bs e = absurd (omega (arith, e))
place_behind (x ∷ xs) zero (suc j) (a ∷ as') bs e =
    ap (λ ys. a ∷ ys) (place_behind xs zero j as' bs (omega (arith, e)))
place_behind (x ∷ xs) (suc i) zero as' bs e = absurd (omega (arith, e))
place_behind (x ∷ xs) (suc i) (suc j) as' bs e =
    ap (λ ys. x ∷ ys) (place_behind xs i j as' bs (omega (arith, e)))

-- A copy over the middle of an earlier one replaces that part of it.
pub place_over :
    (xs front old new back : List ℕ)
    → length old ≡ length new
    → place (place xs 0 (front ++ (old ++ back))) (length front) new
      ≡ place xs 0 (front ++ (new ++ back))
place_over [] front old new back e = refl
place_over (x ∷ xs) [] [] [] back e = place_nothing (place (x ∷ xs) 0 back) 0
place_over (x ∷ xs) [] [] (n ∷ new) back e = absurd (omega (arith, e))
place_over (x ∷ xs) [] (o ∷ old) [] back e = absurd (omega (arith, e))
place_over (x ∷ xs) [] (o ∷ old) (n ∷ new) back e =
    ap (λ ys. n ∷ ys) (place_over xs [] old new back (omega (arith, e)))
place_over (x ∷ xs) (f ∷ front) old new back e =
    ap (λ ys. f ∷ ys) (place_over xs front old new back e)

place_own : (xs : List ℕ) (n : ℕ) → place xs 0 (take n xs) ≡ xs
place_own [] n = refl
place_own (x ∷ xs) zero = refl
place_own (x ∷ xs) (suc n) = ap (λ ys. x ∷ ys) (place_own xs n)

-- A copy into a window of a slice is a copy into the slice.
pub place_window :
    (xs : List ℕ) (n : ℕ) (bs : List ℕ)
    → length bs ≤ n
    → place xs 0 (place (take n xs) 0 bs) ≡ place xs 0 bs
place_window [] n bs h = refl
place_window (x ∷ xs) zero [] h = refl
place_window (x ∷ xs) zero (b ∷ bs) h = elim h [ ]
place_window (x ∷ xs) (suc n) [] h = ap (λ ys. x ∷ ys) (place_own xs n)
place_window (x ∷ xs) (suc n) (b ∷ bs) h =
    ap (λ ys. b ∷ ys) (place_window xs n bs (omega (arith, h)))

-- The same for a window that begins further on.
pub place_window_at :
    (xs : List ℕ) (i n : ℕ) (bs : List ℕ)
    → length bs ≤ n
    → place xs i (place (take n (drop i xs)) 0 bs) ≡ place xs i bs
place_window_at [] i n bs h = refl
place_window_at (x ∷ xs) zero n bs h = place_window (x ∷ xs) n bs h
place_window_at (x ∷ xs) (suc i) n bs h = ap (λ ys. x ∷ ys) (place_window_at xs i n bs h)

pub length-window : (xs : List ℕ) (i n : ℕ) → i + n ≤ length xs → length (take n (drop i xs)) ≡ n
length-window xs zero zero h = refl
length-window [] zero (suc n) h = absurd (omega (arith, h))
length-window (x ∷ xs) zero (suc n) h = ap suc (length-window xs zero n (omega (arith, h)))
length-window [] (suc i) zero h = refl
length-window [] (suc i) (suc n) h = absurd (omega (arith, h))
length-window (x ∷ xs) (suc i) n h = length-window xs i n (omega (arith, h))
