-- ===== src/Common/Count.antt =====
-- How many numbers below a bound pass a test.
use Prim.Native.Nat.{ℕ, zero, suc, ◌+◌, ◌≤◌, ◌<◌}
use mathlib.Core.Path.{◌≡◌, refl}
use mathlib.Core.Bool.{Bool, true, false, ◌&&◌}
use native.Mathlib.Omega.{arith}
use mathlib.Core.Logic.{◌≢◌, inl, inr}
use otelcol_exporter_netflow.Common.Tests.{◌==◌, Bool-cases}

abbrev pub bit : Bool → ℕ
bit true = 1
bit false = 0

unfoldable pub count : (ℕ → Bool) → ℕ → ℕ
count p zero = 0
count p (suc n) = count p n + bit (p n)

pub count-suc : (p : ℕ → Bool) (n : ℕ) → count p (suc n) ≡ count p n + bit (p n)
unfolding count
count-suc p n = refl

-- Tests that balance at each number balance in their counts.
pub count_balance :
    (p q r s : ℕ → Bool) (n : ℕ)
    → ((i : ℕ) → i < n → bit (p i) + bit (q i) ≡ bit (r i) + bit (s i))
    → count p n + count q n ≡ count r n + count s n
unfolding count
count_balance p q r s zero h = refl
count_balance p q r s (suc n) h =
    omega (arith, count_balance p q r s n (λ i l. h i (omega arith)), h n (omega arith))

pub count-congr : (p q : ℕ → Bool) (n : ℕ) → ((i : ℕ) → i < n → p i ≡ q i) → count p n ≡ count q n
unfolding count
count-congr p q zero h = refl
count-congr p q (suc n) h =
    ground (arith, count-congr p q n (λ i l. h i (omega arith)), h n (omega arith))

pub count_mono :
    (p q : ℕ → Bool) (n : ℕ) → ((i : ℕ) → i < n → p i ≡ true → q i ≡ true) → count p n ≤ count q n
unfolding count
count_mono p q zero h = omega arith
count_mono p q (suc n) h =
    ground (arith, count_mono p q n (λ i l. h i (omega arith)), h n (omega arith))

pub count-le : (p : ℕ → Bool) (n : ℕ) → count p n ≤ n
unfolding count
count-le p zero = omega arith
count-le p (suc n) = ground (arith, count-le p n)

pub count-none : (p : ℕ → Bool) (n : ℕ) → ((i : ℕ) → i < n → p i ≡ false) → count p n ≡ 0
unfolding count
count-none p zero h = refl
count-none p (suc n) h =
    ground (arith, count-none p n (λ i l. h i (omega arith)), h n (omega arith))

single_below : (o : ℕ) (b : Bool) (n : ℕ) → n ≤ o → count (λ i. i == o && b) n ≡ 0
single_below o b n h = count-none (λ i. i == o && b) n (λ i l. ground arith)

-- The test for one number, which also asks `b`.
pub count-single : (o : ℕ) (b : Bool) (n : ℕ) → o < n → count (λ i. i == o && b) n ≡ bit b
unfolding count
count-single o b zero h = elim h [ ]
count-single o b (suc n) h = ground (arith, count-single o b n, single_below o b n)

-- A number that passes is counted.
pub count-pos : (p : ℕ → Bool) (n o : ℕ) → o < n → p o ≡ true → 0 < count p n
unfolding count
count-pos p zero o l h = elim l [ ]
count-pos p (suc n) o l h = ground (arith, count-pos p n o)

-- A test that splits into two, which never both pass.
pub count_split :
    (p q r : ℕ → Bool) (n : ℕ)
    → ((i : ℕ) → i < n → bit (p i) ≡ bit (q i) + bit (r i))
    → count p n ≡ count q n + count r n
unfolding count
count_split p q r zero h = refl
count_split p q r (suc n) h =
    omega (arith, count_split p q r n (λ i l. h i (omega arith)), h n (omega arith))

pub count-true : (n : ℕ) → count (λ i. true) n ≡ n
unfolding count
count-true zero = refl
count-true (suc n) = omega (arith, count-true n)

-- One number changes its test's answer from `old` to `new`.
pub count_update :
    (p q : ℕ → Bool) (n o : ℕ)
    → o < n
    → ((i : ℕ) → i < n → i ≢ o → q i ≡ p i)
    → count q n + bit (p o) ≡ count p n + bit (q o)
count_update p q n o l h = omega (
  arith,
  count_balance q (λ i. i == o && p o) p (λ i. i == o && q o) n (λ i m. at i m),
  count-single o (p o) n l,
  count-single o (q o) n l,
)
  where
    at : (i : ℕ) → i < n → bit (q i) + bit (i == o && p o) ≡ bit (p i) + bit (i == o && q o)
    at i m = elim (Bool-cases (i == o)) [
      | inl e ↦ let e' : i ≡ o = ground arith in rw e' (ground arith)
      | inr e ↦ ground (arith, h i m)
    ]
