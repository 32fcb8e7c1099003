-- ===== src/Destination/WriteClass/Partition.antt =====
-- The write classes and the outcomes of a write.
use otelcol_exporter_netflow.Common.{
  ℕ, ◌<◌, ◌≡◌, refl, Bool, true, false, not, ◌&&◌, arith, if_cases,
}
use otelcol_exporter_netflow.Common.Int.{ℤ, pos, negsuc, ltb, ◌==◌}
use otelcol_exporter_netflow.Destination.WriteClass.{
  WriteClass, full, short_nil, zero_nil, short_error, zero_error, full_error, classify_write,
}

-- What each class says of `n` bytes handed over out of `length`, and of the error.
abbrev pub Outcome : WriteClass → ℤ → ℤ → Bool → Type 0
Outcome full n length failed = (k : ℕ) × (n ≡ pos k) × (length ≡ pos k) × (failed ≡ false)
Outcome full_error n length failed = (k : ℕ) × (n ≡ pos k) × (length ≡ pos k) × (failed ≡ true)
Outcome zero_nil n length failed =
    (k : ℕ) × (n ≡ pos 0) × (length ≡ pos k) × (0 < k) × (failed ≡ false)
Outcome zero_error n length failed =
    (k : ℕ) × (n ≡ pos 0) × (length ≡ pos k) × (0 < k) × (failed ≡ true)
Outcome short_nil n length failed =
    (j k : ℕ) × (n ≡ pos j) × (length ≡ pos k) × (0 < j) × (j < k) × (failed ≡ false)
Outcome short_error n length failed =
    (j k : ℕ) × (n ≡ pos j) × (length ≡ pos k) × (0 < j) × (j < k) × (failed ≡ true)
Outcome WriteClass.invalid n length failed = (j k : ℕ) → n ≡ pos j → length ≡ pos k → k < j

chosen :
    (m k : ℕ) (failed : Bool)
    → Outcome (classify_write (pos m) (pos k) failed) (pos m) (pos k) failed
unfolding classify_write
chosen m k failed =
    let P : WriteClass → Type 0 = λ c. Outcome c (pos m) (pos k) failed in
    if_cases P (ltb (pos k) (pos m)) (λ e i j p q. ground arith)
      λ fits.
        if_cases P (pos m == pos k && not failed) (λ e. (k, ground arith, refl, ground arith))
          λ a.
            if_cases P (pos m == pos k) (λ e. (k, ground arith, refl, ground arith))
              λ b.
                if_cases P (pos m == pos 0 && not failed)
                  (λ e. (k, ground arith, refl, ground arith, ground arith))
                  λ c.
                    if_cases P (pos m == pos 0)
                      (λ e. (k, ground arith, refl, ground arith, ground arith))
                      λ d.
                        if_cases P (not failed)
                          (λ e. (m, k, refl, refl, ground arith, ground arith, ground arith))
                          λ e. (m, k, refl, refl, ground arith, ground arith, ground arith)

-- The class that is computed describes the outcome: full and full-error writes hand over the
-- whole length, zero ones nothing of a positive length, short ones a proper part, and a result is
-- invalid when a number is negative or more was handed over than there was.
pub classify_write-Outcome :
    (n length : ℤ) (failed : Bool) → Outcome (classify_write n length failed) n length failed
unfolding classify_write
classify_write-Outcome (negsuc m) (pos k) failed = λ i j p q. cc
classify_write-Outcome (negsuc m) (negsuc k) failed = λ i j p q. cc
classify_write-Outcome (pos m) (negsuc k) failed = λ i j p q. cc
classify_write-Outcome (pos m) (pos k) true = chosen m k true
classify_write-Outcome (pos m) (pos k) false = chosen m k false
