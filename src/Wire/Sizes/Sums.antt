-- ===== src/Wire/Sizes/Sums.antt =====
-- internal/wire/contract.go: the sizes of a list of records that grows at its end.
use otelcol_exporter_netflow.Common.{ℕ, ◌+◌, ◌-◌, ◌^◌, ◌≤◌, ◌≡◌, List, [], ◌∷◌, ◌++◌, length, arith}
use otelcol_exporter_netflow.Common.Result.{ok, >>=-eq-ok}
use otelcol_exporter_netflow.Wire.Model.{WireRecord}
use otelcol_exporter_netflow.Wire.Descriptors.{checked_add}
use otelcol_exporter_netflow.Wire.Shapes.{Shape}
use otelcol_exporter_netflow.Wire.Sizes.{
  DataSetSize, trusted_record_size, records_bytes_from, data_set_size_for_encoded, or_bounds,
  trusted_data_set_size,
}

-- One more record adds its size, where the sum stays within 64 bits.
pub sum_snoc :
    (s : Shape) (rs : List WireRecord) (one : WireRecord) (total m n : ℕ)
    → records_bytes_from s total rs ≡ ok m
    → trusted_record_size s one ≡ ok n
    → n ≤ 2 ^ 64 - 1 - m
    → records_bytes_from s total (rs ++ (one ∷ [])) ≡ ok (m + n)
unfolding records_bytes_from checked_add
sum_snoc s [] one total m n sum sized small = ground arith
sum_snoc s (x ∷ rs) one total m n sum sized small =
    let (k, e, sum1) = >>=-eq-ok (trusted_record_size s x) _ sum in
    let (t, e', sum2) = >>=-eq-ok (or_bounds (checked_add total k)) _ sum1 in
    rw (e, e') (sum_snoc s rs one t m n sum2 sized small)

-- The size of the data set of some records, from the sum of their sizes.
pub trusted_data_set_size_of :
    (s : Shape) (rs : List WireRecord) (m : ℕ) (set : DataSetSize)
    → length rs ≤ 65535
    → records_bytes_from s 0 rs ≡ ok m
    → data_set_size_for_encoded s m (length rs) ≡ ok set
    → trusted_data_set_size s rs ≡ ok set
unfolding trusted_data_set_size
trusted_data_set_size_of s rs m set few sum sized = ground arith
