-- ===== src/Wire/Sizes/Padding.antt =====
-- The length and the padding of a data set.
use otelcol_exporter_netflow.Common.{
  ℕ, ◌+◌, ◌-◌, ◌*◌, ◌%◌, ◌≤◌, ◌<◌, ◌≡◌, ◌≢◌, refl, Bool, true, false, some, ltb, ◌==◌,
  if◌then◌else◌, arith, ◌⊎◌, inl, inr, Bool-cases, Option-cases,
}
use otelcol_exporter_netflow.Common.Result.{Result, ok, reject_if, >>=-eq-ok, reject_if-eq-ok}
use otelcol_exporter_netflow.Wire.Model.{v5, same_protocol, ContractError, bounds}
use otelcol_exporter_netflow.Wire.Descriptors.{checked_add, checked_mul}
use otelcol_exporter_netflow.Wire.Shapes.{Shape, validate_shape, has_variable_fields}
use otelcol_exporter_netflow.Wire.Sizes.{
  DataSetSize, padding_for, encoded_set, data_set_size_for_encoded, no_data_set, filled_set,
  empty_set,
}

-- A v9 or IPFIX set: four bytes of header, the records, and at most three bytes of padding.
pub record IsAligned (record_length record_bytes : ℕ) (d : DataSetSize) : Type 0 where
  pub adds_up : d.length ≡ 4 + record_bytes + d.padding
  pub short : d.padding < 4
  -- The padding cannot hold a record.
  pub no_record : (d.padding ≡ 0) ⊎ (d.padding < record_length)
  -- The set ends on a boundary of four bytes, unless that padding could hold a record.
  pub aligned : (d.length % 4 ≡ 0) ⊎ (record_length ≤ 4 - (4 + record_bytes) % 4)

pub record IsPlain (record_bytes : ℕ) (d : DataSetSize) : Type 0 where
  pub whole : d.length ≡ record_bytes
  pub unpadded : d.padding ≡ 0

checked_add-eq_some : (a b n : ℕ) → checked_add a b ≡ some n → n ≡ a + b
unfolding checked_add
checked_add-eq_some a b n h = ground arith

encoded_set_v5 :
    (s : Shape) (n : ℕ) {d : DataSetSize}
    → same_protocol s.protocol v5 ≡ true
    → encoded_set s n ≡ ok d
    → IsPlain n d × (d.length ≤ 65535)
unfolding encoded_set
encoded_set_v5 s n p h = ground arith

encoded_set_framed :
    (s : Shape) (n : ℕ) {d : DataSetSize}
    → same_protocol s.protocol v5 ≡ false
    → encoded_set s n ≡ ok d
    → IsAligned s.record_length n d × (d.length ≤ 65535)
unfolding encoded_set padding_for checked_add
encoded_set_framed s n p h = ground arith

-- What a data set size says of `k` records of `n` bytes in all.
pub record Sized (s : Shape) (n k : ℕ) (d : DataSetSize) : Type 0 where
  pub valid : validate_shape s ≡ ok tt
  pub few : k ≤ 65535
  pub fits : d.length ≤ 65535
  pub at_least : k * s.record_length ≤ n
  pub exact : has_variable_fields s.fields ≡ false → n ≡ k * s.record_length
  pub empty : k ≡ 0 → d ≡ no_data_set
  pub plain : k ≢ 0 → same_protocol s.protocol v5 ≡ true → IsPlain n d
  pub framed : k ≢ 0 → same_protocol s.protocol v5 ≡ false → IsAligned s.record_length n d

unit-eq : (u : Unit {0}) → u ≡ tt
unit-eq u = refl

checked_mul-eq_some : (a b n : ℕ) → checked_mul a b ≡ some n → n ≡ a * b
unfolding checked_mul
checked_mul-eq_some a b n h = ground arith

-- What the checks on the byte count leave.
abbrev Counted : Shape → ℕ → ℕ → DataSetSize → Type 0
Counted s n k d =
    (k * s.record_length ≤ n)
    × (has_variable_fields s.fields ≡ false → n ≡ k * s.record_length)
    × (encoded_set s n ≡ ok d)

filled_set-Counted :
    (s : Shape) (n k : ℕ) {d : DataSetSize} → filled_set s n k ≡ ok d → Counted s n k d
unfolding filled_set
filled_set-Counted s n k h = elim (Option-cases (checked_mul k s.record_length)) [
  | inl e ↦ ground (arith, e)
  | inr (m, e) ↦ ground (arith, e, checked_mul-eq_some k s.record_length m e)
]

filled_set-Sized :
    (s : Shape) (n k : ℕ) {d : DataSetSize}
    → validate_shape s ≡ ok tt
    → k ≤ 65535
    → k ≢ 0
    → filled_set s n k ≡ ok d
    → Sized s n k d
filled_set-Sized s n k {d} valid few some_records h =
    let (enough, exact, encoded) = filled_set-Counted s n k h in
    record {
      valid = valid;
      few = few;
      fits = fits encoded;
      at_least = enough;
      exact = exact;
      empty = λ e. absurd (some_records e);
      plain = λ _ p. (encoded_set_v5 s n p encoded).0;
      framed = λ _ p. (encoded_set_framed s n p encoded).0;
    }
  where
    fits : encoded_set s n ≡ ok d → d.length ≤ 65535
    fits encoded = elim (Bool-cases (same_protocol s.protocol v5)) [
      | inl p ↦ (encoded_set_v5 s n p encoded).1
      | inr p ↦ (encoded_set_framed s n p encoded).1
    ]

empty_set-Sized :
    (s : Shape) (n k : ℕ) {d : DataSetSize}
    → validate_shape s ≡ ok tt
    → k ≡ 0
    → empty_set n ≡ ok d
    → Sized s n k d
unfolding empty_set
empty_set-Sized s n k {d} valid none_left h =
    let nothing : (n ≡ 0) × (d ≡ no_data_set) = ground arith in
    rw (none_left, nothing.0, nothing.1)
      (record {
        valid = valid;
        few = omega arith;
        fits = omega arith;
        at_least = omega arith;
        exact = λ _. omega arith;
        empty = λ _. refl;
        plain = λ e. absurd (e refl);
        framed = λ e. absurd (e refl);
      })

-- A data set size that is computed is what the format prescribes. The shape is valid, there are
-- at most 65535 records and the set has at most 65535 bytes; the records have at least the shape's
-- length each, and exactly that if no field is variable. No records make no set. A v5 set is the
-- records alone; any other has four bytes in front and at most three behind, which end it on a
-- boundary of four bytes unless they could be read as a record.
pub data_set_size_for_encoded-Sized :
    (s : Shape) (n k : ℕ) {d : DataSetSize} → data_set_size_for_encoded s n k ≡ ok d → Sized s n k d
unfolding data_set_size_for_encoded
data_set_size_for_encoded-Sized s n k {d} h =
    let (u, valid, rest) = >>=-eq-ok (validate_shape s) _ h in
    let (w, few, rest') = >>=-eq-ok (reject_if (ltb 65535 k) bounds) _ rest in
    let small : k ≤ 65535 = at_most k 65535 (reject_if-eq-ok _ _ few) in
    elim (Bool-cases (k == 0)) [
      | inl e ↦ empty_set-Sized s n k valid (ground arith) (then_branch (k == 0) _ _ e rest')
      | inr e ↦ filled_set-Sized s n k valid small (ground arith) (else_branch (k == 0) _ _ e rest')
    ]
  where
    at_most : (a b : ℕ) → ltb b a ≡ false → a ≤ b
    at_most a b e = ground arith

    then_branch :
        (b : Bool) (x y : Result ContractError DataSetSize)
        → b ≡ true
        → (if b then x else y) ≡ ok d
        → x ≡ ok d
    then_branch b x y e h = ground arith

    else_branch :
        (b : Bool) (x y : Result ContractError DataSetSize)
        → b ≡ false
        → (if b then x else y) ≡ ok d
        → y ≡ ok d
    else_branch b x y e h = ground arith
