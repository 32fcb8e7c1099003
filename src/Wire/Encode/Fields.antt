-- ===== src/Wire/Encode/Fields.antt =====
-- The bytes of a record, field by field, and that they are as many as its size.
use otelcol_exporter_netflow.Common.{
  ℕ, zero, suc, ◌+◌, ◌≡◌, refl, ap, ◌∙◌, true, false, Bool, not, ◌&&◌, ◌||◌, Option, none, some,
  List, [], ◌∷◌, ◌++◌, length, drop, get_or, All, length-append, length-append, ◌==◌, arith,
  Option-cases, inl, inr,
}
use otelcol_exporter_netflow.Common.Result.{Result, ok, err, reject_if, >>=-eq-ok}
use otelcol_exporter_netflow.Wire.Model.{
  Value, WireRecord, FieldDescriptor, zero_value, Protocol, Family, same_protocol, same_family,
  ContractError, invalid_family, invalid_value, invalid_descriptor, invalid_shape,
  duplicate_identity, bounds, same_encoding, ipv4_address, ipv6_address, ipv4, ipv6,
}
use otelcol_exporter_netflow.Wire.Values.{validate_record}
use otelcol_exporter_netflow.Wire.Descriptors.{checked_add, validate_descriptor, minimum_length}
use otelcol_exporter_netflow.Wire.Widths.{value_length}
use otelcol_exporter_netflow.Wire.Shapes.{
  Shape, validate_shape, check_shape_bounds, check_fields, is_among,
}
use otelcol_exporter_netflow.Wire.Sizes.{
  record_size, trusted_record_size, record_length_from, or_bounds,
}
use otelcol_exporter_netflow.Wire.Encode.{value_at}

module _ (bytes : FieldDescriptor → Value → List ℕ) where
  abbrev pub fields_bytes : WireRecord → ℕ → List FieldDescriptor → List ℕ
  fields_bytes r i [] = []
  fields_bytes r i (d ∷ ds) = bytes d (value_at r i) ++ fields_bytes r (i + 1) ds

next_value :
    (xs : List Value) (i : ℕ) (v : Value) (vs : List Value)
    → drop i xs ≡ v ∷ vs
    → (get_or xs i zero_value ≡ v) × (drop (suc i) xs ≡ vs)
next_value [] zero v vs e = cc
next_value [] (suc i) v vs e = cc
next_value (x ∷ xs) zero v vs e = (cc, cc)
next_value (x ∷ xs) (suc i) v vs e = next_value xs i v vs e

added : (a b m : ℕ) → or_bounds (checked_add a b) ≡ ok m → m ≡ a + b
unfolding checked_add
added a b m h = ground arith

module _ {κ} (bytes : FieldDescriptor → Value → List ℕ) (P : FieldDescriptor → Type κ)
    (sizes : (d : FieldDescriptor) (v : Value) (n : ℕ)
      → P d
      → value_length d v ≡ ok n
      → length (bytes d v) ≡ n) where
  length-fields_bytes :
      (r : WireRecord) (i total m : ℕ) (ds : List FieldDescriptor) (vs : List Value)
      → All P ds
      → drop i r.values ≡ vs
      → record_length_from total ds vs ≡ ok m
      → total + length (fields_bytes bytes r i ds) ≡ m
  unfolding record_length_from
  length-fields_bytes r i total m [] vs p e h = let same : total ≡ m = ground arith in omega arith
  length-fields_bytes r i total m (d ∷ ds) [] p e h = cc
  length-fields_bytes r i total m (d ∷ ds) (v ∷ vs) p e h =
      let (n, own, h1) = >>=-eq-ok (value_length d v) _ h in
      let (total', sum, h2) = >>=-eq-ok (or_bounds (checked_add total n)) _ h1 in
      let (here, later) = next_value r.values i v vs e in
      let shift : i + 1 ≡ suc i = omega arith in
      let later' : drop (i + 1) r.values ≡ vs = ap (λ j. drop j r.values) shift ∙ later in
      let rest = length-fields_bytes r (i + 1) total' m ds vs p.1 later' h2 in
      omega (
        arith,
        ap (λ v. length (bytes d v)) here,
        sizes d v n p.0 own,
        rest,
        added total n total' sum,
        length-append (bytes d (value_at r i)) (fields_bytes bytes r (i + 1) ds),
      )

  -- The bytes of a record are as many as its size.
  pub length-record :
      (s : Shape) (r : WireRecord) (n : ℕ)
      → All P s.fields
      → record_size s r ≡ ok n
      → length (fields_bytes bytes r 0 s.fields) ≡ n
  unfolding record_size trusted_record_size
  length-record s r n p h =
      let (_, _, h1) = >>=-eq-ok (validate_shape s) _ h in
      let (_, _, h2) = >>=-eq-ok (validate_record r) _ h1 in
      let (_, _, h3) =
        >>=-eq-ok (reject_if (not (same_family r.family s.family)) invalid_family) _ h2 in
      let (_, _, h4) =
        >>=-eq-ok (reject_if (not (length r.values == length s.fields)) invalid_value) _ h3 in
      let e = length-fields_bytes r 0 0 n s.fields r.values p refl h4 in omega (arith, e)

-- A descriptor that belongs to a protocol's shape.
abbrev pub Sound : Protocol → FieldDescriptor → Type 0
Sound p d = (validate_descriptor d ≡ ok tt) × (same_protocol d.protocol p ≡ true)

pub no_sum :
    {m : ℕ} (o : Option ℕ) (next : ℕ → Result ContractError ℕ)
    → o ≡ none
    → elim o [ none ↦ err bounds | some sum' ↦ next sum' ] ≡ ok m
    → ⊥
no_sum none next e h = cc
no_sum (some k) next e h = cc

pub some_sum :
    {m : ℕ} (o : Option ℕ) (next : ℕ → Result ContractError ℕ) {k : ℕ}
    → o ≡ some k
    → elim o [ none ↦ err bounds | some sum' ↦ next sum' ] ≡ ok m
    → next k ≡ ok m
some_sum none next e h = cc
some_sum (some k) next e h = ground arith

check_fields-Sound :
    (p : Protocol) (f : Family) (earlier : List FieldDescriptor) (sum m : ℕ)
    (ds : List FieldDescriptor)
    → check_fields p f earlier sum ds ≡ ok m
    → All (Sound p) ds
unfolding check_fields
check_fields-Sound p f earlier sum m [] h = tt
check_fields-Sound p f earlier sum m (d ∷ ds) h =
    let (_, valid, h1) = >>=-eq-ok (validate_descriptor d) _ h in
    let (_, same, h2) =
      >>=-eq-ok (reject_if (not (same_protocol d.protocol p)) invalid_descriptor) _ h1 in
    let (_, _, h3) =
      >>=-eq-ok
        (reject_if
          ((same_encoding d.encoding ipv4_address && not (same_family f ipv4))
            || (same_encoding d.encoding ipv6_address && not (same_family f ipv6)))
          invalid_shape)
        _ h2 in
    let (_, _, h4) = >>=-eq-ok (reject_if (is_among d earlier) duplicate_identity) _ h3 in
    elim (Option-cases (checked_add sum (minimum_length d))) [
      | inl e ↦ absurd (no_sum _ (λ t. check_fields p f (d ∷ earlier) t ds) e h4)
      | inr (sum', e) ↦ (
        (valid, passed _ same),
        check_fields-Sound p f (d ∷ earlier) sum' m ds
            (some_sum _ (λ t. check_fields p f (d ∷ earlier) t ds) e h4),
      )
    ]
  where
    passed : (b : Bool) → reject_if (not b) invalid_descriptor ≡ ok tt → b ≡ true
    passed true h = refl
    passed false h = cc

-- The descriptors of a valid shape are sound.
pub validate_shape-Sound : (s : Shape) → validate_shape s ≡ ok tt → All (Sound s.protocol) s.fields
unfolding validate_shape
validate_shape-Sound s h =
    let (_, _, h1) = >>=-eq-ok (check_shape_bounds s) _ h in
    let (m, fields, _) = >>=-eq-ok (check_fields s.protocol s.family [] 0 s.fields) _ h1 in
    check_fields-Sound s.protocol s.family [] 0 m s.fields fields
