-- ===== src/Wire/Encode/Templates.antt =====
-- The bytes of the templates of a message, and the counts that Preflight compares.
use otelcol_exporter_netflow.Common.{
  ℕ, ◌+◌, ◌*◌, ◌≡◌, ◌≢◌, refl, ap, Bool, true, false, not, ◌&&◌, ◌||◌, Option, some, none, List, [],
  ◌∷◌, length, length-append, ◌==◌, subst, ltb, if◌then◌else◌, arith, Option-cases, inl, inr,
}
use native.Mathlib.Decide.{ℕ_discrete}
use otelcol_exporter_netflow.Common.Result.{ok, reject_if, >>=-eq-ok}
use otelcol_exporter_netflow.Wire.Model.{
  Protocol, v5, v9, same_protocol, FieldDescriptor, invalid_shape, bounds,
  default_max_template_bytes, default_max_message_bytes,
}
use otelcol_exporter_netflow.Wire.Descriptors.{checked_add, checked_mul}
use otelcol_exporter_netflow.Wire.Shapes.{
  Shape, validate_shape, check_shape_bounds, check_fields, template_bytes_from, template_bytes_for,
  template_matches, specifier_width,
}
use otelcol_exporter_netflow.Wire.Sizes.{PacketRequest, validate_header}
use otelcol_exporter_netflow.Wire.Preflight.{
  preflight, check_counts, check_templates, template_product,
}
use otelcol_exporter_netflow.Wire.Cursor.Writes.{bytes_of_each}

added : (a b n : ℕ) → checked_add a b ≡ some n → n ≡ a + b
unfolding checked_add
added a b n h = ground arith

multiplied : (a b n : ℕ) → checked_mul a b ≡ some n → n ≡ a * b
unfolding checked_mul
multiplied a b n h = ground arith

-- Field specifiers of the widths that the shape counts.
length-specifiers :
    (p : Protocol) (specifier : FieldDescriptor → List ℕ)
    → ((d : FieldDescriptor) → length (specifier d) ≡ specifier_width p d)
    → (total t : ℕ) (ds : List FieldDescriptor) → template_bytes_from p total ds ≡ some t
    → total + length (bytes_of_each specifier ds) ≡ t
unfolding template_bytes_from
length-specifiers p specifier w total t [] h = let e : total ≡ t = ground arith in omega arith
length-specifiers p specifier w total t (d ∷ ds) h =
    elim (Option-cases (checked_add total (specifier_width p d))) [
      | inl e ↦ absurd (none_left _ (λ k. template_bytes_from p k ds) e h)
      | inr (k, e) ↦ omega (
        arith,
        w d,
        added total (specifier_width p d) k e,
        length-specifiers p specifier w k t ds (some_left _ (λ k. template_bytes_from p k ds) e h),
        length-append (specifier d) (bytes_of_each specifier ds),
      )
    ]
  where
    none_left :
        (o : Option ℕ) (next : ℕ → Option ℕ)
        → o ≡ none
        → elim o [ none ↦ none | some k ↦ next k ] ≡ some t
        → ⊥
    none_left none next e h = cc
    none_left (some k) next e h = cc

    some_left :
        (o : Option ℕ) (next : ℕ → Option ℕ) {k : ℕ}
        → o ≡ some k
        → elim o [ none ↦ none | some k ↦ next k ] ≡ some t
        → next k ≡ some t
    some_left none next e h = cc
    some_left (some k) next e h = ground arith

matched :
    (o : Option ℕ) (n : ℕ)
    → reject_if (not (template_matches o n)) invalid_shape ≡ ok tt
    → o ≡ some n
unfolding template_matches
matched none n h = cc
matched (some m) n h = ap some (ground arith)

-- A template has as many bytes as its shape says.
pub length-template :
    (s : Shape) (specifier : FieldDescriptor → List ℕ)
    → same_protocol s.protocol v5 ≡ false
    → ((d : FieldDescriptor) → length (specifier d) ≡ specifier_width s.protocol d)
    → validate_shape s ≡ ok tt
    → 8 + length (bytes_of_each specifier s.fields) ≡ s.template_bytes
unfolding validate_shape template_bytes_for
length-template s specifier not_v5 w h =
    let (_, _, h1) = >>=-eq-ok (check_shape_bounds s) _ h in
    let (m, _, h2) = >>=-eq-ok (check_fields s.protocol s.family [] 0 s.fields) _ h1 in
    let (_, _, h3) = >>=-eq-ok (reject_if (not (m == s.record_length)) invalid_shape) _ h2 in
    let bytes : template_bytes_from s.protocol 8 s.fields ≡ some s.template_bytes =
      subst
        (λ b.
          (if b then some 0 else template_bytes_from s.protocol 8 s.fields) ≡ some s.template_bytes)
        not_v5 (matched (template_bytes_for s.protocol s.fields) s.template_bytes h3) in
    length-specifiers s.protocol specifier w 8 s.template_bytes s.fields bytes

-- The checks of Preflight that compare counts.
record Counted (req : PacketRequest) : Type 0 where
  pub header : validate_header req.header ≡ ok tt
  pub shape : validate_shape req.shape ≡ ok tt
  pub agree : same_protocol req.shape.protocol req.header.protocol ≡ true
  pub counts : check_counts req (length req.records) ≡ ok tt
  pub templates : check_templates req ≡ ok tt

preflight-Counted :
    (capacity : ℕ) (req : PacketRequest) (n : ℕ) → preflight capacity req ≡ ok n → Counted req
unfolding preflight
preflight-Counted capacity req n h =
    let (_, header, h1) = >>=-eq-ok (validate_header req.header) _ h in
    let (_, shape, h2) = >>=-eq-ok (validate_shape req.shape) _ h1 in
    let (_, agree, h3) =
      >>=-eq-ok
        (reject_if (not (same_protocol req.shape.protocol req.header.protocol)) invalid_shape) _
        h2 in
    let (_, counts, h4) = >>=-eq-ok (check_counts req (length req.records)) _ h3 in
    let (_, templates, _) = >>=-eq-ok (check_templates req) _ h4 in
    record {
      header = header;
      shape = shape;
      agree = passed _ agree;
      counts = counts;
      templates = templates;
    }
  where
    passed : (b : Bool) → reject_if (not b) invalid_shape ≡ ok tt → b ≡ true
    passed true h = refl
    passed false h = cc

product :
    (records bytes : ℕ) (o : Option ℕ)
    → reject_if (not (records == 0) && not (template_product o bytes)) invalid_shape ≡ ok tt
    → records ≢ 0
    → o ≡ some bytes
unfolding template_product
product records bytes none h e = ground arith
product records bytes (some m) h e = ap some (ground arith)

total_of :
    (req : PacketRequest)
    → check_templates req ≡ ok tt
    → req.template_bytes ≡ req.template_records * req.shape.template_bytes
unfolding check_templates
total_of req h =
    let (_, _, h1) =
      >>=-eq-ok
        (reject_if
          (ltb default_max_template_bytes req.template_bytes
            || ltb default_max_message_bytes req.template_bytes)
          bounds)
        _ h in
    let (_, none_left, h2) =
      >>=-eq-ok
        (reject_if (req.template_records == 0 && not (req.template_bytes == 0)) invalid_shape) _
        h1 in
    let (_, some_left, _) =
      >>=-eq-ok
        (reject_if
          (not (req.template_records == 0)
            && not (
                template_product (checked_mul req.template_records req.shape.template_bytes)
                  req.template_bytes))
          invalid_shape)
        _ h2 in
    elim (ℕ_discrete req.template_records 0) [
      | yes e ↦ rw e (ground arith)
      | no e ↦ multiplied _ _ _ (product _ _ _ some_left e)
    ]

-- The template bytes of a request that Preflight accepts.
pub preflight-templates :
    (capacity : ℕ) (req : PacketRequest) (n : ℕ)
    → preflight capacity req ≡ ok n
    → req.template_bytes ≡ req.template_records * req.shape.template_bytes
preflight-templates capacity req n h = total_of req (preflight-Counted capacity req n h).templates

-- The count of the header, as Preflight compares it.
pub preflight-count_v9 :
    (capacity : ℕ) (req : PacketRequest) (n : ℕ)
    → preflight capacity req ≡ ok n
    → same_protocol req.shape.protocol v9 ≡ true
    → req.header.count ≡ length req.records + req.template_records
unfolding check_counts
preflight-count_v9 capacity req n h e =
    let counts = (preflight-Counted capacity req n h).counts in ground arith

pub preflight-count_v5 :
    (capacity : ℕ) (req : PacketRequest) (n : ℕ)
    → preflight capacity req ≡ ok n
    → same_protocol req.shape.protocol v5 ≡ true
    → (req.header.count ≡ length req.records)
      × (req.template_records ≡ 0)
      × (req.template_bytes ≡ 0)
unfolding check_counts
preflight-count_v5 capacity req n h e =
    let counts = (preflight-Counted capacity req n h).counts in
    (ground arith, ground arith, ground arith)

pub same_by :
    (a b c : Protocol)
    → same_protocol a b ≡ true
    → same_protocol a c ≡ true
    → same_protocol b c ≡ true
same_by a b c p q = ground arith

-- The header is of the protocol that the shape is of.
pub preflight-protocol :
    (capacity : ℕ) (req : PacketRequest) (n : ℕ) (p : Protocol)
    → preflight capacity req ≡ ok n
    → same_protocol req.shape.protocol p ≡ true
    → same_protocol req.header.protocol p ≡ true
preflight-protocol capacity req n p h same =
    same_by req.shape.protocol req.header.protocol p (preflight-Counted capacity req n h).agree same
