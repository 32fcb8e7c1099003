-- ===== src/Wire/Stream/Framing.antt =====
-- The set of a message in v9 and IPFIX: four bytes of header, and padding.
use otelcol_exporter_netflow.Common.{
  ℕ, ◌+◌, ◌%◌, ◌^◌, ◌≡◌, ◌≢◌, refl, ap, sym, ◌∙◌, true, false, List, [], ◌∷◌, ◌++◌, length,
  replicate, All, length-append, arith,
}
use mathlib.Core.Path.{ap₂}
use mathlib.Core.List.{append_assoc}
use otelcol_exporter_netflow.Common.BigEndian.{u16_bytes}
use otelcol_exporter_netflow.Common.Result.{ok}
use otelcol_exporter_netflow.Wire.Model.{v5, same_protocol, Protocol, FieldDescriptor}
use otelcol_exporter_netflow.Wire.Shapes.{Shape, validate_shape}
use otelcol_exporter_netflow.Wire.Sizes.{DataSetSize, data_set_size_for_encoded}
use otelcol_exporter_netflow.Wire.Sizes.Padding.{data_set_size_for_encoded-Sized}
use otelcol_exporter_netflow.Wire.Encode.Fields.{Sound, validate_shape-Sound}
use otelcol_exporter_netflow.Wire.Cursor.{place}
use otelcol_exporter_netflow.Wire.Cursor.Place.{place_over, place_behind}

-- A 16-bit word has the bytes of its remainder.
pub u16_bytes_of_word : (v : ℕ) → u16_bytes (v % 2 ^ 16) ≡ u16_bytes v
u16_bytes_of_word v = ap₂ (λ a b. a ∷ b ∷ []) (omega arith) (omega arith)

-- The set header for a length.
abbrev pub set_header_bytes : Shape → ℕ → List ℕ
set_header_bytes s n = u16_bytes s.id ++ u16_bytes (n % 2 ^ 16)

-- A length and padding that are written last.
pub close_framed :
    (xs front body : List ℕ) (s : Shape) (n padding at end : ℕ)
    → at ≡ length front + 2
    → end ≡ length front + 4 + length body
    → place
        (place (place xs 0 (front ++ (set_header_bytes s 0 ++ body))) at (u16_bytes (n % 2 ^ 16)))
        end
        (replicate padding 0)
      ≡ place xs 0 (front ++ (set_header_bytes s n ++ (body ++ replicate padding 0)))
close_framed xs front body s n padding at end e e' =
    let before = front ++ u16_bytes s.id in
    let pad : List ℕ = replicate padding 0 in
    let patched : place (place xs 0 (front ++ (set_header_bytes s 0 ++ body))) at
          (u16_bytes (n % 2 ^ 16))
        ≡ place xs 0 (front ++ (set_header_bytes s n ++ body)) =
      ap₂ (λ b at. place (place xs 0 b) at (u16_bytes (n % 2 ^ 16)))
        (sym (append_assoc front (u16_bytes s.id) (u16_bytes 0 ++ body)))
        (e ∙ sym (length-append front (u16_bytes s.id)))
      ∙ place_over xs before (u16_bytes 0) (u16_bytes (n % 2 ^ 16)) body refl
      ∙ ap (place xs 0) (append_assoc front (u16_bytes s.id) (u16_bytes (n % 2 ^ 16) ++ body)) in
    ap (λ b. place b end pad) patched
    ∙ place_behind xs 0 end (front ++ (set_header_bytes s n ++ body)) pad
        (omega (arith, e', length-append front (set_header_bytes s n ++ body)))
    ∙ ap (place xs 0) (append_assoc front (set_header_bytes s n ++ body) pad)

-- What a set takes up behind the header of the message.
pub framed_size :
    (s : Shape) (m k : ℕ) (set : DataSetSize)
    → same_protocol s.protocol v5 ≡ false
    → k ≢ 0
    → data_set_size_for_encoded s m k ≡ ok set
    → set.length ≡ 4 + m + set.padding
framed_size s m k set not_v5 some_records h =
    ((data_set_size_for_encoded-Sized s m k h).framed some_records not_v5).adds_up

-- The descriptors of a shape are of the protocol that the shape is of.
pub Sound-fields :
    (p : Protocol) (s : Shape)
    → same_protocol s.protocol p ≡ true
    → validate_shape s ≡ ok tt
    → All (Sound p) s.fields
Sound-fields p s same h = each s.fields (validate_shape-Sound s h)
  where
    through : (q : Protocol) → same_protocol q s.protocol ≡ true → same_protocol q p ≡ true
    through q e = ground arith

    each : (ds : List FieldDescriptor) → All (Sound s.protocol) ds → All (Sound p) ds
    each [] h = tt
    each (d ∷ ds) h = ((h.0.0, through d.protocol h.0.1), each ds h.1)
