-- ===== src/Wire/Stream/Slice.antt =====
-- The message that Write leaves in the buffer.
use otelcol_exporter_netflow.Common.{
  ℕ, ◌+◌, ◌≤◌, ◌≡◌, refl, ap, true, List, [], ◌∷◌, ◌++◌, length, replicate, All, take, drop,
  length-append, length-replicate, ltb, arith, ◌∙◌,
}
use otelcol_exporter_netflow.Common.Result.{Result, ok, err, ◌>>=◌, reject_if, >>=-eq-ok}
use otelcol_exporter_netflow.Wire.Model.{
  HeaderMetadata, WireRecord, same_protocol, ContractError, bounds, default_max_records,
}
use otelcol_exporter_netflow.Wire.Descriptors.{checked_add}
use otelcol_exporter_netflow.Wire.Shapes.{Shape, validate_shape}
use otelcol_exporter_netflow.Wire.Sizes.{
  PacketRequest, DataSetSize, record_size, trusted_record_size, records_bytes_from,
  trusted_data_set_size, data_set_size_for_encoded, or_bounds,
}
use otelcol_exporter_netflow.Wire.Sizes.Padding.{data_set_size_for_encoded-Sized}
use otelcol_exporter_netflow.Wire.Preflight.{preflight}
use otelcol_exporter_netflow.Wire.Preflight.Safety.{preflight-Fits}
use otelcol_exporter_netflow.Wire.Cursor.{Put, place, new}
use otelcol_exporter_netflow.Wire.Cursor.Place.{place_window_at, length-window}
use otelcol_exporter_netflow.Wire.Cursor.Writes.{Writes, Writes-new}
use otelcol_exporter_netflow.Wire.Stream.{Format, guarded, write}
use otelcol_exporter_netflow.Wire.Stream.Layout.{
  Layout, Implements, message, Taken, data_bytes, records_bytes, header_bytes,
}

-- A call that returns no error passed its checks.
pub guarded-eq-ok {ℓ κ μ} :
    {A : Type ℓ} {B : Type κ} {C : Type μ} (checks : Result ContractError B) (s : A)
    (next : B → A × Result ContractError C) (c : C)
    → (guarded checks s next).1 ≡ ok c
    → (b : B) × (checks ≡ ok b) × (guarded checks s next ≡ next b) × ((next b).1 ≡ ok c)
guarded-eq-ok (ok b) s next c h = (b, refl, refl, h)
guarded-eq-ok (err e) s next c h = cc

number : Result ContractError ℕ → ℕ
number (ok n) = n
number (err e) = 0

pub write-eq-ok :
    (f : Format) (dst : List ℕ) (req : PacketRequest) (n : ℕ)
    → (write f dst req).1 ≡ ok n
    → (preflight (length dst) req ≡ ok n)
      × (f.validate req ≡ ok tt)
      × ((write f dst req).0 ≡ place dst 0 (f.write_message req n (new (take n dst))).buf)
unfolding write number
write-eq-ok f dst req n h =
    let (k, passed, out, last) = guarded-eq-ok (preflight (length dst) req >>= _) dst _ n h in
    let (m, fits, rest) = >>=-eq-ok (preflight (length dst) req) _ passed in
    let (_, valid, same) = >>=-eq-ok (f.validate req) _ rest in
    let e : m ≡ n = ap number (same ∙ last) in
    (
      fits ∙ ap ok e,
      valid,
      ap (λ x. x.0) out
          ∙ ap (λ k. place dst 0 (f.write_message req k (new (take k dst))).buf) (ap number last),
    )

pub trusted_data_set_size-ok :
    (s : Shape) (rs : List WireRecord) (set : DataSetSize)
    → trusted_data_set_size s rs ≡ ok set
    → (m : ℕ) × (records_bytes_from s 0 rs ≡ ok m)
      × (data_set_size_for_encoded s m (length rs) ≡ ok set)
unfolding trusted_data_set_size
trusted_data_set_size-ok s rs set h =
    let (_, _, h1) = >>=-eq-ok (reject_if (ltb default_max_records (length rs)) bounds) _ h in
    >>=-eq-ok (records_bytes_from s 0 rs) _ h1

-- Copying into a window of a slice is copying into the slice.
pub Writes-window :
    {f : Put} {bytes : List ℕ}
    → Writes f bytes
    → (dst : List ℕ) (i n : ℕ) → length bytes ≤ n
    → i + n ≤ length dst
    → place dst i (f (new (take n (drop i dst)))).buf ≡ place dst i bytes
Writes-window {f} {bytes} w dst i n small room =
    ap (place dst i)
      (Writes-new w (take n (drop i dst)) (omega (arith, small, length-window dst i n room)))
    ∙ place_window_at dst i n bytes small

module _ {f : Format} {l : Layout} (i : Implements f l) where
  or_bounds-ok : (a b m : ℕ) → or_bounds (checked_add a b) ≡ ok m → m ≡ a + b
  unfolding checked_add
  or_bounds-ok a b m h = ground arith

  -- The bytes of the records are as many as their sizes add up to.
  pub length-records_bytes :
      (h : HeaderMetadata) (s : Shape) (rs : List WireRecord) (total m : ℕ)
      → validate_shape s ≡ ok tt
      → same_protocol s.protocol f.protocol ≡ true
      → f.validate_shape s ≡ ok tt
      → All (Taken f h s) rs
      → records_bytes_from s total rs ≡ ok m
      → total + length (records_bytes l h s rs) ≡ m
  unfolding records_bytes_from record_size
  length-records_bytes h s [] total m valid same shape taken e =
      let e' : total ≡ m = ground arith in omega arith
  length-records_bytes h s (r ∷ rs) total m valid same shape taken e =
      let (n, sized, e1) = >>=-eq-ok (trusted_record_size s r) _ e in
      let (total', sum, e2) = >>=-eq-ok (or_bounds (checked_add total n)) _ e1 in
      let one = i.record_size h s r n same shape (rw valid sized) taken.0 in
      let rest = length-records_bytes h s rs total' m valid same shape taken.1 e2 in
      omega (
        arith,
        one,
        rest,
        or_bounds-ok total n total' sum,
        length-append (l.record_bytes h s r) (records_bytes l h s rs),
      )

  pub length-header_bytes :
      (h : HeaderMetadata) (word : ℕ) → length (header_bytes l h word) ≡ f.header_length
  length-header_bytes h word = omega (arith, i.header_size h)

  length-data_bytes :
      (h : HeaderMetadata) (s : Shape) (rs : List WireRecord) (set : DataSetSize)
      → validate_shape s ≡ ok tt
      → same_protocol s.protocol f.protocol ≡ true
      → f.validate_shape s ≡ ok tt
      → All (Taken f h s) rs
      → trusted_data_set_size s rs ≡ ok set
      → length (data_bytes l h s rs set) ≡ set.length
  length-data_bytes h s [] set valid same shape taken e =
      let (m, sum, sized) = trusted_data_set_size-ok s [] set e in
      omega (arith, ap (λ d. d.length) ((data_set_size_for_encoded-Sized s m 0 sized).empty refl))
  length-data_bytes h s (r ∷ rs) set valid same shape taken e =
      let (m, sum, sized) = trusted_data_set_size-ok s (r ∷ rs) set e in
      let records = records_bytes l h s (r ∷ rs) in
      omega (
        arith,
        i.set_size s m (length (r ∷ rs)) set same (λ z. absurd (omega (arith, z))) sized,
        i.set_header_size s set.length,
        length-records_bytes h s (r ∷ rs) 0 m valid same shape taken sum,
        length-append (l.set_header s set.length) (records ++ replicate set.padding 0),
        length-append records (replicate set.padding 0),
        length-replicate {A = ℕ} set.padding 0,
      )

-- What Write leaves in the buffer: the message of the request over its first bytes, all of whose
-- bytes are there.
pub record Written (f : Format) (l : Layout) (dst : List ℕ) (req : PacketRequest) (n : ℕ)
    : Type 0 where
  pub set : DataSetSize
  pub sized : trusted_data_set_size req.shape req.records ≡ ok set
  pub bytes :
      (write f dst req).0
      ≡ place dst 0
          (message l req (f.header_word (length req.records + req.template_records) n) set)
  pub exact :
      length (message l req (f.header_word (length req.records + req.template_records) n) set) ≡ n
  pub room : n ≤ length dst

pub write-Written :
    {f : Format} {l : Layout} (i : Implements f l) (dst : List ℕ) (req : PacketRequest) (n : ℕ)
    → same_protocol req.shape.protocol f.protocol ≡ true
    → (write f dst req).1 ≡ ok n
    → Written f l dst req n
write-Written {f} {l} i dst req n same h =
    let (fits, valid, out) = write-eq-ok f dst req n h in
    let limits = preflight-Fits (length dst) req n fits in
    let word = f.header_word (length req.records + req.template_records) n in
    let (shape, taken) = i.validate_parts req same valid in
    let payload = data_bytes l req.header req.shape req.records limits.set in
    let exact : length (message l req word limits.set) ≡ n = omega (
      arith,
      limits.exact,
      length-data_bytes i req.header req.shape req.records limits.set limits.shape same shape taken
          limits.sized,
      i.templates_size (length dst) req n same fits valid,
      length-append (header_bytes l req.header word) (l.templates req ++ payload),
      length-append (l.templates req) payload,
      length-header_bytes i req.header word,
    ) in
    record {
      set = limits.set;
      sized = limits.sized;
      bytes =
          out
          ∙ Writes-window
              (i.message_puts (length dst) req n limits.set same fits limits.sized valid) dst 0 n
              (omega (arith, exact)) (omega (arith, limits.buffer));
      exact = exact;
      room = limits.buffer;
    }
