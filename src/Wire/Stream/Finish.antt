-- ===== src/Wire/Stream/Finish.antt =====
-- The message that a streamed packet leaves in the buffer.
use otelcol_exporter_netflow.Common.{
  ℕ, ◌+◌, ◌%◌, ◌^◌, ◌≤◌, ◌≡◌, ◌≢◌, refl, ap, subst, sym, ◌∙◌, false, List, [], ◌∷◌, ◌++◌, length,
  replicate, ltb, ◌==◌, arith,
}
use mathlib.Core.List.{append-nil, append_assoc}
use otelcol_exporter_netflow.Common.Result.{Result, ok, reject_if, >>=-eq-ok, reject_if-eq-ok}
use otelcol_exporter_netflow.Common.BigEndian.{u16_bytes}
use otelcol_exporter_netflow.Wire.Model.{
  HeaderMetadata, WireRecord, ContractError, short_buffer, packet_empty,
}
use otelcol_exporter_netflow.Wire.Shapes.{Shape}
use otelcol_exporter_netflow.Wire.Sizes.{
  DataSetSize, data_set_size_for_encoded, validate_payload_length,
}
use otelcol_exporter_netflow.Wire.Sizes.Padding.{data_set_size_for_encoded-Sized}
use otelcol_exporter_netflow.Wire.Preflight.{DataPacketRequest}
use otelcol_exporter_netflow.Wire.Cursor.{place}
use otelcol_exporter_netflow.Wire.Cursor.Place.{place_over, length-place}
use otelcol_exporter_netflow.Wire.Stream.{
  Format, DataPacket, append, finish, admit_finish, finished, require_active,
}
use otelcol_exporter_netflow.Wire.Stream.Layout.{
  Layout, Implements, header_bytes, records_bytes, data_bytes,
}
use otelcol_exporter_netflow.Wire.Stream.Slice.{
  guarded-eq-ok, length-records_bytes, length-header_bytes,
}
use otelcol_exporter_netflow.Wire.Stream.Packet.{
  Begun, Filled, active, front, append_each, on_ok-eq-ok, append-Filled, number, enough,
}

-- What the checks of Finish establish.
record Closing (f : Format) (p : DataPacket) (set : DataSetSize) : Type 0 where
  pub some_records : p.records ≢ 0
  pub sized : data_set_size_for_encoded p.shape p.record_bytes p.records ≡ ok set
  pub payload : validate_payload_length ((f.header_length + set.length) % 2 ^ 64) p.budget ≡ ok tt
  pub room : (f.header_length + set.length) % 2 ^ 64 ≤ length p.dst

admit_finish-Closing :
    (f : Format) (p : DataPacket) (set : DataSetSize) → admit_finish f p ≡ ok set → Closing f p set
unfolding admit_finish
admit_finish-Closing f p set h =
    let (_, _, h1) = >>=-eq-ok (require_active p) _ h in
    let (_, filled, h2) = >>=-eq-ok (reject_if (p.records == 0) packet_empty) _ h1 in
    let (set', sized, h3) =
      >>=-eq-ok (data_set_size_for_encoded p.shape p.record_bytes p.records) _ h2 in
    let total : ℕ = (f.header_length + set'.length) % 2 ^ 64 in
    let (_, payload, h4) = >>=-eq-ok (validate_payload_length total p.budget) _ h3 in
    let (_, short, h5) = >>=-eq-ok (reject_if (ltb (length p.dst) total) short_buffer) _ h4 in
    subst (Closing f p) (same_set set' set h5) (record {
      some_records = nonzero p.records (reject_if-eq-ok _ _ filled);
      sized = sized;
      payload = payload;
      room = enough _ _ _ short;
    })
  where
    nonzero : (k : ℕ) → (k == 0) ≡ false → k ≢ 0
    nonzero k h = ground arith

    same_set :
        (a b : DataSetSize) → ◌≡◌ {A = Result ContractError DataSetSize} (ok a) (ok b) → a ≡ b
    same_set a b h = cc

-- What Finish leaves in the buffer of a packet that holds the records: a message of the length that
-- it returns.
pub record Finished (f : Format) (l : Layout) (dst : List ℕ) (r : DataPacketRequest)
    (rs : List WireRecord) (m n : ℕ) (out : DataPacket) : Type 0 where
  pub some_records : length rs ≢ 0
  pub set : DataSetSize
  pub sized : data_set_size_for_encoded r.shape m (length rs) ≡ ok set
  pub total : n ≡ f.header_length + set.length
  pub payload : validate_payload_length n r.max_datagram_bytes ≡ ok tt
  pub room : n ≤ length dst
  pub bytes :
      out.dst
      ≡ place dst 0 (
          header_bytes l r.header (f.header_word (length rs) n)
          ++ data_bytes l r.header r.shape rs set)

module _ {f : Format} {l : Layout} (i : Implements f l) where
  pub append_each-Filled :
      (dst : List ℕ) (r : DataPacketRequest) (limit : ℕ) (rs : List WireRecord) (m : ℕ)
      (more : List WireRecord)
      → Begun f dst r limit
      → Filled f dst r limit rs m
      → (append_each f more (active l dst r limit rs m)).1 ≡ ok tt
      → (n : ℕ) × Filled f dst r limit (rs ++ more) n
        × ((append_each f more (active l dst r limit rs m)).0 ≡ active l dst r limit (rs ++ more) n)
  unfolding append_each
  append_each-Filled dst r limit rs m [] begun filled h =
      (m, rw (append-nil rs) filled, rw (append-nil rs) refl)
  append_each-Filled dst r limit rs m (x ∷ xs) begun filled h =
      let p = active l dst r limit rs m in
      let (_, first, both) = on_ok-eq-ok (append f x p) (append_each f xs) tt h in
      let (k, filled', out) = append-Filled i dst r limit rs m x begun filled first in
      let p' = active l dst r limit (rs ++ (x ∷ [])) (m + k) in
      let step : append_each f (x ∷ xs) p ≡ append_each f xs p' =
        both ∙ ap (append_each f xs) out in
      let (n, filled'', out') =
        append_each-Filled dst r limit (rs ++ (x ∷ [])) (m + k) xs begun filled'
          (sym (ap (λ o. o.1) step) ∙ h) in
      let join : (rs ++ (x ∷ [])) ++ xs ≡ rs ++ (x ∷ xs) = append_assoc rs (x ∷ []) xs in
      (
        n,
        subst (λ xs. Filled f dst r limit xs n) join filled'',
        ap (λ o. o.0) step ∙ out' ∙ ap (λ xs. active l dst r limit xs n) join,
      )

  pub data_bytes_of_some :
      (h : HeaderMetadata) (s : Shape) (rs : List WireRecord) (set : DataSetSize)
      → length rs ≢ 0
      → l.set_header s set.length ++ (records_bytes l h s rs ++ replicate set.padding 0)
        ≡ data_bytes l h s rs set
  data_bytes_of_some h s [] set some_records = absurd (some_records refl)
  data_bytes_of_some h s (r ∷ rs) set some_records = refl

  -- What Finish makes of a packet that holds the records.
  pub finish-Finished :
      (dst : List ℕ) (r : DataPacketRequest) (limit : ℕ) (rs : List WireRecord) (m n : ℕ)
      → Begun f dst r limit
      → Filled f dst r limit rs m
      → (finish f (active l dst r limit rs m)).1 ≡ ok n
      → Finished f l dst r rs m n (finish f (active l dst r limit rs m)).0
  unfolding finish finished number
  finish-Finished dst r limit rs m n begun filled h =
      let p = active l dst r limit rs m in
      let (set, checks, out, last) = guarded-eq-ok (admit_finish f p) p _ n h in
      let c = admit_finish-Closing f p set checks in
      let sized = data_set_size_for_encoded-Sized r.shape m _ c.sized in
      let wrapped : ℕ = (f.header_length + set.length) % 2 ^ 64 in
      let total : wrapped ≡ f.header_length + set.length =
        omega (arith, i.header_small, sized.fits) in
      let same : wrapped ≡ n = ap number last in
      let word = f.header_word (length rs) wrapped in
      let body = records_bytes l r.header r.shape rs in
      let rest = l.set_header r.shape 0 ++ body in
      let count : place p.dst 2 (u16_bytes word)
          ≡ place dst 0 (header_bytes l r.header word ++ rest) =
        place_over dst (u16_bytes l.version) (u16_bytes 0) (u16_bytes word)
          (l.header_rest r.header ++ rest) refl in
      let e : length body ≡ m = omega (
        arith,
        length-records_bytes i r.header r.shape rs 0 m begun.request.shape begun.protocol
            begun.shape filled.taken filled.sum,
      ) in
      let closed : f.close_set (f.data_offset + m) set
            (place dst 0 (header_bytes l r.header word ++ rest))
          ≡ place dst 0 (
              header_bytes l r.header word
              ++ (l.set_header r.shape set.length ++ (body ++ replicate set.padding 0))) =
        rw (← e) (
          i.close dst (header_bytes l r.header word) body r.shape (length rs) set begun.protocol
            c.some_records (rw e c.sized) (length-header_bytes i r.header word)) in
      subst (λ n. Finished f l dst r rs m n (finish f p).0) same
        (record {
          some_records = c.some_records;
          set = set;
          sized = c.sized;
          total = total;
          payload = c.payload;
          room = omega (arith, c.room, length-place dst 0 (front l dst r limit rs));
          bytes =
              ap (λ o. o.0.dst) out
              ∙ ap (f.close_set (f.data_offset + m) set) count
              ∙ closed
              ∙ ap (λ b. place dst 0 (header_bytes l r.header word ++ b))
                  (data_bytes_of_some r.header r.shape rs set c.some_records);
        })
