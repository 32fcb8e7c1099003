-- ===== src/Wire/Stream/Packet.antt =====
-- A packet that is streamed record by record.
use otelcol_exporter_netflow.Common.{
  ℕ, ◌+◌, ◌-◌, ◌%◌, ◌^◌, ◌≤◌, ◌<◌, ◌≡◌, ◌≢◌, refl, ap, subst, sym, ◌∙◌, Bool, true, false, not,
  ◌&&◌, List, [], ◌∷◌, ◌++◌, length, All, All-append, length-append, ltb, leb, ◌==◌, if◌then◌else◌,
  arith,
}
use mathlib.Core.Path.{ap₂}
use mathlib.Core.List.{append-nil, append_assoc}
use otelcol_exporter_netflow.Common.Result.{
  Result, ok, err, ◌>>◌, reject_if, >>=-eq-ok, reject_if-eq-ok,
}
use otelcol_exporter_netflow.Wire.Model.{
  WireRecord, ContractError, same_protocol, bounds, short_buffer, invalid_shape, invalid_header, v5,
}
use otelcol_exporter_netflow.Wire.Shapes.{validate_shape}
use otelcol_exporter_netflow.Wire.Sizes.{
  DataSetSize, record_size, records_bytes_from, data_set_size_for_encoded, validate_payload_length,
  validate_header,
}
use otelcol_exporter_netflow.Wire.Sizes.Sums.{sum_snoc}
use otelcol_exporter_netflow.Wire.Sizes.Padding.{data_set_size_for_encoded-Sized}
use otelcol_exporter_netflow.Wire.Preflight.{DataPacketRequest, validate_data_packet_request}
use otelcol_exporter_netflow.Wire.Cursor.{place}
use otelcol_exporter_netflow.Wire.Cursor.Place.{place_behind, length-place}
use otelcol_exporter_netflow.Wire.Cursor.Writes.{bytes_of_each}
use otelcol_exporter_netflow.Wire.Stream.{
  Format, DataPacket, begin, append, admit_begin, admit_record, opened, appended, require_active,
}
use otelcol_exporter_netflow.Wire.Stream.Layout.{
  Layout, Implements, Taken, header_bytes, records_bytes,
}
use otelcol_exporter_netflow.Wire.Stream.Slice.{
  guarded-eq-ok, Writes-window, length-records_bytes, length-header_bytes,
}

-- The next call, on the packet that the first one leaves if it returned no error.
abbrev pub on_ok {ℓ κ μ} :
    {A : Type ℓ} {B : Type κ} {C : Type μ}
    → A × Result ContractError B
    → (A → A × Result ContractError C)
    → A × Result ContractError C
on_ok (s, ok b) next = next s
on_ok (s, err e) next = (s, err e)

pub on_ok-eq-ok {ℓ κ μ} :
    {A : Type ℓ} {B : Type κ} {C : Type μ} (first : A × Result ContractError B)
    (next : A → A × Result ContractError C) (c : C)
    → (on_ok first next).1 ≡ ok c
    → (b : B) × (first.1 ≡ ok b) × (on_ok first next ≡ next first.0)
on_ok-eq-ok (s, ok b) next c h = (b, refl, refl)
on_ok-eq-ok (s, err e) next c h = cc

-- Appends of records in turn, up to the first that is refused.
unfoldable pub append_each :
    Format → List WireRecord → DataPacket → DataPacket × Result ContractError (Unit {0})
append_each f [] p = (p, ok tt)
append_each f (r ∷ rs) p = on_ok (append f r p) (append_each f rs)

-- The packet in a buffer, with so many records of so many bytes.
abbrev pub with_records : List ℕ → DataPacketRequest → ℕ → ℕ → ℕ → DataPacket
with_records buf r limit k m = record {
  dst = buf;
  header = r.header;
  shape = r.shape;
  budget = r.max_datagram_bytes;
  record_cap = limit;
  records = k;
  record_bytes = m;
  begun = true;
  done = false;
}

module _ (l : Layout) (dst : List ℕ) (r : DataPacketRequest) (limit : ℕ) where
  -- The bytes of an unfinished packet.
  abbrev pub front : List WireRecord → List ℕ
  front rs =
      header_bytes l r.header 0 ++ (l.set_header r.shape 0 ++ records_bytes l r.header r.shape rs)

  -- The packet that these records make.
  abbrev pub active : List WireRecord → ℕ → DataPacket
  active rs m = with_records (place dst 0 (front rs)) r limit (length rs) m

-- What DataPacketRequest.Validate establishes.
pub record IsRequest (r : DataPacketRequest) (limit : ℕ) : Type 0 where
  pub header : validate_header r.header ≡ ok tt
  pub shape : validate_shape r.shape ≡ ok tt
  pub agree : same_protocol r.shape.protocol r.header.protocol ≡ true
  pub few : limit ≤ 65535
  pub few_v5 : same_protocol r.shape.protocol v5 ≡ true → limit ≤ 30

-- What is known of a request that Begin takes.
pub record Begun (f : Format) (dst : List ℕ) (r : DataPacketRequest) (limit : ℕ) : Type 0 where
  pub request : IsRequest r limit
  pub protocol : same_protocol r.shape.protocol f.protocol ≡ true
  pub header : f.validate_header r.header ≡ ok tt
  pub shape : f.validate_shape r.shape ≡ ok tt
  pub room : f.data_offset ≤ length dst

pub passed : (b : Bool) (e : ContractError) {u : Unit {0}} → reject_if (not b) e ≡ ok u → b ≡ true
passed true e h = refl
passed false e h = cc

pub enough : (a b : ℕ) (e : ContractError) {u : Unit {0}} → reject_if (ltb a b) e ≡ ok u → b ≤ a
enough a b e h = at_most a b (reject_if-eq-ok _ _ h)
  where
    at_most : (a b : ℕ) → ltb a b ≡ false → b ≤ a
    at_most a b h = ground arith

cap_limit :
    (cap : Bool) (max limit : ℕ)
    → (let top : ℕ = if cap then 30 else 65535 in
        if max == 0 then ok top else (do reject_if (ltb top max) bounds; ok max))
      ≡ ok limit
    → (limit ≤ 65535) × (cap ≡ true → limit ≤ 30)
cap_limit true max limit h = ground arith
cap_limit false max limit h = ground arith

validate_data_packet_request-IsRequest :
    (r : DataPacketRequest) (limit : ℕ)
    → validate_data_packet_request r ≡ ok limit
    → IsRequest r limit
unfolding validate_data_packet_request
validate_data_packet_request-IsRequest r limit h =
    let (_, header, h1) = >>=-eq-ok (validate_header r.header) _ h in
    let (_, shape, h2) = >>=-eq-ok (validate_shape r.shape) _ h1 in
    let (_, agree, h3) =
      >>=-eq-ok (reject_if (not (same_protocol r.shape.protocol r.header.protocol)) invalid_shape) _
        h2 in
    let (_, _, h4) = >>=-eq-ok (reject_if (not (r.header.count == 0)) invalid_header) _ h3 in
    let (_, _, h5) = >>=-eq-ok (validate_payload_length 0 r.max_datagram_bytes) _ h4 in
    let caps = cap_limit (same_protocol r.shape.protocol v5) r.max_records limit h5 in
    record {
      header = header;
      shape = shape;
      agree = passed _ _ agree;
      few = caps.0;
      few_v5 = caps.1;
    }

unfoldable pub number : Result ContractError ℕ → ℕ
number (ok n) = n
number (err e) = 0

admit_begin-Begun :
    (f : Format) (dst : List ℕ) (r : DataPacketRequest) (limit : ℕ)
    → admit_begin f dst r ≡ ok limit
    → Begun f dst r limit
unfolding admit_begin number
admit_begin-Begun f dst r limit h =
    let (k, request, h1) = >>=-eq-ok (validate_data_packet_request r) _ h in
    let (_, protocol, h2) =
      >>=-eq-ok (reject_if (not (same_protocol r.shape.protocol f.protocol)) invalid_shape) _ h1 in
    let (_, header, h3) = >>=-eq-ok (f.validate_header r.header) _ h2 in
    let (_, shape, h4) = >>=-eq-ok (f.validate_shape r.shape) _ h3 in
    let (_, _, h5) = >>=-eq-ok (validate_payload_length f.data_offset r.max_datagram_bytes) _ h4 in
    let (_, short, h6) = >>=-eq-ok (reject_if (ltb (length dst) f.data_offset) short_buffer) _ h5 in
    record {
      request = validate_data_packet_request-IsRequest r limit (request ∙ ap ok (ap number h6));
      protocol = passed _ _ protocol;
      header = header;
      shape = shape;
      room = enough _ _ _ short;
    }

-- What the checks of Append establish.
record Admitted (f : Format) (p : DataPacket) (one : WireRecord) (n : ℕ) : Type 0 where
  pub below_cap : p.records < p.record_cap
  pub sized : record_size p.shape one ≡ ok n
  pub taken : Taken f p.header p.shape one
  pub no_wrap : n ≤ 2 ^ 64 - 1 - p.record_bytes
  pub set : DataSetSize
  pub set_sized :
      data_set_size_for_encoded p.shape (p.record_bytes + n) ((p.records + 1) % 2 ^ 64) ≡ ok set
  pub room : (f.header_length + set.length) % 2 ^ 64 ≤ length p.dst

admit_record-Admitted :
    (f : Format) (p : DataPacket) (one : WireRecord) (n : ℕ)
    → admit_record f p one ≡ ok n
    → Admitted f p one n
unfolding admit_record number
admit_record-Admitted f p one n h =
    let (_, _, h1) = >>=-eq-ok (require_active p) _ h in
    let (_, cap, h2) = >>=-eq-ok (reject_if (leb p.record_cap p.records) bounds) _ h1 in
    let (k, sized, h3) = >>=-eq-ok (record_size p.shape one) _ h2 in
    let (_, taken, h4) = >>=-eq-ok (f.validate_record p.header p.shape one) _ h3 in
    let (_, wrap, h5) = >>=-eq-ok (reject_if (ltb (2 ^ 64 - 1 - p.record_bytes) k) bounds) _ h4 in
    let (set, set_sized, h6) =
      >>=-eq-ok (data_set_size_for_encoded p.shape (p.record_bytes + k) ((p.records + 1) % 2 ^ 64))
        _ h5 in
    let total : ℕ = (f.header_length + set.length) % 2 ^ 64 in
    let (_, _, h7) =
      >>=-eq-ok (reject_if (f.tests_wrap && ltb total f.header_length) bounds) _ h6 in
    let (_, _, h8) = >>=-eq-ok (validate_payload_length total p.budget) _ h7 in
    let (_, short, h9) = >>=-eq-ok (reject_if (ltb (length p.dst) total) short_buffer) _ h8 in
    let e : k ≡ n = ap number h9 in
    subst (Admitted f p one) e (record {
      below_cap = below _ _ (reject_if-eq-ok _ _ cap);
      sized = sized;
      taken = taken;
      no_wrap = no_wrap_of p.record_bytes k (reject_if-eq-ok _ _ wrap);
      set = set;
      set_sized = set_sized;
      room = enough _ _ _ short;
    })
  where
    below : (a b : ℕ) → leb a b ≡ false → b < a
    below a b h = ground arith

    no_wrap_of : (a b : ℕ) → ltb (2 ^ 64 - 1 - a) b ≡ false → b ≤ 2 ^ 64 - 1 - a
    no_wrap_of a b h = ground arith

-- The records that a packet holds: their sizes, and that the writer takes them.
pub record Filled (f : Format) (dst : List ℕ) (r : DataPacketRequest) (limit : ℕ)
    (rs : List WireRecord) (m : ℕ) : Type 0 where
  pub sum : records_bytes_from r.shape 0 rs ≡ ok m
  pub taken : All (Taken f r.header r.shape) rs
  pub few : length rs ≤ limit
  pub room : f.data_offset + m ≤ length dst

module _ {f : Format} {l : Layout} (i : Implements f l) where
  -- Begin opens an empty packet.
  pub begin-Filled :
      (dst : List ℕ) (r : DataPacketRequest) (p : DataPacket)
      → (begin f dst r p).1 ≡ ok tt
      → (limit : ℕ) × Begun f dst r limit
        × Filled f dst r limit [] 0
        × ((begin f dst r p).0 ≡ active l dst r limit [] 0)
  unfolding begin opened records_bytes_from
  begin-Filled dst r p h =
      let (limit, checks, out, _) = guarded-eq-ok (admit_begin f dst r) p _ tt h in
      let begun = admit_begin-Begun f dst r limit checks in
      let head = header_bytes l r.header 0 in
      let size : length (head ++ l.set_header r.shape 0) ≡ f.data_offset = omega (
        arith,
        length-append head (l.set_header r.shape 0),
        length-header_bytes i r.header 0,
        i.set_header_size r.shape 0,
      ) in
      (
        limit,
        begun,
        record { sum = refl; taken = tt; few = omega arith; room = omega (arith, begun.room) },
        ap (λ x. x.0) out
            ∙ ap (λ buf. with_records buf r limit 0 0)
                (Writes-window (i.front_puts r.header r.shape) dst 0 f.data_offset
                    (omega (arith, size)) (omega (arith, begun.room))
                  ∙ ap (λ b. place dst 0 (head ++ b)) (sym (append-nil (l.set_header r.shape 0)))),
      )

  snoc_bytes :
      (bytes : WireRecord → List ℕ) (rs : List WireRecord) (r : WireRecord)
      → bytes_of_each bytes (rs ++ (r ∷ [])) ≡ bytes_of_each bytes rs ++ bytes r
  snoc_bytes bytes [] r = append-nil (bytes r)
  snoc_bytes bytes (x ∷ rs) r =
      ap (λ b. bytes x ++ b) (snoc_bytes bytes rs r) ∙ sym (append_assoc (bytes x) _ _)

  pub length-front :
      (dst : List ℕ) (r : DataPacketRequest) (limit : ℕ) (rs : List WireRecord) (m : ℕ)
      → Begun f dst r limit
      → Filled f dst r limit rs m
      → length (front l dst r limit rs) ≡ f.data_offset + m
  length-front dst r limit rs m begun filled =
      let body = records_bytes l r.header r.shape rs in
      omega (
        arith,
        length-append (header_bytes l r.header 0) (l.set_header r.shape 0 ++ body),
        length-append (l.set_header r.shape 0) body,
        length-header_bytes i r.header 0,
        i.set_header_size r.shape 0,
        length-records_bytes i r.header r.shape rs 0 m begun.request.shape begun.protocol
            begun.shape filled.taken filled.sum,
      )

  front_snoc :
      (dst : List ℕ) (r : DataPacketRequest) (limit : ℕ) (rs : List WireRecord) (one : WireRecord)
      → front l dst r limit rs ++ l.record_bytes r.header r.shape one
        ≡ front l dst r limit (rs ++ (one ∷ []))
  front_snoc dst r limit rs one =
      let head = header_bytes l r.header 0 in
      let set = l.set_header r.shape 0 in
      append_assoc head (set ++ records_bytes l r.header r.shape rs) _
      ∙ ap (λ b. head ++ b)
          (append_assoc set _ _
            ∙ ap (λ b. set ++ b) (sym (snoc_bytes (l.record_bytes r.header r.shape) rs one)))

  -- Append takes one more record behind the ones that the packet holds.
  pub append-Filled :
      (dst : List ℕ) (r : DataPacketRequest) (limit : ℕ) (rs : List WireRecord) (m : ℕ)
      (one : WireRecord)
      → Begun f dst r limit
      → Filled f dst r limit rs m
      → (append f one (active l dst r limit rs m)).1 ≡ ok tt
      → (n : ℕ) × Filled f dst r limit (rs ++ (one ∷ [])) (m + n)
        × ((append f one (active l dst r limit rs m)).0
            ≡ active l dst r limit (rs ++ (one ∷ [])) (m + n))
  unfolding append appended record_size
  append-Filled dst r limit rs m one begun filled h =
      let p = active l dst r limit rs m in
      let (n, checks, out, _) = guarded-eq-ok (admit_record f p one) p _ tt h in
      let a = admit_record-Admitted f p one n checks in
      let more : (length rs + 1) % 2 ^ 64 ≡ length (rs ++ (one ∷ [])) =
        omega (arith, a.below_cap, begun.request.few, length-append rs (one ∷ [])) in
      let some_records : (length rs + 1) % 2 ^ 64 ≢ 0 =
        (λ z. absurd (omega (arith, z, a.below_cap, begun.request.few))) in
      let sized = data_set_size_for_encoded-Sized r.shape (m + n) _ a.set_sized in
      let room : f.data_offset + (m + n) ≤ length dst = omega (
        arith,
        a.room,
        i.header_small,
        sized.fits,
        i.set_size r.shape (m + n) _ a.set begun.protocol some_records a.set_sized,
        length-place dst 0 (front l dst r limit rs),
      ) in
      let (_, _, trusted) = >>=-eq-ok (validate_shape r.shape) _ a.sized in
      let own = i.record_size r.header r.shape one n begun.protocol begun.shape a.sized a.taken in
      (
        n,
        record {
          sum = sum_snoc r.shape rs one 0 m n filled.sum trusted a.no_wrap;
          taken = All-append (Taken f r.header r.shape) rs (one ∷ []) filled.taken (a.taken, tt);
          few = omega (arith, a.below_cap, length-append rs (one ∷ []));
          room = room;
        },
        ap (λ x. x.0) out
            ∙ ap₂ (λ buf k. with_records buf r limit k (m + n))
                (Writes-window (i.record_puts r.header r.shape one)
                    (place dst 0 (front l dst r limit rs)) (f.data_offset + m) n
                    (omega (arith, own))
                    (omega (arith, room, length-place dst 0 (front l dst r limit rs)))
                  ∙ place_behind dst 0 (f.data_offset + m) (front l dst r limit rs) _
                      (omega (arith, length-front dst r limit rs m begun filled))
                  ∙ ap (place dst 0) (front_snoc dst r limit rs one))
                more,
      )
