-- ===== src/Destination/State/Data.antt =====
-- The reservation of a data packet.
use otelcol_exporter_netflow.Common.{
  ℕ, ◌+◌, ◌%◌, ◌^◌, ◌≤◌, ◌≡◌, refl, sym, ap, subst, ◌∙◌, Bool, true, false, not, ◌&&◌, ◌||◌, Option,
  none, some, length, ltb, ◌==◌, if◌then◌else◌, arith, if_cases,
}
use otelcol_exporter_netflow.Common.Int.{ℤ}
use otelcol_exporter_netflow.Common.Result.{
  Result, ok, err, >>=-eq-ok, reject_if, reject_if-eq-ok, lift_error,
}
use otelcol_exporter_netflow.Wire.Model.{HeaderMetadata, ContractError, v5, v9, same_protocol}
use otelcol_exporter_netflow.Wire.Sizes.{data_set_size, validate_header}
use otelcol_exporter_netflow.Destination.Error.{
  Error, transaction, template_progress, invalid_config, not_ready, refresh_required, wire,
}
use otelcol_exporter_netflow.Destination.State.{
  State, Packet, ready, mark_refresh_due, reserve_wall, header, is_some, uptime_origin, header_with,
  header_from,
}
use otelcol_exporter_netflow.Destination.State.Marks.{mark_refresh_due-same}
use otelcol_exporter_netflow.Destination.State.Steps.{checked-eq_ok, on_ok-eq_ok, not_taken}
use otelcol_exporter_netflow.Destination.State.Wall.{Reserved, reserve_wall-Reserved}
use otelcol_exporter_netflow.Destination.State.Begin.{
  DataRequest, Admitted, within_budget, checked_packet_length, shape_in, check_records,
  check_request, validate_data_request, admit_data, capture_origin, new_packet, open_packet,
  reserve, begin_packet, begin_data,
}

-- A number within a budget.
pub within_budget-eq_ok : (o : Option ℕ) (budget n : ℕ) → within_budget o budget ≡ ok n → n ≤ budget
within_budget-eq_ok none budget n h = cc
within_budget-eq_ok (some m) budget n h = ground arith

abbrev admitted_length : Result Error Admitted → ℕ
admitted_length (ok a) = a.message_bytes
admitted_length (err e) = 0

-- A header that is returned has the sequence number `n`.
abbrev Carries : ℕ → Result Error HeaderMetadata → Type 0
Carries n r = (head : HeaderMetadata) → r ≡ ok head → head.sequence ≡ n

abbrev sequence_of : Result Error HeaderMetadata → ℕ
sequence_of (ok h) = h.sequence
sequence_of (err e) = 0

not_ok : {e : Error} {h : HeaderMetadata} → err e ≡ ok h → ⊥
not_ok h = cc

validated-Carries :
    (r : Result ContractError (Unit {0})) (h : HeaderMetadata)
    → Carries h.sequence (elim r [ ok u ↦ ok h | err e ↦ err (wire e) ])
validated-Carries (ok u) h = λ head e. sym (ap sequence_of e)
validated-Carries (err e) h = λ head q. absurd (not_ok q)

abbrev packet_in : Packet → Result Error Packet → Packet
packet_in d (ok p) = p
packet_in d (err e) = d

module _ {A : Type 0} where
  admit_data-ready :
      (s s' : State A) (mono : ℕ) (u : Unit {0})
      → admit_data s mono ≡ (s', ok u)
      → (s.epoch.ready ≡ true) × (s.refresh_active ≡ false) × (s.refresh_due ≡ false) × (s' ≡ s)
  unfolding admit_data
  admit_data-ready s s' mono u h =
      let (r, h1) = not_taken (not s.epoch.ready) s _ not_ready s' u h in
      let (d, h2) =
        not_taken
          ((mark_refresh_due s mono).refresh_due || (mark_refresh_due s mono).refresh_active)
          (mark_refresh_due s mono) _ refresh_required s' u h1 in
      let same : mark_refresh_due s mono ≡ s = mark_refresh_due-same s mono (left_false _ _ d) in
      (
        was_true s.epoch.ready r,
        sym (ap (λ x. x.refresh_active) same) ∙ right_false _ _ d,
        sym (ap (λ x. x.refresh_due) same) ∙ left_false _ _ d,
        sym (ap (λ x. x.0) h2) ∙ same,
      )
    where
      was_true : (b : Bool) → not b ≡ false → b ≡ true
      was_true b e = ground arith

      left_false : (a b : Bool) → (a || b) ≡ false → a ≡ false
      left_false a b e = ground arith

      right_false : (a b : Bool) → (a || b) ≡ false → b ≡ false
      right_false a b e = ground arith

  -- What the checks of a request leave.
  abbrev Checked : State A → DataRequest → Admitted → Type 0
  Checked s request a =
      (is_some s.pending ≡ false)
      × (s.epoch.uptime_exhausted ≡ false)
      × (length request.records ≤ s.config.max_records_per_message)
      × (a.message_bytes ≤ s.config.max_datagram_size)

  check_records-ok :
      (s : State A) (t n : ℕ) (u : Unit {0})
      → check_records s t n ≡ ok u
      → (s.epoch.uptime_exhausted ≡ false) × (n ≤ s.config.max_records_per_message)
  unfolding check_records
  check_records-ok s t n u h =
      let (_, e, h1) = >>=-eq-ok (reject_if s.epoch.uptime_exhausted Error.uptime_exhausted) _ h in
      let (_, _, h2) = >>=-eq-ok (reject_if (t == 0 && n == 0) invalid_config) _ h1 in
      let (_, f, _) =
        >>=-eq-ok (reject_if (ltb s.config.max_records_per_message n) invalid_config) _ h2 in
      (reject_if-eq-ok _ _ e, at_most n _ (reject_if-eq-ok _ _ f))
    where
      at_most : (a b : ℕ) → ltb b a ≡ false → a ≤ b
      at_most a b e = ground arith

  check_request-Checked :
      (s : State A) (i : ℤ) (t : ℕ) (request : DataRequest) (a : Admitted)
      → check_request s i t request ≡ ok a
      → Checked s request a
  unfolding check_request
  check_request-Checked s i t request a h =
      let (_, free, h1) = >>=-eq-ok (reject_if (is_some s.pending) transaction) _ h in
      let (_, _, h2) = >>=-eq-ok (reject_if (ltb 1 t) template_progress) _ h1 in
      let (shape, _, h3) = >>=-eq-ok (shape_in s.catalog i) _ h2 in
      let (u, c, h4) = >>=-eq-ok (check_records s t (length request.records)) _ h3 in
      let (sampling, _, h5) = >>=-eq-ok (validate_data_request s.config.protocol request) _ h4 in
      let (set, _, h6) = >>=-eq-ok (lift_error wire (data_set_size shape request.records)) _ h5 in
      let (message, w, h7) =
        >>=-eq-ok
          (within_budget
            (checked_packet_length s.config.protocol t (if t == 0 then 0 else shape.template_bytes)
              set.length)
            s.config.max_datagram_size)
          _ h6 in
      let m : message ≡ a.message_bytes = ap admitted_length h7 in
      let (e, f) = check_records-ok s t _ u c in
      (
        reject_if-eq-ok _ _ free,
        e,
        f,
        rw m at (
            within_budget-eq_ok
              (checked_packet_length s.config.protocol t
                (if t == 0 then 0 else shape.template_bytes) set.length)
              s.config.max_datagram_size message w),
      )

  header-sequence :
      (s : State A) (t sampling : ℕ) (head : HeaderMetadata)
      → header s t sampling ≡ ok head
      → head.sequence ≡ s.epoch.sequence
  unfolding header
  header-sequence s t sampling head h =
      if_cases (Carries s.epoch.sequence)
        (same_protocol s.config.protocol v5 || same_protocol s.config.protocol v9)
        (λ _. origin_known (uptime_origin s))
        (λ _. validated-Carries (validate_header _) (header_with s t sampling 0 false)) head h
    where
      origin_known : (o : Option ℕ) → Carries s.epoch.sequence (header_from s t sampling o)
      origin_known none = λ head h. absurd (not_ok h)
      origin_known (some origin) =
          validated-Carries (validate_header _) (header_with s t sampling origin true)

  -- The state behind a reservation of data: the reserved wall, the token and the packet are new.
  abbrev pub opened : State A → Packet → State A
  opened s p = record s {
    last_reserved_wall = p.logical_instant;
    have_reserved_wall = true;
    next_token = (s.next_token + 1) % 2 ^ 64;
    pending = some p;
  }

  -- What a reservation of data guarantees.
  pub record Opened (s : State A) (wall : ℕ) (i : ℤ) (request : DataRequest) (s' : State A)
      (p : Packet) : Type 0 where
    pub was_ready : ready s ≡ true
    pub free : is_some s.pending ≡ false
    pub behind : s' ≡ opened s p
    pub sequence : p.request.header.sequence ≡ s.epoch.sequence
    pub datagram : p.datagram_length ≤ s.config.max_datagram_size
    pub few : length request.records ≤ s.config.max_records_per_message
    pub counted : (p.data_records ≡ length request.records) × (p.template_records ≡ 0)
    pub forward :
        (wall ≤ p.logical_instant)
        × (s.have_reserved_wall ≡ true → s.last_reserved_wall ≤ p.logical_instant)
    -- The packet is the one that the fields describe, with the values to roll back to.
    pub made :
        (a : Admitted) × (head : HeaderMetadata) × (p
          ≡ new_packet s
              (record s { last_reserved_wall = p.logical_instant; have_reserved_wall = true })
              a
              head
              i
              0
              request.records
              p.monotonic_nanos
              p.logical_instant)

  module _ (s s' walled : State A) (a : Admitted) (head : HeaderMetadata) (wall mono t : ℕ) (i : ℤ)
      (request : DataRequest) (p : Packet) where
    reserved_packet : State A → Packet
    reserved_packet w = new_packet s w a head i 0 request.records mono t

    reservation : State A → State A × Result Error Packet
    reservation w = (
      record w { next_token = (w.next_token + 1) % 2 ^ 64; pending = some (reserved_packet w) },
      ok (reserved_packet w),
    )

    reservation-Opened :
        ready s ≡ true
        → Checked s request a
        → Reserved s wall t walled
        → head.sequence ≡ s.epoch.sequence
        → reservation walled ≡ (s', ok p)
        → Opened s wall i request s' p
    unfolding reservation reserved_packet new_packet
    reservation-Opened r c v q h =
        let behind = sym (ap (λ x. x.0) h) in
        let packet : p ≡ reserved_packet walled = sym (ap (λ x. packet_in p x.1) h) in
        rw (behind, packet, v.state)
          (record {
            was_ready = r;
            free = c.0;
            behind = refl;
            sequence = q;
            datagram = c.3;
            few = c.2;
            counted = (refl, refl);
            forward = v.forward;
            made = (a, head, refl);
          })

  reserve-Opened :
      (s s' : State A) (a : Admitted) (wall mono : ℕ) (i : ℤ) (request : DataRequest) (p : Packet)
      → ready s ≡ true
      → Checked s request a
      → reserve s a wall mono i 0 request.records ≡ (s', ok p)
      → Opened s wall i request s' p
  unfolding reserve capture_origin open_packet reservation reserved_packet
  reserve-Opened s s' a wall mono i request p r c h =
      let (walled, t, found, h1) = on_ok-eq_ok (reserve_wall s wall) _ s' p h in
      let v : Reserved s wall t walled = reserve_wall-Reserved s walled wall t found in
      let (head, made, h2) = checked-eq_ok walled (header walled t a.sampling_interval) _ s' p h1 in
      let q : head.sequence ≡ s.epoch.sequence =
        header-sequence walled t a.sampling_interval head made
        ∙ ap (λ x. x.epoch.sequence) v.state in
      reservation-Opened s s' walled a head wall mono t i request p r c v q h2

  -- Data is reserved only on a ready state with no pending packet, in at most the configured number
  -- of records and of bytes. The packet carries the next sequence number and an instant that does
  -- not run backwards; only the reserved wall, the token and the pending packet change.
  pub begin_data-Opened :
      (s s' : State A) (wall mono : ℕ) (i : ℤ) (request : DataRequest) (p : Packet)
      → begin_data s wall mono i request ≡ (s', ok p)
      → Opened s wall i request s' p
  unfolding begin_data begin_packet
  begin_data-Opened s s' wall mono i request p h =
      let (a, found, h1) = checked-eq_ok s (check_request s i 0 request) _ s' p h in
      let c : Checked s request a = check_request-Checked s i 0 request a found in
      let (admitted, u, gate, h2) = on_ok-eq_ok (admit_data s mono) _ s' p h1 in
      let (r, active, due, same) = admit_data-ready s admitted mono u gate in
      reserve-Opened s s' a wall mono i request p
        (unfold ready in
          all_clear s.epoch.ready s.refresh_active s.refresh_due s.epoch.uptime_exhausted r active
            due c.1)
        c (subst (λ x. reserve x a wall mono i 0 request.records ≡ (s', ok p)) same h2)
    where
      all_clear :
          (r active due exhausted : Bool)
          → r ≡ true
          → active ≡ false
          → due ≡ false
          → exhausted ≡ false
          → (r && not active && not due && not exhausted) ≡ true
      all_clear r active due exhausted e f g h = ground arith
