-- ===== src/Destination/State/Rollback.antt =====
-- Data packets that are never handed over.
use otelcol_exporter_netflow.Common.{
  ℕ, ◌+◌, ◌%◌, ◌^◌, ◌≡◌, refl, sym, ap, subst, ◌∙◌, Bool, true, false, not, ◌&&◌, ◌||◌, Option,
  none, some, List, ◌==◌, if◌then◌else◌, arith,
}
use otelcol_exporter_netflow.Common.Int.{ℤ}
use otelcol_exporter_netflow.Common.Result.{Result, ok, err}
use otelcol_exporter_netflow.Wire.Model.{HeaderMetadata, WireRecord}
use otelcol_exporter_netflow.Wire.Sizes.{PacketRequest}
use otelcol_exporter_netflow.Destination.Error.{Error, encoding}
use otelcol_exporter_netflow.Destination.State.{
  State, Packet, Appender, ready, is_some, is_current, restore_encode_reservation,
  restore_reservation_wall,
}
use otelcol_exporter_netflow.Destination.State.Begin.{DataRequest, Admitted, new_packet, begin_data}
use otelcol_exporter_netflow.Destination.State.Data.{opened, Opened, begin_data-Opened}
use otelcol_exporter_netflow.Destination.State.Commit.{abort, encode, wrote_exactly}

same_number : (n : ℕ) → (n == n) ≡ true
same_number n = ground arith

first : (r active due exhausted : Bool) → (r && active && due && exhausted) ≡ true → r ≡ true
first r active due exhausted h = ground arith

nothing : (o : Option Packet) → is_some o ≡ false → o ≡ none
nothing none h = refl
nothing (some q) h = cc

module _ {A : Type 0} where
  -- The state with one more token handed out.
  abbrev pub spent : State A → State A
  spent s = record s { next_token = (s.next_token + 1) % 2 ^ 64 }

  cleared : State A → State A
  cleared x = record x { pending = none }

  otherwise : (b : Bool) (x y : State A) → b ≡ true → (if not b then x else y) ≡ y
  otherwise b x y h = ground arith

  not_written :
      (current streaming encoded written : Bool) (x y z : State A × Result Error ℤ)
      → current ≡ true
      → streaming ≡ false
      → encoded ≡ false
      → written ≡ false
      → (if not current || streaming || encoded then x else (if not written then y else z)) ≡ y
  not_written current streaming encoded written x y z a b c d = rw (a, b, c, d) refl

  module _ (api : Appender A) (s : State A) (a : Admitted) (head : HeaderMetadata) (i : ℤ)
      (records : List WireRecord) (mono t : ℕ) where
    packet : Packet
    packet =
        new_packet s (record s { last_reserved_wall = t; have_reserved_wall = true }) a head i 0
          records mono t

    packet_restored :
        s.epoch.ready ≡ true
        → s.pending ≡ none
        → restore_encode_reservation api (opened s packet) packet ≡ spent s
    unfolding restore_encode_reservation restore_reservation_wall new_packet packet cleared
    packet_restored r e = ap cleared (otherwise s.epoch.ready _ _ r) ∙ rw e refl

    packet_current : is_current (opened s packet) packet (some packet) ≡ true
    unfolding is_current new_packet packet
    packet_current =
        rw (same_number s.self, same_number s.epoch.id, same_number ((s.next_token + 1) % 2 ^ 64))
          refl

    abort_packet :
        s.epoch.ready ≡ true
        → s.pending ≡ none
        → abort api (opened s packet) packet ≡ (spent s, none)
    unfolding abort
    abort_packet r e = rw (packet_current, packet_restored r e) refl

    unsent : (packet.stream ≡ none) × (packet.encoded ≡ false)
    unfolding packet new_packet
    unsent = (refl, refl)

    encode_packet :
        (write : ℕ → PacketRequest → ℤ × Bool) (capacity : ℕ)
        → s.epoch.ready ≡ true
        → s.pending ≡ none
        → wrote_exactly (write capacity packet.request) packet.datagram_length ≡ false
        → encode api write (opened s packet) packet capacity ≡ (spent s, err encoding)
    unfolding encode
    encode_packet write capacity r e h =
        not_written _ _ _ _ _ _ _ packet_current (ap is_some unsent.0) unsent.1 h
        ∙ ap (λ x. (x, err encoding)) (packet_restored r e)

  -- A reserved data packet that is aborted leaves the state as it was before the reservation, but for
  -- the token.
  pub abort-begin_data :
      (api : Appender A) (s s' : State A) (wall mono : ℕ) (i : ℤ) (request : DataRequest)
      (p : Packet)
      → begin_data s wall mono i request ≡ (s', ok p)
      → abort api s' p ≡ (spent s, none)
  unfolding ready packet
  abort-begin_data api s s' wall mono i request p h =
      let o : Opened s wall i request s' p = begin_data-Opened s s' wall mono i request p h in
      let (a, head, made) = o.made in
      rw o.behind (
        subst (λ q. abort api (opened s q) q ≡ (spent s, none)) (sym made)
          (abort_packet api s a head i request.records p.monotonic_nanos p.logical_instant
            (first _ _ _ _ o.was_ready) (nothing s.pending o.free)))

  -- So does one that the writer does not encode in exactly the length that was reserved.
  pub encode-begin_data :
      (api : Appender A) (write : ℕ → PacketRequest → ℤ × Bool) (s s' : State A) (wall mono : ℕ)
      (i : ℤ) (request : DataRequest) (p : Packet) (capacity : ℕ)
      → begin_data s wall mono i request ≡ (s', ok p)
      → wrote_exactly (write capacity p.request) p.datagram_length ≡ false
      → encode api write s' p capacity ≡ (spent s, err encoding)
  unfolding ready packet
  encode-begin_data api write s s' wall mono i request p capacity h k =
      let o : Opened s wall i request s' p = begin_data-Opened s s' wall mono i request p h in
      let (a, head, made) = o.made in
      rw o.behind (
        subst
          (λ q.
            wrote_exactly (write capacity q.request) q.datagram_length ≡ false
            → encode api write (opened s q) q capacity ≡ (spent s, err encoding))
          (sym made)
          (encode_packet api s a head i request.records p.monotonic_nanos p.logical_instant write
            capacity (first _ _ _ _ o.was_ready) (nothing s.pending o.free))
          k)
