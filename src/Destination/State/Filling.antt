-- ===== src/Destination/State/Filling.antt =====
-- internal/destination/write.go: what a streamed packet holds after each appended record.
use otelcol_exporter_netflow.Common.{
  ℕ, ◌+◌, ◌-◌, ◌^◌, ◌≤◌, ◌<◌, ◌≡◌, refl, ap, sym, subst, ◌∙◌, Bool, true, false, List, [], ◌∷◌,
  ◌++◌, length, length-append, Option, none, some, if◌then◌else◌, arith, ◌⊎◌, inr,
}
use otelcol_exporter_netflow.Common.Result.{Result, ok, err, >>=-eq-ok}
use otelcol_exporter_netflow.Wire.Model.{WireRecord, ContractError}
use otelcol_exporter_netflow.Wire.Shapes.{validate_shape}
use otelcol_exporter_netflow.Wire.Sizes.{
  DataSetSize, record_size, trusted_record_size, records_bytes_from, trusted_data_set_size,
  data_set_size_for_encoded, protocol_header_length,
}
use otelcol_exporter_netflow.Wire.Sizes.Padding.{data_set_size_for_encoded-Sized}
use otelcol_exporter_netflow.Wire.Sizes.Sums.{sum_snoc, trusted_data_set_size_of}
use otelcol_exporter_netflow.Destination.Error.{Error}
use otelcol_exporter_netflow.Destination.State.{State, Appender, Packet, StreamPacketState}
use otelcol_exporter_netflow.Destination.State.Stream.{
  Extended, extended, extend, append, append_to, append_checked, appended, streamed,
}
use otelcol_exporter_netflow.Destination.State.Room.{Room, extend-Room}

-- A packet with its stream.
abbrev streaming : Packet → StreamPacketState → Packet
streaming q stream = record q { stream = some stream }

trusted-record_size :
    (q : Packet) (r : WireRecord) (n : ℕ)
    → record_size q.request.shape r ≡ ok n
    → trusted_record_size q.request.shape r ≡ ok n
unfolding record_size
trusted-record_size q r n h = let (_, _, e) = >>=-eq-ok (validate_shape q.request.shape) _ h in e

module _ {A : Type 0} where
  -- The datagram of some records is the header and their data set, as Write would size it, and it
  -- keeps to the datagram budget and to the caller's buffer.
  pub record Datagram (s : State A) (pending : Packet) (stream : StreamPacketState)
      (rs : List WireRecord) : Type 0 where
    pub set : DataSetSize
    pub sized : trusted_data_set_size pending.request.shape rs ≡ ok set
    pub data_bytes : pending.request.data_bytes ≡ set.length
    pub total : pending.datagram_length ≡ protocol_header_length s.config.protocol + set.length
    pub limits :
        (pending.datagram_length ≤ s.config.max_datagram_size)
        × (pending.datagram_length ≤ stream.capacity)

  -- The pending packet of the state is a stream that holds exactly these records.
  pub record Holds (s : State A) (rs : List WireRecord) : Type 0 where
    pub pending : Packet
    pub stream : StreamPacketState
    pub is_pending : s.pending ≡ some (record pending { stream = some stream })
    pub bytes : records_bytes_from pending.request.shape 0 rs ≡ ok stream.bytes
    pub whole : stream.bytes < 2 ^ 64
    pub records : stream.records ≡ length rs
    pub few : length rs ≤ s.config.max_records_per_message
    pub datagram : (rs ≡ []) ⊎ Datagram s pending stream rs

  extended-Holds :
      (s : State A) (rs : List WireRecord) (h : Holds s rs) (a : A) (r : WireRecord) (x : Extended)
      → Room s (streaming h.pending h.stream) h.stream r x
      → Holds
          (record s {
            stream = some a;
            pending = some (extended (streaming h.pending h.stream) h.stream x);
          })
          (rs ++ (r ∷ []))
  unfolding extended
  extended-Holds s rs h a r x room =
      let one_more : length (rs ++ (r ∷ [])) ≡ x.records =
        omega (arith, length-append rs (r ∷ []), room.records.0, h.records) in
      let small : room.size ≤ 2 ^ 64 - 1 - h.stream.bytes =
        omega (arith, room.bytes.0, room.bytes.1) in
      let trusted : trusted_record_size h.pending.request.shape r ≡ ok room.size =
        trusted-record_size h.pending r room.size room.sized in
      let sum : records_bytes_from h.pending.request.shape 0 (rs ++ (r ∷ [])) ≡ ok x.bytes =
        sum_snoc h.pending.request.shape rs r 0 h.stream.bytes room.size h.bytes trusted small
        ∙ ap ok (sym room.bytes.0) in
      let sized : data_set_size_for_encoded h.pending.request.shape x.bytes
            (length (rs ++ (r ∷ [])))
          ≡ ok room.set =
        rw one_more room.set_sized in
      let few = (data_set_size_for_encoded-Sized h.pending.request.shape x.bytes _ sized).few in
      record {
        pending = extended (streaming h.pending h.stream) h.stream x;
        stream = record h.stream { bytes = x.bytes; records = x.records };
        is_pending = refl;
        bytes = sum;
        whole = room.bytes.1;
        records = sym one_more;
        few = omega (arith, one_more, room.records.1);
        datagram = inr (record {
          set = room.set;
          sized = trusted_data_set_size_of h.pending.request.shape _ x.bytes room.set few sum sized;
          data_bytes = room.data_bytes;
          total = room.total;
          limits = room.datagram;
        });
      }

module _ {A : Type 0} (api : Appender A) where
  -- What an append without an error has done.
  record Taken (s : State A) (q : Packet) (stream : StreamPacketState) (m : Result Error Extended)
      (s' : State A) : Type 0 where
    x : Extended
    accepted : m ≡ ok x
    appender : A
    state : s' ≡ record s { stream = some appender; pending = some (extended q stream x) }

  appended-Taken :
      (s s' : State A) (q : Packet) (stream : StreamPacketState) (x : Extended)
      (out : A × Option ContractError)
      → appended api s q stream x out ≡ (s', none)
      → Taken s q stream (ok x) s'
  appended-Taken s s' q stream x (a, none) h = record {
    x = x;
    accepted = refl;
    appender = a;
    state = ap (λ r. r.0) (sym h);
  }
  appended-Taken s s' q stream x (a, some e) h = cc

  append_checked-Taken :
      (s s' : State A) (q : Packet) (stream : StreamPacketState) (r : WireRecord)
      (m : Result Error Extended) (o : Option A)
      → append_checked api s q stream r m o ≡ (s', none)
      → Taken s q stream m s'
  append_checked-Taken s s' q stream r (err e) o h = cc
  append_checked-Taken s s' q stream r (ok x) none h = cc
  append_checked-Taken s s' q stream r (ok x) (some a) h =
      appended-Taken s s' q stream x (api.append a r) h

  guarded_append :
      (s s' : State A) (q : Packet) (stream : StreamPacketState) (r : WireRecord) (sampling : ℕ)
      (current : Bool)
      → append_to api s r sampling (if current then some (q, stream) else none) ≡ (s', none)
      → Taken s q stream (extend s q stream r sampling) s'
  guarded_append s s' q stream r sampling true h =
      append_checked-Taken s s' q stream r (extend s q stream r sampling) s.stream h
  guarded_append s s' q stream r sampling false h = cc

  -- If the pending packet of a state is a stream that holds some records, and a record is appended
  -- without an error, then the pending packet holds those records and the new one behind them: its
  -- bytes are the sum of their sizes, its length is that of the datagram of all of them, which is
  -- the header and the data set that Write would make of them, and the packet keeps to the limits
  -- on records, datagram and buffer.
  pub append-Holds :
      (s s' : State A) (p : Packet) (r : WireRecord) (sampling : ℕ) (rs : List WireRecord)
      → Holds s rs
      → append api s p r sampling ≡ (s', none)
      → Holds s' (rs ++ (r ∷ []))
  unfolding append
  append-Holds s s' p r sampling rs h e =
      let q : Packet = streaming h.pending h.stream in
      let taken : Taken s q h.stream (extend s q h.stream r sampling) s' =
        guarded_append s s' q h.stream r sampling _
          (ap (λ o. append_to api s r sampling (streamed s p o)) (sym h.is_pending) ∙ e) in
      subst (λ t. Holds t (rs ++ (r ∷ []))) (sym taken.state)
        (extended-Holds s rs h taken.appender r taken.x
          (extend-Room s q h.stream r sampling taken.x h.whole taken.accepted))
