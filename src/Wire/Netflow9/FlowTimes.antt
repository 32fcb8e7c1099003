-- ===== src/Wire/Netflow9/FlowTimes.antt =====
-- The flow times that the NetFlow v9 writer puts can be read back.
use otelcol_exporter_netflow.Common.{
  ℕ, zero, suc, ◌+◌, ◌*◌, ◌%◌, ◌^◌, ◌≤◌, ◌≡◌, refl, ap, sym, subst, length, ◌∙◌, true, false, not,
  ◌&&◌, none, some, List, [], ◌∷◌, get_elem?, ◌==◌, arith,
}
use otelcol_exporter_netflow.Common.BigEndian.{u32_bytes, read, read-u32_bytes}
use otelcol_exporter_netflow.Common.Result.{ok, >>=-eq-ok}
use otelcol_exporter_netflow.Wire.Field
use otelcol_exporter_netflow.Wire.Model.{Value, WireRecord, FieldDescriptor}
use otelcol_exporter_netflow.Wire.Shapes.{Shape}
use otelcol_exporter_netflow.Wire.Encode.{elapsed_milliseconds, value_at, max_uint32}
use otelcol_exporter_netflow.Wire.Netflow9.{
  Times, time_of_field, record_times, validate_record_time,
}
use otelcol_exporter_netflow.Wire.Netflow9.Emit.{is_flow_time, write_value}
use otelcol_exporter_netflow.Wire.Netflow9.Bytes.{value_bytes, Writes-write_value}
use otelcol_exporter_netflow.Wire.Cursor.{Cursor}
use otelcol_exporter_netflow.Wire.Cursor.Written.{written, written-Writes}

-- A time is its milliseconds behind the origin, which fit four bytes and are not after the uptime.
pub record IsUptime (time origin uptime : ℕ) (bytes : List ℕ) : Type 0 where
  pub read_back : origin + read bytes * 1000000 ≡ time
  pub not_later : read bytes ≤ uptime

elapsed_whole :
    (time origin : ℕ)
    → (elapsed_milliseconds time origin).1 ≡ true
    → origin + (elapsed_milliseconds time origin).0 * 1000000 ≡ time
unfolding elapsed_milliseconds
elapsed_whole time origin whole = ground arith

elapsed-IsUptime :
    (time origin uptime elapsed : ℕ)
    → origin + elapsed * 1000000 ≡ time
    → elapsed ≤ max_uint32
    → elapsed ≤ uptime
    → IsUptime time origin uptime (u32_bytes (elapsed % 2 ^ 32))
elapsed-IsUptime time origin uptime elapsed whole small early =
    let back : read (u32_bytes (elapsed % 2 ^ 32)) ≡ elapsed =
      read-u32_bytes (elapsed % 2 ^ 32) (omega arith) ∙ omega (arith, small) in
    record { read_back = omega (arith, back, whole); not_later = omega (arith, back, early) }

is_time_test :
    (d : FieldDescriptor)
    → is_flow_time d ≡ true
    → (not (d.field == Field.start) && not (d.field == Field.end)) ≡ false
is_time_test d h = ground arith

time_of_field-ok :
    (r : WireRecord) (origin uptime i : ℕ) (d : FieldDescriptor) (t t' : Times)
    → time_of_field r origin uptime i d t ≡ ok t'
    → is_flow_time d ≡ true
    → let (elapsed, whole) = elapsed_milliseconds (value_at r i).uint_value origin in
      (whole ≡ true) × (elapsed ≤ max_uint32) × (elapsed ≤ uptime)
unfolding time_of_field
time_of_field-ok r origin uptime i d t t' h flow =
    let test = is_time_test d flow in (ground arith, ground arith, ground arith)

record_times-IsUptime :
    (r : WireRecord) (origin uptime i j : ℕ) (d : FieldDescriptor) (ds : List FieldDescriptor)
    (t t' : Times)
    → record_times r origin uptime i ds t ≡ ok t'
    → get_elem? ds j ≡ some d
    → is_flow_time d ≡ true
    → IsUptime
        (value_at r (i + j)).uint_value
        origin
        uptime
        (value_bytes origin d (value_at r (i + j)))
unfolding record_times value_bytes
record_times-IsUptime r origin uptime i j d [] t t' h at flow = cc
record_times-IsUptime r origin uptime i zero d (x ∷ ds) t t' h at flow =
    let (t1, here, _) = >>=-eq-ok (time_of_field r origin uptime i x t) _ h in
    let same : x ≡ d = cc in
    let flow' : is_flow_time x ≡ true = ap is_flow_time same ∙ flow in
    let (whole, small, early) = time_of_field-ok r origin uptime i x t t1 here flow' in
    let v = (value_at r i).uint_value in
    let shift : i ≡ i + 0 = omega arith in
    subst
      (λ k. IsUptime (value_at r k).uint_value origin uptime (value_bytes origin d (value_at r k)))
      shift
      (rw flow (
        elapsed-IsUptime v origin uptime (elapsed_milliseconds v origin).0
          (elapsed_whole v origin whole) small early))
record_times-IsUptime r origin uptime i (suc j) d (x ∷ ds) t t' h at flow =
    let (t1, _, rest) = >>=-eq-ok (time_of_field r origin uptime i x t) _ h in
    let shift : i + 1 + j ≡ i + suc j = omega arith in
    subst
      (λ k. IsUptime (value_at r k).uint_value origin uptime (value_bytes origin d (value_at r k)))
      shift (record_times-IsUptime r origin uptime (i + 1) j d ds t1 t' rest at flow)

validated-IsUptime :
    (s : Shape) (r : WireRecord) (origin uptime j : ℕ) (d : FieldDescriptor)
    → validate_record_time s r origin uptime ≡ ok tt
    → get_elem? s.fields j ≡ some d
    → is_flow_time d ≡ true
    → IsUptime (value_at r j).uint_value origin uptime (value_bytes origin d (value_at r j))
unfolding validate_record_time
validated-IsUptime s r origin uptime j d h at flow =
    let (t, loop, _) =
      >>=-eq-ok (record_times r origin uptime 0 s.fields (record { first = none; last = none })) _
        h in
    subst
      (λ k. IsUptime (value_at r k).uint_value origin uptime (value_bytes origin d (value_at r k)))
      (zero_add j) (record_times-IsUptime r origin uptime 0 j d s.fields _ t loop at flow)
  where
    zero_add : (k : ℕ) → 0 + k ≡ k
    zero_add k = omega arith

flow_time_bytes :
    (origin : ℕ) (d : FieldDescriptor) (v : Value)
    → is_flow_time d ≡ true
    → length (value_bytes origin d v) ≡ 4
unfolding value_bytes
flow_time_bytes origin d v flow = rw flow refl

-- The flow times of a record that the v9 writer takes are written without loss: where the buffer
-- has room for four bytes, the writer moves the cursor by four for such a field, and the bytes that
-- it leaves there are the milliseconds from the origin of the uptime to that time, exactly, and at
-- most the uptime of the export.
pub write_value-IsUptime :
    (s : Shape) (r : WireRecord) (origin uptime j : ℕ) (d : FieldDescriptor) (c : Cursor)
    → validate_record_time s r origin uptime ≡ ok tt
    → get_elem? s.fields j ≡ some d
    → is_flow_time d ≡ true
    → c.off + 4 ≤ length c.buf
    → let c' = write_value origin d (value_at r j) c in
      (c'.off ≡ c.off + 4) × IsUptime (value_at r j).uint_value origin uptime (written c c')
write_value-IsUptime s r origin uptime j d c h at flow room =
    let v : Value = value_at r j in
    let four = flow_time_bytes origin d v flow in
    let (moved, put) =
      written-Writes (Writes-write_value origin d v) c (omega (arith, four, room)) in
    (
      moved ∙ ap (λ k. c.off + k) four,
      subst (IsUptime v.uint_value origin uptime) (sym put)
          (validated-IsUptime s r origin uptime j d h at flow),
    )
