-- ===== src/Destination/State/Begin.antt =====
-- internal/destination/state.go: the reservation of a template packet or a data packet.
use otelcol_exporter_netflow.Common.{
  ℕ, zero, suc, ◌+◌, ◌-◌, ◌*◌, ◌/◌, ◌%◌, ◌^◌, Bool, true, false, ◌&&◌, ◌||◌, not, Option, none,
  some, List, [], ◌∷◌, length, ltb, ◌==◌, if◌then◌else◌,
}
use otelcol_exporter_netflow.Common.Int.{ℤ, pos, negsuc}
use otelcol_exporter_netflow.Common.Result.{Result, ok, err, ◌>>=◌, ◌>>◌, reject_if, lift_error}
use otelcol_exporter_netflow.Wire.Model.{
  Protocol, v5, v9, ipfix, same_protocol, HeaderMetadata, WireRecord, bounds,
}
use otelcol_exporter_netflow.Wire.Shapes.{Shape}
use otelcol_exporter_netflow.Wire.Sizes.{data_set_size}
use otelcol_exporter_netflow.Destination.Error.{
  Error, transaction, template_progress, shape_not_in_catalog, invalid_config, not_ready,
  refresh_required, refresh_not_due, wire,
}
use otelcol_exporter_netflow.Destination.State.{
  State, Packet, mark_refresh_due, reserve_wall, header, on_ok, checked, is_some,
}

-- A nil slice of sampling rates is `none`.
pub record DataRequest : Type 0 where
  pub records : List WireRecord
  pub v5_sampling_rates : Option (List ℕ)

abbrev pub rates_of : Option (List ℕ) → List ℕ
rates_of none = []
rates_of (some rates) = rates

agree_with : ℕ → List ℕ → Result Error (Unit {0})
agree_with common [] = ok tt
agree_with common (rate ∷ rates) = do
  reject_if (ltb 16383 rate) invalid_config
  reject_if (not (rate == common)) invalid_config
  agree_with common rates

common_rate : List ℕ → Result Error ℕ
unfolding agree_with
common_rate [] = ok 0
common_rate (rate ∷ rates) = do
  reject_if (ltb 16383 rate) invalid_config
  agree_with rate rates
  ok (rate % 2 ^ 16)

unfoldable pub validate_data_request : Protocol → DataRequest → Result Error ℕ
unfolding common_rate
validate_data_request protocol request =
    if not (same_protocol protocol v5)
    then (do reject_if (is_some request.v5_sampling_rates) invalid_config; ok 0)
    else (do
      reject_if (not (length (rates_of request.v5_sampling_rates) == length request.records))
          invalid_config
      common_rate (rates_of request.v5_sampling_rates))

abbrev pub header_bytes : Protocol → Option ℕ
header_bytes v5 = some 24
header_bytes v9 = some 20
header_bytes ipfix = some 16
header_bytes other = none

-- `none` where the sum, or the product, leaves 64 bits.
abbrev pub total_length : Option ℕ → ℕ → ℕ → ℕ → Option ℕ
total_length none records bytes data_bytes = none
total_length (some front) records bytes data_bytes =
    let templates : ℕ = if records == 0 then bytes else bytes * records in
    if not (records == 0) && ltb ((2 ^ 64 - 1) / records) bytes
    then none
    else if ltb (2 ^ 64 - 1 - templates) front
    then none
    else if ltb (2 ^ 64 - 1 - data_bytes) (front + templates)
    then none
    else some (front + templates + data_bytes)

unfoldable pub checked_packet_length : Protocol → ℕ → ℕ → ℕ → Option ℕ
checked_packet_length protocol template_records template_bytes data_bytes =
    total_length (header_bytes protocol) template_records template_bytes data_bytes

abbrev pub within_budget : Option ℕ → ℕ → Result Error ℕ
within_budget none budget = err (wire bounds)
within_budget (some n) budget = if ltb budget n then err (wire bounds) else ok n

abbrev pub shape_at : List Shape → ℕ → Result Error Shape
shape_at [] i = err shape_not_in_catalog
shape_at (shape ∷ shapes) zero = ok shape
shape_at (shape ∷ shapes) (suc i) = shape_at shapes i

abbrev pub shape_in : List Shape → ℤ → Result Error Shape
shape_in shapes (pos i) = shape_at shapes i
shape_in shapes (negsuc i) = err shape_not_in_catalog

-- What the checks of a request find.
pub record Admitted : Type 0 where
  pub shape : Shape
  pub sampling_interval : ℕ
  pub data_bytes : ℕ
  pub message_bytes : ℕ

abbrev pub same_index : ℤ → ℕ → Bool
same_index (pos i) n = i == n
same_index (negsuc i) n = false

abbrev pub header_count : Protocol → ℕ → ℕ → ℕ
header_count v5 template_records count = count % 2 ^ 16
header_count v9 template_records count = (template_records + count) % 2 ^ 16
header_count other template_records count = 0

module _ {A : Type 0} where
  unfoldable pub check_records : State A → ℕ → ℕ → Result Error (Unit {0})
  check_records s template_records count = do
    reject_if s.epoch.uptime_exhausted Error.uptime_exhausted
    reject_if (template_records == 0 && count == 0) invalid_config
    reject_if (ltb s.config.max_records_per_message count) invalid_config
    reject_if (same_protocol s.config.protocol v5 && (count == 0 || ltb 30 count)) invalid_config
    reject_if (same_protocol s.config.protocol v9 && ltb 65535 (template_records + count))
        invalid_config

  -- The checks before the state is touched, in the order of the code.
  unfoldable pub check_request : State A → ℤ → ℕ → DataRequest → Result Error Admitted
  check_request s shape_index template_records request = do
    reject_if (is_some s.pending) transaction
    reject_if (ltb 1 template_records) template_progress
    shape ← shape_in s.catalog shape_index
    check_records s template_records (length request.records)
    sampling ← validate_data_request s.config.protocol request
    set ← lift_error wire (data_set_size shape request.records)
    message ←
        within_budget
          (checked_packet_length s.config.protocol template_records
            (if template_records == 0 then 0 else shape.template_bytes) set.length)
          s.config.max_datagram_size
    ok (record {
      shape = shape;
      sampling_interval = sampling;
      data_bytes = set.length;
      message_bytes = message;
    })

  abbrev pub next_shape : State A → ℤ → State A × Result Error (Unit {0})
  next_shape s shape_index =
      if not (same_index shape_index s.next_template_index)
      then (s, err template_progress)
      else (s, ok tt)

  unfoldable pub prepare_template : State A → ℕ → ℤ → State A × Result Error (Unit {0})
  prepare_template s mono shape_index =
      if not s.epoch.ready
      then next_shape s shape_index
      else (let marked = mark_refresh_due s mono in
          if not marked.refresh_due && not marked.refresh_active
          then (marked, err refresh_not_due)
          else next_shape marked shape_index)

  unfoldable pub admit_template : State A → ℕ → ℤ → ℕ → State A × Result Error (Unit {0})
  admit_template s mono shape_index count =
      if same_protocol s.config.protocol v5
      then (s, err template_progress)
      else if not (count == 0)
      then (s, err (if s.epoch.ready then refresh_required else not_ready))
      else prepare_template s mono shape_index

  unfoldable pub admit_data : State A → ℕ → State A × Result Error (Unit {0})
  admit_data s mono =
      if not s.epoch.ready
      then (s, err not_ready)
      else (let marked = mark_refresh_due s mono in
          if marked.refresh_due || marked.refresh_active
          then (marked, err refresh_required)
          else (marked, ok tt))

  -- A v9 candidate without a configured origin takes the reserved instant.
  unfoldable pub capture_origin : State A → ℕ → ℕ → State A
  capture_origin s template_records instant =
      if not (template_records == 0)
        && same_protocol s.config.protocol v9
        && not s.config.has_uptime_origin
        && not s.epoch.has_start_origin
      then record s { epoch = record s.epoch { start_origin = instant; has_start_origin = true } }
      else s

  -- The reservation; `before` is the state from which a failure is rolled back.
  unfoldable pub new_packet :
      State A → State A → Admitted → HeaderMetadata → ℤ → ℕ → List WireRecord → ℕ → ℕ → Packet
  new_packet before s a head shape_index template_records records mono instant = record {
    owner = some s.self;
    epoch_id = s.epoch.id;
    token = (s.next_token + 1) % 2 ^ 64;
    request = record {
      header = record head {
        count = header_count s.config.protocol template_records (length records);
      };
      shape = a.shape;
      records = records;
      template_records = template_records;
      template_bytes = template_records * a.shape.template_bytes;
      data_bytes = a.data_bytes;
      max_datagram_bytes = s.config.max_datagram_size;
    };
    shape_index = shape_index;
    template_records = template_records;
    data_records = length records;
    monotonic_nanos = mono;
    logical_instant = instant;
    datagram_length = a.message_bytes;
    encoded = false;
    stream = none;
    prior_refresh_active = before.refresh_active;
    prior_refresh_due = before.refresh_due;
    prior_next_template_index = before.next_template_index;
    prior_template_round = before.template_round;
    prior_reserved_wall = before.last_reserved_wall;
    prior_have_reserved_wall = before.have_reserved_wall;
    prior_start_origin = before.epoch.start_origin;
    prior_has_start_origin = before.epoch.has_start_origin;
  }

  -- The first template packet of a published state opens a refresh round.
  unfoldable pub open_packet : State A → ℕ → Packet → State A
  open_packet s template_records p =
      let counted = record s { next_token = (s.next_token + 1) % 2 ^ 64; pending = some p } in
      if not (template_records == 0) && s.epoch.ready && not s.refresh_active
      then record counted { refresh_active = true; next_template_index = 0; template_round = 0 }
      else counted

  unfoldable pub reserve :
      State A → Admitted → ℕ → ℕ → ℤ → ℕ → List WireRecord → State A × Result Error Packet
  reserve before a wall mono shape_index template_records records =
      on_ok (reserve_wall before wall) λ walled instant.
        let s = capture_origin walled template_records instant in
        checked s (header s instant a.sampling_interval) λ head.
          let p = new_packet before s a head shape_index template_records records mono instant in
          (open_packet s template_records p, ok p)

  unfoldable pub begin_packet :
      State A → ℕ → ℕ → ℤ → ℕ → DataRequest → State A × Result Error Packet
  begin_packet s wall mono shape_index template_records request =
      checked s (check_request s shape_index template_records request) λ a.
        on_ok
          (if not (template_records == 0)
            then admit_template s mono shape_index (length request.records)
            else admit_data s mono)
          λ admitted u. reserve admitted a wall mono shape_index template_records request.records

  unfoldable pub begin_template : State A → ℕ → ℕ → ℤ → State A × Result Error Packet
  begin_template s wall mono shape_index =
      begin_packet s wall mono shape_index 1 (record { records = []; v5_sampling_rates = none })

  unfoldable pub begin_data : State A → ℕ → ℕ → ℤ → DataRequest → State A × Result Error Packet
  begin_data s wall mono shape_index request = begin_packet s wall mono shape_index 0 request
