-- ===== src/Destination/State.antt =====
-- internal/destination/state.go, write.go and epoch.go: the protocol state machine of one
-- destination. A method is a function from the state to the state behind the call and its result;
-- the state is kept on an error too. The mutex, and the compiled mapping that the state only hands
-- out, are not modelled.
pub mod Begin
pub mod Commit
pub mod Wall
pub mod Marks
pub mod Rounds
pub mod Bootstrap
pub mod Outcome
pub mod Steps
pub mod Data
pub mod Rollback
pub mod Stream
pub mod Room
pub mod Filling
mod Runs
use otelcol_exporter_netflow.Common.{
  ℕ, ◌+◌, ◌-◌, ◌*◌, ◌/◌, ◌%◌, ◌^◌, Bool, true, false, ◌&&◌, ◌||◌, not, Option, none, some, List,
  length, ltb, leb, ◌==◌, if◌then◌else◌,
}
use otelcol_exporter_netflow.Common.Int.{ℤ}
use otelcol_exporter_netflow.Common.Result.{Result, ok, err, lift_error}
use otelcol_exporter_netflow.Wire.Model.{
  Protocol, v5, v9, ipfix, same_protocol, HeaderMetadata, ContractError, WireRecord, max_int64,
}
use otelcol_exporter_netflow.Wire.Shapes.{Shape}
use otelcol_exporter_netflow.Wire.Sizes.{PacketRequest, validate_header}
use otelcol_exporter_netflow.Wire.Preflight.{DataPacketRequest}
use otelcol_exporter_netflow.Destination.Error.{
  Error, time_not_representable, uptime_exhausted, wire,
}
use otelcol_exporter_netflow.Destination.Config.{Config}

pub record Epoch : Type 0 where
  pub id : ℕ
  pub protocol : Protocol
  pub sequence : ℕ
  pub ready : Bool
  pub start_origin : ℕ
  pub has_start_origin : Bool
  pub uptime_exhausted : Bool

unfoldable pub new_epoch : ℕ → Protocol → Epoch
new_epoch id protocol = record {
  id = id;
  protocol = protocol;
  sequence = 0;
  ready = same_protocol protocol v5;
  start_origin = 0;
  has_start_origin = false;
  uptime_exhausted = false;
}

pub record StreamPacketState : Type 0 where
  pub sampling_interval : ℕ
  pub records : ℕ
  pub bytes : ℕ
  pub capacity : ℕ
  pub length : ℕ

-- `owner` is the state that made the packet; the zero packet has none. Packets of one state with
-- the same token share one stream object.
pub record Packet : Type 0 where
  pub owner : Option ℕ
  pub epoch_id : ℕ
  pub token : ℕ
  pub request : PacketRequest
  pub shape_index : ℤ
  pub template_records : ℕ
  pub data_records : ℕ
  pub monotonic_nanos : ℕ
  pub logical_instant : ℕ
  pub datagram_length : ℕ
  pub encoded : Bool
  pub stream : Option StreamPacketState
  pub prior_refresh_active : Bool
  pub prior_refresh_due : Bool
  pub prior_next_template_index : ℕ
  pub prior_template_round : ℕ
  pub prior_reserved_wall : ℕ
  pub prior_have_reserved_wall : Bool
  pub prior_start_origin : ℕ
  pub prior_has_start_origin : Bool

-- `self` tells one state from another; `A` is the appender of the streaming writer, if there is
-- one; the catalog is its shapes in order.
pub record State (A : Type 0) : Type 0 where
  pub self : ℕ
  pub catalog : List Shape
  pub stream : Option A
  pub config : Config
  pub epoch : Epoch
  pub next_id : ℕ
  pub next_template_index : ℕ
  pub template_round : ℕ
  pub refresh_active : Bool
  pub refresh_due : Bool
  pub last_refresh_mono : ℕ
  pub have_refresh_mono : Bool
  pub packet_count : ℕ
  pub data_message_count : ℕ
  pub last_reserved_wall : ℕ
  pub have_reserved_wall : Bool
  pub next_token : ℕ
  pub pending : Option Packet

-- The streaming half of a protocol writer, wire.DataPacketAppender.
pub record Appender (A : Type 0) : Type 0 where
  pub start : A → ℕ → DataPacketRequest → A × Option ContractError
  pub append : A → WireRecord → A × Option ContractError
  pub finish : A → A × Result ContractError ℤ
  pub reset : A → A

-- The next step runs on the state that the first one leaves, if that one succeeded.
abbrev pub on_ok {ℓ κ} :
    {A : Type 0} {B : Type ℓ} {C : Type κ}
    → State A × Result Error B
    → (State A → B → State A × Result Error C)
    → State A × Result Error C
on_ok (s, ok b) k = k s b
on_ok (s, err e) k = (s, err e)

-- A check that changes nothing.
abbrev pub checked {ℓ κ} :
    {A : Type 0} {B : Type ℓ} {C : Type κ}
    → State A
    → Result Error B
    → (B → State A × Result Error C)
    → State A × Result Error C
checked s (ok b) k = k b
checked s (err e) k = (s, err e)

abbrev pub is_some {ℓ} : {B : Type ℓ} → Option B → Bool
is_some none = false
is_some (some b) = true

abbrev pub validated : HeaderMetadata → Result Error HeaderMetadata
validated h = elim (validate_header h) [ ok u ↦ ok h | err e ↦ err (wire e) ]

module _ {A : Type 0} where
  -- Count and interval triggers, in the order of the code; a monotonic time that runs backwards
  -- triggers nothing.
  unfoldable pub mark_refresh_due : State A → ℕ → State A
  mark_refresh_due s mono =
      if same_protocol s.config.protocol v5
        || not s.epoch.ready
        || s.refresh_active
        || s.refresh_due
      then s
      else if s.have_refresh_mono
          && leb s.last_refresh_mono mono
          && leb s.config.refresh_interval (mono - s.last_refresh_mono)
      then record s { refresh_due = true }
      else if same_protocol s.config.protocol v9
          && leb s.config.v9_refresh_packet_count s.packet_count
      then record s { refresh_due = true }
      else if same_protocol s.config.protocol ipfix
          && not (s.config.ipfix_data_message_refresh_count == 0)
          && leb s.config.ipfix_data_message_refresh_count s.data_message_count
      then record s { refresh_due = true }
      else s

  unfoldable pub refresh_due : State A → ℕ → State A × Bool
  refresh_due s mono = let s' = mark_refresh_due s mono in (s', s'.refresh_due || s'.refresh_active)

  unfoldable pub ready : State A → Bool
  ready s =
      s.epoch.ready && not s.refresh_active && not s.refresh_due && not s.epoch.uptime_exhausted

  unfoldable pub uptime_origin : State A → Option ℕ
  uptime_origin s =
      if s.config.has_uptime_origin
      then some s.config.uptime_origin_unix_nanos
      else if s.epoch.has_start_origin
      then some s.epoch.start_origin
      else none

  abbrev pub reserved : State A → ℕ → State A × Result Error ℕ
  reserved s wall = (record s { last_reserved_wall = wall; have_reserved_wall = true }, ok wall)

  -- The uptime of v5 and v9 is in whole milliseconds of 32 bits.
  unfoldable pub reserve_uptime : State A → ℕ → Option ℕ → State A × Result Error ℕ
  reserve_uptime s wall none =
      if same_protocol s.config.protocol v9 && not s.epoch.ready && not s.epoch.has_start_origin
      then reserved s wall
      else (s, err time_not_representable)
  reserve_uptime s wall (some origin) =
      if ltb wall origin
      then (s, err time_not_representable)
      else if ltb (2 ^ 32 - 1) ((wall - origin) / 1_000_000)
      then (
        record s { epoch = record s.epoch { uptime_exhausted = true } },
        err Error.uptime_exhausted,
      )
      else if not ((wall - origin) % 1_000_000 == 0)
      then (s, err time_not_representable)
      else reserved s wall

  abbrev pub not_before : State A → ℕ → ℕ
  not_before s wall =
      if s.have_reserved_wall && ltb wall s.last_reserved_wall then s.last_reserved_wall else wall

  unfoldable pub reserve_wall : State A → ℕ → State A × Result Error ℕ
  reserve_wall s wall =
      let wall' = not_before s wall in
      if ltb max_int64 wall
      then (s, err time_not_representable)
      else if ltb (2 ^ 32 - 1) (wall' / 1_000_000_000)
      then (s, err time_not_representable)
      else if same_protocol s.config.protocol ipfix
      then reserved s wall'
      else reserve_uptime s wall' (uptime_origin s)

  abbrev pub header_with : State A → ℕ → ℕ → ℕ → Bool → HeaderMetadata
  header_with s instant sampling origin has_origin = record {
    protocol = s.config.protocol;
    sequence = s.epoch.sequence;
    observation_domain_id = s.config.observation_domain_id;
    source_id = s.config.source_id;
    engine_type = s.config.engine_type;
    engine_id = s.config.engine_id;
    sampling_mode = s.config.sampling_mode;
    sampling_interval = sampling;
    count = 0;
    export_time_unix_nanos = instant;
    uptime_origin_unix_nanos = origin;
    has_uptime_origin = has_origin;
  }

  abbrev pub header_from : State A → ℕ → ℕ → Option ℕ → Result Error HeaderMetadata
  header_from s instant sampling none = err time_not_representable
  header_from s instant sampling (some origin) =
      validated (header_with s instant sampling origin true)

  unfoldable pub header : State A → ℕ → ℕ → Result Error HeaderMetadata
  header s instant sampling =
      if same_protocol s.config.protocol v5 || same_protocol s.config.protocol v9
      then header_from s instant sampling (uptime_origin s)
      else validated (header_with s instant sampling 0 false)

  -- A candidate that was never ready keeps no origin and no progress.
  unfoldable pub discard_unpublished : State A → State A
  discard_unpublished s = if s.epoch.ready then s else record s {
    next_template_index = 0;
    template_round = 0;
    epoch = record s.epoch { start_origin = 0; has_start_origin = false; sequence = 0 };
    packet_count = 0;
    data_message_count = 0;
    refresh_active = false;
    refresh_due = false;
    last_refresh_mono = 0;
    have_refresh_mono = false;
  }

  unfoldable pub restore_reservation_wall : State A → Packet → State A
  restore_reservation_wall s p = record s {
    last_reserved_wall = p.prior_reserved_wall;
    have_reserved_wall = p.prior_have_reserved_wall;
  }

  -- The packet is the pending one, of this state and of this epoch.
  unfoldable pub is_current : State A → Packet → Option Packet → Bool
  is_current s p none = false
  is_current s p (some pending) =
      pending.token == p.token && is_owner p.owner && p.epoch_id == s.epoch.id
    where
      is_owner : Option ℕ → Bool
      is_owner none = false
      is_owner (some owner) = owner == s.self

module _ {A : Type 0} (api : Appender A) where
  abbrev pub reset_appender : Option A → Option A
  reset_appender none = none
  reset_appender (some a) = some (api.reset a)

  unfoldable pub reset_stream : State A → State A
  reset_stream s = record s { stream = reset_appender s.stream }

  -- What every failure before the hand-over does: the wall is free again, and a published state
  -- has its refresh progress back.
  unfoldable pub restore_encode_reservation : State A → Packet → State A
  restore_encode_reservation s p =
      let reset : State A = if is_some p.stream then reset_stream s else s in
      let walled : State A = restore_reservation_wall reset p in
      let cleaned : State A =
        if not walled.epoch.ready then discard_unpublished walled else record walled {
          epoch = record walled.epoch {
            start_origin = p.prior_start_origin;
            has_start_origin = p.prior_has_start_origin;
          };
          refresh_active = p.prior_refresh_active;
          refresh_due = p.prior_refresh_due;
          next_template_index = p.prior_next_template_index;
          template_round = p.prior_template_round;
        } in
      record cleaned { pending = none }
