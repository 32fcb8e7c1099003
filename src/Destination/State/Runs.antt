-- ===== src/Destination/State/Runs.antt =====
-- Concrete states on which the theorems about the state machine apply.
use otelcol_exporter_netflow.Common.{
  inl, ℕ, ◌+◌, ◌^◌, ◌≤◌, ◌<◌, ◌≡◌, ◌≢◌, refl, Bool, true, false, none, some, [], ◌∷◌, ◌==◌, arith,
}
use otelcol_exporter_netflow.Common.Int.{ℤ, pos}
use otelcol_exporter_netflow.Common.Result.{ok, err}
use otelcol_exporter_netflow.Wire.Field.{in_if}
use otelcol_exporter_netflow.Wire.Model.{
  WireRecord, is_valid_field, is_absolute_time_field, same_bytes, Protocol, ipfix, ipv4, unsigned32,
  HeaderMetadata, uint_value_of,
}
use otelcol_exporter_netflow.Wire.Shapes.{
  Shape, same_identity, is_among, template_bytes_from, is_unknown_protocol, is_unknown_family,
  check_shape_bounds, template_matches, check_fields, template_bytes_for, validate_shape,
  has_variable_fields, specifier_width,
}
use otelcol_exporter_netflow.Wire.Sizes.{
  record_size, PacketRequest, validate_header, data_set_size, trusted_data_set_size,
  records_bytes_from, trusted_record_size, record_length_from, data_set_size_for_encoded,
  filled_set, encoded_set, padding_for,
}
use otelcol_exporter_netflow.Wire.Preflight.Measured.{Measured}
use otelcol_exporter_netflow.Wire.Descriptors.{
  checked_add, checked_mul, validate_descriptor, minimum_length, validate_source, validate_encoding,
  is_listed_encoding, validate_ipfix, validate_protocol_rules, validate_widths, is_text_or_octets,
  differ,
}
use otelcol_exporter_netflow.Wire.Values.{
  validate_unix_nanos, no_int, no_uint, no_text, no_octets, no_ip, mac_is_zero, validate_kind,
  validate_value, validate_value_for_family, validate_values, validate_record,
}
use otelcol_exporter_netflow.Wire.Widths.{
  kind_is_uint, kind_is_unix_nanos, natural_fits, unsigned_fits, unsigned_fits_descriptor,
  fits_encoding, fixed_length, checked_length, value_length,
}
use otelcol_exporter_netflow.Destination.Config.{default_config}
use otelcol_exporter_netflow.Destination.Error.{encoding}
use otelcol_exporter_netflow.Destination.State.{
  is_current, StreamPacketState, State, Packet, Appender, new_epoch, header, mark_refresh_due,
  reserve_wall,
}
use otelcol_exporter_netflow.Destination.State.Begin.{
  new_packet, DataRequest, begin_data, begin_packet, reserve, check_request, check_records,
  validate_data_request, admit_data, capture_origin, open_packet, checked_packet_length,
}
use otelcol_exporter_netflow.Destination.State.Data.{opened, Opened, begin_data-Opened}
use otelcol_exporter_netflow.Destination.State.Rollback.{spent, abort-begin_data, encode-begin_data}
use otelcol_exporter_netflow.Destination.State.Stream.{
  Extended, extended, extend, append, stream_packet,
}
use otelcol_exporter_netflow.Destination.State.Filling.{Holds, append-Holds}
use otelcol_exporter_netflow.Destination.State.Wall.{Reserved, reserve_wall-Reserved}
use otelcol_exporter_netflow.Destination.State.Rounds.{
  IsBootstrap, Advanced, commit_full-Advanced, committed_packets, bootstrap_packets,
}
use otelcol_exporter_netflow.Destination.State.Commit.{commit_full, commit, abort, encode}
use otelcol_exporter_netflow.Destination.State.Bootstrap.{commit_all, commit_all-ready}
use otelcol_exporter_netflow.Destination.State.Outcome.{CommitAnswer, commit-CommitAnswer}

-- One IPFIX template with one field of four bytes.
abbrev in_if_shape : Shape
in_if_shape = record {
  protocol = ipfix;
  family = ipv4;
  id = 256;
  fields =
      record {
        protocol = ipfix;
        field = in_if;
        constant = false;
        custom = false;
        source = [];
        id = 10;
        pen = 0;
        enterprise = false;
        private = false;
        variable = false;
        max_length = 0;
        length = 4;
        encoding = unsigned32;
      }
      ∷ [];
  record_length = 4;
  template_bytes = 12;
}

-- A state before its first packet.
abbrev fresh : Protocol → State Unit
fresh protocol = record {
  self = 1;
  catalog = in_if_shape ∷ [];
  stream = none;
  config = default_config protocol;
  epoch = new_epoch 1 protocol;
  next_id = 1;
  next_template_index = 0;
  template_round = 0;
  refresh_active = false;
  refresh_due = false;
  last_refresh_mono = 0;
  have_refresh_mono = false;
  packet_count = 0;
  data_message_count = 0;
  last_reserved_wall = 0;
  have_reserved_wall = false;
  next_token = 0;
  pending = none;
}

abbrev ipfix_header : HeaderMetadata
ipfix_header = record {
  protocol = ipfix;
  sequence = 0;
  observation_domain_id = 0;
  source_id = 0;
  engine_type = 0;
  engine_id = 0;
  sampling_mode = 0;
  sampling_interval = 0;
  count = 0;
  export_time_unix_nanos = 5_000_000_000;
  uptime_origin_unix_nanos = 0;
  has_uptime_origin = false;
}

abbrev template : Packet
template =
    new_packet (fresh ipfix) (fresh ipfix)
      (record { shape = in_if_shape; sampling_interval = 0; data_bytes = 0; message_bytes = 28 })
      ipfix_header (pos 0) 1 [] 7 5_000_000_000

some_template : template.template_records ≢ 0
unfolding new_packet
some_template = λ e. omega arith

fresh-IsBootstrap : IsBootstrap (fresh ipfix)
unfolding new_epoch default_config
fresh-IsBootstrap = record {
  unready = refl;
  shape = omega arith;
  round = omega arith;
  copies = omega arith;
}

reserves : reserve_wall (fresh ipfix) 5_000_000_000 ≡ (
  record (fresh ipfix) { last_reserved_wall = 5_000_000_000; have_reserved_wall = true },
  ok 5_000_000_000,
)
unfolding reserve_wall default_config
reserves = refl

reserve_wall-Reserved_example :
    Reserved
      (fresh ipfix)
      5_000_000_000
      5_000_000_000
      (record (fresh ipfix) { last_reserved_wall = 5_000_000_000; have_reserved_wall = true })
reserve_wall-Reserved_example =
    reserve_wall-Reserved (fresh ipfix) _ 5_000_000_000 5_000_000_000 reserves

commit_full-Advanced_example : Advanced (fresh ipfix) (commit_full (fresh ipfix) template)
commit_full-Advanced_example =
    commit_full-Advanced (fresh ipfix) template fresh-IsBootstrap some_template

enough_room : 0 + 2 ≤ bootstrap_packets (fresh ipfix)
unfolding default_config
enough_room = omega arith

-- Two copies of one shape.
commit_all-ready_example :
    (commit_all (fresh ipfix) (template ∷ template ∷ [])).epoch.ready
    ≡ (committed_packets (fresh ipfix) + 2 == bootstrap_packets (fresh ipfix))
commit_all-ready_example =
    commit_all-ready (fresh ipfix) (template ∷ template ∷ []) fresh-IsBootstrap
      (some_template, (some_template, tt)) enough_room

abbrev waiting : State Unit
waiting = record (fresh ipfix) { pending = some (record template { encoded = true }) }

first_sequence : waiting.epoch.sequence < 2 ^ 32
unfolding new_epoch
first_sequence = omega arith

commit-CommitAnswer_example :
    CommitAnswer waiting template (pos 28) false (commit waiting template (pos 28) false)
commit-CommitAnswer_example = commit-CommitAnswer waiting template (pos 28) false first_sequence

-- A published state, and a data packet of one record.
abbrev published : State Unit
published = record (fresh ipfix) { epoch = record (new_epoch 1 ipfix) { ready = true } }

abbrev one_record : DataRequest
one_record = record {
  records = record { family = ipv4; values = uint_value_of 7 ∷ [] } ∷ [];
  v5_sampling_rates = none;
}

abbrev no_appender : Appender Unit
no_appender = record {
  start = λ a n r. (a, none);
  append = λ a r. (a, none);
  finish = λ a. (a, ok (pos 0));
  reset = λ a. a;
}

abbrev data_packet : Packet
data_packet =
    new_packet published
      (record published { last_reserved_wall = 5_000_000_000; have_reserved_wall = true })
      (record { shape = in_if_shape; sampling_interval = 0; data_bytes = 8; message_bytes = 24 })
      ipfix_header (pos 0) 0 one_record.records 7 5_000_000_000

begins_data :
    begin_data published 5_000_000_000 7 (pos 0) one_record
    ≡ (opened published data_packet, ok data_packet)
unfolding same_bytes begin_data begin_packet reserve reserve_wall check_request check_records
    validate_data_request admit_data capture_origin open_packet new_packet checked_packet_length
    header mark_refresh_due new_epoch default_config is_valid_field is_absolute_time_field
    uint_value_of validate_header data_set_size trusted_data_set_size records_bytes_from
    trusted_record_size record_length_from data_set_size_for_encoded filled_set encoded_set
    padding_for same_identity is_among template_bytes_from is_unknown_protocol is_unknown_family
    check_shape_bounds template_matches check_fields template_bytes_for validate_shape
    has_variable_fields specifier_width checked_add checked_mul validate_descriptor minimum_length
    validate_source validate_encoding is_listed_encoding validate_ipfix validate_protocol_rules
    validate_widths is_text_or_octets differ validate_unix_nanos no_int no_uint no_text no_octets
    no_ip mac_is_zero validate_kind validate_value validate_value_for_family validate_values
    validate_record kind_is_uint kind_is_unix_nanos natural_fits unsigned_fits
    unsigned_fits_descriptor fits_encoding fixed_length checked_length value_length
begins_data = refl

begin_data-Opened_example :
    Opened published 5_000_000_000 (pos 0) one_record (opened published data_packet) data_packet
begin_data-Opened_example =
    begin_data-Opened published (opened published data_packet) 5_000_000_000 7 (pos 0) one_record
      data_packet begins_data

-- A writer that fails.
abbrev failing : ℕ → PacketRequest → ℤ × Bool
failing capacity request = (pos 0, true)

abort-begin_data_example :
    abort no_appender (opened published data_packet) data_packet ≡ (spent published, none)
abort-begin_data_example =
    abort-begin_data no_appender published (opened published data_packet) 5_000_000_000 7 (pos 0)
      one_record data_packet begins_data

encode-begin_data_example :
    encode no_appender failing (opened published data_packet) data_packet 464
    ≡ (spent published, err encoding)
encode-begin_data_example =
    encode-begin_data no_appender failing published (opened published data_packet) 5_000_000_000 7
      (pos 0) one_record data_packet 464 begins_data refl

-- An empty stream in a buffer of 100 bytes.
abbrev empty_stream : StreamPacketState
empty_stream = record { sampling_interval = 0; records = 0; bytes = 0; capacity = 100; length = 0 }

abbrev streaming : Packet
streaming = stream_packet published published in_if_shape ipfix_header (pos 0) 7 5_000_000_000 0 100

abbrev seven : WireRecord
seven = record { family = ipv4; values = uint_value_of 7 ∷ [] }

abbrev with_seven : Extended
with_seven = record { bytes = 4; records = 1; data_bytes = 8; datagram_length = 24 }

-- The published state with that stream, and with its first record.
abbrev at_start : State Unit
at_start = record published { stream = some tt; pending = some streaming }

abbrev after_seven : State Unit
after_seven = record published {
  stream = some tt;
  pending = some (extended streaming empty_stream with_seven);
}

appends : append no_appender at_start streaming seven 0 ≡ (after_seven, none)
unfolding same_bytes new_packet checked_packet_length new_epoch default_config is_valid_field
    is_absolute_time_field uint_value_of trusted_record_size record_length_from
    data_set_size_for_encoded filled_set encoded_set padding_for same_identity is_among
    template_bytes_from is_unknown_protocol is_unknown_family check_shape_bounds template_matches
    check_fields template_bytes_for validate_shape has_variable_fields specifier_width checked_add
    checked_mul validate_descriptor minimum_length validate_source validate_encoding
    is_listed_encoding validate_ipfix validate_protocol_rules validate_widths is_text_or_octets
    differ validate_unix_nanos no_int no_uint no_text no_octets no_ip mac_is_zero validate_kind
    validate_value validate_value_for_family validate_values validate_record kind_is_uint
    kind_is_unix_nanos natural_fits unsigned_fits unsigned_fits_descriptor fits_encoding
    fixed_length checked_length value_length extend record_size stream_packet append is_current
    records_bytes_from extended
appends = refl

at_start-Holds : Holds at_start []
unfolding stream_packet records_bytes_from
at_start-Holds = record {
  pending = streaming;
  stream = empty_stream;
  is_pending = refl;
  bytes = refl;
  whole = omega arith;
  records = refl;
  few = omega arith;
  datagram = inl refl;
}

append-Holds_example : Holds after_seven (seven ∷ [])
append-Holds_example =
    append-Holds no_appender at_start after_seven streaming seven 0 [] at_start-Holds appends
