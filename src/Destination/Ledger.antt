-- ===== src/Destination/Ledger.antt =====
-- internal/destination/ledger.go: the source ledger of one request.
-- Two bits for each source ordinal are packed into bytes (Store); the counters and the active
-- packet are the other fields. A method returns the ledger after it and its error. The nil
-- receiver of the Go methods is not modelled.
pub mod Store
pub mod Tally
pub mod Window
pub mod Invariant
pub mod Reasons
pub mod Sources
pub mod Packets
pub mod Resolve
pub mod History
pub mod Lifecycle
pub mod Halt
mod Runs
use otelcol_exporter_netflow.Common.{
  ℕ, zero, suc, ◌+◌, ◌-◌, ◌*◌, ◌/◌, ◌%◌, ◌^◌, Bool, true, false, ◌&&◌, ◌||◌, not, Option, none,
  some, List, [], ◌++◌, length, get_or, set, replicate, ltb, leb, ◌==◌, if◌then◌else◌,
}
use otelcol_exporter_netflow.Common.Int.{ℤ}
use otelcol_exporter_netflow.Destination.WriteClass.{WriteClass, classify_write}
use Store.{
  ensure_ordinal, grown_length, invalid_gap_loop, invalid_gap, mark_loop, SourceClass, uncovered,
  unsent_valid, confirmed, ambiguous, stored_class, set_stored_class, is_unsent, is_invalid,
}

abbrev pub max_uint64 : ℕ
max_uint64 = 2 ^ 64 - 1

abbrev pub add64 : ℕ → ℕ → ℕ
add64 a b = (a + b) % 2 ^ 64

abbrev pub sub64 : ℕ → ℕ → ℕ
sub64 a b = (a + 2 ^ 64 - b) % 2 ^ 64

pub data RejectionReason : Type 0 where
  other unsupported_body missing_field invalid_type invalid_value map_miss : RejectionReason
  family_mismatch protocol_mismatch time_invalid custom_unavailable : RejectionReason
  custom_invalid record_too_large record_invalid : RejectionReason
  -- A value of the underlying byte that names no reason: 13 and above.
  unlisted : RejectionReason

abbrev pub rejection_reason_count : ℕ
rejection_reason_count = 13

pub reason_index : RejectionReason → ℕ
reason_index other = 0
reason_index unsupported_body = 1
reason_index missing_field = 2
reason_index invalid_type = 3
reason_index invalid_value = 4
reason_index map_miss = 5
reason_index family_mismatch = 6
reason_index protocol_mismatch = 7
reason_index time_invalid = 8
reason_index custom_unavailable = 9
reason_index custom_invalid = 10
reason_index record_too_large = 11
reason_index record_invalid = 12
reason_index unlisted = 0

abbrev pub bump : List ℕ → ℕ → List ℕ
bump counts i = set counts i (add64 (get_or counts i 0) 1)

pub data LedgerError : Type 0 where
  bad_ordinal bad_packet stopped_packets over_capacity invalid_write : LedgerError

pub record SourceLedger : Type 0 where
  pub classes : List ℕ
  pub rejection_counts : List ℕ
  pub covered : ℕ
  pub valid : ℕ
  pub invalid : ℕ
  pub confirmed : ℕ
  pub ambiguous : ℕ
  pub packet_open : Bool
  pub packet_start : ℕ
  pub packet_end : ℕ
  pub packet_valid : ℕ
  pub packet_floor : ℕ
  pub stopped : Bool

abbrev pub max_pending_valid : ℕ
max_pending_valid = 1024

pub new_source_ledger : SourceLedger
new_source_ledger = record {
  classes = [];
  rejection_counts = replicate rejection_reason_count 0;
  covered = 0;
  valid = 0;
  invalid = 0;
  confirmed = 0;
  ambiguous = 0;
  packet_open = false;
  packet_start = 0;
  packet_end = 0;
  packet_valid = 0;
  packet_floor = 0;
  stopped = false;
}

pub classification : SourceLedger → ℕ → SourceClass
classification l ordinal =
    if leb l.covered ordinal then uncovered else stored_class l.classes ordinal

record_source :
    SourceLedger → ℕ → Bool → RejectionReason → Option (List ℕ) → SourceLedger × Option LedgerError
record_source l ordinal ok reason none = (l, some over_capacity)
record_source l ordinal true reason (some classes) =
    (record l { classes = classes; valid = add64 l.valid 1; covered = add64 l.covered 1 }, none)
record_source l ordinal false reason (some classes) = (
  record l {
    classes = set_stored_class classes ordinal SourceClass.invalid;
    rejection_counts = bump l.rejection_counts (reason_index reason);
    covered = add64 l.covered 1;
    invalid = add64 l.invalid 1;
  },
  none,
)

pub add_source_reason :
    SourceLedger → ℕ → Bool → RejectionReason → SourceLedger × Option LedgerError
unfolding record_source
add_source_reason l ordinal ok reason =
    if not (ordinal == l.covered) || ordinal == max_uint64
    then (l, some bad_ordinal)
    else record_source l ordinal ok reason (ensure_ordinal l.classes ordinal)

pub add_source : SourceLedger → ℕ → Bool → SourceLedger × Option LedgerError
add_source l ordinal ok = add_source_reason l ordinal ok other

-- The only transition from valid to invalid.
pub invalidate : SourceLedger → ℕ → RejectionReason → SourceLedger × Option LedgerError
invalidate l ordinal reason =
    if leb l.covered ordinal || not (is_unsent (stored_class l.classes ordinal))
    then (l, some bad_ordinal)
    else if l.packet_open && leb l.packet_start ordinal && ltb ordinal l.packet_end
    then (l, some bad_ordinal)
    else (
      record l {
        classes = set_stored_class l.classes ordinal SourceClass.invalid;
        rejection_counts = bump l.rejection_counts (reason_index reason);
        valid = sub64 l.valid 1;
        invalid = add64 l.invalid 1;
      },
      none,
    )

pub begin_packet : SourceLedger → SourceLedger × Option LedgerError
begin_packet l =
    if l.stopped
    then (l, some stopped_packets)
    else if l.packet_open
    then (l, some bad_packet)
    else (record l { packet_open = true; packet_start = 0; packet_end = 0; packet_valid = 0 }, none)

pub add_pending : SourceLedger → ℕ → SourceLedger × Option LedgerError
add_pending l ordinal =
    if l.stopped
    then (l, some stopped_packets)
    else if not l.packet_open
    then (l, some bad_packet)
    else if leb l.covered ordinal || not (is_unsent (stored_class l.classes ordinal))
    then (l, some bad_ordinal)
    else if leb max_pending_valid l.packet_valid || ordinal == max_uint64
    then (l, some over_capacity)
    else if l.packet_valid == 0
    then (if not (invalid_gap l.classes l.packet_floor ordinal) then (l, some bad_ordinal) else (
      record l { packet_start = ordinal; packet_end = add64 ordinal 1; packet_valid = 1 },
      none,
    ))
    else if ltb ordinal l.packet_end
    then (l, some bad_ordinal)
    else if not (invalid_gap l.classes l.packet_end ordinal)
    then (l, some bad_ordinal)
    else (record l { packet_end = add64 ordinal 1; packet_valid = add64 l.packet_valid 1 }, none)

abbrev mark_pending : SourceLedger → SourceClass → List ℕ
mark_pending l class = mark_loop l.classes (l.packet_end - l.packet_start) l.packet_start class

pub record Resolution : Type 0 where
  pub class : Option WriteClass
  pub newly_confirmed : ℕ
  pub newly_ambiguous : ℕ

is_full : WriteClass → Bool
is_full WriteClass.full = true
is_full other_class = false

is_invalid_write : WriteClass → Bool
is_invalid_write WriteClass.invalid = true
is_invalid_write other_class = false

-- The class is 0, no write class at all, on the resolution that reports no open packet.
abbrev resolve_class : SourceLedger → WriteClass → SourceLedger × Resolution × Option LedgerError
resolve_class l class =
    if is_invalid_write class
    then (
      l,
      record { class = some class; newly_confirmed = 0; newly_ambiguous = 0 },
      some invalid_write,
    )
    else if not l.packet_open || l.packet_valid == 0
    then (l, record { class = none; newly_confirmed = 0; newly_ambiguous = 0 }, some bad_packet)
    else if is_full class
    then (
      record l {
        classes = mark_pending l SourceClass.confirmed;
        confirmed = add64 l.confirmed l.packet_valid;
        packet_floor = l.packet_end;
        packet_open = false;
        packet_start = 0;
        packet_end = 0;
        packet_valid = 0;
      },
      record { class = some class; newly_confirmed = l.packet_valid; newly_ambiguous = 0 },
      none,
    )
    else (
      record l {
        classes = mark_pending l SourceClass.ambiguous;
        ambiguous = add64 l.ambiguous l.packet_valid;
        stopped = true;
        packet_open = false;
        packet_start = 0;
        packet_end = 0;
        packet_valid = 0;
      },
      record { class = some class; newly_confirmed = 0; newly_ambiguous = l.packet_valid },
      none,
    )

pub resolve_packet : SourceLedger → ℤ → ℤ → Bool → SourceLedger × Resolution × Option LedgerError
unfolding is_full is_invalid_write
resolve_packet l n length failed = resolve_class l (classify_write n length failed)

pub abort_packet : SourceLedger → SourceLedger × Option LedgerError
abort_packet l = if not l.packet_open then (l, some bad_packet) else (
  record l {
    packet_open = false;
    packet_start = 0;
    packet_end = 0;
    packet_valid = 0;
    stopped = true;
  },
  none,
)

-- The scalar counters, as Counts() copies them.
pub record SourceLedgerCounts : Type 0 where
  pub covered : ℕ
  pub valid : ℕ
  pub invalid : ℕ
  pub unsent : ℕ
  pub confirmed : ℕ
  pub ambiguous : ℕ
  pub pending : ℕ
  pub packet_open : Bool
  pub stopped : Bool

pub counts : SourceLedger → SourceLedgerCounts
counts l = record {
  covered = l.covered;
  valid = l.valid;
  invalid = l.invalid;
  unsent = sub64 (sub64 l.valid l.confirmed) l.ambiguous;
  confirmed = l.confirmed;
  ambiguous = l.ambiguous;
  pending = l.packet_valid;
  packet_open = l.packet_open;
  stopped = l.stopped;
}
