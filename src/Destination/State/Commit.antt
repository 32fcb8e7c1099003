-- ===== src/Destination/State/Commit.antt =====
-- internal/destination/state.go and write.go: what becomes of a reserved packet.
use otelcol_exporter_netflow.Common.{
  ℕ, ◌+◌, ◌-◌, ◌%◌, ◌^◌, Bool, true, false, ◌&&◌, ◌||◌, not, Option, none, some, length, ltb, ◌==◌,
  if◌then◌else◌,
}
use otelcol_exporter_netflow.Common.Int.{ℤ, pos, negsuc}
use otelcol_exporter_netflow.Common.Result.{Result, ok, err}
use otelcol_exporter_netflow.Wire.Model.{Protocol, v5, v9, ipfix, same_protocol}
use otelcol_exporter_netflow.Wire.Sizes.{PacketRequest}
use otelcol_exporter_netflow.Destination.Error.{Error, transaction, encoding, invalid_config}
use otelcol_exporter_netflow.Destination.WriteClass.{WriteClass, full, classify_write}
use otelcol_exporter_netflow.Destination.State.{
  State, Appender, Packet, new_epoch, mark_refresh_due, discard_unpublished,
  restore_reservation_wall, restore_encode_reservation, is_current, is_some, reset_stream,
}

pub record CommitResult : Type 0 where
  -- `none` is the zero value, which is no class.
  pub class : Option WriteClass
  pub committed : Bool
  pub ready : Bool
  pub refresh_due : Bool
  pub sequence_before : ℕ
  pub sequence_after : ℕ
  pub logical_send_instant : ℕ
  pub datagram_length : ℕ

-- Go's conversion of a uint64 to a 64-bit int.
abbrev pub to_int : ℕ → ℤ
to_int n = if ltb n (2 ^ 63) then pos n else negsuc (2 ^ 64 - 1 - n)

-- The result of the pure writer: n, and whether there was an error.
abbrev pub wrote_exactly : ℤ × Bool → ℕ → Bool
wrote_exactly (pos n, failed) length = not failed && n == length
wrote_exactly (negsuc n, failed) length = false

abbrev pub no_result : CommitResult
no_result = record {
  class = none;
  committed = false;
  ready = false;
  refresh_due = false;
  sequence_before = 0;
  sequence_after = 0;
  logical_send_instant = 0;
  datagram_length = 0;
}

module _ {A : Type 0} where
  unfoldable pub commit_sequence : State A → Packet → Protocol → State A
  commit_sequence s p v5 = record s {
    epoch = record s.epoch { sequence = (s.epoch.sequence + p.data_records % 2 ^ 32) % 2 ^ 32 };
  }
  commit_sequence s p v9 = record s {
    epoch = record s.epoch { sequence = (s.epoch.sequence + 1) % 2 ^ 32 };
    packet_count = (s.packet_count + 1) % 2 ^ 32;
  }
  commit_sequence s p ipfix = record s {
    epoch = record s.epoch { sequence = (s.epoch.sequence + p.data_records % 2 ^ 32) % 2 ^ 32 };
    data_message_count =
        if p.data_records == 0 then s.data_message_count else (s.data_message_count + 1) % 2 ^ 32;
  }
  commit_sequence s p other = s

  -- A bootstrap or a refresh round is complete.
  unfoldable pub complete : State A → ℕ → State A
  complete s mono = record s {
    epoch = record s.epoch { ready = true };
    refresh_active = false;
    refresh_due = false;
    packet_count = 0;
    data_message_count = 0;
    last_refresh_mono = mono;
    have_refresh_mono = true;
    template_round = 0;
  }

  unfoldable pub end_round : State A → ℕ → State A
  end_round s mono =
      let next = record s {
        next_template_index = 0;
        template_round = (s.template_round + 1) % 2 ^ 8;
      } in
      if not s.epoch.ready
      then (if next.template_round == s.config.initial_copies then complete next mono else next)
      else if s.refresh_active && next.template_round == 1
      then complete next mono
      else next

  unfoldable pub commit_template : State A → ℕ → State A
  commit_template s mono =
      if s.next_template_index + 1 == length s.catalog
      then end_round s mono
      else record s { next_template_index = s.next_template_index + 1 }

  abbrev pub report : State A → State A → WriteClass → Packet → Bool → CommitResult
  report before s class p committed = record {
    class = some class;
    committed = committed;
    ready = s.epoch.ready;
    refresh_due = s.refresh_due || s.refresh_active;
    sequence_before = before.epoch.sequence;
    sequence_after = s.epoch.sequence;
    logical_send_instant = p.logical_instant;
    datagram_length = p.datagram_length;
  }

  -- A full write commits the sequence and the progress.
  unfoldable pub commit_full : State A → Packet → State A
  commit_full s p =
      let counted = commit_sequence s p s.config.protocol in
      let advanced =
        if p.template_records == 0 then counted else commit_template counted p.monotonic_nanos in
      record (mark_refresh_due advanced p.monotonic_nanos) { pending = none }

  unfoldable pub commit_doubtful : State A → State A
  commit_doubtful s = record (discard_unpublished s) { pending = none }

  unfoldable pub commit_invalid : State A → Packet → State A
  commit_invalid s p = record (discard_unpublished (restore_reservation_wall s p)) {
    pending = none;
  }

  unfoldable pub commit_class :
      State A → Packet → WriteClass → State A × CommitResult × Option Error
  commit_class s p WriteClass.invalid =
      let s' = commit_invalid s p in
      (s', report s s' WriteClass.invalid p false, some Error.invalid_write)
  commit_class s p full = let s' = commit_full s p in (s', report s s' full p true, none)
  commit_class s p class = let s' = commit_doubtful s in (s', report s s' class p false, none)

  abbrev pub commit_pending :
      State A → Packet → ℤ → Bool → Option Packet → State A × CommitResult × Option Error
  commit_pending s packet n failed none = (s, no_result, some transaction)
  commit_pending s packet n failed (some pending) =
      if not (is_current s packet (some pending)) || not pending.encoded
      then (s, no_result, some transaction)
      else commit_class s pending (classify_write n (to_int pending.datagram_length) failed)

  unfoldable pub commit : State A → Packet → ℤ → Bool → State A × CommitResult × Option Error
  commit s packet n failed = commit_pending s packet n failed s.pending

  -- Bootstrap that was not published starts over.
  unfoldable pub clear_progress : State A → State A
  clear_progress s = record s {
    next_template_index = 0;
    template_round = 0;
    refresh_active = false;
    refresh_due = false;
    packet_count = 0;
    data_message_count = 0;
    pending = none;
  }

module _ {A : Type 0} (api : Appender A) where
  abbrev pub encode_pending : State A → Packet → ℤ × Bool → Option Packet → State A × Result Error ℤ
  encode_pending s packet out none = (s, err transaction)
  encode_pending s packet out (some pending) =
      if not (is_current s packet (some pending)) || is_some pending.stream || pending.encoded
      then (s, err transaction)
      else if not (wrote_exactly out packet.datagram_length)
      then (restore_encode_reservation api s pending, err encoding)
      else (record s { pending = some (record pending { encoded = true }) }, ok out.0)

  -- `write` is the protocol's pure writer on a buffer of `capacity` bytes.
  unfoldable pub encode :
      (ℕ → PacketRequest → ℤ × Bool) → State A → Packet → ℕ → State A × Result Error ℤ
  encode write s packet capacity = encode_pending s packet (write capacity packet.request) s.pending

  abbrev pub abort_pending : State A → Packet → Option Packet → State A × Option Error
  abort_pending s packet none = (s, some transaction)
  abort_pending s packet (some pending) =
      if not (is_current s packet (some pending))
      then (s, some transaction)
      else (restore_encode_reservation api s pending, none)

  unfoldable pub abort : State A → Packet → State A × Option Error
  abort s packet = abort_pending s packet s.pending

  -- A new epoch, with nothing of the old one but the catalog, the tokens and the configuration.
  unfoldable pub restart : State A → State A
  restart s =
      let next = (s.next_id + 1) % 2 ^ 64 in
      record (clear_progress (reset_stream api s)) {
        next_id = next;
        epoch = new_epoch next s.config.protocol;
        last_refresh_mono = 0;
        have_refresh_mono = false;
        last_reserved_wall = 0;
        have_reserved_wall = false;
      }

  unfoldable pub abort_bootstrap : State A → State A × Option Error
  abort_bootstrap s =
      if s.epoch.ready || same_protocol s.config.protocol v5 then (s, some invalid_config) else (
        record (clear_progress (reset_stream api s)) {
          epoch = record s.epoch { sequence = 0; start_origin = 0; has_start_origin = false };
        },
        none,
      )
