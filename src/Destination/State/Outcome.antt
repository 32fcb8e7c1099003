-- ===== src/Destination/State/Outcome.antt =====
-- What a write result makes of the state.
use otelcol_exporter_netflow.Common.{
  ℕ, ◌+◌, ◌%◌, ◌^◌, ◌<◌, ◌≡◌, ◌≢◌, refl, ap, ◌∙◌, Bool, true, false, not, ◌&&◌, ◌||◌, Option, none,
  some, length, ◌==◌, if◌then◌else◌, if_cases, arith, inl, inr,
}
use otelcol_exporter_netflow.Common.Int.{ℤ}
use otelcol_exporter_netflow.Wire.Model.{Protocol, v5, v9, ipfix}
use otelcol_exporter_netflow.Destination.Error.{Error, transaction}
use otelcol_exporter_netflow.Destination.WriteClass.{
  WriteClass, full, short_nil, zero_nil, short_error, zero_error, full_error, classify_write,
}
use otelcol_exporter_netflow.Destination.State.{
  State, Packet, is_current, discard_unpublished, restore_reservation_wall,
}
use otelcol_exporter_netflow.Destination.State.Marks.{Marked, mark_refresh_due-Marked}
use otelcol_exporter_netflow.Destination.State.Commit.{
  CommitResult, commit_sequence, complete, end_round, commit_template, commit_full, commit_doubtful,
  commit_invalid, commit_class, commit_pending, commit, to_int, report,
}

-- What a full write adds to the sequence: records in v5 and IPFIX, packets in v9.
abbrev pub sequence_units : Protocol → Packet → ℕ
sequence_units v5 p = p.data_records
sequence_units v9 p = 1
sequence_units ipfix p = p.data_records
sequence_units other p = 0

module _ {A : Type 0} where
  -- `s'` is the candidate `s` with its bootstrap started over: it has no sequence, origin, progress or
  -- refresh clock, no pending packet, the wall time that is given, and all else as it was.
  pub record StartsOver (s : State A) (wall : ℕ) (have_wall : Bool) (s' : State A) : Type 0 where
    pub sequence : s'.epoch.sequence ≡ 0
    pub origin : (s'.epoch.start_origin ≡ 0) × (s'.epoch.has_start_origin ≡ false)
    pub progress : (s'.next_template_index ≡ 0) × (s'.template_round ≡ 0)
    pub refresh : (s'.refresh_active ≡ false) × (s'.refresh_due ≡ false)
    pub refresh_clock : (s'.last_refresh_mono ≡ 0) × (s'.have_refresh_mono ≡ false)
    pub counters : (s'.packet_count ≡ 0) × (s'.data_message_count ≡ 0)
    pub closed : s'.pending ≡ none
    pub reserved : (s'.last_reserved_wall ≡ wall) × (s'.have_reserved_wall ≡ have_wall)
    pub unready : s'.epoch.ready ≡ false
    pub same_epoch :
        (s'.epoch.id ≡ s.epoch.id)
        × (s'.epoch.protocol ≡ s.epoch.protocol)
        × (s'.epoch.uptime_exhausted ≡ s.epoch.uptime_exhausted)
    pub same_tokens : (s'.next_token ≡ s.next_token) × (s'.next_id ≡ s.next_id)
    pub same_owner : (s'.self ≡ s.self) × (s'.stream ≡ s.stream)
    pub same_setup : (s'.config ≡ s.config) × (s'.catalog ≡ s.catalog)

  discard_unpublished-StartsOver :
      (s : State A) (wall : ℕ) (have_wall : Bool)
      → s.epoch.ready ≡ false
      → StartsOver s wall have_wall
          (record (discard_unpublished
            (record s { last_reserved_wall = wall; have_reserved_wall = have_wall })) {
              pending = none;
            })
  unfolding discard_unpublished
  discard_unpublished-StartsOver s wall have_wall h =
      if_cases (λ t. StartsOver s wall have_wall (record t { pending = none })) s.epoch.ready
        (λ e. absurd (both h e))
        λ _. record {
          sequence = refl;
          origin = (refl, refl);
          progress = (refl, refl);
          refresh = (refl, refl);
          refresh_clock = (refl, refl);
          counters = (refl, refl);
          closed = refl;
          reserved = (refl, refl);
          unready = h;
          same_epoch = (refl, refl, refl);
          same_tokens = (refl, refl);
          same_owner = (refl, refl);
          same_setup = (refl, refl);
        }
    where
      both : {b : Bool} → b ≡ false → b ≡ true → ⊥
      both p q = cc

  discard_unpublished-ready : (s : State A) → s.epoch.ready ≡ true → discard_unpublished s ≡ s
  unfolding discard_unpublished
  discard_unpublished-ready s h = when s.epoch.ready _ h
    where
      when : (b : Bool) (x : State A) → b ≡ true → (if b then s else x) ≡ s
      when b x h = ground arith

  abbrev SameSequence : State A → State A → Type 0
  SameSequence s s' = s'.epoch.sequence ≡ s.epoch.sequence

  commit_template-SameSequence : (s : State A) (mono : ℕ) → SameSequence s (commit_template s mono)
  unfolding commit_template end_round complete
  commit_template-SameSequence s mono =
      let P = SameSequence s in
      if_cases P (s.next_template_index + 1 == length s.catalog)
        (λ _.
          if_cases P (not s.epoch.ready)
            (λ _.
              if_cases P ((s.template_round + 1) % 2 ^ 8 == s.config.initial_copies) (λ _. refl)
                (λ _. refl))
            (λ _.
              if_cases P (s.refresh_active && (s.template_round + 1) % 2 ^ 8 == 1) (λ _. refl)
                (λ _. refl)))
        (λ _. refl)

  counted-sequence :
      (s : State A) (p : Packet) (protocol : Protocol)
      → s.epoch.sequence < 2 ^ 32
      → (commit_sequence s p protocol).epoch.sequence
        ≡ (s.epoch.sequence + sequence_units protocol p) % 2 ^ 32
  unfolding commit_sequence
  counted-sequence s p v5 h = omega arith
  counted-sequence s p v9 h = omega arith
  counted-sequence s p ipfix h = omega arith
  counted-sequence s p other h = omega arith

  commit_full-sequence :
      (s : State A) (p : Packet)
      → s.epoch.sequence < 2 ^ 32
      → (commit_full s p).epoch.sequence
        ≡ (s.epoch.sequence + sequence_units s.config.protocol p) % 2 ^ 32
  unfolding commit_full
  commit_full-sequence s p h =
      marked (mark_refresh_due-Marked _ p.monotonic_nanos)
      ∙ advanced
      ∙ counted-sequence s p s.config.protocol h
    where
      counted : State A
      counted = commit_sequence s p s.config.protocol

      advanced :
          SameSequence counted
            (if p.template_records == 0 then counted else commit_template counted p.monotonic_nanos)
      advanced =
          if_cases (SameSequence counted) (p.template_records == 0) (λ _. refl)
            (λ _. commit_template-SameSequence counted p.monotonic_nanos)

      marked : {x y : State A} → Marked x y → SameSequence x y
      marked (inl e) = ap (λ z. z.epoch.sequence) e
      marked (inr e) = ap (λ z. z.epoch.sequence) e

  -- What a write of the pending packet `p` with a class makes of the state and reports.
  pub data Settled (s : State A) (p : Packet) (class : WriteClass)
      (r : State A × CommitResult × Option Error) : Type 0 where
    -- Only a full write commits, and it moves the sequence on.
    committed :
        class ≡ full
        → r.0.epoch.sequence ≡ (s.epoch.sequence + sequence_units s.config.protocol p) % 2 ^ 32
        → r.0.pending ≡ none
        → (r.1.committed ≡ true) × (r.1.sequence_after ≡ r.0.epoch.sequence)
        → r.2 ≡ none
        → Settled s p class r
    -- After any other legal write a published state is as it was, and a candidate starts over.
    doubtful :
        class ≢ full
        → class ≢ WriteClass.invalid
        → (s.epoch.ready ≡ true → r.0 ≡ record s { pending = none })
        → (s.epoch.ready ≡ false → StartsOver s s.last_reserved_wall s.have_reserved_wall r.0)
        → r.1.committed ≡ false
        → r.2 ≡ none
        → Settled s p class r
    -- A result that breaks the local contract also gives the reserved wall time back.
    broken :
        class ≡ WriteClass.invalid
        → (s.epoch.ready ≡ true
            → r.0 ≡ record s {
              last_reserved_wall = p.prior_reserved_wall;
              have_reserved_wall = p.prior_have_reserved_wall;
              pending = none;
            })
        → (s.epoch.ready ≡ false
            → StartsOver s p.prior_reserved_wall p.prior_have_reserved_wall r.0)
        → r.1.committed ≡ false
        → r.2 ≡ some Error.invalid_write
        → Settled s p class r

  module _ (s : State A) (p : Packet) where
    commit_doubtful-Settled :
        (class : WriteClass)
        → class ≢ full
        → class ≢ WriteClass.invalid
        → Settled s p class (commit_doubtful s, report s (commit_doubtful s) class p false, none)
    unfolding commit_doubtful
    commit_doubtful-Settled class a b =
        doubtful a b (λ h. rw (discard_unpublished-ready s h) refl)
          (discard_unpublished-StartsOver s s.last_reserved_wall s.have_reserved_wall) refl refl

    commit_class-Settled :
        (class : WriteClass)
        → s.epoch.sequence < 2 ^ 32
        → Settled s p class (commit_class s p class)
    unfolding commit_class commit_invalid restore_reservation_wall
    commit_class-Settled full h =
        committed refl (commit_full-sequence s p h) (unfold commit_full in refl) (refl, refl) refl
    commit_class-Settled WriteClass.invalid h =
        broken refl (λ r. rw (discard_unpublished-ready (restore_reservation_wall s p) r) refl)
          (discard_unpublished-StartsOver s p.prior_reserved_wall p.prior_have_reserved_wall) refl
          refl
    commit_class-Settled short_nil h = commit_doubtful-Settled short_nil (λ e. cc) (λ e. cc)
    commit_class-Settled zero_nil h = commit_doubtful-Settled zero_nil (λ e. cc) (λ e. cc)
    commit_class-Settled short_error h = commit_doubtful-Settled short_error (λ e. cc) (λ e. cc)
    commit_class-Settled zero_error h = commit_doubtful-Settled zero_error (λ e. cc) (λ e. cc)
    commit_class-Settled full_error h = commit_doubtful-Settled full_error (λ e. cc) (λ e. cc)

  -- Whether a packet may be committed: it is the pending one, and it is encoded.
  abbrev pub can_commit : State A → Packet → Option Packet → Bool
  can_commit s packet none = false
  can_commit s packet (some q) = is_current s packet (some q) && q.encoded

  -- The answers of `commit`.
  pub data CommitAnswer (s : State A) (packet : Packet) (n : ℤ) (failed : Bool)
      (r : State A × CommitResult × Option Error) : Type 0 where
    stale :
        can_commit s packet s.pending ≡ false
        → r.0 ≡ s
        → r.2 ≡ some transaction
        → CommitAnswer s packet n failed r
    settled :
        (q : Packet)
        → s.pending ≡ some q
        → can_commit s packet (some q) ≡ true
        → Settled s q (classify_write n (to_int q.datagram_length) failed) r
        → CommitAnswer s packet n failed r

  commit_pending-CommitAnswer :
      (s : State A) (packet : Packet) (n : ℤ) (failed : Bool) (pending : Option Packet)
      → s.pending ≡ pending
      → s.epoch.sequence < 2 ^ 32
      → CommitAnswer s packet n failed (commit_pending s packet n failed pending)
  commit_pending-CommitAnswer s packet n failed none e h =
      stale (ap (can_commit s packet) e) refl refl
  commit_pending-CommitAnswer s packet n failed (some q) e h =
      if_cases (CommitAnswer s packet n failed)
        (not (is_current s packet (some q)) || not q.encoded)
        (λ c.
          stale (ap (can_commit s packet) e ∙ refused (is_current s packet (some q)) q.encoded c)
            refl refl)
        (λ c.
          settled q e (accepted (is_current s packet (some q)) q.encoded c)
            (commit_class-Settled s q (classify_write n (to_int q.datagram_length) failed) h))
    where
      refused : (a b : Bool) → (not a || not b) ≡ true → (a && b) ≡ false
      refused a b c = ground arith

      accepted : (a b : Bool) → (not a || not b) ≡ false → (a && b) ≡ true
      accepted a b c = ground arith

  -- A commit of a packet that is not the pending one of this state and epoch, or that was not
  -- encoded, changes nothing. Otherwise a full write moves the sequence on by the records (v5 and
  -- IPFIX) or by one packet (v9), modulo 2^32; any other legal write leaves a published state as it
  -- was but for the pending packet, and makes a candidate start over with its reserved wall time
  -- kept; a broken result does the same and gives the reserved wall time of the packet back.
  pub commit-CommitAnswer :
      (s : State A) (packet : Packet) (n : ℤ) (failed : Bool)
      → s.epoch.sequence < 2 ^ 32
      → CommitAnswer s packet n failed (commit s packet n failed)
  unfolding commit
  commit-CommitAnswer s packet n failed h =
      commit_pending-CommitAnswer s packet n failed s.pending refl h
