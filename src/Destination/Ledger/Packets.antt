-- ===== src/Destination/Ledger/Packets.antt =====
-- Packets of pending ordinals: begin, add, resolve and abort.
use otelcol_exporter_netflow.Common.{
  ℕ, ◌+◌, ◌-◌, ◌≤◌, ◌<◌, ◌≡◌, refl, ◌≢◌, true, false, not, ◌||◌, ltb, leb, ◌==◌, if_cases, arith,
  inl, inr, List, Option, some, none, ◌⊎◌,
}
use otelcol_exporter_netflow.Destination.Ledger.Store.{
  SourceClass, unsent_valid, is_unsent, is_invalid, stored_class, invalid_gap,
}
use otelcol_exporter_netflow.Destination.Ledger.Store.Ranges.{invalid_gap_loop_sound}
use otelcol_exporter_netflow.Destination.Ledger.Window.{Window-empty, Window-first, Window-next}
use otelcol_exporter_netflow.Destination.Ledger.{
  SourceLedger, LedgerError, bad_ordinal, bad_packet, stopped_packets, over_capacity, begin_packet,
  add_pending, abort_packet, add64, max_uint64,
}
use otelcol_exporter_netflow.Destination.Ledger.Invariant.{Inv, at}

abbrev Keeps : SourceLedger × Option LedgerError → Type 0
Keeps r = Inv r.0

pub begin_packet-Inv : (l : SourceLedger) → Inv l → Inv (begin_packet l).0
unfolding begin_packet
begin_packet-Inv l v =
    if_cases Keeps l.stopped (λ _. v) (λ _. if_cases Keeps l.packet_open (λ _. v) (λ _. started))
  where
    started :
        Inv (record l { packet_open = true; packet_start = 0; packet_end = 0; packet_valid = 0 })
    started = record {
      store = v.store;
      fits = v.fits;
      tallies = v.tallies;
      histogram = v.histogram;
      window = Window-empty (at l) l.covered _ _ _ _ v.window;
      closed = inl refl;
    }

pub abort_packet-Inv : (l : SourceLedger) → Inv l → Inv (abort_packet l).0
unfolding abort_packet
abort_packet-Inv l v =
    if_cases Keeps (not l.packet_open) (λ _. v)
      (λ _. record {
        store = v.store;
        fits = v.fits;
        tallies = v.tallies;
        histogram = v.histogram;
        window = Window-empty (at l) l.covered _ _ _ _ v.window;
        closed = inr (refl, refl);
      })

gap_invalid :
    (s : List ℕ) (start end : ℕ)
    → invalid_gap s start end ≡ true
    → (o : ℕ) → start ≤ o
    → o < end
    → is_invalid (stored_class s o) ≡ true
gap_invalid s start end h o a b = invalid_gap_loop_sound s (end - start) start o h a (omega arith)

-- The two ways in which an ordinal joins the packet.
first_pending : SourceLedger → ℕ → SourceLedger
first_pending l ordinal = record l {
  packet_start = ordinal;
  packet_end = add64 ordinal 1;
  packet_valid = 1;
}

next_pending : SourceLedger → ℕ → SourceLedger
next_pending l ordinal = record l {
  packet_end = add64 ordinal 1;
  packet_valid = add64 l.packet_valid 1;
}

first_pending-Inv :
    (l : SourceLedger) (ordinal : ℕ)
    → Inv l
    → l.packet_open ≡ true
    → ordinal < l.covered
    → is_unsent (at l ordinal) ≡ true
    → invalid_gap l.classes l.packet_floor ordinal ≡ true
    → Inv (first_pending l ordinal)
unfolding first_pending
first_pending-Inv l ordinal v opened h unsent gap =
    let e : add64 ordinal 1 ≡ ordinal + 1 = omega (arith, v.fits) in
    rw e (record {
      store = v.store;
      fits = v.fits;
      tallies = v.tallies;
      histogram = v.histogram;
      window =
          Window-first (at l) l.covered _ _ _ _ v.window ordinal h unsent
            (gap_invalid l.classes l.packet_floor ordinal gap);
      closed = inl opened;
    })

next_pending-Inv :
    (l : SourceLedger) (ordinal : ℕ)
    → Inv l
    → l.packet_open ≡ true
    → ordinal < l.covered
    → is_unsent (at l ordinal) ≡ true
    → l.packet_valid < 1024
    → l.packet_end ≤ ordinal
    → invalid_gap l.classes l.packet_end ordinal ≡ true
    → Inv (next_pending l ordinal)
unfolding next_pending
next_pending-Inv l ordinal v opened h unsent room after gap =
    let e : add64 ordinal 1 ≡ ordinal + 1 = omega (arith, v.fits) in
    let d : add64 l.packet_valid 1 ≡ l.packet_valid + 1 = omega arith in
    rw (e, d)
      (record {
        store = v.store;
        fits = v.fits;
        tallies = v.tallies;
        histogram = v.histogram;
        window =
            Window-next (at l) l.covered _ _ _ _ v.window ordinal h room after unsent
              (gap_invalid l.classes l.packet_end ordinal gap);
        closed = inl opened;
      })

-- The ledger in which `ordinal` has joined the packet.
pub record Joined (l : SourceLedger) (ordinal : ℕ) (l' : SourceLedger) : Type 0 where
  pub inv : Inv l'
  pub one_more : l'.packet_valid ≡ l.packet_valid + 1
  pub reaches : l'.packet_end ≡ ordinal + 1
  pub stays : (l'.classes ≡ l.classes) × (l'.covered ≡ l.covered) × (l'.stopped ≡ l.stopped)
  pub unsent : (ordinal < l.covered) × (at l ordinal ≡ unsent_valid)
  pub active : (l.stopped ≡ false) × (l.packet_open ≡ true) × (l'.packet_open ≡ true)

-- `add_pending` refuses with the ledger as it was, or the ordinal joins.
abbrev pub Answered : SourceLedger → ℕ → SourceLedger × Option LedgerError → Type 0
Answered l ordinal r = (r.1 ≢ none × (r.0 ≡ l)) ⊎ ((r.1 ≡ none) × Joined l ordinal r.0)

is_unsent-eq : (c : SourceClass) → is_unsent c ≡ true → c ≡ unsent_valid
is_unsent-eq c h = ground arith

first_pending-Joined :
    (l : SourceLedger) (ordinal : ℕ)
    → Inv l
    → l.stopped ≡ false
    → l.packet_open ≡ true
    → ordinal < l.covered
    → is_unsent (at l ordinal) ≡ true
    → l.packet_valid ≡ 0
    → invalid_gap l.classes l.packet_floor ordinal ≡ true
    → Joined l ordinal (first_pending l ordinal)
first_pending-Joined l ordinal v going opened h unsent k gap = record {
  inv = first_pending-Inv l ordinal v opened h unsent gap;
  one_more = unfold first_pending in omega arith;
  reaches = unfold first_pending in omega (arith, v.fits);
  stays = unfold first_pending in (refl, refl, refl);
  unsent = (h, is_unsent-eq _ unsent);
  active = unfold first_pending in (going, opened, opened);
}

next_pending-Joined :
    (l : SourceLedger) (ordinal : ℕ)
    → Inv l
    → l.stopped ≡ false
    → l.packet_open ≡ true
    → ordinal < l.covered
    → is_unsent (at l ordinal) ≡ true
    → l.packet_valid < 1024
    → l.packet_end ≤ ordinal
    → invalid_gap l.classes l.packet_end ordinal ≡ true
    → Joined l ordinal (next_pending l ordinal)
next_pending-Joined l ordinal v going opened h unsent room after gap = record {
  inv = next_pending-Inv l ordinal v opened h unsent room after gap;
  one_more = unfold next_pending in omega arith;
  reaches = unfold next_pending in omega (arith, v.fits);
  stays = unfold next_pending in (refl, refl, refl);
  unsent = (h, is_unsent-eq _ unsent);
  active = unfold next_pending in (going, opened, opened);
}

refused : (l : SourceLedger) (ordinal : ℕ) (e : LedgerError) → Answered l ordinal (l, some e)
refused l ordinal e = inl ((λ p. cc), refl)

-- `add_pending` refuses with an error and the ledger as it was, or the ordinal joins the packet:
-- it was covered and unsent, the packet was open and the ledger not stopped, the packet has one
-- more pending ordinal and ends behind it, the store, the covered prefix and the stop flag stay, and
-- the invariant holds.
pub add_pending-Answered :
    (l : SourceLedger) (ordinal : ℕ) → Inv l → Answered l ordinal (add_pending l ordinal)
unfolding add_pending first_pending next_pending
add_pending-Answered l ordinal v =
    let P = Answered l ordinal in
    if_cases P l.stopped (λ _. refused l ordinal stopped_packets)
      λ going.
        if_cases P (not l.packet_open) (λ _. refused l ordinal bad_packet)
          λ opened.
            if_cases P (leb l.covered ordinal || not (is_unsent (at l ordinal)))
              (λ _. refused l ordinal bad_ordinal)
              λ here.
                if_cases P (leb 1024 l.packet_valid || ordinal == max_uint64)
                  (λ _. refused l ordinal over_capacity)
                  λ room.
                    if_cases P (l.packet_valid == 0)
                      (λ fresh.
                        if_cases P (not (invalid_gap l.classes l.packet_floor ordinal))
                          (λ _. refused l ordinal bad_ordinal)
                          λ gap. inr (
                            refl,
                            first_pending-Joined l ordinal v going (ground arith) (ground arith)
                                (ground arith) (ground arith) (ground arith),
                          ))
                      (λ more.
                        if_cases P (ltb ordinal l.packet_end) (λ _. refused l ordinal bad_ordinal)
                          λ after.
                            if_cases P (not (invalid_gap l.classes l.packet_end ordinal))
                              (λ _. refused l ordinal bad_ordinal)
                              λ gap. inr (
                                refl,
                                next_pending-Joined l ordinal v going (ground arith) (ground arith)
                                    (ground arith) (ground arith) (ground arith) (ground arith),
                              ))
