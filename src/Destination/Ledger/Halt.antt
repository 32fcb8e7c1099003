-- ===== src/Destination/Ledger/Halt.antt =====
-- What a ledger that has stopped still does.
pub mod Stops
use mathlib.Core.Bool.{false≢true}
use otelcol_exporter_netflow.Common.{
  ℕ, ◌+◌, ◌<◌, ◌≡◌, refl, ap, sym, ◌∙◌, ◌≢◌, Bool, true, false, not, ◌&&◌, ◌||◌, ltb, leb, ◌==◌,
  if◌then◌else◌, if_cases, arith, inl, inr, List, [], ◌∷◌, length, Option, some,
}
use otelcol_exporter_netflow.Common.Int.{ℤ}
use otelcol_exporter_netflow.Destination.WriteClass.{WriteClass, classify_write}
use otelcol_exporter_netflow.Destination.Ledger.Store.{
  SourceClass, uncovered, unsent_valid, ambiguous, is_unsent,
}
use otelcol_exporter_netflow.Destination.Ledger.Store.Ranges.{marked}
use otelcol_exporter_netflow.Destination.Ledger.Tally.{is_confirmed, is_ambiguous, is_pending}
use otelcol_exporter_netflow.Destination.Ledger.{
  SourceLedger, RejectionReason, LedgerError, bad_ordinal, bad_packet, stopped_packets,
  add_source_reason, invalidate, begin_packet, add_pending, resolve_packet, resolve_class,
  abort_packet, is_invalid_write, classification, Resolution,
}
use otelcol_exporter_netflow.Destination.Ledger.Invariant.{Inv}
use otelcol_exporter_netflow.Destination.Ledger.Resolve.{
  ResolveAnswer, broken, idle, delivered, doubtful, resolve_packet-ResolveAnswer,
  resolve_packet-Inv, resolve_packet_unconfirmed,
}
use otelcol_exporter_netflow.Destination.Ledger.Sources.{
  add_source_reason-Added, add_source_reason_refused, invalidate-Invalidated, invalidate_refused,
}
use otelcol_exporter_netflow.Destination.Ledger.Packets.{abort_packet-Inv}
use otelcol_exporter_netflow.Destination.Ledger.History.{
  Call, adds, invalidates, begins, pends, resolves, aborts, step, run, step-Inv, can_add?,
  can_invalidate?,
}

-- A ledger that takes no more packets.
pub record IsHalted (l : SourceLedger) : Type 0 where
  pub no_more : l.stopped ≡ true
  pub no_packet : l.packet_open ≡ false

-- Two classes that say the same of delivery: whether the record is confirmed, and whether it is
-- ambiguous.
abbrev pub SameMark : SourceClass → SourceClass → Type 0
SameMark a b = (is_confirmed b ≡ is_confirmed a) × (is_ambiguous b ≡ is_ambiguous a)

-- What has been delivered is the same in both ledgers, record by record and in the counters.
pub record SameDelivery (l l' : SourceLedger) : Type 0 where
  pub halted : IsHalted l'
  pub confirmed_same : l'.confirmed ≡ l.confirmed
  pub ambiguous_same : l'.ambiguous ≡ l.ambiguous
  pub records : (o : ℕ) → SameMark (classification l o) (classification l' o)

SameDelivery-refl : (l : SourceLedger) → IsHalted l → SameDelivery l l
SameDelivery-refl l h = record {
  halted = h;
  confirmed_same = refl;
  ambiguous_same = refl;
  records = λ o. (refl, refl);
}

pub SameDelivery-trans :
    (k l m : SourceLedger) → SameDelivery k l → SameDelivery l m → SameDelivery k m
SameDelivery-trans k l m one rest = record {
  halted = rest.halted;
  confirmed_same = rest.confirmed_same ∙ one.confirmed_same;
  ambiguous_same = rest.ambiguous_same ∙ one.ambiguous_same;
  records = λ o. ((rest.records o).0 ∙ (one.records o).0, (rest.records o).1 ∙ (one.records o).1);
}

module _ (l : SourceLedger) (h : IsHalted l) where
  Keeps : SourceLedger × Option LedgerError → Type 0
  Keeps r = SameDelivery l r.0

  unchanged : (e : LedgerError) → Keeps (l, some e)
  unfolding Keeps
  unchanged e = SameDelivery-refl l h

  still :
      (l' : SourceLedger) → l'.packet_open ≡ l.packet_open → l'.stopped ≡ l.stopped → IsHalted l'
  still l' opened stopped = record {
    no_more = stopped ∙ h.no_more;
    no_packet = opened ∙ h.no_packet;
  }

  entered : (ok : Bool) → SameMark uncovered (if ok then unsent_valid else SourceClass.invalid)
  entered true = (refl, refl)
  entered false = (refl, refl)

  -- One ordinal gets a class with the same marks, and no other changes.
  one_changed :
      (ordinal o : ℕ) (new : SourceClass)
      → SameMark (classification l ordinal) new
      → SameMark (classification l o) (if o == ordinal then new else classification l o)
  one_changed ordinal o new m =
      if_cases (SameMark (classification l o)) (o == ordinal)
        (λ e. let e' : o ≡ ordinal = ground arith in rw e' m) (λ _. (refl, refl))

  add-Keeps :
      (ordinal : ℕ) (ok : Bool) (reason : RejectionReason)
      → Inv l
      → Keeps (add_source_reason l ordinal ok reason)
  unfolding Keeps classification
  add-Keeps ordinal ok reason v = elim (can_add? l ordinal v) [
    | inl (e, small) ↦
        let a = (add_source_reason-Added l ordinal ok reason v e small).0 in
        record {
          halted = still _ a.packet.0 a.packet.2;
          confirmed_same = a.delivery.0;
          ambiguous_same = a.delivery.1;
          records = λ o. rw (a.classes o) (
              one_changed ordinal o _
                (let d : leb l.covered ordinal ≡ true = ground arith in rw d (entered ok)));
        }
    | inr r ↦ rw (add_source_reason_refused l ordinal ok reason r) (unchanged bad_ordinal)
  ]

  invalidate-Keeps :
      (ordinal : ℕ) (reason : RejectionReason) → Inv l → Keeps (invalidate l ordinal reason)
  unfolding Keeps classification
  invalidate-Keeps ordinal reason v = elim (can_invalidate? l ordinal) [
    | inl (covered, unsent, free) ↦
        let i = (invalidate-Invalidated l ordinal reason v (covered, unsent, free)).0 in
        record {
          halted = still _ i.packet.0 i.packet.2;
          confirmed_same = i.delivery.0;
          ambiguous_same = i.delivery.1;
          records = λ o. rw (i.classes o) (
              one_changed ordinal o _ (
                let d : leb l.covered ordinal ≡ false = ground arith in
                rw (d, unsent) (refl, refl)));
        }
    | inr r ↦ rw (invalidate_refused l ordinal reason r) (unchanged bad_ordinal)
  ]

  -- A call that is refused for the reason that the ledger has stopped, or has no packet.
  refused_here :
      (b : Bool) (e : LedgerError) (r : SourceLedger × Option LedgerError)
      → b ≡ true
      → Keeps (if b then (l, some e) else r)
  refused_here b e r t = rw t (unchanged e)

  resolve-Keeps : (class : WriteClass) → SameDelivery l (resolve_class l class).0
  resolve-Keeps class =
      let P : SourceLedger × Resolution × Option LedgerError → Type 0 = λ r. SameDelivery l r.0 in
      if_cases P (is_invalid_write class) (λ _. SameDelivery-refl l h)
        λ _.
          if_cases P (not l.packet_open || l.packet_valid == 0) (λ _. SameDelivery-refl l h)
            λ some_packet.
              absurd (closed_packet l.packet_open l.packet_valid h.no_packet some_packet)
    where
      closed_packet : (b : Bool) (k : ℕ) → b ≡ false → (not b || k == 0) ≡ false → ⊥
      closed_packet b k e p = ground arith

step-SameDelivery : (l : SourceLedger) (c : Call) → IsHalted l → Inv l → SameDelivery l (step l c)
unfolding step Keeps begin_packet add_pending abort_packet resolve_packet
step-SameDelivery l (adds ordinal ok reason) h v = add-Keeps l h ordinal ok reason v
step-SameDelivery l (invalidates ordinal reason) h v = invalidate-Keeps l h ordinal reason v
step-SameDelivery l begins h v = refused_here l h l.stopped stopped_packets _ h.no_more
step-SameDelivery l (pends ordinal) h v = refused_here l h l.stopped stopped_packets _ h.no_more
step-SameDelivery l (resolves n length failed) h v =
    resolve-Keeps l h (classify_write n length failed)
step-SameDelivery l aborts h v =
    refused_here l h (not l.packet_open) bad_packet _ (ap not h.no_packet)

-- Once a ledger that satisfies the invariant is halted, no calls confirm a record or make one
-- ambiguous, or take either mark away, and it stays halted.
pub run-SameDelivery :
    (l : SourceLedger) (cs : List Call) → IsHalted l → Inv l → SameDelivery l (run l cs)
unfolding run
run-SameDelivery l [] h v = SameDelivery-refl l h
run-SameDelivery l (c ∷ cs) h v =
    let one : SameDelivery l (step l c) = step-SameDelivery l c h v in
    SameDelivery-trans l (step l c) _ one
      (run-SameDelivery (step l c) cs one.halted (step-Inv l c v))
