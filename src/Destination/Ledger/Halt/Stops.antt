-- ===== src/Destination/Ledger/Halt/Stops.antt =====
-- The two calls that stop a ledger, and what any calls behind them leave.
use mathlib.Core.Bool.{false≢true}
use otelcol_exporter_netflow.Common.{
  ℕ, ◌+◌, ◌<◌, ◌≡◌, refl, ap, sym, ◌∙◌, ◌≢◌, Bool, true, false, not, ◌&&◌, ◌||◌, ltb, leb,
  if◌then◌else◌, arith, inl, inr, List, length, Option,
}
use otelcol_exporter_netflow.Common.Int.{ℤ}
use otelcol_exporter_netflow.Destination.WriteClass.{WriteClass, classify_write}
use otelcol_exporter_netflow.Destination.Ledger.Store.{SourceClass, ambiguous, is_unsent}
use otelcol_exporter_netflow.Destination.Ledger.Store.Ranges.{marked}
use otelcol_exporter_netflow.Destination.Ledger.Tally.{is_confirmed, is_ambiguous, is_pending}
use otelcol_exporter_netflow.Destination.Ledger.{
  SourceLedger, LedgerError, resolve_packet, abort_packet, classification, Resolution,
}
use otelcol_exporter_netflow.Destination.Ledger.Invariant.{Inv}
use otelcol_exporter_netflow.Destination.Ledger.Resolve.{
  ResolveAnswer, broken, idle, delivered, doubtful, resolve_packet-ResolveAnswer,
  resolve_packet-Inv, resolve_packet_unconfirmed,
}
use otelcol_exporter_netflow.Destination.Ledger.Packets.{abort_packet-Inv}
use otelcol_exporter_netflow.Destination.Ledger.History.{Call, run}
use otelcol_exporter_netflow.Destination.Ledger.Halt.{
  IsHalted, SameDelivery, SameDelivery-trans, run-SameDelivery,
}

-- A write that is neither full nor a broken result halts the ledger.
abbrev pub IsDoubtful : WriteClass → Type 0
IsDoubtful class = (class ≢ WriteClass.full) × (class ≢ WriteClass.invalid)

answer-IsHalted :
    (l : SourceLedger) (class : WriteClass) (r : SourceLedger × Resolution × Option LedgerError)
    → l.packet_open ≡ true
    → 0 < l.packet_valid
    → IsDoubtful class
    → ResolveAnswer l class r
    → IsHalted r.0
answer-IsHalted l class r opened k d (broken c e x) = absurd (d.1 c)
answer-IsHalted l class r opened k d (idle (inl c) e x) = absurd (false≢true (sym c ∙ opened))
answer-IsHalted l class r opened k d (idle (inr c) e x) = absurd (omega arith)
answer-IsHalted l class r opened k d (delivered c s a b x e f) = absurd (d.0 c)
answer-IsHalted l class r opened k d (doubtful c x s a b y e f) = record {
  no_more = e;
  no_packet = s.over.0;
}

-- What is left of a ledger whose packet had a doubtful write: the packet's records are ambiguous,
-- and nothing else is delivered.
pub record Doubted (l final : SourceLedger) : Type 0 where
  pub halted : IsHalted final
  pub confirmed_same : final.confirmed ≡ l.confirmed
  pub ambiguous_more : final.ambiguous ≡ l.ambiguous + l.packet_valid
  pub confirmed_records :
      (o : ℕ) → is_confirmed (classification final o) ≡ is_confirmed (classification l o)
  pub ambiguous_records :
      (o : ℕ)
      → is_ambiguous (classification final o) ≡ (
          is_pending (classification l) l.packet_start l.packet_end o
          || is_ambiguous (classification l o))

marks_of :
    (start end o : ℕ) (old : SourceClass)
    → let new = marked start end ambiguous o old in
      (is_confirmed new ≡ is_confirmed old)
      × (is_ambiguous new ≡ (leb start o && ltb o end && is_unsent old || is_ambiguous old))
marks_of start end o old = ground arith

answer-Doubted :
    (l : SourceLedger) (class : WriteClass) (r : SourceLedger × Resolution × Option LedgerError)
    (final : SourceLedger)
    → l.packet_open ≡ true
    → 0 < l.packet_valid
    → IsDoubtful class
    → r.0.confirmed ≡ l.confirmed
    → ResolveAnswer l class r
    → SameDelivery r.0 final
    → Doubted l final
answer-Doubted l class r final opened k d same (broken c e x) rest = absurd (d.1 c)
answer-Doubted l class r final opened k d same (idle (inl c) e x) rest =
    absurd (false≢true (sym c ∙ opened))
answer-Doubted l class r final opened k d same (idle (inr c) e x) rest = absurd (omega arith)
answer-Doubted l class r final opened k d same (delivered c s a b x e f) rest = absurd (d.0 c)
answer-Doubted l class r final opened k d same (doubtful c x s a b y e f) rest = record {
  halted = rest.halted;
  confirmed_same = rest.confirmed_same ∙ same;
  ambiguous_more = rest.ambiguous_same ∙ a;
  confirmed_records = λ o.
      (rest.records o).0
      ∙ ap is_confirmed (s.classes o)
      ∙ (marks_of l.packet_start l.packet_end o (classification l o)).0;
  ambiguous_records = λ o.
      (rest.records o).1
      ∙ ap is_ambiguous (s.classes o)
      ∙ (marks_of l.packet_start l.packet_end o (classification l o)).1;
}

-- After a packet with pending records is written with any legal outcome but a full write, and
-- whatever calls follow, exactly the records that were pending are newly ambiguous and none is newly
-- confirmed, in the classifications and in the counters, and the ledger takes no more packets.
pub doubtful-Doubted :
    (l : SourceLedger) (n length : ℤ) (failed : Bool) (cs : List Call)
    → Inv l
    → l.packet_open ≡ true
    → 0 < l.packet_valid
    → IsDoubtful (classify_write n length failed)
    → Doubted l (run (resolve_packet l n length failed).0 cs)
doubtful-Doubted l n length failed cs v opened k d =
    let answer = resolve_packet-ResolveAnswer l n length failed v in
    answer-Doubted l _ _ _ opened k d (resolve_packet_unconfirmed l n length failed d.0) answer (
      run-SameDelivery _ cs (answer-IsHalted l _ _ opened k d answer)
        (resolve_packet-Inv l n length failed v))

-- An aborted packet leaves every classification as it was, and whatever calls follow, no record is
-- newly confirmed or ambiguous, in the classifications and in the counters.
pub abort_packet-SameDelivery :
    (l : SourceLedger) (cs : List Call)
    → Inv l
    → l.packet_open ≡ true
    → let l' = (abort_packet l).0 in
      ((o : ℕ) → classification l' o ≡ classification l o) × SameDelivery l (run l' cs)
abort_packet-SameDelivery l cs v opened =
    let closed : SameDelivery l (abort_packet l).0 = rw e (
      unfold classification in
      record {
        halted = record { no_more = refl; no_packet = refl };
        confirmed_same = refl;
        ambiguous_same = refl;
        records = λ o. (refl, refl);
      }) in
    (
      λ o. rw e (unfold classification in refl),
      SameDelivery-trans l (abort_packet l).0 _ closed
          (run-SameDelivery _ cs closed.halted (abort_packet-Inv l v)),
    )
  where
    e : (abort_packet l).0 ≡ record l {
      packet_open = false;
      packet_start = 0;
      packet_end = 0;
      packet_valid = 0;
      stopped = true;
    }
    e = unfold abort_packet in opened_if l.packet_open _ _ opened
      where
        opened_if :
            (b : Bool) (x y : SourceLedger × Option LedgerError)
            → b ≡ true
            → (if not b then x else y).0 ≡ y.0
        opened_if b x y h = ground arith
