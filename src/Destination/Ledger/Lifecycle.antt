-- ===== src/Destination/Ledger/Lifecycle.antt =====
-- How the classification of one ordinal may change.
use otelcol_exporter_netflow.Common.{
  ℕ, ◌≡◌, refl, ap, ◌∙◌, Bool, true, false, not, ◌&&◌, ltb, leb, ◌==◌, if◌then◌else◌, if_cases,
  arith, inl, inr, List, [], ◌∷◌, length, Option, ◌⊎◌,
}
use otelcol_exporter_netflow.Destination.WriteClass.{WriteClass}
use otelcol_exporter_netflow.Destination.Ledger.Store.{
  SourceClass, uncovered, unsent_valid, confirmed, ambiguous, is_unsent,
}
use otelcol_exporter_netflow.Destination.Ledger.Store.Ranges.{marked}
use otelcol_exporter_netflow.Destination.Ledger.{
  SourceLedger, RejectionReason, LedgerError, add_source_reason, invalidate, begin_packet,
  add_pending, abort_packet, classification, Resolution,
}
use otelcol_exporter_netflow.Destination.Ledger.Invariant.{Inv}
use otelcol_exporter_netflow.Destination.Ledger.Sources.{
  add_source_reason-Added, add_source_reason_refused, invalidate-Invalidated, invalidate_refused,
}
use otelcol_exporter_netflow.Destination.Ledger.Packets.{add_pending-Answered}
use otelcol_exporter_netflow.Destination.Ledger.Resolve.{
  Resolved, ResolveAnswer, broken, idle, delivered, doubtful, resolve_packet-ResolveAnswer,
}
use otelcol_exporter_netflow.Destination.Ledger.History.{
  Call, adds, invalidates, begins, pends, resolves, aborts, step, run, step-Inv, can_invalidate?,
  can_add?,
}

-- The changes that a record's class may go through.
pub data Transition : SourceClass → SourceClass → Type 0 where
  stays : (c : SourceClass) → Transition c c
  accepted : Transition uncovered unsent_valid
  rejected : Transition uncovered SourceClass.invalid
  invalidated : Transition unsent_valid SourceClass.invalid
  sent : Transition unsent_valid confirmed
  doubted : Transition unsent_valid ambiguous

abbrev Moves : SourceLedger → SourceLedger → Type 0
Moves l l' = (o : ℕ) → Transition (classification l o) (classification l' o)

same_class : {a b : SourceClass} → b ≡ a → Transition a b
same_class {a} e = rw e (stays a)

unmoved : (l l' : SourceLedger) → l' ≡ l → Moves l l'
unmoved l l' e o = same_class (ap (λ k. classification k o) e)

settles :
    (final : SourceClass)
    → (final ≡ confirmed) ⊎ (final ≡ ambiguous)
    → Transition unsent_valid final
settles final (inl e) = rw e sent
settles final (inr e) = rw e doubted

is_unsent-eq : (c : SourceClass) → is_unsent c ≡ true → c ≡ unsent_valid
is_unsent-eq c h = ground arith

marked_move :
    (start end o : ℕ) (final old : SourceClass)
    → (final ≡ confirmed) ⊎ (final ≡ ambiguous)
    → Transition old (marked start end final o old)
marked_move start end o final old h =
    if_cases (Transition old) (leb start o && ltb o end && is_unsent old)
      (λ e. rw (is_unsent-eq old (ground arith)) (settles final h)) (λ _. stays old)

Resolved-Moves :
    (l l' : SourceLedger) (final : SourceClass)
    → (final ≡ confirmed) ⊎ (final ≡ ambiguous)
    → Resolved l final l'
    → Moves l l'
Resolved-Moves l l' final h r o =
    rw (r.classes o) (marked_move l.packet_start l.packet_end o final (classification l o) h)

resolve-Moves :
    (l : SourceLedger) (class : WriteClass) (r : SourceLedger × Resolution × Option LedgerError)
    → ResolveAnswer l class r
    → Moves l r.0
resolve-Moves l class r (broken c e d) = unmoved l r.0 e
resolve-Moves l class r (idle c e d) = unmoved l r.0 e
resolve-Moves l class r (delivered c s a b d e f) = Resolved-Moves l r.0 confirmed (inl refl) s
resolve-Moves l class r (doubtful c k s a b d e f) = Resolved-Moves l r.0 ambiguous (inr refl) s

changed :
    (l : SourceLedger) (ordinal o : ℕ) (new : SourceClass)
    → Transition (classification l ordinal) new
    → Transition (classification l o) (if o == ordinal then new else classification l o)
changed l ordinal o new t =
    if_cases (Transition (classification l o)) (o == ordinal)
      (λ e. let e' : o ≡ ordinal = ground arith in rw e' t) (λ _. stays (classification l o))

enters : (ok : Bool) → Transition uncovered (if ok then unsent_valid else SourceClass.invalid)
enters true = accepted
enters false = rejected

add-Moves :
    (l : SourceLedger) (ordinal : ℕ) (ok : Bool) (reason : RejectionReason)
    → Inv l
    → Moves l (add_source_reason l ordinal ok reason).0
unfolding classification
add-Moves l ordinal ok reason v = elim (can_add? l ordinal v) [
  | inl (e, h) ↦ λ o. rw ((add_source_reason-Added l ordinal ok reason v e h).0.classes o) (
      changed l ordinal o _
        (let d : leb l.covered ordinal ≡ true = ground arith in rw d (enters ok)))
  | inr h ↦ unmoved l _ (ap (λ r. r.0) (add_source_reason_refused l ordinal ok reason h))
]

invalidate-Moves :
    (l : SourceLedger) (ordinal : ℕ) (reason : RejectionReason)
    → Inv l
    → Moves l (invalidate l ordinal reason).0
unfolding classification
invalidate-Moves l ordinal reason v = elim (can_invalidate? l ordinal) [
  | inl (h, u, free) ↦ λ o.
      rw ((invalidate-Invalidated l ordinal reason v (h, u, free)).0.classes o) (
        changed l ordinal o _
          (let d : leb l.covered ordinal ≡ false = ground arith in rw (d, u) invalidated))
  | inr h ↦ unmoved l _ (ap (λ r. r.0) (invalidate_refused l ordinal reason h))
]

abbrev MovesFrom : SourceLedger → SourceLedger × Option LedgerError → Type 0
MovesFrom l r = Moves l r.0

begin-Moves : (l : SourceLedger) → Moves l (begin_packet l).0
unfolding begin_packet classification
begin-Moves l =
    if_cases (MovesFrom l) l.stopped (λ _. unmoved l l refl)
      λ _. if_cases (MovesFrom l) l.packet_open (λ _. unmoved l l refl) λ _. λ o. stays _

abort-Moves : (l : SourceLedger) → Moves l (abort_packet l).0
unfolding abort_packet classification
abort-Moves l = if_cases (MovesFrom l) (not l.packet_open) (λ _. unmoved l l refl) λ _. λ o. stays _

pend-Moves : (l : SourceLedger) (ordinal : ℕ) → Inv l → Moves l (add_pending l ordinal).0
unfolding classification
pend-Moves l ordinal v = elim (add_pending-Answered l ordinal v) [
  | inl (_, e) ↦ unmoved l _ e
  | inr (_, j) ↦ λ o. same_class (rw (j.stays.0, j.stays.1))
]

-- One call on a ledger changes the classification of an ordinal, if at all, from uncovered to
-- unsent or invalid, or from unsent to invalid, confirmed or ambiguous.
pub step-Transition :
    (l : SourceLedger) (c : Call)
    → Inv l
    → (o : ℕ) → Transition (classification l o) (classification (step l c) o)
unfolding step
step-Transition l (adds ordinal ok reason) v = add-Moves l ordinal ok reason v
step-Transition l (invalidates ordinal reason) v = invalidate-Moves l ordinal reason v
step-Transition l begins v = begin-Moves l
step-Transition l (pends ordinal) v = pend-Moves l ordinal v
step-Transition l (resolves n length failed) v =
    resolve-Moves l _ _ (resolve_packet-ResolveAnswer l n length failed v)
step-Transition l aborts v = abort-Moves l

-- The classes that a record keeps for good.
abbrev pub is_final : SourceClass → Bool
is_final uncovered = false
is_final unsent_valid = false
is_final other_class = true

final_stays : {a b : SourceClass} → Transition a b → is_final a ≡ true → b ≡ a
final_stays (stays c) h = refl
final_stays accepted h = cc
final_stays rejected h = cc
final_stays invalidated h = cc
final_stays sent h = cc
final_stays doubted h = cc

-- A confirmed, ambiguous or invalid ordinal keeps its classification whatever calls follow.
pub run-keeps_final :
    (l : SourceLedger) (cs : List Call) (o : ℕ)
    → Inv l
    → is_final (classification l o) ≡ true
    → classification (run l cs) o ≡ classification l o
unfolding run
run-keeps_final l [] o v h = refl
run-keeps_final l (c ∷ cs) o v h =
    let e : classification (step l c) o ≡ classification l o =
      final_stays (step-Transition l c v o) h in
    run-keeps_final (step l c) cs o (step-Inv l c v) (ap is_final e ∙ h) ∙ e
