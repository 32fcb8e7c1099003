-- ===== src/Destination/Ledger/History.antt =====
-- Any sequence of calls on one ledger.
use otelcol_exporter_netflow.Common.{
  ℕ, ◌+◌, ◌-◌, ◌^◌, ◌≤◌, ◌<◌, ◌≡◌, refl, ap, sym, ◌∙◌, ◌≢◌, Bool, true, false, ◌&&◌, ◌||◌, ltb, leb,
  if◌then◌else◌, arith, Bool-cases, inl, inr, List, [], ◌∷◌, length, ◌⊎◌,
}
use mathlib.Core.Bool.{false≢true}
use native.Mathlib.Decide.{ℕ_discrete}
use otelcol_exporter_netflow.Common.Int.{ℤ}
use otelcol_exporter_netflow.Common.Count.{count, count-congr}
use otelcol_exporter_netflow.Destination.Ledger.Store.{
  SourceClass, uncovered, unsent_valid, is_unsent, is_invalid,
}
use otelcol_exporter_netflow.Destination.Ledger.Tally.{Tallies-parts}
use otelcol_exporter_netflow.Destination.Ledger.Window.{is_settled}
use otelcol_exporter_netflow.Destination.Ledger.{
  SourceLedger, RejectionReason, new_source_ledger, add_source_reason, invalidate, begin_packet,
  add_pending, resolve_packet, abort_packet, classification, counts,
}
use otelcol_exporter_netflow.Destination.Ledger.Invariant.{
  Inv, at, covered-ne-uncovered, Inv-total, Inv-parts, new_source_ledger-Inv, sum,
}
use otelcol_exporter_netflow.Destination.Ledger.Sources.{
  add_source_reason-Added, add_source_reason_refused, CanInvalidate, invalidate-Invalidated,
  invalidate_refused,
}
use otelcol_exporter_netflow.Destination.Ledger.Packets.{
  begin_packet-Inv, abort_packet-Inv, add_pending-Answered,
}
use otelcol_exporter_netflow.Destination.Ledger.Resolve.{resolve_packet-Inv}
use otelcol_exporter_netflow.Destination.Ledger.Tally.{is_confirmed, is_ambiguous}

-- One call, with its arguments.
pub data Call : Type 0 where
  adds : ℕ → Bool → RejectionReason → Call
  invalidates : ℕ → RejectionReason → Call
  begins : Call
  pends : ℕ → Call
  resolves : ℤ → ℤ → Bool → Call
  aborts : Call

unfoldable pub step : SourceLedger → Call → SourceLedger
step l (adds ordinal ok reason) = (add_source_reason l ordinal ok reason).0
step l (invalidates ordinal reason) = (invalidate l ordinal reason).0
step l begins = (begin_packet l).0
step l (pends ordinal) = (add_pending l ordinal).0
step l (resolves n length failed) = (resolve_packet l n length failed).0
step l aborts = (abort_packet l).0

unfoldable pub run : SourceLedger → List Call → SourceLedger
run l [] = l
run l (c ∷ cs) = run (step l c) cs

-- Whether `add_source_reason` accepts an ordinal.
pub can_add? :
    (l : SourceLedger) (ordinal : ℕ)
    → Inv l
    → ((ordinal ≡ l.covered) × (ordinal < 2 ^ 64 - 1))
      ⊎ ((ordinal ≢ l.covered) ⊎ (ordinal ≡ 2 ^ 64 - 1))
can_add? l ordinal v = elim (ℕ_discrete ordinal l.covered) [
  | yes e ↦ elim (ℕ_discrete ordinal (2 ^ 64 - 1)) [
    | yes d ↦ inr (inr d)
    | no d ↦ inl (e, omega (arith, v.fits))
  ]
  | no e ↦ inr (inl e)
]

add_source_reason-Inv :
    (l : SourceLedger) (ordinal : ℕ) (ok : Bool) (reason : RejectionReason)
    → Inv l
    → Inv (add_source_reason l ordinal ok reason).0
add_source_reason-Inv l ordinal ok reason v = elim (can_add? l ordinal v) [
  | inl (e, h) ↦ (add_source_reason-Added l ordinal ok reason v e h).0.inv
  | inr h ↦ rw (add_source_reason_refused l ordinal ok reason h) v
]

-- Whether `invalidate` accepts an ordinal.
pub can_invalidate? :
    (l : SourceLedger) (ordinal : ℕ) → CanInvalidate l ordinal ⊎ ¬ CanInvalidate l ordinal
can_invalidate? l ordinal = elim (Bool-cases (ltb ordinal l.covered)) [
  | inl a ↦ elim (Bool-cases (is_unsent (at l ordinal))) [
    | inl b ↦
        elim (Bool-cases
          (l.packet_open && leb l.packet_start ordinal && ltb ordinal l.packet_end)) [
            | inl c ↦ inr (λ h. true_ne_false c h.2)
            | inr c ↦ inl (ground arith, unsent (at l ordinal) b, c)
          ]
    | inr b ↦ inr (λ h. true_ne_false (ap is_unsent h.1) b)
  ]
  | inr a ↦ inr (λ h. true_ne_false (ground arith) a)
]
  where
    true_ne_false : {b : Bool} → b ≡ true → b ≡ false → ⊥
    true_ne_false p q = false≢true (sym q ∙ p)

    unsent : (c : SourceClass) → is_unsent c ≡ true → c ≡ unsent_valid
    unsent c h = ground arith

invalidate-Inv :
    (l : SourceLedger) (ordinal : ℕ) (reason : RejectionReason)
    → Inv l
    → Inv (invalidate l ordinal reason).0
invalidate-Inv l ordinal reason v = elim (can_invalidate? l ordinal) [
  | inl h ↦ (invalidate-Invalidated l ordinal reason v h).0.inv
  | inr h ↦ rw (invalidate_refused l ordinal reason h) v
]

add_pending-Inv : (l : SourceLedger) (ordinal : ℕ) → Inv l → Inv (add_pending l ordinal).0
add_pending-Inv l ordinal v = elim (add_pending-Answered l ordinal v) [
  | inl (_, e) ↦ rw e v
  | inr (_, j) ↦ j.inv
]

pub step-Inv : (l : SourceLedger) (c : Call) → Inv l → Inv (step l c)
unfolding step
step-Inv l (adds ordinal ok reason) v = add_source_reason-Inv l ordinal ok reason v
step-Inv l (invalidates ordinal reason) v = invalidate-Inv l ordinal reason v
step-Inv l begins v = begin_packet-Inv l v
step-Inv l (pends ordinal) v = add_pending-Inv l ordinal v
step-Inv l (resolves n length failed) v = resolve_packet-Inv l n length failed v
step-Inv l aborts v = abort_packet-Inv l v

pub run-Inv : (l : SourceLedger) (cs : List Call) → Inv l → Inv (run l cs)
unfolding run
run-Inv l [] v = v
run-Inv l (c ∷ cs) v = run-Inv (step l c) cs (step-Inv l c v)

-- What the counters of a ledger say of the classifications that it reports.
pub record Exact (l : SourceLedger) : Type 0 where
  pub partition : (counts l).covered ≡ (counts l).valid + (counts l).invalid
  pub parts : (counts l).valid ≡ (counts l).confirmed + (counts l).ambiguous + (counts l).unsent
  pub invalids : (counts l).invalid ≡ count (λ o. is_invalid (classification l o)) l.covered
  pub confirms : (counts l).confirmed ≡ count (λ o. is_confirmed (classification l o)) l.covered
  pub ambiguities : (counts l).ambiguous ≡ count (λ o. is_ambiguous (classification l o)) l.covered
  pub unsents : (counts l).unsent ≡ count (λ o. is_unsent (classification l o)) l.covered
  pub pendings : (counts l).pending ≤ (counts l).unsent
  pub reasons : sum l.rejection_counts ≡ (counts l).invalid

reported :
    (l : SourceLedger) (p : SourceClass → Bool)
    → count (λ o. p (at l o)) l.covered ≡ count (λ o. p (classification l o)) l.covered
unfolding classification
reported l p =
    count-congr (λ o. p (at l o)) _ l.covered
      (λ o h. let e : leb l.covered o ≡ false = ground arith in rw e refl)

Inv-Exact : (l : SourceLedger) → Inv l → Exact l
unfolding counts
Inv-Exact l v = record {
  partition = sym total;
  parts = omega (arith, total, whole, v.fits);
  invalids = v.tallies.invalid_exact ∙ reported l is_invalid;
  confirms = v.tallies.confirmed_exact ∙ reported l is_confirmed;
  ambiguities = v.tallies.ambiguous_exact ∙ reported l is_ambiguous;
  unsents = omega (arith, total, whole, v.fits, reported l is_unsent);
  pendings = omega (arith, total, v.fits, Inv-parts l v);
  reasons = v.histogram.adds_up;
}
  where
    total : l.valid + l.invalid ≡ l.covered
    total = Inv-total l v

    whole : l.valid ≡ l.confirmed + l.ambiguous + count (λ o. is_unsent (at l o)) l.covered
    whole = Tallies-parts (at l) l.covered _ _ _ _ v.tallies (covered-ne-uncovered l v)

-- After any calls on a new ledger, every counter that Counts() reports is the number of covered
-- ordinals with that classification: valid and invalid ones make up the covered ones, confirmed,
-- ambiguous and unsent ones make up the valid ones, at most the unsent ones are pending, and the
-- reasons of the histogram add up to the invalid ones.
pub run-Exact : (cs : List Call) → Exact (run new_source_ledger cs)
run-Exact cs = Inv-Exact _ (run-Inv new_source_ledger cs new_source_ledger-Inv)

-- What is settled about the order of delivery: before the floor every ordinal is confirmed or
-- invalid, and between the floor and the last pending ordinal each is invalid or pending.
pub record InOrder (l : SourceLedger) : Type 0 where
  pub floor_covered : l.packet_floor ≤ l.covered
  pub before : (o : ℕ) → o < l.packet_floor → is_settled (classification l o) ≡ true
  pub skipped :
      (o : ℕ) → l.packet_floor ≤ o → o < l.packet_start → is_invalid (classification l o) ≡ true
  pub inside :
      (o : ℕ)
      → l.packet_start ≤ o
      → o < l.packet_end
      → (is_unsent (classification l o) || is_invalid (classification l o)) ≡ true
  pub bounded : l.packet_valid ≤ 1024

Inv-InOrder : (l : SourceLedger) → Inv l → InOrder l
unfolding classification
Inv-InOrder l v = record {
  floor_covered = v.window.floor_covered;
  before = λ o h. within is_settled o (omega (arith, v.window.floor_covered)) (v.window.lead o h);
  skipped = λ o a b.
      within is_invalid o (omega (arith, v.window.ordered, v.window.covers)) (v.window.gap o a b);
  inside = λ o a b.
      within (λ c. is_unsent c || is_invalid c) o (omega (arith, v.window.covers))
        (v.window.body o a b);
  bounded = v.window.capped;
}
  where
    within :
        (p : SourceClass → Bool) (o : ℕ)
        → o < l.covered
        → p (at l o) ≡ true
        → p (if leb l.covered o then uncovered else at l o) ≡ true
    within p o h e = let d : leb l.covered o ≡ false = ground arith in rw d e

-- After any calls on a new ledger no valid record is skipped: every ordinal before the packet
-- floor is confirmed or invalid, those from the floor to the active packet are invalid, and those
-- inside it are unsent or invalid; the packet holds at most 1024 valid ordinals.
pub run-InOrder : (cs : List Call) → InOrder (run new_source_ledger cs)
run-InOrder cs = Inv-InOrder _ (run-Inv new_source_ledger cs new_source_ledger-Inv)
