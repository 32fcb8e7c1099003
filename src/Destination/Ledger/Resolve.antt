-- ===== src/Destination/Ledger/Resolve.antt =====
-- Resolving the active packet by the outcome of its write.
use otelcol_exporter_netflow.Common.{
  ℕ, ◌+◌, ◌-◌, ◌≤◌, ◌≡◌, refl, subst, ◌≢◌, Bool, true, false, not, ◌||◌, leb, ◌==◌, if◌then◌else◌,
  if_cases, arith, Bool-cases, inl, inr, length, Option, some, none, ◌⊎◌,
}
use otelcol_exporter_netflow.Common.Int.{ℤ}
use otelcol_exporter_netflow.Destination.WriteClass.{WriteClass, classify_write}
use otelcol_exporter_netflow.Destination.Ledger.Store.{
  SourceClass, uncovered, confirmed, ambiguous, is_unsent, stored_class,
}
use otelcol_exporter_netflow.Destination.Ledger.Store.Growth.{IsStore}
use otelcol_exporter_netflow.Destination.Ledger.Store.Ranges.{
  marked, mark_loop-IsStore, stored_class-mark_loop,
}
use otelcol_exporter_netflow.Destination.Ledger.Tally.{Tallies-confirm, Tallies-ambiguous}
use otelcol_exporter_netflow.Destination.Ledger.Window.{Window-confirm, Window-ambiguous}
use otelcol_exporter_netflow.Destination.Ledger.{
  SourceLedger, LedgerError, bad_packet, invalid_write, resolve_packet, resolve_class, is_full,
  is_invalid_write, mark_pending, add64, classification, Resolution,
}
use otelcol_exporter_netflow.Destination.Ledger.Invariant.{Inv, at, Inv-total, Inv-parts}

-- The active packet's ordinals after their write: all of them have the class `final`.
pub record Resolved (l : SourceLedger) (final : SourceClass) (l' : SourceLedger) : Type 0 where
  pub inv : Inv l'
  pub covers : l'.covered ≡ l.covered
  pub over : (l'.packet_open ≡ false) × (l'.packet_valid ≡ 0)
  pub classes :
      (o : ℕ)
      → classification l' o ≡ marked l.packet_start l.packet_end final o (classification l o)

module _ (l : SourceLedger) (v : Inv l) (class : SourceClass) (proper : ¬ (class ≡ uncovered))
    (final : is_unsent class ≡ false) where
  rounds_end : l.packet_start + (l.packet_end - l.packet_start) ≡ l.packet_end
  rounds_end = omega (arith, v.window.ordered)

  rounds_fit : l.packet_start + (l.packet_end - l.packet_start) ≤ l.covered
  rounds_fit = omega (arith, v.window.ordered, v.window.covers)

  marked-IsStore : IsStore (mark_pending l class) l.covered
  marked-IsStore = mark_loop-IsStore l.covered class proper final l.classes _ _ rounds_fit v.store

  marked_class :
      (o : ℕ)
      → stored_class (mark_pending l class) o ≡ marked l.packet_start l.packet_end class o (at l o)
  marked_class o = rw rounds_end at (
      stored_class-mark_loop l.covered class proper final l.classes (l.packet_end - l.packet_start)
        l.packet_start o rounds_fit v.store)

  marked_classification :
      (o : ℕ)
      → (if leb l.covered o then uncovered else stored_class (mark_pending l class) o)
        ≡ marked l.packet_start l.packet_end class o (if leb l.covered o then uncovered else at l o)
  marked_classification o = elim (Bool-cases (leb l.covered o)) [
    | inl e ↦ rw e (ground arith)
    | inr e ↦ rw e (marked_class o)
  ]

pub confirm : SourceLedger → SourceLedger
confirm l = record l {
  classes = mark_pending l SourceClass.confirmed;
  confirmed = add64 l.confirmed l.packet_valid;
  packet_floor = l.packet_end;
  packet_open = false;
  packet_start = 0;
  packet_end = 0;
  packet_valid = 0;
}

pub confirm-Resolved : (l : SourceLedger) → Inv l → Resolved l confirmed (confirm l)
unfolding confirm classification
confirm-Resolved l v =
    let sum_fits : add64 l.confirmed l.packet_valid ≡ l.confirmed + l.packet_valid =
      omega (arith, Inv-parts l v, Inv-total l v, v.fits) in
    let new = marked_class l v confirmed (λ e. cc) refl in
    rw sum_fits (record {
      inv = record {
        store = marked-IsStore l v confirmed (λ e. cc) refl;
        fits = v.fits;
        tallies =
            Tallies-confirm (at l) _ l.covered l.packet_start l.packet_end confirmed new l.valid
              l.invalid l.confirmed l.ambiguous l.packet_valid refl v.window.exact v.tallies;
        histogram = v.histogram;
        window = Window-confirm (at l) l.covered _ _ _ _ v.window _ new;
        closed = inr (refl, refl);
      };
      covers = refl;
      over = (refl, refl);
      classes = marked_classification l v confirmed (λ e. cc) refl;
    })

pub give_up : SourceLedger → SourceLedger
give_up l = record l {
  classes = mark_pending l SourceClass.ambiguous;
  ambiguous = add64 l.ambiguous l.packet_valid;
  stopped = true;
  packet_open = false;
  packet_start = 0;
  packet_end = 0;
  packet_valid = 0;
}

pub give_up-Resolved : (l : SourceLedger) → Inv l → Resolved l ambiguous (give_up l)
unfolding give_up classification
give_up-Resolved l v =
    let sum_fits : add64 l.ambiguous l.packet_valid ≡ l.ambiguous + l.packet_valid =
      omega (arith, Inv-parts l v, Inv-total l v, v.fits) in
    let new = marked_class l v ambiguous (λ e. cc) refl in
    rw sum_fits (record {
      inv = record {
        store = marked-IsStore l v ambiguous (λ e. cc) refl;
        fits = v.fits;
        tallies =
            Tallies-ambiguous (at l) _ l.covered l.packet_start l.packet_end ambiguous new l.valid
              l.invalid l.confirmed l.ambiguous l.packet_valid refl v.window.exact v.tallies;
        histogram = v.histogram;
        window = Window-ambiguous (at l) l.covered _ _ _ _ v.window _ new;
        closed = inr (refl, refl);
      };
      covers = refl;
      over = (refl, refl);
      classes = marked_classification l v ambiguous (λ e. cc) refl;
    })

-- The four answers of `resolve_packet`.
pub data ResolveAnswer (l : SourceLedger) (class : WriteClass)
    (r : SourceLedger × Resolution × Option LedgerError) : Type 0 where
  -- A write result that breaks the local contract changes nothing.
  broken : class ≡ WriteClass.invalid → r.0 ≡ l → r.2 ≡ some invalid_write → ResolveAnswer l class r
  -- Nor does a call with no pending ordinal.
  idle :
      (l.packet_open ≡ false) ⊎ (l.packet_valid ≡ 0)
      → r.0 ≡ l
      → r.2 ≡ some bad_packet
      → ResolveAnswer l class r
  -- Only a full write confirms, and it confirms the whole packet.
  delivered :
      class ≡ WriteClass.full
      → Resolved l confirmed r.0
      → r.0.confirmed ≡ l.confirmed + l.packet_valid
      → (r.1.newly_confirmed ≡ l.packet_valid) × (r.1.newly_ambiguous ≡ 0)
      → r.0.packet_floor ≡ l.packet_end
      → r.0.stopped ≡ l.stopped
      → r.2 ≡ none
      → ResolveAnswer l class r
  -- Every other legal outcome makes the whole packet ambiguous and stops the request.
  doubtful :
      class ≢ WriteClass.full
      → class ≢ WriteClass.invalid
      → Resolved l ambiguous r.0
      → r.0.ambiguous ≡ l.ambiguous + l.packet_valid
      → (r.1.newly_confirmed ≡ 0) × (r.1.newly_ambiguous ≡ l.packet_valid)
      → r.0.packet_floor ≡ l.packet_floor
      → r.0.stopped ≡ true
      → r.2 ≡ none
      → ResolveAnswer l class r

confirm_counts : (l : SourceLedger) → Inv l → (confirm l).confirmed ≡ l.confirmed + l.packet_valid
unfolding confirm
confirm_counts l v = omega (arith, Inv-parts l v, Inv-total l v, v.fits)

give_up_counts : (l : SourceLedger) → Inv l → (give_up l).ambiguous ≡ l.ambiguous + l.packet_valid
unfolding give_up
give_up_counts l v = omega (arith, Inv-parts l v, Inv-total l v, v.fits)

is_invalid_write-eq : (c : WriteClass) → is_invalid_write c ≡ true → c ≡ WriteClass.invalid
unfolding is_invalid_write
is_invalid_write-eq c h = ground arith

is_full-eq : (c : WriteClass) → is_full c ≡ true → c ≡ WriteClass.full
unfolding is_full
is_full-eq c h = ground arith

unconfirmed :
    (l : SourceLedger) (class : WriteClass)
    → class ≢ WriteClass.full
    → (resolve_class l class).0.confirmed ≡ l.confirmed
unconfirmed l class ne =
    let P : SourceLedger × Resolution × Option LedgerError → Type 0 =
      λ r. r.0.confirmed ≡ l.confirmed in
    if_cases P (is_invalid_write class) (λ _. refl)
      λ _.
        if_cases P (not l.packet_open || l.packet_valid == 0) (λ _. refl)
          λ _. if_cases P (is_full class) (λ e. absurd (ne (is_full-eq class e))) (λ _. refl)

-- The counter of confirmed records only moves on a full write.
pub resolve_packet_unconfirmed :
    (l : SourceLedger) (n length : ℤ) (failed : Bool)
    → classify_write n length failed ≢ WriteClass.full
    → (resolve_packet l n length failed).0.confirmed ≡ l.confirmed
unfolding resolve_packet
resolve_packet_unconfirmed l n length failed ne = unconfirmed l (classify_write n length failed) ne

resolve_class-ResolveAnswer :
    (l : SourceLedger) (class : WriteClass) → Inv l → ResolveAnswer l class (resolve_class l class)
unfolding confirm give_up
resolve_class-ResolveAnswer l class v =
    let P = ResolveAnswer l class in
    if_cases P (is_invalid_write class) (λ e. broken (is_invalid_write-eq class e) refl refl)
      λ legal.
        if_cases P (not l.packet_open || l.packet_valid == 0)
          (λ e. idle (none_pending l.packet_open l.packet_valid e) refl refl)
          λ _.
            if_cases P (is_full class)
              (λ e.
                delivered (is_full-eq class e) (confirm-Resolved l v) (confirm_counts l v)
                  (refl, refl) refl refl refl)
              (λ e.
                doubtful (λ p. unfold is_full in (not_true (subst (λ c. is_full c ≡ false) p e)))
                  (λ p.
                    unfold is_invalid_write in
                    (not_true (subst (λ c. is_invalid_write c ≡ false) p legal)))
                  (give_up-Resolved l v) (give_up_counts l v) (refl, refl) refl refl refl)
  where
    none_pending : (b : Bool) (k : ℕ) → (not b || k == 0) ≡ true → (b ≡ false) ⊎ (k ≡ 0)
    none_pending b k e = ground arith

    not_true : true ≡ false → ⊥
    not_true e = cc

-- On a ledger with the invariant, `resolve_packet` gives one of four answers. A broken write
-- result, or a ledger with no pending ordinal, changes nothing. A full write confirms exactly the
-- unsent ordinals of the packet and moves the floor to its end. Any other write makes them
-- ambiguous and stops the ledger.
pub resolve_packet-ResolveAnswer :
    (l : SourceLedger) (n length : ℤ) (failed : Bool)
    → Inv l
    → ResolveAnswer l (classify_write n length failed) (resolve_packet l n length failed)
unfolding resolve_packet
resolve_packet-ResolveAnswer l n length failed v =
    resolve_class-ResolveAnswer l (classify_write n length failed) v

pub resolve_packet-Inv :
    (l : SourceLedger) (n length : ℤ) (failed : Bool)
    → Inv l
    → Inv (resolve_packet l n length failed).0
resolve_packet-Inv l n length failed v = after (resolve_packet-ResolveAnswer l n length failed v)
  where
    after :
        {class : WriteClass} {r : SourceLedger × Resolution × Option LedgerError}
        → ResolveAnswer l class r
        → Inv r.0
    after (broken c e d) = rw e v
    after (idle c e d) = rw e v
    after (delivered c s a b d e f) = s.inv
    after (doubtful c k s a b d e f) = s.inv
