-- ===== src/Destination/Ledger/Sources.antt =====
-- Source records enter the ledger, and valid ones are invalidated.
use otelcol_exporter_netflow.Common.{
  ℕ, suc, ◌+◌, ◌-◌, ◌^◌, ◌<◌, ◌≡◌, refl, ◌∙◌, ◌≢◌, Bool, true, false, not, ◌&&◌, ◌||◌, ltb, leb,
  ◌==◌, if◌then◌else◌, arith, Bool-cases, inl, inr, List, Option, some, none, ◌⊎◌,
}
use otelcol_exporter_netflow.Destination.Ledger.Store.{
  SourceClass, unsent_valid, is_unsent, stored_class, set_stored_class,
}
use otelcol_exporter_netflow.Destination.Ledger.Store.Growth.{
  Ensured, ensure_ordinal_lem, IsStore-suc, set-IsStore, stored_class-set,
}
use otelcol_exporter_netflow.Destination.Ledger.Tally.{Tallies, Tallies-add, Tallies-invalidate}
use otelcol_exporter_netflow.Destination.Ledger.Window.{Window-add, Window-invalidate}
use otelcol_exporter_netflow.Destination.Ledger.{
  SourceLedger, RejectionReason, LedgerError, bad_ordinal, reason_index, bump, add_source_reason,
  record_source, invalidate, add64, sub64, classification, max_uint64,
}
use otelcol_exporter_netflow.Destination.Ledger.Reasons.{Recorded, CountedAs, bump-Recorded}
use otelcol_exporter_netflow.Destination.Ledger.Invariant.{Inv, at, bump-IsHistogram, Inv-total}

module _ (l : SourceLedger) (v : Inv l) (reason : RejectionReason) (small : l.covered < 2 ^ 64 - 1)
    (s : List ℕ) (grown : Ensured l.classes l.covered s) where
  next_covered : add64 l.covered 1 ≡ suc l.covered
  next_covered = omega arith

  valid_added : SourceLedger
  valid_added = record l { classes = s; valid = l.valid + 1; covered = suc l.covered }

  added_blank : stored_class s l.covered ≡ unsent_valid
  added_blank = grown.0.blank l.covered (omega arith) grown.1

  valid_added-Inv : Inv valid_added
  unfolding valid_added
  valid_added-Inv = record {
    store = IsStore-suc s l.covered grown.1 grown.0;
    fits = omega arith;
    tallies = ground (
      arith,
      added_blank,
      Tallies-add (at l) (stored_class s) l.covered grown.2 l.valid l.invalid l.confirmed
          l.ambiguous v.tallies,
    );
    histogram = v.histogram;
    window = Window-add (at l) l.covered _ _ _ _ v.window (stored_class s) grown.2;
    closed = v.closed;
  }

  invalid_added : SourceLedger
  invalid_added = record l {
    classes = set_stored_class s l.covered SourceClass.invalid;
    rejection_counts = bump l.rejection_counts (reason_index reason);
    covered = suc l.covered;
    invalid = l.invalid + 1;
  }

  added_class :
      (o : ℕ)
      → stored_class (set_stored_class s l.covered SourceClass.invalid) o
        ≡ (if o == l.covered then SourceClass.invalid else stored_class s o)
  added_class o =
      stored_class-set s (suc l.covered) l.covered o SourceClass.invalid (omega arith) (λ e. cc)
        (IsStore-suc s l.covered grown.1 grown.0)

  invalid_added-Inv : Inv invalid_added
  unfolding invalid_added
  invalid_added-Inv = record {
    store =
        set-IsStore s (suc l.covered) l.covered SourceClass.invalid (omega arith) (λ e. cc)
          (IsStore-suc s l.covered grown.1 grown.0);
    fits = omega arith;
    tallies = ground (
      arith,
      added_class l.covered,
      Tallies-add (at l) (stored_class (set_stored_class s l.covered SourceClass.invalid)) l.covered
          same l.valid l.invalid l.confirmed l.ambiguous v.tallies,
    );
    histogram =
        bump-IsHistogram l.rejection_counts l.invalid reason (omega (arith, Inv-total l v))
          v.histogram;
    window = Window-add (at l) l.covered _ _ _ _ v.window _ same;
    closed = v.closed;
  }
    where
      same :
          (o : ℕ)
          → o < l.covered
          → stored_class (set_stored_class s l.covered SourceClass.invalid) o
            ≡ stored_class l.classes o
      same o h =
          added_class o ∙ (let e : (o == l.covered) ≡ false = ground arith in rw e (grown.2 o h))

  record_valid : record_source l l.covered true reason (some s) ≡ (valid_added, none)
  unfolding record_source valid_added
  record_valid =
      let e : add64 l.valid 1 ≡ l.valid + 1 = omega (arith, Inv-total l v) in rw (e, next_covered)

  record_invalid : record_source l l.covered false reason (some s) ≡ (invalid_added, none)
  unfolding record_source invalid_added
  record_invalid =
      let e : add64 l.invalid 1 ≡ l.invalid + 1 = omega (arith, Inv-total l v) in
      rw (e, next_covered)

-- What a call that is accepted makes of the ledger.
pub record Added (l : SourceLedger) (ordinal : ℕ) (ok : Bool) (reason : RejectionReason)
    (l' : SourceLedger) : Type 0 where
  pub inv : Inv l'
  pub extended : l'.covered ≡ suc l.covered
  pub delivery : (l'.confirmed ≡ l.confirmed) × (l'.ambiguous ≡ l.ambiguous)
  pub reasons : CountedAs ok reason l.rejection_counts l'.rejection_counts
  pub packet :
      (l'.packet_open ≡ l.packet_open)
      × (l'.packet_valid ≡ l.packet_valid)
      × (l'.stopped ≡ l.stopped)
  pub classes :
      (o : ℕ)
      → classification l' o ≡ (
          if o == ordinal
          then (if ok then unsent_valid else SourceClass.invalid)
          else classification l o)

valid_added-Added :
    (l : SourceLedger) (v : Inv l) (reason : RejectionReason) (small : l.covered < 2 ^ 64 - 1)
    (s : List ℕ) (grown : Ensured l.classes l.covered s)
    → Added l l.covered true reason (valid_added l v reason small s grown)
unfolding valid_added classification
valid_added-Added l v reason small s grown = record {
  inv = valid_added-Inv l v reason small s grown;
  extended = refl;
  delivery = (refl, refl);
  reasons = refl;
  packet = (refl, refl, refl);
  classes = λ o. elim (Bool-cases (o == l.covered)) [
    | inl e ↦
        let e' : o ≡ l.covered = ground arith in
        rw e' (ground (arith, added_blank l v reason small s grown))
    | inr e ↦ ground (arith, grown.2 o)
  ];
}

invalid_added-Added :
    (l : SourceLedger) (v : Inv l) (reason : RejectionReason) (small : l.covered < 2 ^ 64 - 1)
    (s : List ℕ) (grown : Ensured l.classes l.covered s)
    → Added l l.covered false reason (invalid_added l v reason small s grown)
unfolding invalid_added classification
invalid_added-Added l v reason small s grown = record {
  inv = invalid_added-Inv l v reason small s grown;
  extended = refl;
  delivery = (refl, refl);
  reasons =
      bump-Recorded l.rejection_counts l.invalid reason (omega (arith, Inv-total l v, small))
        v.histogram;
  packet = (refl, refl, refl);
  classes = λ o. elim (Bool-cases (o == l.covered)) [
    | inl e ↦
        let e' : o ≡ l.covered = ground arith in
        rw e' (ground (arith, added_class l v reason small s grown l.covered))
    | inr e ↦ ground (arith, grown.2 o, added_class l v reason small s grown o)
  ];
}

record_source-Added :
    (l : SourceLedger) (v : Inv l) (ok : Bool) (reason : RejectionReason)
    (small : l.covered < 2 ^ 64 - 1) (s : List ℕ) (grown : Ensured l.classes l.covered s)
    → let r = record_source l l.covered ok reason (some s) in
      Added l l.covered ok reason r.0 × (r.1 ≡ none)
record_source-Added l v true reason small s grown =
    rw (record_valid l v reason small s grown) (valid_added-Added l v reason small s grown, refl)
record_source-Added l v false reason small s grown =
    rw (record_invalid l v reason small s grown)
      (invalid_added-Added l v reason small s grown, refl)

-- The next ordinal, if it is not the last one of 64 bits, is accepted without an error: it gets its
-- class, no other ordinal changes, the invariant holds, and the histogram gains one in the cell of
-- the reason if the record is invalid, and is unchanged otherwise.
pub add_source_reason-Added :
    (l : SourceLedger) (ordinal : ℕ) (ok : Bool) (reason : RejectionReason)
    → Inv l
    → ordinal ≡ l.covered
    → ordinal < 2 ^ 64 - 1
    → let r = add_source_reason l ordinal ok reason in Added l ordinal ok reason r.0 × (r.1 ≡ none)
unfolding add_source_reason
add_source_reason-Added l ordinal ok reason v e h =
    let (s, found, grown) = ensure_ordinal_lem l.classes l.covered v.fits v.store in
    let same : (l.covered == l.covered) ≡ true = ground arith in
    let below : (l.covered == max_uint64) ≡ false = ground arith in
    rw (e, same, below, found) (record_source-Added l v ok reason (omega arith) s grown)

-- A gap, a repeated ordinal or the last ordinal of 64 bits is refused, and nothing changes.
pub add_source_reason_refused :
    (l : SourceLedger) (ordinal : ℕ) (ok : Bool) (reason : RejectionReason)
    → (ordinal ≢ l.covered) ⊎ (ordinal ≡ 2 ^ 64 - 1)
    → add_source_reason l ordinal ok reason ≡ (l, some bad_ordinal)
unfolding add_source_reason
add_source_reason_refused l ordinal ok reason h = ground arith

-- What an accepted `invalidate` makes of the ledger.
pub record Invalidated (l : SourceLedger) (ordinal : ℕ) (reason : RejectionReason)
    (l' : SourceLedger) : Type 0 where
  pub inv : Inv l'
  pub covers : l'.covered ≡ l.covered
  pub packet :
      (l'.packet_open ≡ l.packet_open)
      × (l'.packet_valid ≡ l.packet_valid)
      × (l'.stopped ≡ l.stopped)
  pub counters : (l'.valid + 1 ≡ l.valid) × (l'.invalid ≡ l.invalid + 1)
  pub delivery : (l'.confirmed ≡ l.confirmed) × (l'.ambiguous ≡ l.ambiguous)
  pub recorded : Recorded reason l.rejection_counts l'.rejection_counts
  pub classes :
      (o : ℕ)
      → classification l' o ≡ (if o == ordinal then SourceClass.invalid else classification l o)

module _ (l : SourceLedger) (v : Inv l) (ordinal : ℕ) (reason : RejectionReason)
    (covered : ordinal < l.covered) (unsent : at l ordinal ≡ unsent_valid)
    (free : (leb l.packet_start ordinal && ltb ordinal l.packet_end) ≡ false) where
  invalidated : SourceLedger
  invalidated = record l {
    classes = set_stored_class l.classes ordinal SourceClass.invalid;
    rejection_counts = bump l.rejection_counts (reason_index reason);
    valid = l.valid - 1;
    invalid = l.invalid + 1;
  }

  invalidated_class :
      (o : ℕ)
      → stored_class (set_stored_class l.classes ordinal SourceClass.invalid) o
        ≡ (if o == ordinal then SourceClass.invalid else at l o)
  invalidated_class o =
      stored_class-set l.classes l.covered ordinal o SourceClass.invalid covered (λ e. cc) v.store

  invalidated_self :
      stored_class (set_stored_class l.classes ordinal SourceClass.invalid) ordinal
      ≡ SourceClass.invalid
  invalidated_self = ground (arith, invalidated_class ordinal)

  invalidated_others :
      (o : ℕ)
      → o ≢ ordinal
      → stored_class (set_stored_class l.classes ordinal SourceClass.invalid) o ≡ at l o
  invalidated_others o ne = ground (arith, invalidated_class o)

  invalidated-Tallies :
      (0 < l.valid)
      × Tallies
          (stored_class (set_stored_class l.classes ordinal SourceClass.invalid))
          l.covered
          (l.valid - 1)
          (l.invalid + 1)
          l.confirmed
          l.ambiguous
  invalidated-Tallies =
      Tallies-invalidate (at l) _ l.covered ordinal covered unsent invalidated_self
        (λ o h ne. invalidated_others o ne) l.valid l.invalid l.confirmed l.ambiguous v.tallies

  invalidated-Inv : Inv invalidated
  unfolding invalidated
  invalidated-Inv = record {
    store = set-IsStore l.classes l.covered ordinal SourceClass.invalid covered (λ e. cc) v.store;
    fits = v.fits;
    tallies = invalidated-Tallies.1;
    histogram =
        bump-IsHistogram l.rejection_counts l.invalid reason
          (omega (arith, Inv-total l v, v.fits, invalidated-Tallies.0)) v.histogram;
    window =
        Window-invalidate (at l) l.covered _ _ _ _ v.window _ ordinal free invalidated_self
          invalidated_others;
    closed = v.closed;
  }

  invalidated-Invalidated : Invalidated l ordinal reason invalidated
  unfolding invalidated classification
  invalidated-Invalidated = record {
    inv = invalidated-Inv;
    covers = refl;
    packet = (refl, refl, refl);
    counters = (omega (arith, invalidated-Tallies.0), refl);
    delivery = (refl, refl);
    recorded =
        bump-Recorded l.rejection_counts l.invalid reason
          (omega (arith, Inv-total l v, v.fits, invalidated-Tallies.0)) v.histogram;
    classes = λ o. elim (Bool-cases (o == ordinal)) [
      | inl e ↦ let e' : o ≡ ordinal = ground arith in rw e' (ground (arith, invalidated_self))
      | inr e ↦ ground (arith, invalidated_others o)
    ];
  }

  invalidate_accepts : invalidate l ordinal reason ≡ (invalidated, none)
  unfolding invalidate invalidated
  invalidate_accepts =
      let minus : sub64 l.valid 1 ≡ l.valid - 1 =
        omega (arith, Inv-total l v, v.fits, invalidated-Tallies.0) in
      let plus : add64 l.invalid 1 ≡ l.invalid + 1 =
        omega (arith, Inv-total l v, v.fits, invalidated-Tallies.0) in
      let unsent' : is_unsent (at l ordinal) ≡ true = rw unsent refl in
      let inside : leb l.covered ordinal ≡ false = ground arith in
      rw (inside, unsent', minus, plus) (outside l.packet_open _ _)
    where
      outside :
          (b : Bool) (x y : SourceLedger × Option LedgerError)
          → (if b && leb l.packet_start ordinal && ltb ordinal l.packet_end then x else y) ≡ y
      outside b x y = ground (arith, free)

-- The ordinals that `invalidate` accepts: covered, unsent, and not of the active packet.
abbrev pub CanInvalidate : SourceLedger → ℕ → Type 0
CanInvalidate l ordinal =
    (ordinal < l.covered)
    × (at l ordinal ≡ unsent_valid)
    × ((l.packet_open && leb l.packet_start ordinal && ltb ordinal l.packet_end) ≡ false)

-- A covered unsent ordinal outside the active packet becomes invalid, and no other changes; one
-- record moves from the valid counter to the invalid one, the cell of the reason, and no other, gains
-- one, and the invariant holds.
pub invalidate-Invalidated :
    (l : SourceLedger) (ordinal : ℕ) (reason : RejectionReason)
    → Inv l
    → CanInvalidate l ordinal
    → let r = invalidate l ordinal reason in Invalidated l ordinal reason r.0 × (r.1 ≡ none)
invalidate-Invalidated l ordinal reason v (covered, unsent, out) =
    let free : (leb l.packet_start ordinal && ltb ordinal l.packet_end) ≡ false =
      ground (arith, v.closed, v.window.ordered) in
    rw (invalidate_accepts l v ordinal reason covered unsent free)
      (invalidated-Invalidated l v ordinal reason covered unsent free, refl)

is_unsent-eq : (c : SourceClass) → is_unsent c ≡ true → c ≡ unsent_valid
is_unsent-eq c h = ground arith

-- Any other ordinal is refused, and nothing changes.
pub invalidate_refused :
    (l : SourceLedger) (ordinal : ℕ) (reason : RejectionReason)
    → ¬ CanInvalidate l ordinal
    → invalidate l ordinal reason ≡ (l, some bad_ordinal)
unfolding invalidate
invalidate_refused l ordinal reason h =
    elim (Bool-cases (leb l.covered ordinal || not (is_unsent (at l ordinal)))) [
      | inl e ↦ rw e
      | inr e ↦
          elim (Bool-cases
            (l.packet_open && leb l.packet_start ordinal && ltb ordinal l.packet_end)) [
              | inl d ↦ rw (e, d)
              | inr d ↦ absurd (h (ground arith, is_unsent-eq (at l ordinal) (ground arith), d))
            ]
    ]
