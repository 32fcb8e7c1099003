-- ===== src/Destination/Ledger/Invariant.antt =====
-- The invariant of the source ledger.
use otelcol_exporter_netflow.Common.{
  ℕ, zero, suc, ◌+◌, ◌-◌, ◌^◌, ◌≤◌, ◌<◌, ◌≡◌, refl, ◌∙◌, ◌≢◌, true, arith, inr, List, [], ◌∷◌,
  length, get_or, set, length-set, ◌⊎◌,
}
use otelcol_exporter_netflow.Common.Count.{count, count_mono}
use otelcol_exporter_netflow.Destination.Ledger.Store.{
  SourceClass, uncovered, is_unsent, stored_class,
}
use otelcol_exporter_netflow.Destination.Ledger.Store.Laws.{stored_class-ne-uncovered}
use otelcol_exporter_netflow.Destination.Ledger.Store.Growth.{IsStore}
use otelcol_exporter_netflow.Destination.Ledger.Tally.{
  Tallies, Tallies-total, Tallies-parts, is_pending,
}
use otelcol_exporter_netflow.Destination.Ledger.Window.{Window}
use otelcol_exporter_netflow.Destination.Ledger.{
  SourceLedger, RejectionReason, reason_index, bump, new_source_ledger, add64,
}

abbrev pub sum : List ℕ → ℕ
sum [] = 0
sum (x ∷ xs) = x + sum xs

pub get_or-le-sum : (xs : List ℕ) (i : ℕ) → get_or xs i 0 ≤ sum xs
get_or-le-sum [] i = omega arith
get_or-le-sum (x ∷ xs) zero = omega arith
get_or-le-sum (x ∷ xs) (suc i) = omega (arith, get_or-le-sum xs i)

sum-set : (xs : List ℕ) (i v : ℕ) → i < length xs → sum (set xs i v) + get_or xs i 0 ≡ sum xs + v
sum-set [] i v h = elim h [ ]
sum-set (x ∷ xs) zero v h = omega arith
sum-set (x ∷ xs) (suc i) v h = omega (arith, sum-set xs i v (omega arith))

-- The histogram has a cell for each reason, and its cells add up to the invalid ordinals.
pub record IsHistogram (counts : List ℕ) (invalid : ℕ) : Type 0 where
  pub cells : length counts ≡ 13
  pub adds_up : sum counts ≡ invalid

pub reason_index-lt : (r : RejectionReason) → reason_index r < 13
unfolding reason_index
reason_index-lt r = ground arith

pub bump-IsHistogram :
    (counts : List ℕ) (i : ℕ) (r : RejectionReason)
    → i < 2 ^ 64 - 1
    → IsHistogram counts i
    → IsHistogram (bump counts (reason_index r)) (i + 1)
bump-IsHistogram counts i r small h =
    let k : ℕ = reason_index r in
    let v : ℕ = add64 (get_or counts k 0) 1 in
    record {
      cells = length-set counts k v ∙ h.cells;
      adds_up = omega (
        arith,
        h.cells,
        h.adds_up,
        reason_index-lt r,
        sum-set counts k v (omega (arith, h.cells, reason_index-lt r)),
        get_or-le-sum counts k,
      );
    }

abbrev pub at : SourceLedger → ℕ → SourceClass
at l = stored_class l.classes

-- What holds of a ledger between any two calls.
pub record Inv (l : SourceLedger) : Type 0 where
  pub store : IsStore l.classes l.covered
  pub fits : l.covered < 2 ^ 64
  pub tallies : Tallies (at l) l.covered l.valid l.invalid l.confirmed l.ambiguous
  pub histogram : IsHistogram l.rejection_counts l.invalid
  pub window : Window (at l) l.covered l.packet_start l.packet_end l.packet_valid l.packet_floor
  pub closed : (l.packet_open ≡ true) ⊎ ((l.packet_start ≡ 0) × (l.packet_end ≡ 0))

pub covered-ne-uncovered : (l : SourceLedger) → Inv l → (o : ℕ) → o < l.covered → at l o ≢ uncovered
covered-ne-uncovered l v o h = stored_class-ne-uncovered l.classes o (omega (arith, v.store.room))

pub Inv-total : (l : SourceLedger) → Inv l → l.valid + l.invalid ≡ l.covered
Inv-total l v = Tallies-total (at l) l.covered _ _ _ _ v.tallies

-- Valid ordinals are confirmed, ambiguous or unsent, and the pending ones are among the unsent.
pub Inv-parts : (l : SourceLedger) → Inv l → l.confirmed + l.ambiguous + l.packet_valid ≤ l.valid
Inv-parts l v = omega (
  arith,
  v.window.exact,
  Tallies-parts (at l) l.covered _ _ _ _ v.tallies (covered-ne-uncovered l v),
  count_mono (is_pending (at l) l.packet_start l.packet_end) (λ o. is_unsent (at l o)) l.covered
      (λ o h p. ground arith),
)

pub new_source_ledger-Inv : Inv new_source_ledger
unfolding new_source_ledger count
new_source_ledger-Inv = record {
  store = record { bytes = tt; room = omega arith; blank = λ o h l. absurd (omega arith) };
  fits = omega arith;
  tallies = record {
    valid_exact = refl;
    invalid_exact = refl;
    confirmed_exact = refl;
    ambiguous_exact = refl;
  };
  histogram = record { cells = refl; adds_up = refl };
  window = record {
    ordered = omega arith;
    covers = omega arith;
    exact = refl;
    capped = omega arith;
    floor_covered = omega arith;
    lead = λ o l. absurd (omega arith);
    gap = λ o h l. absurd (omega arith);
    body = λ o h l. absurd (omega arith);
  };
  closed = inr (refl, refl);
}
