-- ===== src/Destination/Ledger/Window.antt =====
-- The active packet's interval: which ordinals are pending, and what lies before them.
use otelcol_exporter_netflow.Common.{
  ℕ, suc, ◌+◌, ◌≤◌, ◌<◌, ◌≡◌, refl, sym, ◌∙◌, ◌≢◌, Bool, true, false, ◌&&◌, ◌||◌, ltb, leb, ◌==◌,
  arith, Bool-cases, inl, inr,
}
use otelcol_exporter_netflow.Common.Count.{
  bit, count, count-suc, count-congr, count_split, count-single, count-none,
}
use otelcol_exporter_netflow.Destination.Ledger.Store.{
  SourceClass, confirmed, ambiguous, is_unsent, is_invalid,
}
use otelcol_exporter_netflow.Destination.Ledger.Store.Ranges.{marked}
use otelcol_exporter_netflow.Destination.Ledger.Tally.{is_confirmed, is_pending}

-- Nothing more can be sent of a settled ordinal: it is confirmed or invalid.
abbrev pub is_settled : SourceClass → Bool
is_settled c = is_confirmed c || is_invalid c

-- Every ordinal before the floor is settled, from the floor to the packet's start all are
-- invalid, and inside the packet each is pending or invalid.
pub record Window (f : ℕ → SourceClass) (n start end k floor : ℕ) : Type 0 where
  pub ordered : start ≤ end
  pub covers : end ≤ n
  pub exact : k ≡ count (is_pending f start end) n
  pub capped : k ≤ 1024
  pub floor_covered : floor ≤ n
  pub lead : (o : ℕ) → o < floor → is_settled (f o) ≡ true
  pub gap : (o : ℕ) → floor ≤ o → o < start → is_invalid (f o) ≡ true
  pub body : (o : ℕ) → start ≤ o → o < end → (is_unsent (f o) || is_invalid (f o)) ≡ true

module _ (f : ℕ → SourceClass) (n start end k floor : ℕ) (w : Window f n start end k floor) where
  -- No packet, or one that has taken nothing yet.
  pub Window-empty : Window f n 0 0 0 floor
  Window-empty = record {
    ordered = omega arith;
    covers = omega arith;
    exact = sym (count-none (is_pending f 0 0) n (λ o l. ground arith));
    capped = omega arith;
    floor_covered = w.floor_covered;
    lead = w.lead;
    gap = λ o h l. absurd (omega arith);
    body = λ o h l. absurd (omega arith);
  }

  pub Window-add :
      (g : ℕ → SourceClass) → ((o : ℕ) → o < n → g o ≡ f o) → Window g (suc n) start end k floor
  Window-add g same = record {
    ordered = w.ordered;
    covers = omega (arith, w.covers);
    exact =
        let e : count (is_pending g start end) n ≡ count (is_pending f start end) n =
          count-congr (is_pending g start end) (is_pending f start end) n
            (λ o l. rw (same o l) refl) in
        ground (arith, w.exact, e, count-suc (is_pending g start end) n, w.covers);
    capped = w.capped;
    floor_covered = omega (arith, w.floor_covered);
    lead = λ o l. rw (same o (omega (arith, w.floor_covered))) (w.lead o l);
    gap = λ o h l. rw (same o (omega (arith, w.ordered, w.covers))) (w.gap o h l);
    body = λ o h l. rw (same o (omega (arith, w.covers))) (w.body o h l);
  }

  pub Window-invalidate :
      (g : ℕ → SourceClass) (o : ℕ)
      → (leb start o && ltb o end) ≡ false
      → g o ≡ SourceClass.invalid
      → ((j : ℕ) → j ≢ o → g j ≡ f j)
      → Window g n start end k floor
  Window-invalidate g o out new same = record {
    ordered = w.ordered;
    covers = w.covers;
    exact =
        w.exact
        ∙ count-congr (is_pending f start end) (is_pending g start end) n (λ j l.
          elim (Bool-cases (j == o)) [
            | inl e ↦ let e' : j ≡ o = ground arith in rw e' (ground arith)
            | inr e ↦ ground (arith, same j)
          ]);
    capped = w.capped;
    floor_covered = w.floor_covered;
    lead = λ j l. kept is_settled j refl (w.lead j l);
    gap = λ j h l. kept is_invalid j refl (w.gap j h l);
    body = λ j h l. kept (λ x. is_unsent x || is_invalid x) j refl (w.body j h l);
  }
    where
      kept :
          (p : SourceClass → Bool) (j : ℕ)
          → p SourceClass.invalid ≡ true
          → p (f j) ≡ true
          → p (g j) ≡ true
      kept p j pi pj = elim (Bool-cases (j == o)) [
        | inl e ↦ let e' : j ≡ o = ground arith in rw (e', new) pi
        | inr e ↦ rw (same j (ground arith)) pj
      ]

  pub Window-first :
      (o : ℕ)
      → o < n
      → is_unsent (f o) ≡ true
      → ((j : ℕ) → floor ≤ j → j < o → is_invalid (f j) ≡ true)
      → Window f n o (o + 1) 1 floor
  Window-first o l unsent before = record {
    ordered = omega arith;
    covers = omega arith;
    exact = sym (
        count-congr (is_pending f o (o + 1)) (λ j. j == o && true) n (λ j m. only j)
        ∙ count-single o true n l);
    capped = omega arith;
    floor_covered = w.floor_covered;
    lead = w.lead;
    gap = before;
    body = λ j h m. let e : j ≡ o = omega arith in rw (e, unsent) refl;
  }
    where
      only : (j : ℕ) → is_pending f o (o + 1) j ≡ (j == o && true)
      only j = elim (Bool-cases (j == o)) [
        | inl e ↦ let e' : j ≡ o = ground arith in rw (e', unsent) (ground arith)
        | inr e ↦ ground arith
      ]

  pub Window-next :
      (o : ℕ)
      → o < n
      → k < 1024
      → end ≤ o
      → is_unsent (f o) ≡ true
      → ((j : ℕ) → end ≤ j → j < o → is_invalid (f j) ≡ true)
      → Window f n start (o + 1) (k + 1) floor
  Window-next o l cap after unsent between = record {
    ordered = omega (arith, w.ordered);
    covers = omega arith;
    exact = omega (
      arith,
      w.exact,
      count_split (is_pending f start (o + 1)) (is_pending f start end) (λ j. j == o && true) n
          (λ j m. taken j),
      count-single o true n l,
    );
    capped = omega arith;
    floor_covered = w.floor_covered;
    lead = w.lead;
    gap = w.gap;
    body = λ j h m. elim (Bool-cases (ltb j end)) [
      | inl e ↦ w.body j h (ground arith)
      | inr e ↦ elim (Bool-cases (j == o)) [
        | inl d ↦ let e' : j ≡ o = ground arith in rw (e', unsent) refl
        | inr d ↦ ground (arith, between j (ground arith) (ground arith))
      ]
    ];
  }
    where
      taken :
          (j : ℕ)
          → bit (is_pending f start (o + 1) j)
            ≡ bit (is_pending f start end j) + bit (j == o && true)
      taken j = elim (Bool-cases (j == o)) [
        | inl d ↦ let e' : j ≡ o = ground arith in rw (e', unsent) (ground (arith, w.ordered))
        | inr d ↦ elim (Bool-cases (leb end j && ltb j o)) [
          | inl e ↦ ground (arith, between j (ground arith) (ground arith))
          | inr e ↦ ground arith
        ]
      ]

  -- A confirmed packet moves the floor to its end.
  pub Window-confirm :
      (g : ℕ → SourceClass)
      → ((o : ℕ) → g o ≡ marked start end confirmed o (f o))
      → Window g n 0 0 0 end
  Window-confirm g new = record {
    ordered = omega arith;
    covers = omega arith;
    exact = sym (count-none (is_pending g 0 0) n (λ o l. ground arith));
    capped = omega arith;
    floor_covered = w.covers;
    lead = λ o l. rw (new o) (settled o l);
    gap = λ o h l. absurd (omega arith);
    body = λ o h l. absurd (omega arith);
  }
    where
      settled : (o : ℕ) → o < end → is_settled (marked start end confirmed o (f o)) ≡ true
      settled o l = elim (Bool-cases (ltb o floor)) [
        | inl e ↦ ground (arith, w.lead o (ground arith))
        | inr e ↦ elim (Bool-cases (ltb o start)) [
          | inl d ↦ ground (arith, w.gap o (ground arith) (ground arith))
          | inr d ↦ ground (arith, w.body o (ground arith) l)
        ]
      ]

  pub Window-ambiguous :
      (g : ℕ → SourceClass)
      → ((o : ℕ) → g o ≡ marked start end ambiguous o (f o))
      → Window g n 0 0 0 floor
  Window-ambiguous g new = record {
    ordered = omega arith;
    covers = omega arith;
    exact = sym (count-none (is_pending g 0 0) n (λ o l. ground arith));
    capped = omega arith;
    floor_covered = w.floor_covered;
    lead = λ o l. rw (new o) (ground (arith, w.lead o l));
    gap = λ o h l. absurd (omega arith);
    body = λ o h l. absurd (omega arith);
  }
