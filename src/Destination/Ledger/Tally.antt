-- ===== src/Destination/Ledger/Tally.antt =====
-- The scalar counters of the ledger against the classes of the covered ordinals.
use otelcol_exporter_netflow.Common.{
  ℕ, suc, ◌+◌, ◌-◌, ◌<◌, ◌≡◌, ap, sym, ◌∙◌, ◌≢◌, Bool, true, false, not, ◌&&◌, ◌||◌, ltb, leb,
  arith,
}
use otelcol_exporter_netflow.Common.Count.{
  bit, count, count-suc, count-congr, count_split, count-true, count_update,
}
use otelcol_exporter_netflow.Destination.Ledger.Store.{
  SourceClass, uncovered, unsent_valid, confirmed, ambiguous, is_unsent, is_invalid,
}
use otelcol_exporter_netflow.Destination.Ledger.Store.Ranges.{marked}

abbrev pub is_confirmed : SourceClass → Bool
is_confirmed confirmed = true
is_confirmed other = false

abbrev pub is_ambiguous : SourceClass → Bool
is_ambiguous ambiguous = true
is_ambiguous other = false

-- The ordinals of the active packet: the unsent ones between its bounds.
abbrev pub is_pending : (ℕ → SourceClass) → ℕ → ℕ → ℕ → Bool
is_pending f start end o = leb start o && ltb o end && is_unsent (f o)

-- Each counter is the number of covered ordinals of its classes.
pub record Tallies (f : ℕ → SourceClass) (n v i c a : ℕ) : Type 0 where
  pub valid_exact : v ≡ count (λ o. not (is_invalid (f o))) n
  pub invalid_exact : i ≡ count (λ o. is_invalid (f o)) n
  pub confirmed_exact : c ≡ count (λ o. is_confirmed (f o)) n
  pub ambiguous_exact : a ≡ count (λ o. is_ambiguous (f o)) n

module _ (f : ℕ → SourceClass) (n v i c a : ℕ) (t : Tallies f n v i c a) where
  -- Every covered ordinal is valid or invalid.
  pub Tallies-total : v + i ≡ n
  Tallies-total = omega (
    arith,
    t.valid_exact,
    t.invalid_exact,
    count-true n,
    count_split (λ o. true) (λ o. not (is_invalid (f o))) (λ o. is_invalid (f o)) n
        (λ o l. ground arith),
  )

  -- Every valid one is confirmed, ambiguous or unsent.
  pub Tallies-parts :
      ((o : ℕ) → o < n → f o ≢ uncovered) → v ≡ c + a + count (λ o. is_unsent (f o)) n
  Tallies-parts h = omega (
    arith,
    t.valid_exact,
    t.confirmed_exact,
    t.ambiguous_exact,
    count_split (λ o. not (is_invalid (f o))) (λ o. is_unsent (f o))
        (λ o. is_confirmed (f o) || is_ambiguous (f o)) n (λ o l. covered_split (f o) (h o l)),
    count_split (λ o. is_confirmed (f o) || is_ambiguous (f o)) (λ o. is_confirmed (f o))
        (λ o. is_ambiguous (f o)) n (λ o l. ground arith),
  )
    where
      covered_split :
          (x : SourceClass)
          → x ≢ uncovered
          → bit (not (is_invalid x)) ≡ bit (is_unsent x) + bit (is_confirmed x || is_ambiguous x)
      covered_split x ne = ground arith

-- One more ordinal is covered.
module _ (f g : ℕ → SourceClass) (n : ℕ) (same : (o : ℕ) → o < n → g o ≡ f o) where
  extended :
      (p : SourceClass → Bool)
      → count (λ o. p (g o)) (suc n) ≡ count (λ o. p (f o)) n + bit (p (g n))
  extended p = omega (
    arith,
    count-suc (λ o. p (g o)) n,
    count-congr (λ o. p (g o)) (λ o. p (f o)) n (λ o l. ap p (same o l)),
  )

  pub Tallies-add :
      (v i c a : ℕ)
      → Tallies f n v i c a
      → Tallies g
          (suc n)
          (v + bit (not (is_invalid (g n))))
          (i + bit (is_invalid (g n)))
          (c + bit (is_confirmed (g n)))
          (a + bit (is_ambiguous (g n)))
  Tallies-add v i c a t = record {
    valid_exact = omega (arith, t.valid_exact, extended (λ x. not (is_invalid x)));
    invalid_exact = omega (arith, t.invalid_exact, extended is_invalid);
    confirmed_exact = omega (arith, t.confirmed_exact, extended is_confirmed);
    ambiguous_exact = omega (arith, t.ambiguous_exact, extended is_ambiguous);
  }

-- An unsent ordinal becomes invalid.
module _ (f g : ℕ → SourceClass) (n o : ℕ) (l : o < n) (unsent : f o ≡ unsent_valid)
    (new : g o ≡ SourceClass.invalid) (same : (j : ℕ) → j < n → j ≢ o → g j ≡ f j) where
  updated :
      (p : SourceClass → Bool)
      → count (λ j. p (g j)) n + bit (p unsent_valid)
        ≡ count (λ j. p (f j)) n + bit (p SourceClass.invalid)
  updated p =
      rw (← unsent, ← new)
        (count_update (λ j. p (f j)) (λ j. p (g j)) n o l (λ j m ne. ap p (same j m ne)))

  pub Tallies-invalidate :
      (v i c a : ℕ) → Tallies f n v i c a → (0 < v) × Tallies g n (v - 1) (i + 1) c a
  Tallies-invalidate v i c a t = (
    omega (arith, t.valid_exact, updated (λ x. not (is_invalid x))),
    record {
      valid_exact = omega (arith, t.valid_exact, updated (λ x. not (is_invalid x)));
      invalid_exact = omega (arith, t.invalid_exact, updated is_invalid);
      confirmed_exact = omega (arith, t.confirmed_exact, updated is_confirmed);
      ambiguous_exact = omega (arith, t.ambiguous_exact, updated is_ambiguous);
    },
  )

-- The pending ordinals take their class.
module _ (f g : ℕ → SourceClass) (n start end : ℕ) (class : SourceClass)
    (new : (o : ℕ) → g o ≡ marked start end class o (f o)) where
  pub Tallies-confirm :
      (v i c a k : ℕ)
      → class ≡ confirmed
      → k ≡ count (is_pending f start end) n
      → Tallies f n v i c a
      → Tallies g n v i (c + k) a
  Tallies-confirm v i c a k e h t = record {
    valid_exact = t.valid_exact ∙ sym (count-congr _ _ n (λ o l. rw (new o, e) (ground arith)));
    invalid_exact = t.invalid_exact ∙ sym (count-congr _ _ n (λ o l. rw (new o, e) (ground arith)));
    confirmed_exact = omega (
      arith,
      t.confirmed_exact,
      count_split (λ o. is_confirmed (g o)) (λ o. is_confirmed (f o)) (is_pending f start end) n
          (λ o l. rw (new o, e) (ground arith)),
    );
    ambiguous_exact =
        t.ambiguous_exact ∙ sym (count-congr _ _ n (λ o l. rw (new o, e) (ground arith)));
  }

  pub Tallies-ambiguous :
      (v i c a k : ℕ)
      → class ≡ ambiguous
      → k ≡ count (is_pending f start end) n
      → Tallies f n v i c a
      → Tallies g n v i c (a + k)
  Tallies-ambiguous v i c a k e h t = record {
    valid_exact = t.valid_exact ∙ sym (count-congr _ _ n (λ o l. rw (new o, e) (ground arith)));
    invalid_exact = t.invalid_exact ∙ sym (count-congr _ _ n (λ o l. rw (new o, e) (ground arith)));
    confirmed_exact =
        t.confirmed_exact ∙ sym (count-congr _ _ n (λ o l. rw (new o, e) (ground arith)));
    ambiguous_exact = omega (
      arith,
      t.ambiguous_exact,
      count_split (λ o. is_ambiguous (g o)) (λ o. is_ambiguous (f o)) (is_pending f start end) n
          (λ o l. rw (new o, e) (ground arith)),
    );
  }
