-- ===== src/Destination/Ledger/Store/Ranges.antt =====
-- The two loops over a range of ordinals.
use otelcol_exporter_netflow.Common.{
  ℕ, suc, zero, ◌+◌, ◌≤◌, ◌<◌, ◌≡◌, List, ltb, leb, ◌==◌, ◌&&◌, true, false, if◌then◌else◌, arith,
  Bool-cases, inl, inr, ◌∙◌,
}
use otelcol_exporter_netflow.Destination.Ledger.Store.{
  SourceClass, uncovered, is_unsent, is_invalid, stored_class, set_stored_class, invalid_gap_loop,
  mark_loop,
}
use otelcol_exporter_netflow.Destination.Ledger.Store.Growth.{
  IsStore, set-IsStore, stored_class-set,
}

-- The gap test passes only if every ordinal of the range is invalid.
pub invalid_gap_loop_sound :
    (s : List ℕ) (rounds start o : ℕ)
    → invalid_gap_loop s rounds start ≡ true
    → start ≤ o
    → o < start + rounds
    → is_invalid (stored_class s o) ≡ true
unfolding invalid_gap_loop
invalid_gap_loop_sound s zero start o h l m = absurd (omega arith)
invalid_gap_loop_sound s (suc rounds) start o h l m = elim (Bool-cases (o == start)) [
  | inl e ↦ let e' : o ≡ start = ground arith in rw e' (ground arith)
  | inr n ↦
      invalid_gap_loop_sound s rounds (start + 1) o (ground arith) (ground arith) (omega arith)
]

-- What marking makes of the class of ordinal `o`, for the range from `start` on.
abbrev pub marked : ℕ → ℕ → SourceClass → ℕ → SourceClass → SourceClass
marked start end class o old = if leb start o && ltb o end && is_unsent old then class else old

module _ (n : ℕ) (class : SourceClass) (proper : ¬ (class ≡ uncovered))
    (final : is_unsent class ≡ false) where
  abbrev mark_one : List ℕ → ℕ → List ℕ
  mark_one s o = if is_unsent (stored_class s o) then set_stored_class s o class else s

  mark_one-IsStore : (s : List ℕ) (o : ℕ) → o < n → IsStore s n → IsStore (mark_one s o) n
  mark_one-IsStore s o h v = elim (Bool-cases (is_unsent (stored_class s o))) [
    | inl e ↦ rw e (set-IsStore s n o class h proper v)
    | inr e ↦ rw e v
  ]

  mark_one_lem :
      (s : List ℕ) (o j : ℕ)
      → o < n
      → IsStore s n
      → stored_class (mark_one s o) j ≡ marked o (o + 1) class j (stored_class s j)
  mark_one_lem s o j h v = elim (Bool-cases (j == o)) [
    | inl e ↦
        let e' : j ≡ o = ground arith in
        rw e' (ground (arith, stored_class-set s n o o class h proper v))
    | inr e ↦ ground (arith, stored_class-set s n o j class h proper v)
  ]

  pub mark_loop-IsStore :
      (s : List ℕ) (rounds start : ℕ)
      → start + rounds ≤ n
      → IsStore s n
      → IsStore (mark_loop s rounds start class) n
  unfolding mark_loop
  mark_loop-IsStore s zero start h v = v
  mark_loop-IsStore s (suc rounds) start h v =
      mark_loop-IsStore (mark_one s start) rounds (start + 1) (omega arith)
        (mark_one-IsStore s start (omega arith) v)

  marked_twice :
      (start rounds o : ℕ) (old : SourceClass)
      → marked (start + 1) (start + 1 + rounds) class o (marked start (start + 1) class o old)
        ≡ marked start (start + suc rounds) class o old
  marked_twice start rounds o old = ground arith

  -- Marking turns the unsent ordinals of the range into the class, and changes no other.
  pub stored_class-mark_loop :
      (s : List ℕ) (rounds start j : ℕ)
      → start + rounds ≤ n
      → IsStore s n
      → stored_class (mark_loop s rounds start class) j
        ≡ marked start (start + rounds) class j (stored_class s j)
  unfolding mark_loop
  stored_class-mark_loop s zero start j h v = ground arith
  stored_class-mark_loop s (suc rounds) start j h v =
      stored_class-mark_loop (mark_one s start) rounds (start + 1) j (omega arith)
        (mark_one-IsStore s start (omega arith) v)
      ∙ rw (mark_one_lem s start j (omega arith) v) (marked_twice start rounds j (stored_class s j))
