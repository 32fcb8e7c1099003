-- ===== src/Destination/Ledger/Reasons.antt =====
-- internal/destination/rejection.go: which cell of the histogram counts a reason.
use otelcol_exporter_netflow.Common.{
  ℕ, ◌+◌, ◌-◌, ◌^◌, ◌<◌, ◌≡◌, ◌∙◌, ◌≢◌, Bool, true, false, List, [], ◌∷◌, length, some, get_or,
  get_elem?, get_or-set_self, get_or-set_ne, sym, arith,
}
use otelcol_exporter_netflow.Destination.Ledger.{
  RejectionReason, reason_index, bump, add64, other, unsupported_body, missing_field, invalid_type,
  invalid_value, map_miss, family_mismatch, protocol_mismatch, time_invalid, custom_unavailable,
  custom_invalid, record_too_large, record_invalid, unlisted,
}
use otelcol_exporter_netflow.Destination.Ledger.Invariant.{
  IsHistogram, get_or-le-sum, reason_index-lt,
}

-- The reasons in the order of their constants.
abbrev pub reason_order : List RejectionReason
reason_order =
    other ∷ unsupported_body ∷ missing_field ∷ invalid_type ∷ invalid_value ∷ map_miss
    ∷ family_mismatch ∷ protocol_mismatch ∷ time_invalid ∷ custom_unavailable ∷ custom_invalid
    ∷ record_too_large ∷ record_invalid ∷ []

-- A value that names no reason is reported as RejectionOther.
abbrev pub reported_reason : RejectionReason → RejectionReason
reported_reason unlisted = other
reported_reason reason = reason

-- One more record with a reason: the cell of that reason, and no other, has grown by one.
pub record Recorded (reason : RejectionReason) (old new : List ℕ) : Type 0 where
  pub cell : ℕ
  pub named : get_elem? reason_order cell ≡ some (reported_reason reason)
  pub gained : get_or new cell 0 ≡ get_or old cell 0 + 1
  pub others : (i : ℕ) → i ≢ cell → get_or new i 0 ≡ get_or old i 0

reason_order-reason_index :
    (r : RejectionReason) → get_elem? reason_order (reason_index r) ≡ some (reported_reason r)
unfolding reason_index
reason_order-reason_index r = ground arith

pub bump-Recorded :
    (counts : List ℕ) (invalid : ℕ) (r : RejectionReason)
    → invalid < 2 ^ 64 - 1
    → IsHistogram counts invalid
    → Recorded r counts (bump counts (reason_index r))
bump-Recorded counts invalid r small h =
    let k : ℕ = reason_index r in
    let v : ℕ = add64 (get_or counts k 0) 1 in
    let inside : k < length counts = omega (arith, h.cells, reason_index-lt r) in
    let whole : v ≡ get_or counts k 0 + 1 =
      omega (arith, get_or-le-sum counts k, h.adds_up, small) in
    record {
      cell = k;
      named = reason_order-reason_index r;
      gained = get_or-set_self counts k v 0 inside ∙ whole;
      others = λ i ne. get_or-set_ne counts k i v 0 (λ e. ne (sym e));
    }

-- What a new record does to the histogram: nothing, if it is valid.
abbrev pub CountedAs : Bool → RejectionReason → List ℕ → List ℕ → Type 0
CountedAs true reason old new = new ≡ old
CountedAs false reason old new = Recorded reason old new
