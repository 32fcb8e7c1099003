-- ===== src/Destination/Ledger/Store/Laws.antt =====
-- The packed store behaves as a total map from ordinals to classes.

use otelcol_exporter_netflow.Common.{
  ℕ, ◌*◌, ◌/◌, ◌%◌, ◌<◌, ◌≡◌, refl, Bool, true, ◌&&◌, List, length, get_or, ltb, ◌==◌,
  if◌then◌else◌, arith, ◌≢◌, inl, inr, ◌++◌, replicate, All, length-set, length-append,
  get_or-append_replicate, get_or-set_self, get_or-set_ne, Bool-cases, All-set, All-get_or,
}
use otelcol_exporter_netflow.Common.Bytes.{all_below, all_below_sound}
use otelcol_exporter_netflow.Destination.Ledger.Store.{
  SourceClass, uncovered, confirmed, invalid, ambiguous, two_bits, put_bits, class_of_bits,
  bits_of_class, stored_class, set_stored_class,
}

abbrev entry_holds : ℕ → ℕ → ℕ → ℕ → Bool
entry_holds b k v j = two_bits (put_bits b k v) j == (if j == k then v else two_bits b j)

-- Every byte, position and value.
put_table :
    all_below 256 (λ b.
      all_below 4
        (λ k. all_below 4 (λ v. ltb (put_bits b k v) 256 && all_below 4 (entry_holds b k v))))
    ≡ true
unfolding all_below two_bits put_bits
put_table = refl

and_left : (a b : Bool) → (a && b) ≡ true → a ≡ true
and_left a b h = ground arith

and_right : (a b : Bool) → (a && b) ≡ true → b ≡ true
and_right a b h = ground arith

put_entry :
    (b k v : ℕ)
    → b < 256
    → k < 4
    → v < 4
    → (ltb (put_bits b k v) 256 && all_below 4 (entry_holds b k v)) ≡ true
put_entry b k v hb hk hv =
    all_below_sound 4 _ v (all_below_sound 4 _ k (all_below_sound 256 _ b put_table hb) hk) hv

put_bits-lt : (b k v : ℕ) → b < 256 → k < 4 → v < 4 → put_bits b k v < 256
put_bits-lt b k v hb hk hv = ground (
  arith,
  and_left (ltb (put_bits b k v) 256) (all_below 4 (entry_holds b k v)) (put_entry b k v hb hk hv),
)

two_bits-put :
    (b k v j : ℕ)
    → b < 256
    → k < 4
    → v < 4
    → j < 4
    → two_bits (put_bits b k v) j ≡ (if j == k then v else two_bits b j)
two_bits-put b k v j hb hk hv hj = ground (
  arith,
  all_below_sound 4 (entry_holds b k v) j
      (and_right (ltb (put_bits b k v) 256) (all_below 4 (entry_holds b k v))
        (put_entry b k v hb hk hv))
      hj,
)

bits_of_class-lt : (c : SourceClass) → bits_of_class c < 4
unfolding bits_of_class
bits_of_class-lt confirmed = omega arith
bits_of_class-lt invalid = omega arith
bits_of_class-lt ambiguous = omega arith
bits_of_class-lt other = omega arith

class_of_bits-bits_of_class :
    (c : SourceClass) → c ≢ uncovered → class_of_bits (bits_of_class c) ≡ c
unfolding bits_of_class class_of_bits
class_of_bits-bits_of_class uncovered h = absurd (h refl)
class_of_bits-bits_of_class confirmed h = refl
class_of_bits-bits_of_class other h = refl

abbrev pub IsBytes : List ℕ → Type 0
IsBytes = All (λ b. b < 256)

pub set_stored_class-IsBytes :
    (s : List ℕ) (o : ℕ) (c : SourceClass) → IsBytes s → IsBytes (set_stored_class s o c)
unfolding set_stored_class
set_stored_class-IsBytes s o c h =
    All-set (λ b. b < 256) s (o / 4) _
      (put_bits-lt _ _ _ (All-get_or (λ b. b < 256) s (o / 4) 0 (omega arith) h) (omega arith)
        (bits_of_class-lt c))
      h

pub length-set_stored_class :
    (s : List ℕ) (o : ℕ) (c : SourceClass) → length (set_stored_class s o c) ≡ length s
unfolding set_stored_class
length-set_stored_class s o c = length-set s _ _

same_slot :
    (s : List ℕ) (o j : ℕ) (c : SourceClass)
    → IsBytes s
    → o < 4 * length s
    → c ≢ uncovered
    → j / 4 ≡ o / 4
    → stored_class (set_stored_class s o c) j ≡ (if j == o then c else stored_class s j)
unfolding stored_class set_stored_class
same_slot s o j c hs ho hc e =
    let b : ℕ = get_or s (o / 4) 0 in
    let new : ℕ = put_bits b (o % 4) (bits_of_class c) in
    rw e (
      ground (
        arith,
        length-set s (o / 4) new,
        get_or-set_self s (o / 4) new 0,
        two_bits-put b (o % 4) (bits_of_class c) (j % 4)
            (All-get_or (λ b. b < 256) s (o / 4) 0 (omega arith) hs) (omega arith)
            (bits_of_class-lt c) (omega arith),
        class_of_bits-bits_of_class c hc,
      ))

other_slot :
    (s : List ℕ) (o j : ℕ) (c : SourceClass)
    → j / 4 ≢ o / 4
    → stored_class (set_stored_class s o c) j ≡ (if j == o then c else stored_class s j)
unfolding stored_class set_stored_class
other_slot s o j c ne =
    let new : ℕ = put_bits (get_or s (o / 4) 0) (o % 4) (bits_of_class c) in
    ground (arith, length-set s (o / 4) new, get_or-set_ne s (o / 4) (j / 4) new 0)

-- A write to an ordinal in range changes that ordinal's class and no other.
pub stored_class-set_stored_class :
    (s : List ℕ) (o j : ℕ) (c : SourceClass)
    → IsBytes s
    → o < 4 * length s
    → c ≢ uncovered
    → stored_class (set_stored_class s o c) j ≡ (if j == o then c else stored_class s j)
stored_class-set_stored_class s o j c hs ho hc = elim (Bool-cases (j / 4 == o / 4)) [
  | inl e ↦ same_slot s o j c hs ho hc (ground arith)
  | inr n ↦ other_slot s o j c (ground arith)
]

class_of_bits-ne-uncovered : (b : ℕ) → class_of_bits b ≢ uncovered
unfolding class_of_bits
class_of_bits-ne-uncovered b = ground arith

pub stored_class-ne-uncovered :
    (s : List ℕ) (o : ℕ) → o < 4 * length s → stored_class s o ≢ uncovered
unfolding stored_class
stored_class-ne-uncovered s o h =
    ground (arith, class_of_bits-ne-uncovered (two_bits (get_or s (o / 4) 0) (o % 4)))

pub two_bits-zero : (k : ℕ) → k < 4 → two_bits 0 k ≡ 0
unfolding two_bits
two_bits-zero k h =
    ground (arith, all_below_sound 4 (λ k. two_bits 0 k == 0) k (unfold all_below in refl) h)

-- Zero bytes behind the store: an ordinal in the old range keeps its class.
pub stored_class-grown :
    (s : List ℕ) (n o : ℕ)
    → o < 4 * length s
    → stored_class (s ++ replicate n 0) o ≡ stored_class s o
unfolding stored_class
stored_class-grown s n o h =
    ground (arith, length-append s (replicate n 0), get_or-append_replicate s n 0 (o / 4))
