-- ===== src/Destination/Ledger/Store/Growth.antt =====
-- Growing the store keeps every class, and adds unsent ones.
use otelcol_exporter_netflow.Common.{
  ℕ, suc, zero, ◌+◌, ◌-◌, ◌*◌, ◌/◌, ◌%◌, ◌^◌, ◌≤◌, ◌<◌, ◌≡◌, refl, List, [], ◌∷◌, length, get_or,
  ltb, leb, ◌==◌, if◌then◌else◌, arith, ◌++◌, replicate, some, length-append, length-replicate,
  All-append, All-replicate, get_or-append_replicate, Bool-cases, inl, inr, ◌∙◌,
}
use otelcol_exporter_netflow.Destination.Ledger.Store.{
  SourceClass, unsent_valid, class_of_bits, stored_class, set_stored_class, grown_length,
  ensure_ordinal, uncovered,
}
use otelcol_exporter_netflow.Destination.Ledger.Store.Laws.{
  IsBytes, stored_class-grown, set_stored_class-IsBytes, length-set_stored_class,
  stored_class-set_stored_class, two_bits-zero,
}

-- A store that holds the classes of the ordinals below `n`: its bytes are bytes, it has room for
-- them, and behind them it is blank.
pub record IsStore (s : List ℕ) (n : ℕ) : Type 0 where
  pub bytes : IsBytes s
  pub room : n ≤ 4 * length s
  pub blank : (o : ℕ) → n ≤ o → o < 4 * length s → stored_class s o ≡ unsent_valid

get_or-past : (s : List ℕ) (i d : ℕ) → length s ≤ i → get_or s i d ≡ d
get_or-past [] i d h = refl
get_or-past (x ∷ xs) zero d h = absurd (omega arith)
get_or-past (x ∷ xs) (suc i) d h = get_or-past xs i d (omega arith)

grown_blank :
    (s : List ℕ) (k o : ℕ)
    → 4 * length s ≤ o
    → o < 4 * (length s + k)
    → stored_class (s ++ replicate k 0) o ≡ unsent_valid
unfolding stored_class class_of_bits
grown_blank s k o h l = ground (
  arith,
  length-append s (replicate k 0),
  length-replicate k (let z : ℕ = 0 in z),
  get_or-append_replicate s k 0 (o / 4),
  get_or-past s (o / 4) 0,
  two_bits-zero (o % 4),
)

length-grown : (s : List ℕ) (k : ℕ) → length (s ++ replicate k 0) ≡ length s + k
length-grown s k =
    ground (arith, length-append s (replicate k 0), length-replicate k (let z : ℕ = 0 in z))

pub grown-IsStore : (s : List ℕ) (k n : ℕ) → IsStore s n → IsStore (s ++ replicate k 0) n
grown-IsStore s k n v = record {
  bytes =
      All-append (λ b. b < 256) s (replicate k 0) v.bytes
        (All-replicate (λ b. b < 256) k 0 (omega arith));
  room = omega (arith, length-grown s k, v.room);
  blank = λ o h l. elim (Bool-cases (ltb o (4 * length s))) [
    | inl old ↦ stored_class-grown s k o (ground arith) ∙ v.blank o h (ground arith)
    | inr new ↦ grown_blank s k o (ground arith) (omega (arith, length-grown s k))
  ];
}

-- The store after `ensure_ordinal` for the first ordinal that it does not hold yet.
abbrev pub Ensured : List ℕ → ℕ → List ℕ → Type 0
Ensured s n s' =
    IsStore s' n × (n < 4 * length s') × ((o : ℕ) → o < n → stored_class s' o ≡ stored_class s o)

-- It never fails for an ordinal of 64 bits.
pub ensure_ordinal_lem :
    (s : List ℕ) (n : ℕ)
    → n < 2 ^ 64
    → IsStore s n
    → (s' : List ℕ) × (ensure_ordinal s n ≡ some s') × Ensured s n s'
unfolding ensure_ordinal
ensure_ordinal_lem s n h v = elim (Bool-cases (leb (n / 4 + 1) (length s))) [
  | inl e ↦ (s, ground arith, (v, ground arith, λ o l. refl))
  | inr e ↦
      let k : ℕ = grown_length (n / 4 + 1) (length s) - length s in
      (
        s ++ replicate k 0,
        ground arith,
        (
          grown-IsStore s k n v,
          ground (arith, length-grown s k),
          λ o l. stored_class-grown s k o (omega (arith, v.room)),
        ),
      )
]

pub IsStore-suc : (s : List ℕ) (n : ℕ) → n < 4 * length s → IsStore s n → IsStore s (suc n)
IsStore-suc s n h v = record {
  bytes = v.bytes;
  room = omega arith;
  blank = λ o l m. v.blank o (omega arith) m;
}

pub set-IsStore :
    (s : List ℕ) (n o : ℕ) (c : SourceClass)
    → o < n
    → ¬ (c ≡ uncovered)
    → IsStore s n
    → IsStore (set_stored_class s o c) n
set-IsStore s n o c h hc v = record {
  bytes = set_stored_class-IsBytes s o c v.bytes;
  room = omega (arith, length-set_stored_class s o c, v.room);
  blank = λ j l m. ground (
    arith,
    length-set_stored_class s o c,
    v.room,
    stored_class-set_stored_class s o j c v.bytes (omega (arith, v.room)) hc,
    v.blank j l,
  );
}

pub stored_class-set :
    (s : List ℕ) (n o j : ℕ) (c : SourceClass)
    → o < n
    → ¬ (c ≡ uncovered)
    → IsStore s n
    → stored_class (set_stored_class s o c) j ≡ (if j == o then c else stored_class s j)
stored_class-set s n o j c h hc v =
    stored_class-set_stored_class s o j c v.bytes (omega (arith, v.room)) hc
