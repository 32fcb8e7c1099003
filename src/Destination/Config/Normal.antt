-- ===== src/Destination/Config/Normal.antt =====
-- What a normalized configuration satisfies.
use otelcol_exporter_netflow.Common.{
  ℕ, ◌≢◌, ◌*◌, ◌≤◌, ◌≡◌, refl, ap, sym, subst, ◌∙◌, Bool, true, false, arith, not, ◌⊎◌,
}
use otelcol_exporter_netflow.Common.Result.{Result, ok, err, >>=-eq-ok, reject_if, ◌>>=◌, ◌>>◌}
use otelcol_exporter_netflow.Wire.Model.{
  Protocol, same_protocol, v5, v9, ipfix, is_known, max_int64,
}
use otelcol_exporter_netflow.Destination.Error.{Error, invalid_config}
use otelcol_exporter_netflow.Destination.Config.{
  or_default, Config, normalized, with_defaults, check_ranges, check_identity, second,
}

-- The ranges and identities that the state relies on.
pub record IsNormal (c : Config) : Type 0 where
  pub known : is_known c.protocol ≡ true
  pub datagram : (128 ≤ c.max_datagram_size) × (c.max_datagram_size ≤ 65507)
  pub records : (1 ≤ c.max_records_per_message) × (c.max_records_per_message ≤ 1024)
  pub v5_records : c.protocol ≡ v5 → c.max_records_per_message ≤ 30
  pub copies : (2 ≤ c.initial_copies) × (c.initial_copies ≤ 8)
  pub interval : (30 * second ≤ c.refresh_interval) × (c.refresh_interval ≤ 86400 * second)
  pub v9_refresh :
      c.protocol ≡ v9 → (1 ≤ c.v9_refresh_packet_count) × (c.v9_refresh_packet_count ≤ 1000)
  pub ipfix_refresh : c.protocol ≡ ipfix → c.ipfix_data_message_refresh_count ≤ 1000
  pub v5_identity : c.protocol ≡ v5 → (c.source_id ≡ 0) × (c.observation_domain_id ≡ 0)
  pub v5_sampling : c.protocol ≡ v5 → c.sampling_mode ≤ 3
  -- v9 has one source identifier, whichever of the two fields names it.
  pub v9_identity :
      c.protocol ≡ v9 → (c.observation_domain_id ≡ 0) ⊎ (c.observation_domain_id ≡ c.source_id)
  pub v9_engine : c.protocol ≡ v9 → (c.engine_type ≡ 0) × (c.engine_id ≡ 0) × (c.sampling_mode ≡ 0)
  pub ipfix_identity :
      c.protocol ≡ ipfix
      → (c.source_id ≡ 0) × (c.engine_type ≡ 0) × (c.engine_id ≡ 0) × (c.sampling_mode ≡ 0)
  pub v5_origin : c.protocol ≡ v5 → c.has_uptime_origin ≡ true
  pub ipfix_origin : c.protocol ≡ ipfix → c.has_uptime_origin ≡ false
  pub origin : c.has_uptime_origin ≡ true → c.uptime_origin_unix_nanos ≤ max_int64

IsNormal-of_checks :
    (c : Config)
    → is_known c.protocol ≡ true
    → check_ranges c ≡ ok tt
    → check_identity c ≡ ok tt
    → IsNormal c
unfolding check_ranges check_identity
IsNormal-of_checks c k r i = ground arith

checks_of_IsNormal :
    (c : Config) → IsNormal c → (check_ranges c ≡ ok tt) × (check_identity c ≡ ok tt)
unfolding check_ranges check_identity
checks_of_IsNormal c n = ground (arith, n.origin, n.ipfix_origin, n.v5_origin, n.known)

with_defaults-eq : (c : Config) → with_defaults (with_defaults c) ≡ with_defaults c
unfolding with_defaults
with_defaults-eq c = ground arith

accepts : (c : Config) → IsNormal (with_defaults c) → normalized c ≡ ok (with_defaults c)
unfolding normalized with_defaults
accepts c n = let (r, i) = checks_of_IsNormal (with_defaults c) n in ground (arith, r, i, n.known)

takes : (c c' : Config) → normalized c ≡ ok c' → IsNormal c' × (c' ≡ with_defaults c)
unfolding normalized
takes c c' h =
    let (_, k, h1) = >>=-eq-ok (reject_if (not (is_known c.protocol)) invalid_config) _ h in
    let (_, r, h2) = >>=-eq-ok (check_ranges (with_defaults c)) _ h1 in
    let (_, i, h3) = >>=-eq-ok (check_identity (with_defaults c)) _ h2 in
    let e : c' ≡ with_defaults c = ground arith in
    rw e (IsNormal-of_checks (with_defaults c) (known_protocol (is_known c.protocol) k) r i, refl)
  where
    known_protocol : (b : Bool) → reject_if (not b) invalid_config ≡ ok tt → b ≡ true
    known_protocol b k = ground arith

-- A step whose only error is the one of an invalid configuration.
abbrev FailsInvalid {ℓ} : {A : Type ℓ} → Result Error A → Type ℓ
FailsInvalid m = (e : Error) → m ≡ err e → e ≡ invalid_config

guarded {ℓ} :
    {A : Type ℓ} (b : Bool) (k : Unit {0} → Result Error A)
    → FailsInvalid (k tt)
    → FailsInvalid (reject_if b invalid_config >>= k)
guarded true k f e h = ground arith
guarded false k f e h = f e h

then_fails {ℓ} :
    {A : Type ℓ} (m : Result Error (Unit {0})) (k : Unit {0} → Result Error A)
    → FailsInvalid m
    → FailsInvalid (k tt)
    → FailsInvalid (m >>= k)
then_fails (ok u) k m f e h = f e h
then_fails {A = A} (err d) k m f e h = m e (ap to_unit h)
  where
    to_unit : Result Error A → Result Error (Unit {0})
    to_unit (ok a) = ok tt
    to_unit (err e) = err e

ranges_fail : (c : Config) → FailsInvalid (check_ranges c)
unfolding check_ranges
ranges_fail c e h = ground arith

identity_fails : (c : Config) → FailsInvalid (check_identity c)
unfolding check_identity
identity_fails c e h = ground arith

never_fails : (c : Config) → FailsInvalid (ok c)
never_fails c e h = cc

only_invalid_config : (c : Config) → FailsInvalid (normalized c)
unfolding normalized
only_invalid_config c =
    guarded (not (is_known c.protocol))
      (λ _.
        check_ranges (with_defaults c)
        >> (check_identity (with_defaults c) >> ok (with_defaults c)))
      (then_fails (check_ranges (with_defaults c))
        (λ _. check_identity (with_defaults c) >> ok (with_defaults c))
        (ranges_fail (with_defaults c))
        (then_fails (check_identity (with_defaults c)) (λ _. ok (with_defaults c))
          (identity_fails (with_defaults c)) (never_fails (with_defaults c))))

-- The answers of `normalized`.
pub data NormalizedAnswer (c : Config) (r : Result Error Config) : Type 0 where
  accepted : IsNormal (with_defaults c) → r ≡ ok (with_defaults c) → NormalizedAnswer c r
  refused : ¬ IsNormal (with_defaults c) → r ≡ err invalid_config → NormalizedAnswer c r

answer_of : (c : Config) (r : Result Error Config) → normalized c ≡ r → NormalizedAnswer c r
answer_of c (ok c') h =
    let (n, e) = takes c c' h in NormalizedAnswer.accepted (subst IsNormal e n) (ap ok e)
answer_of c (err e) h =
    refused (λ n. ok_is_no_error (sym (accepts c n) ∙ h)) (ap err (only_invalid_config c e h))
  where
    ok_is_no_error : ok (with_defaults c) ≡ err e → ⊥
    ok_is_no_error p = cc

-- A limit that is given as zero has its default, any other one is kept.
abbrev pub Chosen : ℕ → ℕ → ℕ → Type 0
Chosen given default chosen = (given ≡ 0 → chosen ≡ default) × (given ≢ 0 → chosen ≡ given)

-- The documented defaults, and nothing else that differs.
pub record Defaulted (c d : Config) : Type 0 where
  pub datagram : Chosen c.max_datagram_size 464 d.max_datagram_size
  pub v5_records : c.protocol ≡ v5 → Chosen c.max_records_per_message 30 d.max_records_per_message
  pub records : c.protocol ≢ v5 → Chosen c.max_records_per_message 256 d.max_records_per_message
  pub copies : Chosen c.initial_copies 2 d.initial_copies
  pub interval : Chosen c.refresh_interval (600 * second) d.refresh_interval
  pub v9_refresh : c.protocol ≡ v9 → Chosen c.v9_refresh_packet_count 20 d.v9_refresh_packet_count
  pub other_refresh : c.protocol ≢ v9 → d.v9_refresh_packet_count ≡ c.v9_refresh_packet_count
  pub same_rest : d ≡ record c {
    max_datagram_size = d.max_datagram_size;
    max_records_per_message = d.max_records_per_message;
    initial_copies = d.initial_copies;
    refresh_interval = d.refresh_interval;
    v9_refresh_packet_count = d.v9_refresh_packet_count;
  }

or_default-Chosen : (given default : ℕ) → Chosen given default (or_default given default)
or_default-Chosen given default = (λ e. ground arith, λ e. ground arith)

not_same_v5 : (p : Protocol) → p ≢ v5 → same_protocol p v5 ≡ false
not_same_v5 v5 ne = absurd (ne refl)
not_same_v5 v9 ne = refl
not_same_v5 ipfix ne = refl
not_same_v5 Protocol.unknown ne = refl
not_same_v5 Protocol.unlisted ne = refl

not_same_v9 : (p : Protocol) → p ≢ v9 → same_protocol p v9 ≡ false
not_same_v9 v9 ne = absurd (ne refl)
not_same_v9 v5 ne = refl
not_same_v9 ipfix ne = refl
not_same_v9 Protocol.unknown ne = refl
not_same_v9 Protocol.unlisted ne = refl

with_defaults-Defaulted : (c : Config) → Defaulted c (with_defaults c)
unfolding with_defaults
with_defaults-Defaulted c = record {
  datagram = or_default-Chosen _ _;
  v5_records = λ e. rw e (or_default-Chosen c.max_records_per_message 30);
  records = λ ne. rw (not_same_v5 c.protocol ne) (or_default-Chosen c.max_records_per_message 256);
  copies = or_default-Chosen _ _;
  interval = or_default-Chosen _ _;
  v9_refresh = λ e. (λ z. ground arith, λ z. ground arith);
  other_refresh = λ ne. let d = not_same_v9 c.protocol ne in ground arith;
  same_rest = refl;
}

-- A configuration is accepted, with its defaults filled in, exactly when with them the protocol is
-- known, every limit is in its range and the identity fields are those of the protocol; otherwise
-- the error is the one of an invalid configuration. The defaults are the documented ones and replace
-- zeros only, and filling them in first changes nothing.
pub normalized-NormalizedAnswer :
    (c : Config)
    → NormalizedAnswer c (normalized c)
      × Defaulted c (with_defaults c)
      × (normalized (with_defaults c) ≡ normalized c)
unfolding normalized
normalized-NormalizedAnswer c = (
  answer_of c (normalized c) refl,
  with_defaults-Defaulted c,
  ap
      (λ d.
        reject_if (not (is_known c.protocol)) invalid_config
        >> (check_ranges d >> (check_identity d >> ok d)))
      (with_defaults-eq c),
)
