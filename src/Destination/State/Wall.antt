-- ===== src/Destination/State/Wall.antt =====
-- The reservation of the logical send instant.
use otelcol_exporter_netflow.Common.{
  ℕ, ◌-◌, ◌/◌, ◌%◌, ◌^◌, ◌≤◌, ◌<◌, ◌≡◌, refl, sym, ap, ◌∙◌, Bool, true, false, ◌&&◌, Option, none,
  some, ltb, if◌then◌else◌, arith,
}
use otelcol_exporter_netflow.Common.Result.{ok}
use otelcol_exporter_netflow.Wire.Model.{v9, ipfix, same_protocol, max_int64}
use otelcol_exporter_netflow.Destination.Error.{time_not_representable}
use otelcol_exporter_netflow.Destination.State.Steps.{not_taken}
use otelcol_exporter_netflow.Destination.State.{
  State, reserve_wall, reserve_uptime, reserved, uptime_origin, not_before,
}

-- What is reserved against an uptime origin.
abbrev IsUptime : ℕ → ℕ → Type 0
IsUptime origin t =
    (origin ≤ t) × ((t - origin) % 1_000_000 ≡ 0) × ((t - origin) / 1_000_000 < 2 ^ 32)

true_ne_false : true ≡ false → ⊥
true_ne_false e = cc

none_ne_some : {n : ℕ} → none ≡ some n → ⊥
none_ne_some e = cc

some_injective : {m n : ℕ} → some m ≡ some n → m ≡ n
some_injective e = ground arith

module _ {A : Type 0} where
  -- A reserved instant.
  pub record Reserved (s : State A) (wall t : ℕ) (s' : State A) : Type 0 where
    -- Only the reserved wall changes.
    pub state : s' ≡ record s { last_reserved_wall = t; have_reserved_wall = true }
    pub instant : t ≡ not_before s wall
    pub forward : (wall ≤ t) × (s.have_reserved_wall ≡ true → s.last_reserved_wall ≤ t)
    pub seconds : t / 1_000_000_000 < 2 ^ 32
    -- An origin, where the protocol has one, is met in whole milliseconds of 32 bits.
    pub uptime :
        same_protocol s.config.protocol ipfix ≡ false
        → (origin : ℕ) → uptime_origin s ≡ some origin
        → IsUptime origin t
    -- Only an unpublished v9 candidate goes without an origin.
    pub missing :
        same_protocol s.config.protocol ipfix ≡ false
        → uptime_origin s ≡ none
        → (same_protocol s.config.protocol v9 ≡ true) × (s.epoch.ready ≡ false)

  reserve_uptime-none :
      (s s' : State A) (wall t : ℕ)
      → reserve_uptime s wall none ≡ (s', ok t)
      → (same_protocol s.config.protocol v9 ≡ true)
        × (s.epoch.ready ≡ false)
        × ((s', ok t) ≡ reserved s wall)
  unfolding reserve_uptime
  reserve_uptime-none s s' wall t h = ground arith

  reserve_uptime-some :
      (s s' : State A) (wall t origin : ℕ)
      → reserve_uptime s wall (some origin) ≡ (s', ok t)
      → IsUptime origin wall × ((s', ok t) ≡ reserved s wall)
  unfolding reserve_uptime
  reserve_uptime-some s s' wall t origin h = ground arith

  same_state :
      (s s' : State A) (wall t : ℕ)
      → (s', ok t) ≡ reserved s wall
      → (t ≡ wall) × (s' ≡ record s { last_reserved_wall = wall; have_reserved_wall = true })
  same_state s s' wall t h = (ground arith, ap (λ r. r.0) h)

  forward_lem :
      (s : State A) (wall : ℕ)
      → (wall ≤ not_before s wall)
        × (s.have_reserved_wall ≡ true → s.last_reserved_wall ≤ not_before s wall)
  forward_lem s wall = bounded s.have_reserved_wall s.last_reserved_wall
    where
      bounded :
          (have : Bool) (last : ℕ)
          → (wall ≤ (if have && ltb wall last then last else wall))
            × (have ≡ true → last ≤ (if have && ltb wall last then last else wall))
      bounded have last = ground arith

  module _ (s s' : State A) (wall t : ℕ)
      (seconds : not_before s wall / 1_000_000_000 < 2 ^ 32) where
    reserved-Reserved :
        (s', ok t) ≡ reserved s (not_before s wall)
        → (same_protocol s.config.protocol ipfix ≡ false
            → (origin : ℕ) → uptime_origin s ≡ some origin
            → IsUptime origin (not_before s wall))
        → (same_protocol s.config.protocol ipfix ≡ false
            → uptime_origin s ≡ none
            → (same_protocol s.config.protocol v9 ≡ true) × (s.epoch.ready ≡ false))
        → Reserved s wall t s'
    reserved-Reserved h up missing =
        let (e, d) = same_state s s' _ t h in
        rw (e, d)
          (record {
            state = refl;
            instant = refl;
            forward = forward_lem s wall;
            seconds = seconds;
            uptime = up;
            missing = missing;
          })

    reserved_by :
        (b : Bool)
        → b ≡ same_protocol s.config.protocol ipfix
        → (o : Option ℕ) → o ≡ uptime_origin s
        → (if b then reserved s (not_before s wall) else reserve_uptime s (not_before s wall) o)
          ≡ (s', ok t)
        → Reserved s wall t s'
    reserved_by true eb o eo h =
        reserved-Reserved (sym h) (λ q. absurd (true_ne_false (eb ∙ q)))
          (λ q. absurd (true_ne_false (eb ∙ q)))
    reserved_by false eb none eo h =
        let (p, r, e) = reserve_uptime-none s s' (not_before s wall) t h in
        reserved-Reserved e (λ _ origin q. absurd (none_ne_some (eo ∙ q))) (λ _ _. (p, r))
    reserved_by false eb (some origin) eo h =
        let (up, e) = reserve_uptime-some s s' (not_before s wall) t origin h in
        reserved-Reserved e
          (λ _ other q. let d : other ≡ origin = some_injective (sym q ∙ sym eo) in rw d up)
          (λ _ q. absurd (none_ne_some (sym q ∙ sym eo)))

  -- A reservation that succeeds is the given wall time, or the last reserved one where that is
  -- later; it never runs backwards, its seconds fit in 32 bits, and against an uptime origin it is
  -- a whole number of milliseconds of 32 bits. Without an origin only IPFIX and a v9 candidate that
  -- is not ready reserve. Nothing else of the state changes.
  pub reserve_wall-Reserved :
      (s s' : State A) (wall t : ℕ) → reserve_wall s wall ≡ (s', ok t) → Reserved s wall t s'
  unfolding reserve_wall
  reserve_wall-Reserved s s' wall t h =
      let (_, h1) = not_taken (ltb max_int64 wall) s _ time_not_representable s' t h in
      let (seconds, h2) =
        not_taken (ltb (2 ^ 32 - 1) (not_before s wall / 1_000_000_000)) s _ time_not_representable
          s' t h1 in
      reserved_by s s' wall t (below (not_before s wall / 1_000_000_000) seconds) _ refl
        (uptime_origin s) refl h2
    where
      below : (n : ℕ) → ltb (2 ^ 32 - 1) n ≡ false → n < 2 ^ 32
      below n e = ground arith
