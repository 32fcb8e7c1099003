-- ===== src/Destination/State/Rounds.antt =====
-- Template rounds: the bootstrap of an epoch, counted in committed template packets.
use otelcol_exporter_netflow.Common.{
  ℕ, zero, suc, ◌+◌, ◌*◌, ◌%◌, ◌^◌, ◌≤◌, ◌<◌, ◌≡◌, ◌≢◌, refl, sym, ap, Bool, true, false, not,
  length, ◌==◌, if_cases, arith, ◌⊎◌, inl, inr, none, ◌∙◌,
}
use otelcol_exporter_netflow.Wire.Model.{Protocol, v5, v9, ipfix}
use otelcol_exporter_netflow.Destination.State.{State, Packet}
use otelcol_exporter_netflow.Destination.State.Marks.{Marked, mark_refresh_due-Marked}
use otelcol_exporter_netflow.Destination.State.Commit.{
  commit_sequence, complete, end_round, commit_template, commit_full,
}

rows : (r c n : ℕ) → r < c → r * n + n ≤ c * n
rows r zero n h = absurd (omega arith)
rows zero (suc c) n h = omega arith
rows (suc r) (suc c) n h = omega (arith, rows r c n (omega arith))

row : (r n : ℕ) → (r + 1) * n ≡ r * n + n
row r n = omega arith

last_round : (r c n i w : ℕ) → i + 1 ≡ n → w ≡ r + 1 → (w == c) ≡ true → suc (r * n + i) ≡ c * n
last_round r c n i w e f q = let g : c ≡ r + 1 = ground arith in rw g (omega (arith, row r n))

next_count : (r n i w : ℕ) → i + 1 ≡ n → w ≡ r + 1 → w * n + 0 ≡ suc (r * n + i)
next_count r n i w e f = rw f (omega (arith, row r n))

next_bound : (r c w : ℕ) → r < c → w ≡ r + 1 → (w == c) ≡ false → w < c
next_bound r c w h f q = ground arith

module _ {A : Type 0} where
  -- The template packets of a whole bootstrap, and those that are committed.
  abbrev pub bootstrap_packets : State A → ℕ
  bootstrap_packets s = s.config.initial_copies * length s.catalog

  abbrev pub committed_packets : State A → ℕ
  committed_packets s = s.template_round * length s.catalog + s.next_template_index

  -- An epoch in the middle of its bootstrap.
  pub record IsBootstrap (s : State A) : Type 0 where
    pub unready : s.epoch.ready ≡ false
    pub shape : s.next_template_index < length s.catalog
    pub round : s.template_round < s.config.initial_copies
    pub copies : s.config.initial_copies ≤ 8

  -- What one committed template packet does to a bootstrap.
  pub record Advanced (s s' : State A) : Type 0 where
    pub same : (s'.config ≡ s.config) × (s'.catalog ≡ s.catalog)
    pub outcome :
        ((suc (committed_packets s) ≡ bootstrap_packets s) × (s'.epoch.ready ≡ true))
        ⊎ (IsBootstrap s' × (committed_packets s' ≡ suc (committed_packets s)))

  pub committed_packets-lt :
      (s : State A) → IsBootstrap s → committed_packets s < bootstrap_packets s
  committed_packets-lt s b =
      omega
        (arith, b.shape, rows s.template_round s.config.initial_copies (length s.catalog) b.round)

  end_round-Advanced :
      (s : State A) (mono : ℕ)
      → IsBootstrap s
      → s.next_template_index + 1 ≡ length s.catalog
      → Advanced s (end_round s mono)
  unfolding end_round complete
  end_round-Advanced s mono b e =
      let wrap : (s.template_round + 1) % 2 ^ 8 ≡ s.template_round + 1 =
        omega (arith, b.round, b.copies) in
      if_cases (Advanced s) (not s.epoch.ready)
        (λ _.
          if_cases (Advanced s) ((s.template_round + 1) % 2 ^ 8 == s.config.initial_copies)
            (λ q. record {
              same = (refl, refl);
              outcome = inl (
                last_round s.template_round s.config.initial_copies (length s.catalog)
                    s.next_template_index ((s.template_round + 1) % 2 ^ 8) e wrap q,
                refl,
              );
            })
            (λ q. record {
              same = (refl, refl);
              outcome = inr (
                record {
                  unready = b.unready;
                  shape = omega arith;
                  round =
                      next_bound s.template_round s.config.initial_copies
                        ((s.template_round + 1) % 2 ^ 8) b.round wrap q;
                  copies = b.copies;
                },
                next_count s.template_round (length s.catalog) s.next_template_index
                    ((s.template_round + 1) % 2 ^ 8) e wrap,
              );
            }))
        (λ q. absurd (ready_and_not s.epoch.ready b.unready q))
    where
      ready_and_not : (r : Bool) → r ≡ false → not r ≡ false → ⊥
      ready_and_not r p q = ground arith

  commit_template-Advanced :
      (s : State A) (mono : ℕ) → IsBootstrap s → Advanced s (commit_template s mono)
  unfolding commit_template
  commit_template-Advanced s mono b =
      if_cases (Advanced s) (s.next_template_index + 1 == length s.catalog)
        (λ e. end_round-Advanced s mono b (ground arith))
        (λ e. record {
          same = (refl, refl);
          outcome = inr (
            record {
              unready = b.unready;
              shape = more s.next_template_index (length s.catalog) b.shape e;
              round = b.round;
              copies = b.copies;
            },
            omega arith,
          );
        })
    where
      more : (i n : ℕ) → i < n → (i + 1 == n) ≡ false → i + 1 < n
      more i n h e = ground arith

  -- The sequence counters are not part of the template progress.
  counted-IsBootstrap :
      (s : State A) (p : Packet) (protocol : Protocol)
      → IsBootstrap s
      → IsBootstrap (commit_sequence s p protocol)
        × (committed_packets (commit_sequence s p protocol) ≡ committed_packets s)
        × ((commit_sequence s p protocol).config ≡ s.config)
        × ((commit_sequence s p protocol).catalog ≡ s.catalog)
  unfolding commit_sequence
  counted-IsBootstrap s p v5 b = (
    record { unready = b.unready; shape = b.shape; round = b.round; copies = b.copies },
    refl,
    refl,
    refl,
  )
  counted-IsBootstrap s p v9 b = (
    record { unready = b.unready; shape = b.shape; round = b.round; copies = b.copies },
    refl,
    refl,
    refl,
  )
  counted-IsBootstrap s p ipfix b = (
    record { unready = b.unready; shape = b.shape; round = b.round; copies = b.copies },
    refl,
    refl,
    refl,
  )
  counted-IsBootstrap s p other b = (b, refl, refl, refl)

  -- The end of a commit keeps the progress.
  closed-Advanced :
      (s s' s'' : State A)
      → Marked s' s''
      → Advanced s s'
      → Advanced s (record s'' { pending = none })
  closed-Advanced s s' s'' m a = elim m [
    | inl e ↦ rw e (keeps s'.refresh_due)
    | inr e ↦ rw e (keeps true)
  ]
    where
      kept :
          (due : Bool)
          → IsBootstrap s'
          → IsBootstrap (record s' { refresh_due = due; pending = none })
      kept due b = record {
        unready = b.unready;
        shape = b.shape;
        round = b.round;
        copies = b.copies;
      }

      keeps : (due : Bool) → Advanced s (record s' { refresh_due = due; pending = none })
      keeps due = record {
        same = a.same;
        outcome = elim a.outcome [ inl h ↦ inl h | inr (b, c) ↦ inr (kept due b, c) ];
      }

  -- The same step, seen from before the sequence was counted.
  after_count :
      (s s' s'' : State A)
      → committed_packets s' ≡ committed_packets s
      → s'.config ≡ s.config
      → s'.catalog ≡ s.catalog
      → Advanced s' s''
      → Advanced s s''
  after_count s s' s'' e c d a = record {
    same = (a.same.0 ∙ c, a.same.1 ∙ d);
    outcome = elim a.outcome [
      | inl (h, r) ↦ inl (ap suc (sym e) ∙ h ∙ (rw (c, d) refl), r)
      | inr (b, h) ↦ inr (b, h ∙ ap suc e)
    ];
  }

  -- A template packet that is written in full while an epoch is in its bootstrap counts as one of
  -- initial_copies times the number of shapes: the last of them publishes the epoch, and any other
  -- leaves it in its bootstrap, one packet further.
  pub commit_full-Advanced :
      (s : State A) (p : Packet)
      → IsBootstrap s
      → p.template_records ≢ 0
      → Advanced s (commit_full s p)
  unfolding commit_full
  commit_full-Advanced s p b some_template =
      let counted : State A = commit_sequence s p s.config.protocol in
      let (b', e, c, d) = counted-IsBootstrap s p s.config.protocol b in
      let q : (p.template_records == 0) ≡ false = ground arith in
      rw q (
        closed-Advanced s _ _ (mark_refresh_due-Marked _ p.monotonic_nanos)
          (after_count s counted _ e c d (commit_template-Advanced counted p.monotonic_nanos b')))
