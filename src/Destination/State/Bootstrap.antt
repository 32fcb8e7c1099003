-- ===== src/Destination/State/Bootstrap.antt =====
-- A whole bootstrap.
use otelcol_exporter_netflow.Common.{
  ℕ, suc, ◌+◌, ◌≤◌, ◌<◌, ◌≡◌, ◌≢◌, refl, sym, ◌∙◌, true, false, List, [], ◌∷◌, length, ◌==◌, arith,
  inl, inr,
}
use otelcol_exporter_netflow.Destination.State.{State, Packet}
use otelcol_exporter_netflow.Destination.State.Commit.{commit_full}
use otelcol_exporter_netflow.Destination.State.Rounds.{
  bootstrap_packets, committed_packets, committed_packets-lt, IsBootstrap, Advanced,
  commit_full-Advanced,
}

abbrev pub AreTemplates : List Packet → Type 0
AreTemplates [] = Unit
AreTemplates (p ∷ ps) = (p.template_records ≢ 0) × AreTemplates ps

module _ {A : Type 0} where
  -- Full writes of pending packets, one after another.
  unfoldable pub commit_all : State A → List Packet → State A
  commit_all s [] = s
  commit_all s (p ∷ ps) = commit_all (commit_full s p) ps

  same_bootstrap : (s s' : State A) → Advanced s s' → bootstrap_packets s' ≡ bootstrap_packets s
  same_bootstrap s s' a = rw (a.same.0, a.same.1) refl

  -- Template packets that are written in full publish an epoch in its bootstrap exactly when they
  -- complete initial_copies rounds of all shapes: neither fewer nor more are needed.
  pub commit_all-ready :
      (s : State A) (ps : List Packet)
      → IsBootstrap s
      → AreTemplates ps
      → committed_packets s + length ps ≤ bootstrap_packets s
      → (commit_all s ps).epoch.ready ≡ (committed_packets s + length ps == bootstrap_packets s)
  unfolding commit_all
  commit_all-ready s [] b t h = b.unready ∙ sym (short _ _ (committed_packets-lt s b))
    where
      short : (m n : ℕ) → m < n → (m + 0 == n) ≡ false
      short m n h = ground arith
  commit_all-ready s (p ∷ ps) b (t, ts) h =
      let a : Advanced s (commit_full s p) = commit_full-Advanced s p b t in
      elim a.outcome [
        | inl (last, r) ↦ published ps last r h
        | inr (b', e) ↦
            let ih =
              commit_all-ready (commit_full s p) ps b' ts
                (carry (committed_packets s) _ (length ps) _ _ e (same_bootstrap s _ a) h) in
            ih ∙ same_test (committed_packets s) _ (length ps) _ _ e (same_bootstrap s _ a)
      ]
    where
      published :
          (ps : List Packet)
          → suc (committed_packets s) ≡ bootstrap_packets s
          → (commit_full s p).epoch.ready ≡ true
          → committed_packets s + suc (length ps) ≤ bootstrap_packets s
          → (commit_all (commit_full s p) ps).epoch.ready
            ≡ (committed_packets s + suc (length ps) == bootstrap_packets s)
      published [] last r h = r ∙ sym (complete_now (committed_packets s) _ last)
        where
          complete_now : (m n : ℕ) → suc m ≡ n → (m + 1 == n) ≡ true
          complete_now m n e = ground arith
      published (q ∷ ps) last r h = absurd (omega arith)

      carry : (m m' l n n' : ℕ) → m' ≡ suc m → n' ≡ n → m + suc l ≤ n → m' + l ≤ n'
      carry m m' l n n' e f h = omega arith

      same_test : (m m' l n n' : ℕ) → m' ≡ suc m → n' ≡ n → (m' + l == n') ≡ (m + suc l == n)
      same_test m m' l n n' e f = ground arith
