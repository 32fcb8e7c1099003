-- ===== src/Destination/State/Marks.antt =====
-- When a refresh becomes due.
use otelcol_exporter_netflow.Common.{
  ℕ, ◌-◌, ◌≡◌, refl, sym, ap, ◌∙◌, true, false, not, ◌&&◌, ◌||◌, leb, ◌==◌, if_cases, ◌⊎◌, inl, inr,
}
use otelcol_exporter_netflow.Wire.Model.{v5, v9, ipfix, same_protocol}
use otelcol_exporter_netflow.Destination.State.{State, mark_refresh_due}

module _ {A : Type 0} where
  -- A refresh is marked as due, or nothing changes.
  abbrev pub Marked : State A → State A → Type 0
  Marked s s' = (s' ≡ s) ⊎ (s' ≡ record s { refresh_due = true })

  pub mark_refresh_due-Marked : (s : State A) (mono : ℕ) → Marked s (mark_refresh_due s mono)
  unfolding mark_refresh_due
  mark_refresh_due-Marked s mono =
      let P = Marked s in
      if_cases P
        (same_protocol s.config.protocol v5
          || not s.epoch.ready
          || s.refresh_active
          || s.refresh_due)
        (λ _. inl refl)
        λ _.
          if_cases P
            (s.have_refresh_mono
              && leb s.last_refresh_mono mono
              && leb s.config.refresh_interval (mono - s.last_refresh_mono))
            (λ _. inr refl)
            λ _.
              if_cases P
                (same_protocol s.config.protocol v9
                  && leb s.config.v9_refresh_packet_count s.packet_count)
                (λ _. inr refl)
                λ _.
                  if_cases P
                    (same_protocol s.config.protocol ipfix
                      && not (s.config.ipfix_data_message_refresh_count == 0)
                      && leb s.config.ipfix_data_message_refresh_count s.data_message_count)
                    (λ _. inr refl) (λ _. inl refl)

  -- Where none is due behind the call, nothing has changed.
  pub mark_refresh_due-same :
      (s : State A) (mono : ℕ)
      → (mark_refresh_due s mono).refresh_due ≡ false
      → mark_refresh_due s mono ≡ s
  mark_refresh_due-same s mono h = elim (mark_refresh_due-Marked s mono) [
    | inl e ↦ e
    | inr e ↦ absurd (true_ne_false (sym (ap (λ x. x.refresh_due) e) ∙ h))
  ]
    where
      true_ne_false : true ≡ false → ⊥
      true_ne_false e = cc
