-- ===== src/Destination/State/Steps.antt =====
-- Inversion of the steps of a method that succeeded.
use otelcol_exporter_netflow.Common.{◌≡◌, refl, ap, Bool, true, false, if◌then◌else◌}
use otelcol_exporter_netflow.Common.Result.{Result, ok, err}
use otelcol_exporter_netflow.Destination.Error.{Error}
use otelcol_exporter_netflow.Destination.State.{State, on_ok, checked}

err-ne-ok : {C : Type 0} {e : Error} {c : C} → err e ≡ ok c → ⊥
err-ne-ok h = cc

module _ {A B C : Type 0} where
  pub checked-eq_ok :
      (s : State A) (m : Result Error B) (k : B → State A × Result Error C) (s' : State A) (c : C)
      → checked s m k ≡ (s', ok c)
      → (b : B) × (m ≡ ok b) × (k b ≡ (s', ok c))
  checked-eq_ok s (ok b) k s' c h = (b, refl, h)
  checked-eq_ok s (err e) k s' c h = absurd (err-ne-ok (ap (λ x. x.1) h))

  pub on_ok-eq_ok :
      (r : State A × Result Error B) (k : State A → B → State A × Result Error C) (s' : State A)
      (c : C)
      → on_ok r k ≡ (s', ok c)
      → (x : State A) × (b : B) × (r ≡ (x, ok b)) × (k x b ≡ (s', ok c))
  on_ok-eq_ok (x, ok b) k s' c h = (x, b, refl, h)
  on_ok-eq_ok (x, err e) k s' c h = absurd (err-ne-ok (ap (λ x. x.1) h))

module _ {A B : Type 0} where
  -- A branch that fails is not the one that was taken.
  pub not_taken :
      (b : Bool) (s : State A) (r : State A × Result Error B) (e : Error) (s' : State A) (c : B)
      → (if b then (s, err e) else r) ≡ (s', ok c)
      → (b ≡ false) × (r ≡ (s', ok c))
  not_taken true s r e s' c h = absurd (err-ne-ok (ap (λ x. x.1) h))
  not_taken false s r e s' c h = (refl, h)
