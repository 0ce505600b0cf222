-- ===== src/Cases/NullChannel.antt =====
-- The promises that the cap does not see (`record_promise` of src/cases.py).
use payment_recovery_engine.Prelude.{
  ℕ, ◌+◌, ◌≤◌, Bool, false, ◌&&◌, none, some, List, [], ◌∷◌, ◌==◌, ◌≡◌, refl, arith, All,
}
use payment_recovery_engine.Clock.{days}
use payment_recovery_engine.Settings.{Settings}
use payment_recovery_engine.Cases.Model.{RecoveryCase, PromiseToPay, Store}
use payment_recovery_engine.Cases.Promises.{
  prior_promises, cap_reached, beyond_horizon, new_promise, record_promise,
}

prior_promises_null :
    (case_id : ℕ) (ps : List PromiseToPay)
    → All (λ p. p.channel ≡ none) ps
    → prior_promises case_id ps ≡ []
unfolding prior_promises
prior_promises_null case_id [] h = refl
prior_promises_null case_id (p ∷ ps) h =
    rw h.0 (rw (and-false (p.recovery_case_id == case_id)) (prior_promises_null case_id ps h.1))
  where
    and-false : (b : Bool) → b && false ≡ false
    and-false b = ground arith

in_horizon :
    (cfg : Settings) (now due : ℕ)
    → due ≤ now + days cfg.promise_max_horizon_days
    → beyond_horizon cfg now due ≡ false
unfolding beyond_horizon
in_horizon cfg now due h = ground arith

uncapped : (cfg : Settings) → 2 ≤ cfg.max_promises_per_case → cap_reached cfg [] ≡ false
unfolding cap_reached
uncapped cfg h = ground arith

-- However many promises a case has, all recorded without a channel, and whether or not they were
-- broken, a further one is recorded if its date is inside the horizon, where the cap is two or
-- more.
pub record_promise_null_channel :
    (cfg : Settings) (now fresh_id : ℕ) (c : RecoveryCase) (amount due : ℕ) (s : Store)
    → All (λ p. p.channel ≡ none) s.promises
    → 2 ≤ cfg.max_promises_per_case
    → due ≤ now + days cfg.promise_max_horizon_days
    → (record_promise cfg now fresh_id c amount due none s).1
      ≡ some (new_promise fresh_id c amount due none)
unfolding record_promise
record_promise_null_channel cfg now fresh_id c amount due s nulls cap inside =
    rw (in_horizon cfg now due inside, record_promise)
      (rw (prior_promises_null c.id s.promises nulls) (rw (uncapped cfg cap) refl))
