-- ===== src/Orchestrator/Guards.antt =====
-- What `hold` of the chase lets through, and what a chase that it ends has done
-- (src/orchestrator.py).
use payment_recovery_engine.Prelude.{
  ℕ, ◌+◌, ◌≤◌, Bool, true, false, Option, none, some, [], ◌∷◌, ◌⊎◌, ◌≡◌, arith,
}
use payment_recovery_engine.Clock.{hours, to_ist, hour_of}
use payment_recovery_engine.Settings.{Settings}
use payment_recovery_engine.Chasers.{RiskPolicy}
use payment_recovery_engine.Guardrail.Rules.{is_in_blackout}
use payment_recovery_engine.Receivables.Hours.{is_b2b_contact_time}
use payment_recovery_engine.Cases.Model.{RecoveryCase, AttemptResult, RetryLedger}
use payment_recovery_engine.Cases.Lifecycle.{stop_reason}
use payment_recovery_engine.Orchestrator.Execution.{committed, Outcome}
use payment_recovery_engine.Orchestrator.Chase.{hold, is_pending, is_invoice}

-- No attempt is under way, nothing stops the case, it is in its consent window and in no dispute,
-- and the hour is one for contacts.
pub record IsChaseable (cfg : Settings) (now : ℕ) (policy : RiskPolicy)
    (latest : Option AttemptResult) (dispute_open : Bool) (ledger : Option RetryLedger)
    (c : RecoveryCase) : Type 0 where
  pub idle : is_pending latest ≡ false
  pub allowed : stop_reason now c ledger ≡ none
  pub in_window : now ≤ c.opened_at + hours policy.consent_window_hours
  pub undisputed : dispute_open ≡ false
  pub office_hours : (is_invoice c.risk_type ≡ false) ⊎ (is_b2b_contact_time now ≡ true)
  pub awake : is_in_blackout cfg (hour_of (to_ist now)) ≡ false

module _ (cfg : Settings) (now : ℕ) (policy : RiskPolicy) (latest : Option AttemptResult)
    (dispute_open : Bool) (ledger : Option RetryLedger) (c : RecoveryCase) where
  pub hold-IsChaseable :
      hold cfg now policy latest dispute_open ledger c ≡ none
      → IsChaseable cfg now policy latest dispute_open ledger c
  unfolding hold
  hold-IsChaseable h = ground arith

  -- A step that ends here has only committed.
  pub hold-committed :
      (o : Outcome)
      → hold cfg now policy latest dispute_open ledger c ≡ some o
      → o.effects ≡ committed ∷ []
  unfolding hold
  hold-committed o h = ground arith
