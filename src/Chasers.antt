-- ===== src/Chasers.antt =====
-- The chase policies per risk type (src/chasers/policy.py).
use payment_recovery_engine.Prelude.{ℕ, String, Option, none, some}
use payment_recovery_engine.Actions.{
  RiskType, payment_failure, checkout_abandonment, subscription_failure, invoice_overdue,
  mandate_failure, PaymentRail, upi,
}

pub record RiskPolicy : Type 0 where
  pub max_attempts : ℕ
  pub consent_window_hours : ℕ
  pub first_action_hours : ℕ
  pub re_chase_hours : ℕ
  pub recommended_rail : Option PaymentRail
  pub failure_class : String

unfoldable pub policy_for : RiskType → Option RiskPolicy
policy_for payment_failure = none
policy_for checkout_abandonment = some (record {
  max_attempts = 2;
  consent_window_hours = 48;
  first_action_hours = 1;
  re_chase_hours = 24;
  recommended_rail = none;
  failure_class = "abandoned_checkout";
})
policy_for subscription_failure = some (record {
  max_attempts = 4;
  consent_window_hours = 168;
  first_action_hours = 0;
  re_chase_hours = 24;
  recommended_rail = some upi;
  failure_class = "subscription_charge_failed";
})
policy_for invoice_overdue = some (record {
  max_attempts = 4;
  consent_window_hours = 720;
  first_action_hours = 0;
  re_chase_hours = 72;
  recommended_rail = none;
  failure_class = "invoice_overdue";
})
policy_for mandate_failure = some (record {
  max_attempts = 3;
  consent_window_hours = 168;
  first_action_hours = 24;
  re_chase_hours = 48;
  recommended_rail = some upi;
  failure_class = "mandate_debit_failed";
})
