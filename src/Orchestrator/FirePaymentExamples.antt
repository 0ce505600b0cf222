-- ===== src/Orchestrator/FirePaymentExamples.antt =====
-- The firing of a parked retry of a failed payment.
use payment_recovery_engine.Prelude.{◌+◌, ◌≡◌, ◌≢◌, inl, inr, refl, sym, subst, some, [], ◌∷◌, In}
use payment_recovery_engine.Clock.{minute_us}
use payment_recovery_engine.Settings.{default_settings}
use payment_recovery_engine.Actions.{retry_now, retry_at}
use payment_recovery_engine.Classifier.Taxonomy.{parse, value}
use payment_recovery_engine.Guardrail.Rules.{
  check_hard_decline_blocklist, check_switch_only_class, check_max_retries_per_payment,
  check_max_retries_per_customer, check_amount_ceiling, check_consent_window,
  check_retry_at_within_window, check_time_of_day_blackout, check_mandate_predebit_notification,
  check_idempotency_key, check_expected_value, is_in_blackout, check_customer_nudge_rate_limit,
}
use payment_recovery_engine.Guardrail.Gate.{
  validate, validate_self_serve, validate_action_schema, checks_for, outcome, nudge_checks,
  self_serve_checks,
}
use payment_recovery_engine.Orchestrator.Window.{effective_count, effective_counts}
use payment_recovery_engine.Orchestrator.Context.{counts_of}
use payment_recovery_engine.Orchestrator.Execution.{committed, executed, execute_case_and_record}
use payment_recovery_engine.Orchestrator.Payment.{build_failure_context}
use payment_recovery_engine.Orchestrator.Fire.{
  Fired, fired_action, fired_action_type, mark, withheld,
}
use payment_recovery_engine.Orchestrator.FirePayment.{
  PaymentFiring, fired_payment_action, fire_approved, fire_payment_judged, fire_payment_attempt,
}
use payment_recovery_engine.Orchestrator.FirePaymentTime.{IsPayable, fire_payment_attempt-IsPayable}
use payment_recovery_engine.Orchestrator.Examples.{percent, noon, nudged_once, inputs}
use payment_recovery_engine.Orchestrator.PaymentExamples.{failed_payment, declined}
use payment_recovery_engine.Orchestrator.RunExamples.{parked}

abbrev payment_firing : PaymentFiring
payment_firing = record {
  case_ledger = some nudged_once;
  ledger = some nudged_once;
  now_again = noon + minute_us;
  gateway = inputs.gateway;
}

paid_again :
    (r : Fired) × (fire_payment_attempt percent default_settings noon payment_firing parked
        (some declined)
        (some failed_payment)
      ≡ some r)
    × (r.effects ≡ committed ∷ executed retry_now ∷ committed ∷ [])
unfolding fire_payment_attempt fire_payment_judged fire_approved build_failure_context counts_of
    effective_counts effective_count execute_case_and_record fired_payment_action fired_action
    fired_action_type mark withheld value validate validate_self_serve outcome checks_for
    self_serve_checks nudge_checks parse check_hard_decline_blocklist check_switch_only_class
    check_max_retries_per_payment check_max_retries_per_customer check_amount_ceiling
    check_consent_window check_retry_at_within_window check_time_of_day_blackout
    check_mandate_predebit_notification check_idempotency_key check_expected_value
    validate_action_schema is_in_blackout check_customer_nudge_rate_limit
paid_again = (_, refl, refl)

fire_payment_attempt-IsPayable_example :
    IsPayable percent default_settings noon payment_firing parked declined (some failed_payment)
    × (retry_now ≢ retry_at)
    × (paid_again.0.effects ≡ committed ∷ executed retry_now ∷ committed ∷ [])
fire_payment_attempt-IsPayable_example =
    fire_payment_attempt-IsPayable percent default_settings noon payment_firing parked declined
      (some failed_payment) paid_again.0 retry_now paid_again.1
      (subst (In (executed retry_now)) (sym paid_again.2) (inr (inl refl)))
