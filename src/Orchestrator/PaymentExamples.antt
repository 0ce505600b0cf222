-- ===== src/Orchestrator/PaymentExamples.antt =====
-- The handling of a concrete failed payment, under the default settings.
use payment_recovery_engine.Prelude.{ℕ, ◌+◌, ◌≡◌, inl, inr, refl, sym, subst, false, none, some, In}
use payment_recovery_engine.Clock.{minute_us, aware}
use payment_recovery_engine.Settings.{default_settings}
use payment_recovery_engine.Actions.{retry_now, RetryAction, payment_failure}
use payment_recovery_engine.Classifier.Taxonomy.{network_error, parse, value}
use payment_recovery_engine.Guardrail.Rules.{
  check_hard_decline_blocklist, check_switch_only_class, check_max_retries_per_payment,
  check_max_retries_per_customer, check_amount_ceiling, check_consent_window,
  check_retry_at_within_window, check_time_of_day_blackout, check_mandate_predebit_notification,
  check_idempotency_key, check_expected_value, is_in_blackout, check_customer_nudge_rate_limit,
}
use payment_recovery_engine.Guardrail.Gate.{
  validate, validate_self_serve, validate_action_schema, checks_for, outcome, nudge_checks,
  self_serve_checks,
}
use payment_recovery_engine.Cases.Model.{RecoveryCase}
use payment_recovery_engine.Cases.Lifecycle.{stop_reason, attach_attempt, bind_attempt}
use payment_recovery_engine.Orchestrator.Window.{
  effective_count, effective_counts, update_retry_ledger,
}
use payment_recovery_engine.Orchestrator.Context.{counts_of, refresh_counts, prepare_payment}
use payment_recovery_engine.Orchestrator.Execution.{executed, Outcome, execute_case_and_record}
use payment_recovery_engine.Orchestrator.Chase.{scheduled_time, ledger_after, make_attempt}
use payment_recovery_engine.Orchestrator.Safety.{written_ahead}
use payment_recovery_engine.Orchestrator.Payment.{
  Declined, PaymentInputs, build_failure_context, carry_out_payment, judged_payment, keyed_payment,
  act_payment, process_payment_failure,
}
use payment_recovery_engine.Orchestrator.PaymentSafety.{
  IsRetryable, process_payment_failure-IsRetryable,
}
use payment_recovery_engine.Orchestrator.Examples.{
  percent, noon, failed_renewal, nudged_once, inputs,
}

abbrev pub failed_payment : RecoveryCase
failed_payment = record failed_renewal {
  risk_type = payment_failure;
  subject_ref = "pay_1";
  attempts_used = 0;
  next_action_at = none;
}

abbrev pub declined : Declined
declined = record {
  payment_id = "pay_1";
  amount = 49900;
  failure_class = network_error;
  failed_at = aware noon;
}

abbrev again : RetryAction ℕ
again = record {
  action = retry_now;
  rail = none;
  retry_at_time = none;
  reason = "transient network error";
  confidence = some 60;
}

abbrev payment_inputs : PaymentInputs ℕ
payment_inputs = record {
  ledger = some nudged_once;
  canonical = some "c";
  abandon_key = "abandon_pay_1";
  abandon_taken = false;
  around = inputs.around;
  decision = again;
  attempt_count = 0;
  key = "retry_pay_1_0";
  key_taken = false;
  now_again = noon + minute_us;
  fresh_case = failed_payment;
  fresh_ledger = some nudged_once;
  fresh_id = 9;
  gateway = inputs.gateway;
}

retried :
    (o : Outcome) × (process_payment_failure percent default_settings noon declined payment_inputs
        failed_payment
      ≡ some o)
    × (o.effects ≡ written_ahead retry_now)
unfolding process_payment_failure act_payment keyed_payment judged_payment carry_out_payment
    build_failure_context prepare_payment counts_of refresh_counts effective_counts effective_count
    stop_reason scheduled_time execute_case_and_record ledger_after make_attempt attach_attempt
    bind_attempt update_retry_ledger value is_in_blackout validate validate_self_serve outcome
    checks_for self_serve_checks nudge_checks parse check_hard_decline_blocklist
    check_switch_only_class check_max_retries_per_payment check_max_retries_per_customer
    check_amount_ceiling check_consent_window check_retry_at_within_window
    check_time_of_day_blackout check_mandate_predebit_notification check_idempotency_key
    check_expected_value validate_action_schema check_customer_nudge_rate_limit
retried = (_, refl, refl)

process_payment_failure-IsRetryable_example :
    IsRetryable percent default_settings noon declined payment_inputs failed_payment retry_now
    × (retried.0.effects ≡ written_ahead retry_now)
process_payment_failure-IsRetryable_example =
    process_payment_failure-IsRetryable percent default_settings noon declined payment_inputs
      failed_payment retried.0 retry_now retried.1
      (subst (In (executed retry_now)) (sym retried.2) (inr (inr (inr (inl refl)))))
