-- ===== src/Orchestrator/ReminderExamples.antt =====
-- The reminder of a concrete promise, and one that falls into the quiet hours.
use payment_recovery_engine.Prelude.{
  ◌+◌, ◌≡◌, ◌≢◌, In, refl, sym, subst, inl, inr, true, false, none, some, arith,
}
use payment_recovery_engine.Clock.{hours, minute_us}
use payment_recovery_engine.Settings.{default_settings}
use payment_recovery_engine.Actions.{nudge_customer}
use payment_recovery_engine.Chasers.{policy_for}
use payment_recovery_engine.Classifier.Taxonomy.{parse}
use payment_recovery_engine.Guardrail.Rules.{
  check_hard_decline_blocklist, check_switch_only_class, check_max_retries_per_payment,
  check_max_retries_per_customer, check_amount_ceiling, check_consent_window,
  check_retry_at_within_window, check_time_of_day_blackout, check_mandate_predebit_notification,
  check_idempotency_key, check_expected_value, is_in_blackout, check_customer_nudge_rate_limit,
}
use payment_recovery_engine.Guardrail.Gate.{
  validate, validate_self_serve, validate_action_schema, checks_for, outcome, nudge_checks,
  self_serve_checks,
}
use payment_recovery_engine.Cases.Model.{PromiseToPay, RecoveryCase, PromiseStatus, MandateStatus}
use payment_recovery_engine.Cases.Lifecycle.{backoff_of, stop_reason, attach_attempt, bind_attempt}
use payment_recovery_engine.Orchestrator.Window.{
  effective_count, effective_counts, update_retry_ledger,
}
use payment_recovery_engine.Orchestrator.Context.{build_case_context}
use payment_recovery_engine.Orchestrator.Execution.{executed, Outcome, execute_case_and_record}
use payment_recovery_engine.Orchestrator.Chase.{ledger_after, make_attempt}
use payment_recovery_engine.Orchestrator.Reminder.{
  ReminderOutcome, skipped_guardrail, ReminderInputs, reminder_context, remind, reminder_judged,
  reminder_checked, send_promise_reminder,
}
use payment_recovery_engine.Orchestrator.ReminderRefused.{reminder_refused_unsilences}
use payment_recovery_engine.Orchestrator.ReminderSafety.{
  IsRemindable, IsReminded, reminder_ahead, send_promise_reminder-IsRemindable,
}
use payment_recovery_engine.Orchestrator.Examples.{percent, noon, nudged_once, failed_renewal}

abbrev promise : PromiseToPay
promise = record {
  id = 7;
  recovery_case_id = 1;
  amount_promised = 20000;
  due_at = noon + hours 20;
  channel = none;
  status = PromiseStatus.pending;
  resolved_at = none;
  resolved_ref = none;
  kept_late_days = none;
  mandate_status = some MandateStatus.active;
  mandate_charged_at = none;
}

abbrev at_noon : ReminderInputs
at_noon = record {
  now = noon;
  now_again = noon + minute_us;
  ledger = some nudged_once;
  canonical = some "c";
  last_notification = none;
  key = "reminder_subscription_failure_sub_1_7";
  key_taken = false;
  fresh_id = 9;
  gateway = record {
    key_free = true;
    answer = some (record { success = true; payment_link_id = some "plink_9" });
    voice = false;
  };
}

sent :
    (x : ReminderOutcome) × (o : Outcome) × (send_promise_reminder percent default_settings at_noon
        promise failed_renewal
      ≡ some (x, o))
    × (o.effects ≡ reminder_ahead)
unfolding send_promise_reminder reminder_context reminder_checked reminder_judged remind policy_for
    stop_reason build_case_context execute_case_and_record ledger_after make_attempt attach_attempt
    bind_attempt effective_counts is_in_blackout validate validate_self_serve outcome checks_for
    self_serve_checks nudge_checks parse check_hard_decline_blocklist check_switch_only_class
    check_max_retries_per_payment check_max_retries_per_customer check_amount_ceiling
    check_consent_window check_retry_at_within_window check_time_of_day_blackout
    check_mandate_predebit_notification check_idempotency_key check_expected_value
    validate_action_schema update_retry_ledger effective_count check_customer_nudge_rate_limit
sent = (_, _, refl, refl)

send_promise_reminder-IsRemindable_example :
    (nudge_customer ≡ nudge_customer)
    × IsRemindable percent default_settings at_noon failed_renewal
    × IsReminded default_settings at_noon promise failed_renewal sent.1
send_promise_reminder-IsRemindable_example =
    send_promise_reminder-IsRemindable percent default_settings at_noon promise failed_renewal
      sent.0 sent.1 nudge_customer sent.2
      (subst (In (executed nudge_customer)) (sym sent.3) (inr (inl refl)))

-- At half past midnight in India, two days before the promise's day.
abbrev at_night : ReminderInputs
at_night = record at_noon { now = noon + hours 13; now_again = noon + hours 13 + minute_us }

abbrev far_promise : PromiseToPay
far_promise = record promise { due_at = noon + hours 61 }

abbrev silenced : RecoveryCase
silenced = record failed_renewal { next_action_at = some (noon + hours 61) }

refused :
    (o : Outcome) × (send_promise_reminder percent default_settings at_night far_promise silenced
      ≡ some (skipped_guardrail, o))
unfolding send_promise_reminder reminder_context reminder_checked reminder_judged remind policy_for
    stop_reason build_case_context make_attempt attach_attempt bind_attempt effective_counts
    is_in_blackout validate validate_self_serve outcome checks_for self_serve_checks nudge_checks
    parse check_hard_decline_blocklist check_switch_only_class check_max_retries_per_payment
    check_max_retries_per_customer check_amount_ceiling check_consent_window
    check_retry_at_within_window check_time_of_day_blackout check_mandate_predebit_notification
    check_idempotency_key check_expected_value validate_action_schema effective_count
    check_customer_nudge_rate_limit
refused = (_, refl)

reminder_refused_unsilences_example :
    (stop_reason (noon + hours 38) refused.0.case (some nudged_once) ≡ none)
    × (stop_reason (noon + hours 38) silenced (some nudged_once) ≢ none)
unfolding backoff_of
reminder_refused_unsilences_example =
    reminder_refused_unsilences percent default_settings at_night far_promise silenced refused.0
      (noon + hours 38) (some nudged_once) refused.1 refl refl (omega arith) (omega arith)
      (omega arith) refl
