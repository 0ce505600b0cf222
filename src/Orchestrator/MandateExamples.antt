-- ===== src/Orchestrator/MandateExamples.antt =====
-- The debit of a concrete promise, a debit that falls into the quiet hours, and one on a closed
-- case.
use payment_recovery_engine.Prelude.{
  ◌+◌, ◌-◌, ◌≡◌, ◌≤◌, refl, inl, inr, true, false, In, none, some, List, [], ◌∷◌,
}
use payment_recovery_engine.Clock.{hours, minute_us, aware}
use payment_recovery_engine.Settings.{default_settings}
use payment_recovery_engine.Chasers.{policy_for}
use payment_recovery_engine.Classifier.Taxonomy.{parse}
use payment_recovery_engine.Guardrail.Rules.{
  check_hard_decline_blocklist, check_switch_only_class, check_max_retries_per_payment,
  check_max_retries_per_customer, check_amount_ceiling, check_consent_window,
  check_retry_at_within_window, check_time_of_day_blackout, check_mandate_predebit_notification,
  check_idempotency_key, check_expected_value, is_in_blackout, check_customer_nudge_rate_limit,
}
use payment_recovery_engine.Guardrail.Gate.{
  validate, validate_self_serve, validate_action_schema, checks_for, outcome, nudge_checks,
  self_serve_checks,
}
use payment_recovery_engine.Cases.Model
use payment_recovery_engine.Cases.Model.{
  CaseState, RecoveryCase, PromiseToPay, PromiseStatus, MandateStatus,
}
use payment_recovery_engine.Orchestrator.FirmStop.{says_wait, has_wait_words}
use payment_recovery_engine.Cases.Lifecycle.{stop_reason}
use payment_recovery_engine.Orchestrator.Window.{effective_count, effective_counts}
use payment_recovery_engine.Orchestrator.Context.{build_case_context, counts_of}
use payment_recovery_engine.Orchestrator.Chase.{make_attempt}
use payment_recovery_engine.Orchestrator.Mandate.{
  debited, Kept, Act, ChargeOutcome, charged, skipped_guardrail, DebitInputs, persisted,
  debit_context, debit_row, debit, debit_judged, debit_checked, charge_promise_mandate, charge_due,
}
use payment_recovery_engine.Orchestrator.MandateOnce.{
  Try, sweep_debits, sweeps_debit_once, charge_refused_for_good,
}
use payment_recovery_engine.Orchestrator.MandateSafety.{
  IsCollectable, IsWrittenAhead, charge-IsCollectable,
}
use payment_recovery_engine.Orchestrator.MandateSweep.{IsSettledDebit, charge_due-IsSettledDebit}
use payment_recovery_engine.Orchestrator.Examples.{percent, noon, nudged_once, failed_renewal}

abbrev promise : PromiseToPay
promise = record {
  id = 7;
  recovery_case_id = 1;
  amount_promised = 20000;
  due_at = noon - hours 1;
  channel = none;
  status = PromiseStatus.pending;
  resolved_at = none;
  resolved_ref = none;
  kept_late_days = none;
  mandate_status = some MandateStatus.active;
  mandate_charged_at = none;
}

abbrev kept : Kept
kept = record { attempts = []; promise = promise }

abbrev at_noon : DebitInputs
at_noon = record {
  now = noon;
  now_again = noon + minute_us;
  ledger = some nudged_once;
  last_notification = some (aware (noon - hours 30));
  fresh_id = 9;
  raced = false;
  order_id = some "order_9";
  came_back = true;
}

-- At half past midnight in India.
abbrev at_night : DebitInputs
at_night = record at_noon { now = noon + hours 13; now_again = noon + hours 13 + minute_us }

collected :
    (x : ChargeOutcome × List Act) × (charge_promise_mandate percent default_settings
        "mandate_debit_7" at_noon failed_renewal kept
      ≡ some x)
    × In debited x.1
    × (x.0 ≡ charged)
unfolding charge_promise_mandate debit_checked debit_judged debit debit_row debit_context
    make_attempt policy_for stop_reason build_case_context counts_of effective_counts
    effective_count is_in_blackout validate validate_self_serve outcome checks_for self_serve_checks
    nudge_checks parse check_hard_decline_blocklist check_switch_only_class
    check_max_retries_per_payment check_max_retries_per_customer check_amount_ceiling
    check_consent_window check_retry_at_within_window check_time_of_day_blackout
    check_mandate_predebit_notification check_idempotency_key check_expected_value
    validate_action_schema check_customer_nudge_rate_limit
collected = (_, refl, inr (inr (inr (inl refl))), refl)

-- The merchant upheld the customer's dispute, and closed the case with the customer's words.
abbrev disputed : RecoveryCase
disputed = record failed_renewal {
  state = CaseState.abandoned;
  close_reason = some (Model.dispute_upheld "This invoice is not due until 30 April");
}

-- The closed case is debited: the text of its stop is read as a wait.
misread :
    (x : ChargeOutcome × List Act) × (charge_promise_mandate percent default_settings
        "mandate_debit_7" at_noon disputed kept
      ≡ some x)
    × In debited x.1
    × (x.0 ≡ charged)
unfolding charge_promise_mandate debit_checked debit_judged debit debit_row debit_context
    make_attempt policy_for stop_reason build_case_context counts_of effective_counts
    effective_count is_in_blackout validate validate_self_serve outcome checks_for self_serve_checks
    nudge_checks parse check_hard_decline_blocklist check_switch_only_class
    check_max_retries_per_payment check_max_retries_per_customer check_amount_ceiling
    check_consent_window check_retry_at_within_window check_time_of_day_blackout
    check_mandate_predebit_notification check_idempotency_key check_expected_value
    validate_action_schema check_customer_nudge_rate_limit says_wait has_wait_words
misread = (_, refl, inr (inr (inr (inl refl))), refl)

refused :
    (acts : List Act) × (charge_promise_mandate percent default_settings "mandate_debit_7" at_night
        failed_renewal kept
      ≡ some (skipped_guardrail, acts))
unfolding charge_promise_mandate debit_checked debit_judged debit debit_row debit_context
    make_attempt policy_for stop_reason build_case_context counts_of effective_counts
    effective_count is_in_blackout validate validate_self_serve outcome checks_for self_serve_checks
    nudge_checks parse check_hard_decline_blocklist check_switch_only_class
    check_max_retries_per_payment check_max_retries_per_customer check_amount_ceiling
    check_consent_window check_retry_at_within_window check_time_of_day_blackout
    check_mandate_predebit_notification check_idempotency_key check_expected_value
    validate_action_schema check_customer_nudge_rate_limit
refused = (_, refl)

-- A sweep whose process dies as the debit returns, one at night, and one that runs to its end.
abbrev tries : List Try
tries =
    record { others = []; inputs = at_noon; case_now = failed_renewal; cut = 4 }
    ∷ record { others = []; inputs = at_night; case_now = failed_renewal; cut = 9 }
    ∷ record { others = []; inputs = at_noon; case_now = failed_renewal; cut = 9 }
    ∷ []

charge-IsCollectable_example :
    IsCollectable percent default_settings "mandate_debit_7" at_noon failed_renewal kept
    × IsWrittenAhead at_noon kept
        (debit_row "mandate_debit_7" at_noon failed_renewal)
        collected.0.0
        collected.0.1
charge-IsCollectable_example =
    charge-IsCollectable percent default_settings "mandate_debit_7" at_noon failed_renewal kept
      collected.0.0 collected.0.1 collected.1 collected.2

sweeps_debit_once_example : sweep_debits percent default_settings "mandate_debit_7" tries kept ≤ 1
sweeps_debit_once_example = sweeps_debit_once percent default_settings "mandate_debit_7" tries kept

charge_refused_for_good_example :
    sweep_debits percent default_settings "mandate_debit_7" tries (persisted kept refused.0) ≡ 0
charge_refused_for_good_example =
    charge_refused_for_good percent default_settings "mandate_debit_7" at_night failed_renewal kept
      refused.0 tries refused.1

charge_due-IsSettledDebit_example :
    IsSettledDebit at_noon kept
      (charge_due percent default_settings true true "mandate_debit_7" at_noon failed_renewal kept)
charge_due-IsSettledDebit_example =
    charge_due-IsSettledDebit percent default_settings true true "mandate_debit_7" at_noon
      failed_renewal kept
