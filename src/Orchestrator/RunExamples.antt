-- ===== src/Orchestrator/RunExamples.antt =====
-- A run of chases and the firing of a parked retry on the case of the other examples.
use payment_recovery_engine.Prelude.{
  ℕ, ◌+◌, ◌-◌, ◌≤◌, ◌≡◌, ◌≢◌, inl, inr, refl, sym, subst, none, some, [], ◌∷◌, In, sum_by,
}
use payment_recovery_engine.Clock.{hours, minute_us}
use payment_recovery_engine.Settings.{default_settings}
use payment_recovery_engine.Actions.{retry_now, retry_at, upi}
use payment_recovery_engine.Chasers.{RiskPolicy, policy_for}
use payment_recovery_engine.Classifier.Taxonomy.{parse}
use payment_recovery_engine.Guardrail.Rules.{
  check_hard_decline_blocklist, check_switch_only_class, check_max_retries_per_payment,
  check_max_retries_per_customer, check_amount_ceiling, check_consent_window,
  check_retry_at_within_window, check_time_of_day_blackout, check_mandate_predebit_notification,
  check_idempotency_key, check_expected_value, is_in_blackout, check_customer_nudge_rate_limit,
}
use payment_recovery_engine.Guardrail.Gate.{
  validate, validate_self_serve, validate_action_schema, checks_for, outcome, nudge_checks,
  self_serve_checks,
}
use payment_recovery_engine.Cases.Model.{RetryAttempt, AttemptResult}
use payment_recovery_engine.Orchestrator.Execution.{
  committed, executed, execute_case_and_record, advance_ladder,
}
use payment_recovery_engine.Orchestrator.Context.{build_case_context}
use payment_recovery_engine.Orchestrator.Window.{effective_counts, effective_count}
use payment_recovery_engine.Orchestrator.Budget.{
  Chases, idle, chase, attempts_made, calls_made, Chases-bounded,
}
use payment_recovery_engine.Orchestrator.Fire.{
  Parked, Firing, Fired, fired_action_type, fired_action, fire_case_attempt, fire_judged, mark,
  withheld,
}
use payment_recovery_engine.Orchestrator.FireTime.{IsFireable, fire_case_attempt-IsFireable}
use payment_recovery_engine.Orchestrator.Examples.{
  percent, noon, failed_renewal, nudged_once, inputs, chased,
}

once : Chases percent default_settings failed_renewal (chased.0 ∷ []) chased.0.case
once = chase noon inputs chased.0 refl chased.1 idle

Chases-bounded_example :
    (chased.0.case.attempts_used ≡ 1 + sum_by attempts_made (chased.0 ∷ []))
    × (sum_by attempts_made (chased.0 ∷ []) ≤ 4 - 1)
    × (sum_by calls_made (chased.0 ∷ []) ≤ sum_by attempts_made (chased.0 ∷ []))
Chases-bounded_example =
    Chases-bounded percent default_settings failed_renewal chased.0.case (chased.0 ∷ []) once

abbrev parked_row : RetryAttempt
parked_row = record {
  id = 9;
  recovery_case_id = some 1;
  attempt_number = 1;
  idempotency_key = "case_1_1";
  external_ref = none;
  action_type = retry_at;
  result = AttemptResult.pending;
  executed_at = none;
  created_at = noon - hours 4;
}

abbrev pub parked : Parked ℕ
parked = record {
  row = parked_row;
  target_rail = none;
  agent_reasoning = some "after payday";
  agent_confidence = some 60;
}

abbrev firing : Firing
firing = record {
  ledger = some nudged_once;
  last_notification = none;
  now_again = noon + minute_us;
  gateway = inputs.gateway;
}

fired_once :
    (r : Fired) × (fire_case_attempt percent default_settings noon firing parked
        (some failed_renewal)
      ≡ some r)
    × (r.effects ≡ committed ∷ executed retry_now ∷ committed ∷ [])
unfolding fire_case_attempt policy_for fire_judged build_case_context effective_counts
    effective_count execute_case_and_record advance_ladder fired_action fired_action_type mark
    withheld validate validate_self_serve outcome checks_for self_serve_checks nudge_checks parse
    check_hard_decline_blocklist check_switch_only_class check_max_retries_per_payment
    check_max_retries_per_customer check_amount_ceiling check_consent_window
    check_retry_at_within_window check_time_of_day_blackout check_mandate_predebit_notification
    check_idempotency_key check_expected_value validate_action_schema is_in_blackout
    check_customer_nudge_rate_limit
fired_once = (_, refl, refl)

fire_case_attempt-IsFireable_example :
    IsFireable percent default_settings noon firing parked failed_renewal
    × (retry_now ≡ fired_action_type retry_at)
    × (retry_now ≢ retry_at)
    × (fired_once.0.effects ≡ committed ∷ executed retry_now ∷ committed ∷ [])
fire_case_attempt-IsFireable_example =
    fire_case_attempt-IsFireable percent default_settings noon firing parked failed_renewal
      fired_once.0 retry_now fired_once.1
      (subst (In (executed retry_now)) (sym fired_once.2) (inr (inl refl)))

abbrev renewal_policy : RiskPolicy
renewal_policy = record {
  max_attempts = 4;
  consent_window_hours = 168;
  first_action_hours = 0;
  re_chase_hours = 24;
  recommended_rail = some upi;
  failure_class = "subscription_charge_failed";
}
