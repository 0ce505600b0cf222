-- ===== src/Orchestrator/Examples.antt =====
-- A chase of a concrete case, under the default settings.
use payment_recovery_engine.Prelude.{
  ℕ, ◌+◌, ◌*◌, ◌-◌, ◌≡◌, refl, sym, subst, inl, inr, true, false, none, some, [], In, leb, str_eq,
  arith,
}
use payment_recovery_engine.Clock.{hours, days, minute_us}
use payment_recovery_engine.Settings.{default_settings}
use payment_recovery_engine.Actions.{Host, nudge_customer, RetryAction, subscription_failure}
use payment_recovery_engine.Chasers.{policy_for}
use payment_recovery_engine.Classifier.Taxonomy.{parse}
use payment_recovery_engine.Guardrail.Rules.{
  check_hard_decline_blocklist, check_switch_only_class, check_max_retries_per_payment,
  check_max_retries_per_customer, check_amount_ceiling, check_consent_window,
  check_retry_at_within_window, check_time_of_day_blackout, check_mandate_predebit_notification,
  check_idempotency_key, check_expected_value, is_in_blackout, check_customer_nudge_rate_limit,
}
use payment_recovery_engine.Guardrail.Gate.{
  validate, validate_self_serve, validate_action_schema, checks_for, outcome, nudge_checks,
  self_serve_checks,
}
use payment_recovery_engine.Cases.Model
use payment_recovery_engine.Cases.Model.{RecoveryCase, AttemptResult, RetryLedger, CaseState}
use payment_recovery_engine.Cases.Lifecycle.{stop_reason, attach_attempt, bind_attempt}
use payment_recovery_engine.Orchestrator.Window.{
  effective_count, effective_counts, update_retry_ledger, effective_counts-update_retry_ledger,
}
use payment_recovery_engine.Orchestrator.Context.{build_case_context, refresh_counts, prepare}
use payment_recovery_engine.Orchestrator.Execution.{
  executed, Outcome, execute_case_and_record, advance_ladder,
}
use payment_recovery_engine.Orchestrator.Chase.{
  Inputs, hold, act, chase_case, carry_out, judged, keyed, locked, gated, finish, scheduled_time,
  ledger_after, make_attempt,
}
use payment_recovery_engine.Orchestrator.Safety.{
  IsAuthorised, written_ahead, chase_case-IsAuthorised,
}
use payment_recovery_engine.Orchestrator.Progress.{IsResting, chase_case-IsResting}

abbrev pub percent : Host
percent = record {
  Float = ℕ;
  in_unit_interval = λ c. leb c 100;
  product_le = λ c a k. leb (c * a) (k * 100);
  is_blank = λ t. str_eq t "";
  lower = λ t. t;
  is_blank_empty = refl;
}

abbrev pub noon : ℕ
noon = days 20000 + 23400000000

abbrev pub failed_renewal : RecoveryCase
failed_renewal = record {
  id = 1;
  risk_type = subscription_failure;
  subject_ref = "sub_1";
  customer_id = some "c";
  batch_id = none;
  amount_at_risk = 49900;
  amount_recovered = 0;
  recovered_ref = none;
  credited_refs = [];
  recovered_at = none;
  recovered_via_attempt_id = none;
  due_at = none;
  next_action_at = some noon;
  state = CaseState.open_;
  close_reason = none;
  closed_at = none;
  attempts_used = 1;
  max_attempts = 4;
  escalation_level = 0;
  opened_at = noon - hours 30;
}

abbrev pub nudged_once : RetryLedger
nudged_once = record {
  customer_id = "c";
  consent_status = Model.granted;
  opted_out_at = none;
  total_retries_24h = 0;
  last_retry_at = none;
  retries_window_started_at = none;
  total_nudges_24h = 1;
  last_nudge_at = some (noon - hours 30);
  nudges_window_started_at = some (noon - hours 30);
}

abbrev pub remind : RetryAction ℕ
remind = record {
  action = nudge_customer;
  rail = none;
  retry_at_time = none;
  reason = "ask for another card";
  confidence = some 60;
}

abbrev pub inputs : Inputs ℕ
inputs = record {
  latest = none;
  ledger = some nudged_once;
  canonical = some "c";
  dispute_open = false;
  last_notification = none;
  around = record { method = "card"; bank = none; downtime = none; local_to_utc = λ t. t };
  decision = remind;
  key = "case_1_1";
  key_taken = false;
  now_again = noon + minute_us;
  fresh_case = failed_renewal;
  fresh_ledger = some nudged_once;
  fresh_id = 9;
  gateway = record {
    key_free = true;
    answer = some (record { success = true; payment_link_id = some "plink_9" });
    voice = false;
  };
}

pub chased :
    (o : Outcome) × (chase_case percent default_settings noon inputs failed_renewal ≡ some o)
    × (o.effects ≡ written_ahead nudge_customer)
unfolding chase_case act hold policy_for stop_reason build_case_context prepare keyed locked gated
    judged carry_out finish scheduled_time execute_case_and_record advance_ladder ledger_after
    make_attempt attach_attempt bind_attempt refresh_counts effective_counts is_in_blackout validate
    validate_self_serve outcome checks_for self_serve_checks nudge_checks parse
    check_hard_decline_blocklist check_switch_only_class check_max_retries_per_payment
    check_max_retries_per_customer check_amount_ceiling check_consent_window
    check_retry_at_within_window check_time_of_day_blackout check_mandate_predebit_notification
    check_idempotency_key check_expected_value validate_action_schema update_retry_ledger
    effective_count check_customer_nudge_rate_limit
chased = (_, refl, refl)

effective_counts-update_retry_ledger_example :
    effective_counts default_settings
      (update_retry_ledger default_settings noon nudge_customer nudged_once)
      noon
    ≡ (0, 1)
unfolding effective_counts effective_count
effective_counts-update_retry_ledger_example =
    effective_counts-update_retry_ledger default_settings noon nudge_customer nudged_once

chase_case-IsAuthorised_example :
    IsAuthorised percent default_settings noon inputs failed_renewal nudge_customer
    × (chased.0.effects ≡ written_ahead nudge_customer)
chase_case-IsAuthorised_example =
    chase_case-IsAuthorised percent default_settings noon inputs failed_renewal chased.0
      nudge_customer chased.1
      (subst (In (executed nudge_customer)) (sym chased.2) (inr (inr (inr (inl refl)))))

chase_case-IsResting_example : IsResting noon chased.0.case
unfolding policy_for stop_reason
chase_case-IsResting_example =
    chase_case-IsResting percent default_settings noon inputs failed_renewal _ chased.0
      (omega arith) (omega arith) refl refl refl refl chased.1
