-- ===== src/Guardrail/Examples.antt =====
-- The guardrail at concrete actions, under the default settings.
use payment_recovery_engine.Prelude.{
  ℕ, ◌+◌, ◌*◌, ◌≡◌, refl, String, true, false, Option, none, some, [], leb, str_eq,
}
use payment_recovery_engine.Clock.{aware, hours, days}
use payment_recovery_engine.Settings.{default_settings}
use payment_recovery_engine.Classifier.Taxonomy.{parse}
use payment_recovery_engine.Actions.{Host, retry_now, RetryAction, FailureContext, payment_failure}
use payment_recovery_engine.Guardrail.Rules.{
  check_hard_decline_blocklist, check_switch_only_class, check_max_retries_per_payment,
  check_max_retries_per_customer, check_amount_ceiling, check_consent_window,
  check_retry_at_within_window, check_time_of_day_blackout, check_mandate_predebit_notification,
  check_idempotency_key, check_expected_value,
}
use payment_recovery_engine.Guardrail.Gate.{
  GuardrailResult, validate, validate_self_serve, validate_action_schema, checks_for, outcome,
  nudge_checks, self_serve_checks,
}
use payment_recovery_engine.Guardrail.Permission.{passes, IsPermitted, validate_permission}
use payment_recovery_engine.Guardrail.SelfServe.{IsSelfServePermitted, self_serve_permission}

-- Confidences in percent, and only the empty text blank.
abbrev percent : Host
percent = record {
  Float = ℕ;
  in_unit_interval = λ c. leb c 100;
  product_le = λ c a k. leb (c * a) (k * 100);
  is_blank = λ t. str_eq t "";
  lower = λ t. t;
  is_blank_empty = refl;
}

abbrev noon : ℕ
noon = days 20000 + 23400000000

abbrev ctx : FailureContext
ctx = record {
  risk_type = payment_failure;
  payment_id = "pay_1";
  failure_class = "network_error";
  amount = 149900;
  retry_count_24h = 1;
  nudge_count_24h = 0;
  failed_at = aware noon;
  current_time = aware (noon + hours 1);
  hour_of_day = 13;
  consent_window = none;
  last_notification_sent_at = none;
  is_mandate_debit = false;
}

abbrev retry : RetryAction ℕ
retry = record {
  action = retry_now;
  rail = none;
  retry_at_time = none;
  reason = "transient network error";
  confidence = some 60;
}

abbrev key : Option String
key = some "retry_pay_1_0"

retry_passes : passes (validate percent default_settings retry ctx key 0 (noon + hours 1)) ≡ true
unfolding validate validate_self_serve outcome checks_for self_serve_checks nudge_checks parse
    check_hard_decline_blocklist check_switch_only_class check_max_retries_per_payment
    check_max_retries_per_customer check_amount_ceiling check_consent_window
    check_retry_at_within_window check_time_of_day_blackout check_mandate_predebit_notification
    check_idempotency_key check_expected_value validate_action_schema
retry_passes = refl

validate_permission_example : IsPermitted percent default_settings retry ctx key 0 (noon + hours 1)
validate_permission_example =
    (validate_permission percent default_settings retry ctx key 0 (noon + hours 1) (λ e. cc)).0
      retry_passes

self_serve_passes :
    passes (validate_self_serve percent default_settings retry ctx key 0 (noon + hours 1)) ≡ true
unfolding validate_self_serve outcome self_serve_checks parse check_hard_decline_blocklist
    check_max_retries_per_payment check_consent_window check_idempotency_key validate_action_schema
self_serve_passes = refl

self_serve_permission_example :
    IsSelfServePermitted percent default_settings retry ctx key 0 (noon + hours 1)
self_serve_permission_example =
    (self_serve_permission percent default_settings retry ctx key 0 (noon + hours 1)).0
      self_serve_passes

retry_result :
    (r : GuardrailResult ℕ) × (validate percent default_settings retry ctx key 0 (noon + hours 1)
      ≡ some r)
unfolding validate validate_self_serve outcome checks_for self_serve_checks nudge_checks parse
    check_hard_decline_blocklist check_switch_only_class check_max_retries_per_payment
    check_max_retries_per_customer check_amount_ceiling check_consent_window
    check_retry_at_within_window check_time_of_day_blackout check_mandate_predebit_notification
    check_idempotency_key check_expected_value validate_action_schema
retry_result = (
  record {
    passed = true;
    action = some retry;
    rejection_reasons = [];
    rules_checked = 12;
    rules_failed = 0;
  },
  refl,
)
