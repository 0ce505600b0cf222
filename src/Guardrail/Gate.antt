-- ===== src/Guardrail/Gate.antt =====
-- The gate of src/guardrail/gate.py over the schema check of src/guardrail/schemas.py: every rule
-- runs and every violation is collected.
use Prim.Native.String.{count}
use payment_recovery_engine.Prelude.{
  ℕ, ◌+◌, String, Bool, true, false, ◌&&◌, not, Option, none, some, List, [], ◌∷◌, ◌++◌, map,
  length, ltb, leb, is_none, if◌then◌else◌,
}
use payment_recovery_engine.Clock.{Timestamp, naive, aware}
use payment_recovery_engine.Settings.{Settings}
use payment_recovery_engine.Actions.{
  Host, ActionType, retry_at, switch_rail, nudge_customer, abandon, RetryAction, FailureContext,
}
use payment_recovery_engine.Guardrail.Rules.{
  Violation, schema, SchemaError, validation_failed, missing_rail, missing_retry_at,
  retry_at_in_past, check_hard_decline_blocklist, check_switch_only_class,
  check_max_retries_per_payment, check_max_retries_per_customer, check_amount_ceiling,
  check_consent_window, check_retry_at_within_window, check_customer_nudge_rate_limit,
  check_time_of_day_blackout, check_mandate_predebit_notification, check_idempotency_key,
  check_expected_value,
}

pub data Rule : Type 0 where
  hard_decline_rule switch_only_rule retries_per_payment_rule retries_per_customer_rule : Rule
  amount_ceiling_rule consent_window_rule retry_at_window_rule quiet_hours_rule : Rule
  idempotency_key_rule expected_value_rule predebit_notice_rule nudge_limit_rule : Rule

-- `RULE_LABELS`: what a merchant calls the rule, and the text its refusal starts with.
unfoldable pub rule_labels : Rule → String × String
rule_labels hard_decline_rule = ("Hard-decline blocklist", "Hard decline blocklist:")
rule_labels switch_only_rule = ("Switch-only failure class", "Switch-only class:")
rule_labels retries_per_payment_rule =
    ("Retry budget for this payment", "Max retries per payment exceeded:")
rule_labels retries_per_customer_rule =
    ("Retries per customer, 24h", "Max retries per customer (24h) exceeded:")
rule_labels amount_ceiling_rule = ("Amount ceiling", "Amount ceiling exceeded:")
rule_labels consent_window_rule = ("Consent window", "Consent window expired:")
rule_labels retry_at_window_rule =
    ("Deferred retry lands inside the window", "Scheduled retry falls outside the consent window:")
rule_labels quiet_hours_rule = ("Quiet hours", "Time-of-day blackout:")
rule_labels idempotency_key_rule = ("Idempotency key", "Missing idempotency key")
rule_labels expected_value_rule =
    ("Expected value clears the attempt cost", "Expected value below attempt cost:")
rule_labels predebit_notice_rule = ("RBI pre-debit notice", "RBI e-mandate framework:")
rule_labels nudge_limit_rule = ("Nudges per customer, 24h", "Nudge rate limit exceeded:")

-- `SCHEMA_RULE`
unfoldable pub schema_rule : String × String
schema_rule = ("Action schema", "Schema validation failed")

abbrev pub is_abandon : ActionType → Bool
is_abandon abandon = true
is_abandon _ = false

abbrev pub is_nudge : ActionType → Bool
is_nudge nudge_customer = true
is_nudge _ = false

-- The names of `rule_roster`, before it looks up their labels.
unfoldable pub roster_rules : ActionType → List Rule
roster_rules action_type =
    if is_abandon action_type
    then []
    else (hard_decline_rule ∷ switch_only_rule ∷ retries_per_payment_rule
        ∷ retries_per_customer_rule ∷ amount_ceiling_rule ∷ consent_window_rule
        ∷ retry_at_window_rule ∷ quiet_hours_rule ∷ idempotency_key_rule ∷ expected_value_rule
        ∷ predebit_notice_rule ∷ [])
      ++ (if is_nudge action_type then nudge_limit_rule ∷ [] else [])

unfoldable pub rule_roster : ActionType → List (Rule × String × String)
unfolding roster_rules rule_labels
rule_roster action_type =
    map (λ n. (n, (rule_labels n).0, (rule_labels n).1)) (roster_rules action_type)

-- A rule with what it answers on its arguments, `(fn, args)`.
pub record Check : Type 0 where
  pub rule : Rule
  pub verdict : Option Violation

-- The violations of the checks that failed, in order.
unfoldable pub collect : List Check → List Violation
collect [] = []
collect (c ∷ cs) = elim c.verdict [ none ↦ collect cs | some v ↦ v ∷ collect cs ]

pub record GuardrailResult (F : Type 0) : Type 0 where
  pub passed : Bool
  pub action : Option (RetryAction F)
  pub rejection_reasons : List Violation
  pub rules_checked : ℕ
  pub rules_failed : ℕ

is_empty : List Violation → Bool
is_empty [] = true
is_empty (v ∷ vs) = false

-- What the gate logs of a run of checks: pass exactly when nothing was collected.
unfoldable pub result_of {ℓ} :
    {F : Type 0} {A : Type ℓ} → RetryAction F → List A → List Violation → GuardrailResult F
unfolding is_empty
result_of action checks violations = record {
  passed = is_empty violations;
  action = if is_empty violations then some action else none;
  rejection_reasons = violations;
  rules_checked = length checks + 1;
  rules_failed = length violations;
}

-- The rate limit that a nudge adds.
unfoldable pub nudge_checks : Settings → ActionType → FailureContext → List Check
nudge_checks s t ctx =
    if is_nudge t
    then record {
      rule = nudge_limit_rule;
      verdict = check_customer_nudge_rate_limit s ctx.nudge_count_24h;
    }
      ∷ []
    else []

module _ (host : Host) (s : Settings) where
  open host use {Float, in_unit_interval}

  in_range : Option Float → Bool
  in_range none = true
  in_range (some c) = in_unit_interval c

  -- The field constraints of `RetryAction`, checked again on its dump.
  unfoldable pub is_well_formed : RetryAction Float → Bool
  unfolding in_range
  is_well_formed a = leb 5 (count a.reason) && leb (count a.reason) 500 && in_range a.confidence

  -- `action.retry_at < now` with `now` aware: a naive time cannot be compared, and the
  -- `TypeError` is outside the `try`. The outer `none` is that exception.
  past_error : Timestamp → ℕ → Option (Option SchemaError)
  past_error (naive t) now = none
  past_error (aware t) now = some (if ltb t now then some (retry_at_in_past t) else none)

  retry_at_error : ActionType → Option Timestamp → ℕ → Option (Option SchemaError)
  unfolding past_error
  retry_at_error retry_at none now = some (some missing_retry_at)
  retry_at_error retry_at (some t) now = past_error t now
  retry_at_error _ time now = some none

  is_switch : ActionType → Bool
  is_switch switch_rail = true
  is_switch _ = false

  -- `validate_action_schema`: an exception, an error, or `some none` for a valid action.
  unfoldable pub validate_action_schema : RetryAction Float → ℕ → Option (Option SchemaError)
  unfolding is_well_formed is_switch retry_at_error
  validate_action_schema a now =
      if not (is_well_formed a)
      then some (some validation_failed)
      else if is_switch a.action && is_none a.rail
      then some (some missing_rail)
      else retry_at_error a.action a.retry_at_time now

  unfoldable pub checks_for : RetryAction Float → FailureContext → Option String → ℕ → List Check
  unfolding nudge_checks
  checks_for a ctx key attempts =
      (record { rule = hard_decline_rule; verdict = check_hard_decline_blocklist ctx.failure_class }
        ∷ record {
          rule = switch_only_rule;
          verdict = check_switch_only_class ctx.failure_class a.action;
        }
        ∷ record {
          rule = retries_per_payment_rule;
          verdict = check_max_retries_per_payment s ctx.payment_id attempts;
        }
        ∷ record {
          rule = retries_per_customer_rule;
          verdict = check_max_retries_per_customer s ctx.retry_count_24h;
        }
        ∷ record { rule = amount_ceiling_rule; verdict = check_amount_ceiling s ctx.amount }
        ∷ record {
          rule = consent_window_rule;
          verdict = check_consent_window s ctx.failed_at ctx.current_time ctx.consent_window;
        }
        ∷ record {
          rule = retry_at_window_rule;
          verdict = check_retry_at_within_window s a.retry_at_time ctx.failed_at ctx.consent_window;
        }
        ∷ record { rule = quiet_hours_rule; verdict = check_time_of_day_blackout s ctx.hour_of_day }
        ∷ record { rule = idempotency_key_rule; verdict = check_idempotency_key host key }
        ∷ record {
          rule = expected_value_rule;
          verdict = check_expected_value host s a.action a.confidence ctx.amount;
        }
        ∷ record {
          rule = predebit_notice_rule;
          verdict =
              check_mandate_predebit_notification s ctx.risk_type a.action
                ctx.last_notification_sent_at ctx.current_time ctx.is_mandate_debit;
        }
        ∷ [])
      ++ nudge_checks s a.action ctx

  -- `_run_checks`: the schema first, then every rule.
  unfoldable pub run_checks : List Check → RetryAction Float → ℕ → Option (List Violation)
  unfolding collect
  run_checks checks a now = elim (validate_action_schema a now) [
    | none ↦ none
    | some none ↦ some (collect checks)
    | some (some e) ↦ some (schema e ∷ collect checks)
  ]

  -- The common tail of the two validations; `none` is the `TypeError` of the schema check.
  unfoldable pub outcome : RetryAction Float → List Check → ℕ → Option (GuardrailResult Float)
  unfolding run_checks result_of
  outcome a checks now = elim (run_checks checks a now) [
    | none ↦ none
    | some violations ↦ some (result_of a checks violations)
  ]

  -- `GuardrailGate.validate`.
  unfoldable pub validate :
      RetryAction Float → FailureContext → Option String → ℕ → ℕ → Option (GuardrailResult Float)
  validate a ctx key attempts now =
      if is_abandon a.action
      then some (record {
        passed = true;
        action = some a;
        rejection_reasons = [];
        rules_checked = 0;
        rules_failed = 0;
      })
      else outcome a (checks_for a ctx key attempts) now

  -- The subset for a payment that the customer starts.
  unfoldable pub self_serve_checks : FailureContext → Option String → ℕ → List Check
  self_serve_checks ctx key attempts =
      record { rule = hard_decline_rule; verdict = check_hard_decline_blocklist ctx.failure_class }
      ∷ record {
        rule = consent_window_rule;
        verdict = check_consent_window s ctx.failed_at ctx.current_time ctx.consent_window;
      }
      ∷ record {
        rule = retries_per_payment_rule;
        verdict = check_max_retries_per_payment s ctx.payment_id attempts;
      }
      ∷ record { rule = idempotency_key_rule; verdict = check_idempotency_key host key }
      ∷ []

  unfoldable pub validate_self_serve :
      RetryAction Float → FailureContext → Option String → ℕ → ℕ → Option (GuardrailResult Float)
  validate_self_serve a ctx key attempts now = outcome a (self_serve_checks ctx key attempts) now
