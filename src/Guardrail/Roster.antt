-- ===== src/Guardrail/Roster.antt =====
-- The roster that the console shows (src/guardrail/gate.py) against the checks that the gate runs
-- and the reasons that they give.
use payment_recovery_engine.Prelude.{
  ℕ, ◌+◌, ◌≡◌, ◌≢◌, refl, String, Bool, true, false, Option, none, some, List, ◌∷◌, map, length,
  All, length-map, arith, sym, ap, ◌∙◌,
}
use payment_recovery_engine.Clock.{Timestamp}
use payment_recovery_engine.Settings.{Settings}
use payment_recovery_engine.Actions.{
  Host, ActionType, switch_rail, nudge_customer, abandon, RiskType, RetryAction, FailureContext,
}
use payment_recovery_engine.Guardrail.Rules.{
  Violation, schema, missing_rail, check_hard_decline_blocklist, check_switch_only_class,
  check_max_retries_per_payment, check_max_retries_per_customer, check_amount_ceiling,
  check_consent_window, check_retry_at_within_window, check_customer_nudge_rate_limit,
  check_time_of_day_blackout, check_mandate_predebit_notification, check_idempotency_key,
  check_expected_value,
}
use payment_recovery_engine.Guardrail.Gate.{
  Rule, hard_decline_rule, switch_only_rule, retries_per_payment_rule, retries_per_customer_rule,
  amount_ceiling_rule, consent_window_rule, retry_at_window_rule, quiet_hours_rule,
  idempotency_key_rule, expected_value_rule, predebit_notice_rule, nudge_limit_rule, rule_labels,
  schema_rule, Check, collect, GuardrailResult, roster_rules, rule_roster, nudge_checks, checks_for,
  validate, validate_action_schema, result_of, is_well_formed, outcome,
}
use payment_recovery_engine.Guardrail.Permission.{validate-outcome}
use payment_recovery_engine.Guardrail.Reasons.{names_rule}

-- A verdict is none, or its reason carries the prefix that the roster gives for the rule.
abbrev pub IsAttributed : Rule → Option Violation → Type 0
IsAttributed r none = Unit
IsAttributed r (some v) = names_rule (rule_labels r).1 v ≡ true

hard_decline-IsAttributed :
    (c : String) → IsAttributed hard_decline_rule (check_hard_decline_blocklist c)
unfolding check_hard_decline_blocklist names_rule rule_labels
hard_decline-IsAttributed c = ground arith

switch_only-IsAttributed :
    (c : String) (t : ActionType) → IsAttributed switch_only_rule (check_switch_only_class c t)
unfolding check_switch_only_class names_rule rule_labels
switch_only-IsAttributed c t = ground arith

module _ (s : Settings) where
  retries_per_payment-IsAttributed :
      (p : String) (n : ℕ)
      → IsAttributed retries_per_payment_rule (check_max_retries_per_payment s p n)
  unfolding check_max_retries_per_payment names_rule rule_labels
  retries_per_payment-IsAttributed p n = ground arith

  retries_per_customer-IsAttributed :
      (n : ℕ) → IsAttributed retries_per_customer_rule (check_max_retries_per_customer s n)
  unfolding check_max_retries_per_customer names_rule rule_labels
  retries_per_customer-IsAttributed n = ground arith

  amount_ceiling-IsAttributed :
      (n : ℕ) → IsAttributed amount_ceiling_rule (check_amount_ceiling s n)
  unfolding check_amount_ceiling names_rule rule_labels
  amount_ceiling-IsAttributed n = ground arith

  consent_window-IsAttributed :
      (f t : Timestamp) (w : Option ℕ)
      → IsAttributed consent_window_rule (check_consent_window s f t w)
  unfolding check_consent_window names_rule rule_labels
  consent_window-IsAttributed f t w = ground arith

  retry_at_window-IsAttributed :
      (r : Option Timestamp) (f : Timestamp) (w : Option ℕ)
      → IsAttributed retry_at_window_rule (check_retry_at_within_window s r f w)
  unfolding check_retry_at_within_window names_rule rule_labels
  retry_at_window-IsAttributed none f w = tt
  retry_at_window-IsAttributed (some r) f w = ground arith

  quiet_hours-IsAttributed :
      (h : ℕ) → IsAttributed quiet_hours_rule (check_time_of_day_blackout s h)
  unfolding check_time_of_day_blackout names_rule rule_labels
  quiet_hours-IsAttributed h = ground arith

  predebit_notice-IsAttributed :
      (r : RiskType) (t : ActionType) (last : Option Timestamp) (now : Timestamp) (flag : Bool)
      → IsAttributed predebit_notice_rule (check_mandate_predebit_notification s r t last now flag)
  unfolding check_mandate_predebit_notification names_rule rule_labels
  predebit_notice-IsAttributed r t last now flag = ground arith

  nudge_limit-IsAttributed :
      (n : ℕ) → IsAttributed nudge_limit_rule (check_customer_nudge_rate_limit s n)
  unfolding check_customer_nudge_rate_limit names_rule rule_labels
  nudge_limit-IsAttributed n = ground arith

  nudge_checks-IsAttributed :
      (t : ActionType) (ctx : FailureContext)
      → All (λ c. IsAttributed c.rule c.verdict) (nudge_checks s t ctx)
  unfolding nudge_checks
  nudge_checks-IsAttributed nudge_customer ctx = (nudge_limit-IsAttributed ctx.nudge_count_24h, tt)
  nudge_checks-IsAttributed _ ctx = tt

module _ (host : Host) (s : Settings) where
  open host use {Float}

  idempotency_key-IsAttributed :
      (key : Option String) → IsAttributed idempotency_key_rule (check_idempotency_key host key)
  unfolding check_idempotency_key names_rule rule_labels
  idempotency_key-IsAttributed none = refl
  idempotency_key-IsAttributed (some key) = ground arith

  expected_value-IsAttributed :
      (t : ActionType) (c : Option Float) (n : ℕ)
      → IsAttributed expected_value_rule (check_expected_value host s t c n)
  unfolding check_expected_value names_rule rule_labels
  expected_value-IsAttributed t c n = ground arith

  -- Every reason that a business rule of the gate gives contains the prefix under which the
  -- roster attributes it to that rule.
  pub checks_for-IsAttributed :
      (a : RetryAction Float) (ctx : FailureContext) (key : Option String) (attempts : ℕ)
      → All (λ c. IsAttributed c.rule c.verdict) (checks_for host s a ctx key attempts)
  unfolding checks_for
  checks_for-IsAttributed a ctx key attempts = (
    hard_decline-IsAttributed ctx.failure_class,
    (
      switch_only-IsAttributed ctx.failure_class a.action,
      (
        retries_per_payment-IsAttributed s ctx.payment_id attempts,
        (
          retries_per_customer-IsAttributed s ctx.retry_count_24h,
          (
            amount_ceiling-IsAttributed s ctx.amount,
            (
              consent_window-IsAttributed s ctx.failed_at ctx.current_time ctx.consent_window,
              (
                retry_at_window-IsAttributed s a.retry_at_time ctx.failed_at ctx.consent_window,
                (
                  quiet_hours-IsAttributed s ctx.hour_of_day,
                  (
                    idempotency_key-IsAttributed key,
                    (
                      expected_value-IsAttributed a.action a.confidence ctx.amount,
                      (
                        predebit_notice-IsAttributed s ctx.risk_type a.action
                            ctx.last_notification_sent_at ctx.current_time ctx.is_mandate_debit,
                        nudge_checks-IsAttributed s a.action ctx,
                      ),
                    ),
                  ),
                ),
              ),
            ),
          ),
        ),
      ),
    ),
  )

  rules-checks_for :
      (t : ActionType) (a : RetryAction Float) (ctx : FailureContext) (key : Option String)
      (attempts : ℕ)
      → t ≢ abandon
      → map (λ (c : Check). c.rule) (checks_for host s (record a { action = t }) ctx key attempts)
        ≡ roster_rules t
  unfolding checks_for nudge_checks roster_rules
  rules-checks_for abandon a ctx key attempts h = absurd (h refl)
  rules-checks_for _ a ctx key attempts h = refl

  length-rule_roster : (t : ActionType) → length (rule_roster t) ≡ length (roster_rules t)
  unfolding rule_roster
  length-rule_roster abandon = refl
  length-rule_roster _ = refl

  outcome_counts :
      (a : RetryAction Float) (checks : List Check) (now : ℕ) {r : GuardrailResult Float}
      → outcome host s a checks now ≡ some r
      → r.rules_checked ≡ length checks + 1
  unfolding outcome
  outcome_counts a checks now e = ground arith

  -- For any action but `abandon` the gate runs just the rules that the roster names, in its
  -- order, and reports one more than their number, for the schema check.
  pub validate_runs_roster :
      (a : RetryAction Float) (ctx : FailureContext) (key : Option String) (attempts now : ℕ)
      {r : GuardrailResult Float}
      → a.action ≢ abandon
      → validate host s a ctx key attempts now ≡ some r
      → (map (λ (c : Check). c.rule) (checks_for host s a ctx key attempts) ≡ roster_rules a.action)
        × (r.rules_checked ≡ length (rule_roster a.action) + 1)
  validate_runs_roster a ctx key attempts now h e =
      let checks = checks_for host s a ctx key attempts in
      let same = rules-checks_for a.action a ctx key attempts h in
      (
        same,
        omega (
          arith,
          outcome_counts a checks now (sym (validate-outcome host s a ctx key attempts now h) ∙ e),
          length-map (λ (c : Check). c.rule) checks,
          ap (length {A = Rule}) same,
          length-rule_roster a.action,
        ),
      )

  missing_rail→schema :
      (a : RetryAction Float) (now : ℕ)
      → is_well_formed host s a ≡ true
      → a.action ≡ switch_rail
      → a.rail ≡ none
      → validate_action_schema host s a now ≡ some (some missing_rail)
  unfolding validate_action_schema
  missing_rail→schema a now w e r = ground arith

  -- A well-formed rail switch that names no rail is refused, first of all with a reason that does
  -- not contain the schema rule's prefix, so the console attributes it to no rule.
  pub missing_rail_unattributed :
      (a : RetryAction Float) (ctx : FailureContext) (key : Option String) (attempts now : ℕ)
      → is_well_formed host s a ≡ true
      → a.action ≡ switch_rail
      → a.rail ≡ none
      → (r : GuardrailResult Float) × (rest : List Violation) × (validate host s a ctx key attempts
            now
          ≡ some r)
        × (r.rejection_reasons ≡ schema missing_rail ∷ rest)
        × (r.passed ≡ false)
        × (names_rule schema_rule.1 (schema missing_rail) ≡ false)
  unfolding outcome names_rule schema_rule
  missing_rail_unattributed a ctx key attempts now w e r =
      let checks = checks_for host s a ctx key attempts in
      let reasons = schema missing_rail ∷ collect checks in
      (
        result_of a checks reasons,
        collect checks,
        validate-outcome host s a ctx key attempts now (λ x. cc)
            ∙ rw (missing_rail→schema a now w e r, outcome) refl,
        refl,
        refl,
        refl,
      )
