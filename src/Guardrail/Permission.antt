-- ===== src/Guardrail/Permission.antt =====
-- `GuardrailGate.validate` against a declarative statement of what may be done.
use payment_recovery_engine.Prelude.{
  ℕ, ◌≤◌, ◌<◌, ◌≡◌, ◌≢◌, ◌↔◌, refl, String, Bool, true, false, Option, none, some, List, [], ◌∷◌,
  All, arith,
}
use payment_recovery_engine.Clock.{Timestamp, naive, aware, to_utc}
use payment_recovery_engine.Settings.{Settings}
use payment_recovery_engine.Actions.{
  Host, ActionType, retry_now, retry_at, switch_rail, nudge_customer, abandon, RetryAction,
  FailureContext,
}
use payment_recovery_engine.Guardrail.Rules.{is_in_blackout}
use payment_recovery_engine.Guardrail.Gate.{
  Check, collect, GuardrailResult, is_well_formed, validate_action_schema, checks_for, nudge_checks,
  validate, outcome,
}
use payment_recovery_engine.Guardrail.Meaning.{
  IsRecoverable, IsSwitchRespected, IsInWindow, IsMandateDebit, IsNotified, IsKeyed, IsWorthwhile,
}
use payment_recovery_engine.Guardrail.Meaning

-- The gate returned, and its result says that the action passed.
abbrev pub passes : {F : Type 0} → Option (GuardrailResult F) → Bool
passes none = false
passes (some r) = r.passed

-- Nothing is collected exactly when every check passes.
pub collect-nil : (cs : List Check) → (collect cs ≡ []) ↔ All (λ c. c.verdict ≡ none) cs
unfolding collect
collect-nil [] = (λ _. tt, λ _. refl)
collect-nil (c ∷ cs) =
    (λ h. ground (arith, (collect-nil cs).0), λ h. ground (arith, (collect-nil cs).1))

-- An aware time that has not passed.
abbrev pub IsTimely : Option Timestamp → ℕ → Type 0
IsTimely none now = ⊥
IsTimely (some (naive t)) now = ⊥
IsTimely (some (aware t)) now = now ≤ t

module _ (host : Host) (s : Settings) where
  open host use {Float}

  -- The fields that the action needs are there, and a deferred retry is not in the past.
  pub record IsValidAction (a : RetryAction Float) (now : ℕ) : Type 0 where
    pub well_formed : is_well_formed host s a ≡ true
    pub rail_given : a.action ≡ switch_rail → a.rail ≢ none
    pub time_given : a.action ≡ retry_at → IsTimely a.retry_at_time now

  pub valid→none :
      (a : RetryAction Float) (now : ℕ)
      → IsValidAction a now
      → validate_action_schema host s a now ≡ some none
  unfolding validate_action_schema
  valid→none a now v = ground arith

  pub none→valid :
      (a : RetryAction Float) (now : ℕ)
      → validate_action_schema host s a now ≡ some none
      → IsValidAction a now
  unfolding validate_action_schema
  none→valid a now v = ground arith

  -- What the policy permits an agent to do, rule by rule.
  pub record IsPermitted (a : RetryAction Float) (ctx : FailureContext) (key : Option String)
      (attempts now : ℕ) : Type 0 where
    pub valid_action : IsValidAction a now
    pub recoverable : IsRecoverable ctx.failure_class
    pub switch_respected : IsSwitchRespected ctx.failure_class a.action
    pub attempts_left : attempts < s.max_retries_per_payment
    pub customer_budget_left : ctx.retry_count_24h < s.max_retries_per_customer_24h
    pub within_ceiling : ctx.amount ≤ s.amount_ceiling_paise
    pub in_window : IsInWindow s (to_utc ctx.current_time) ctx.failed_at ctx.consent_window
    pub retry_in_window :
        (t : Timestamp)
        → a.retry_at_time ≡ some t
        → IsInWindow s (to_utc t) ctx.failed_at ctx.consent_window
    pub outside_quiet_hours : is_in_blackout s ctx.hour_of_day ≡ false
    pub keyed : IsKeyed host key
    pub worthwhile : IsWorthwhile host s a.action a.confidence ctx.amount
    pub notified :
        IsMandateDebit s ctx.risk_type a.action ctx.is_mandate_debit
        → IsNotified s ctx.last_notification_sent_at ctx.current_time
    pub nudges_left :
        a.action ≡ nudge_customer → ctx.nudge_count_24h < s.max_nudges_per_customer_24h

  -- The result passes exactly when the schema check and every listed check do.
  pub passes-outcome :
      (a : RetryAction Float) (checks : List Check) (now : ℕ)
      → (passes (outcome host s a checks now) ≡ true)
        ↔ ((validate_action_schema host s a now ≡ some none) × (collect checks ≡ []))
  unfolding outcome
  passes-outcome a checks now = ground arith

  -- Only an `abandon` is let through unchecked.
  pub validate-outcome :
      (a : RetryAction Float) (ctx : FailureContext) (key : Option String) (attempts now : ℕ)
      → a.action ≢ abandon
      → validate host s a ctx key attempts now
        ≡ outcome host s a (checks_for host s a ctx key attempts) now
  unfolding validate
  validate-outcome a ctx key attempts now h = ground arith

  -- The check that only a nudge adds.
  nudges→tail :
      (t : ActionType) (ctx : FailureContext)
      → (t ≡ nudge_customer → ctx.nudge_count_24h < s.max_nudges_per_customer_24h)
      → All (λ c. c.verdict ≡ none) (nudge_checks s t ctx)
  unfolding nudge_checks
  nudges→tail nudge_customer ctx h =
      ((Meaning.check_customer_nudge_rate_limit_lem s ctx.nudge_count_24h).1 (h refl), tt)
  nudges→tail _ ctx h = tt

  tail→nudges :
      (t : ActionType) (ctx : FailureContext)
      → All (λ c. c.verdict ≡ none) (nudge_checks s t ctx)
      → t ≡ nudge_customer
      → ctx.nudge_count_24h < s.max_nudges_per_customer_24h
  unfolding nudge_checks
  tail→nudges nudge_customer ctx h e =
      (Meaning.check_customer_nudge_rate_limit_lem s ctx.nudge_count_24h).0 h.0
  tail→nudges retry_now ctx h e = cc
  tail→nudges retry_at ctx h e = cc
  tail→nudges switch_rail ctx h e = cc
  tail→nudges abandon ctx h e = cc

  permitted→verdicts :
      (a : RetryAction Float) (ctx : FailureContext) (key : Option String) (attempts now : ℕ)
      → IsPermitted a ctx key attempts now
      → All (λ c. c.verdict ≡ none) (checks_for host s a ctx key attempts)
  unfolding checks_for
  permitted→verdicts a ctx key attempts now p = (
    (Meaning.check_hard_decline_blocklist_lem ctx.failure_class).1 p.recoverable,
    (
      (Meaning.check_switch_only_class_lem ctx.failure_class a.action).1 p.switch_respected,
      (
        (Meaning.check_max_retries_per_payment_lem s ctx.payment_id attempts).1 p.attempts_left,
        (
          (Meaning.check_max_retries_per_customer_lem s ctx.retry_count_24h).1
              p.customer_budget_left,
          (
            (Meaning.check_amount_ceiling_lem s ctx.amount).1 p.within_ceiling,
            (
              (Meaning.check_consent_window_lem s ctx.failed_at ctx.current_time
                    ctx.consent_window).1
                  p.in_window,
              (
                (Meaning.check_retry_at_within_window_lem s a.retry_at_time ctx.failed_at
                      ctx.consent_window).1
                    p.retry_in_window,
                (
                  (Meaning.check_time_of_day_blackout_lem s ctx.hour_of_day).1
                      p.outside_quiet_hours,
                  (
                    (Meaning.check_idempotency_key_lem host key).1 p.keyed,
                    (
                      (Meaning.check_expected_value_lem host s a.action a.confidence ctx.amount).1
                          p.worthwhile,
                      (
                        (Meaning.check_mandate_predebit_notification_lem s ctx.risk_type a.action
                              ctx.last_notification_sent_at ctx.current_time ctx.is_mandate_debit).1
                            p.notified,
                        nudges→tail a.action ctx p.nudges_left,
                      ),
                    ),
                  ),
                ),
              ),
            ),
          ),
        ),
      ),
    ),
  )

  verdicts→permitted :
      (a : RetryAction Float) (ctx : FailureContext) (key : Option String) (attempts now : ℕ)
      → IsValidAction a now
      → All (λ c. c.verdict ≡ none) (checks_for host s a ctx key attempts)
      → IsPermitted a ctx key attempts now
  unfolding checks_for
  verdicts→permitted a ctx key attempts now v h = record {
    valid_action = v;
    recoverable = (Meaning.check_hard_decline_blocklist_lem ctx.failure_class).0 h.0;
    switch_respected = (Meaning.check_switch_only_class_lem ctx.failure_class a.action).0 h.1.0;
    attempts_left = (Meaning.check_max_retries_per_payment_lem s ctx.payment_id attempts).0 h.1.1.0;
    customer_budget_left =
        (Meaning.check_max_retries_per_customer_lem s ctx.retry_count_24h).0 h.1.1.1.0;
    within_ceiling = (Meaning.check_amount_ceiling_lem s ctx.amount).0 h.1.1.1.1.0;
    in_window =
        (Meaning.check_consent_window_lem s ctx.failed_at ctx.current_time ctx.consent_window).0
          h.1.1.1.1.1.0;
    retry_in_window =
        (Meaning.check_retry_at_within_window_lem s a.retry_at_time ctx.failed_at
            ctx.consent_window).0
          h.1.1.1.1.1.1.0;
    outside_quiet_hours =
        (Meaning.check_time_of_day_blackout_lem s ctx.hour_of_day).0 h.1.1.1.1.1.1.1.0;
    keyed = (Meaning.check_idempotency_key_lem host key).0 h.1.1.1.1.1.1.1.1.0;
    worthwhile =
        (Meaning.check_expected_value_lem host s a.action a.confidence ctx.amount).0
          h.1.1.1.1.1.1.1.1.1.0;
    notified =
        (Meaning.check_mandate_predebit_notification_lem s ctx.risk_type a.action
            ctx.last_notification_sent_at ctx.current_time ctx.is_mandate_debit).0
          h.1.1.1.1.1.1.1.1.1.1.0;
    nudges_left = tail→nudges a.action ctx h.1.1.1.1.1.1.1.1.1.1.1;
  }

  -- The gate lets an action through exactly when the policy permits it: the schema check and
  -- each of the rules that apply to it. (An `abandon` passes without a check.)
  pub validate_permission :
      (a : RetryAction Float) (ctx : FailureContext) (key : Option String) (attempts now : ℕ)
      → a.action ≢ abandon
      → (passes (validate host s a ctx key attempts now) ≡ true)
        ↔ IsPermitted a ctx key attempts now
  validate_permission a ctx key attempts now h =
      rw (validate-outcome a ctx key attempts now h) (passed→permitted, permitted→passed)
    where
      checks : List Check
      checks = checks_for host s a ctx key attempts

      passed→permitted :
          passes (outcome host s a checks now) ≡ true → IsPermitted a ctx key attempts now
      passed→permitted e =
          let (ok, clear) = (passes-outcome a checks now).0 e in
          verdicts→permitted a ctx key attempts now (none→valid a now ok)
            ((collect-nil checks).0 clear)

      permitted→passed :
          IsPermitted a ctx key attempts now → passes (outcome host s a checks now) ≡ true
      permitted→passed p = (passes-outcome a checks now).1 (
        valid→none a now p.valid_action,
        (collect-nil checks).1 (permitted→verdicts a ctx key attempts now p),
      )
