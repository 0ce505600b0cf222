-- ===== src/Guardrail/SelfServe.antt =====
-- The gate for a payment that the customer starts (`validate_self_serve` of
-- src/guardrail/gate.py), and the schema check's exception.
use payment_recovery_engine.Prelude.{
  ℕ, ◌<◌, ◌≡◌, ◌≢◌, ◌↔◌, String, true, Option, none, some, List, All, arith, ◌∙◌, refl,
}
use payment_recovery_engine.Clock.{naive, to_utc}
use payment_recovery_engine.Settings.{Settings}
use payment_recovery_engine.Actions.{Host, retry_at, abandon, RetryAction, FailureContext}
use payment_recovery_engine.Guardrail.Gate.{
  Check, is_well_formed, validate_action_schema, validate, outcome, self_serve_checks,
  validate_self_serve,
}
use payment_recovery_engine.Guardrail.Meaning
use payment_recovery_engine.Guardrail.Meaning.{IsRecoverable, IsInWindow, IsKeyed}
use payment_recovery_engine.Guardrail.Permission.{
  passes, collect-nil, passes-outcome, IsValidAction, valid→none, none→valid, IsPermitted,
  validate_permission, validate-outcome,
}

module _ (host : Host) (s : Settings) where
  open host use {Float}

  -- What a customer's own payment must satisfy.
  pub record IsSelfServePermitted (a : RetryAction Float) (ctx : FailureContext)
      (key : Option String) (attempts now : ℕ) : Type 0 where
    pub valid_action : IsValidAction host s a now
    pub recoverable : IsRecoverable ctx.failure_class
    pub in_window : IsInWindow s (to_utc ctx.current_time) ctx.failed_at ctx.consent_window
    pub attempts_left : attempts < s.max_retries_per_payment
    pub keyed : IsKeyed host key

  module _ (a : RetryAction Float) (ctx : FailureContext) (key : Option String)
      (attempts now : ℕ) where
    checks : List Check
    checks = self_serve_checks host s ctx key attempts

    permitted→verdicts :
        IsSelfServePermitted a ctx key attempts now → All (λ c. c.verdict ≡ none) checks
    unfolding self_serve_checks checks
    permitted→verdicts p = (
      (Meaning.check_hard_decline_blocklist_lem ctx.failure_class).1 p.recoverable,
      (
        (Meaning.check_consent_window_lem s ctx.failed_at ctx.current_time ctx.consent_window).1
            p.in_window,
        (
          (Meaning.check_max_retries_per_payment_lem s ctx.payment_id attempts).1 p.attempts_left,
          ((Meaning.check_idempotency_key_lem host key).1 p.keyed, tt),
        ),
      ),
    )

    verdicts→permitted :
        IsValidAction host s a now
        → All (λ c. c.verdict ≡ none) checks
        → IsSelfServePermitted a ctx key attempts now
    unfolding self_serve_checks checks
    verdicts→permitted v h = record {
      valid_action = v;
      recoverable = (Meaning.check_hard_decline_blocklist_lem ctx.failure_class).0 h.0;
      in_window =
          (Meaning.check_consent_window_lem s ctx.failed_at ctx.current_time ctx.consent_window).0
            h.1.0;
      attempts_left =
          (Meaning.check_max_retries_per_payment_lem s ctx.payment_id attempts).0 h.1.1.0;
      keyed = (Meaning.check_idempotency_key_lem host key).0 h.1.1.1.0;
    }

    -- A customer's own payment passes exactly when the action is valid, the failure is no hard
    -- decline, the consent window is open, the case has an attempt left and the key is there.
    pub self_serve_permission :
        (passes (validate_self_serve host s a ctx key attempts now) ≡ true)
        ↔ IsSelfServePermitted a ctx key attempts now
    unfolding validate_self_serve checks
    self_serve_permission = (
      λ e.
          let (ok, clear) = (passes-outcome host s a checks now).0 e in
          verdicts→permitted (none→valid host s a now ok) ((collect-nil checks).0 clear),
      λ p.
          (passes-outcome host s a checks now).1
            (valid→none host s a now p.valid_action, (collect-nil checks).1 (permitted→verdicts p)),
    )

    -- Whatever the full gate lets through, other than an `abandon`, the customer may do too.
    pub validate→self_serve :
        a.action ≢ abandon
        → passes (validate host s a ctx key attempts now) ≡ true
        → passes (validate_self_serve host s a ctx key attempts now) ≡ true
    validate→self_serve h e =
        let p : IsPermitted host s a ctx key attempts now =
          (validate_permission host s a ctx key attempts now h).0 e in
        self_serve_permission.1 (record {
          valid_action = p.valid_action;
          recoverable = p.recoverable;
          in_window = p.in_window;
          attempts_left = p.attempts_left;
          keyed = p.keyed;
        })

    naive→raise :
        (t : ℕ)
        → is_well_formed host s a ≡ true
        → a.action ≡ retry_at
        → a.retry_at_time ≡ some (naive t)
        → validate_action_schema host s a now ≡ none
    unfolding validate_action_schema
    naive→raise t w e r = ground arith

    -- A well-formed deferred retry at a naive time makes both validations raise, whatever the
    -- context, although the rule on the window reads a naive time as UTC.
    pub naive_retry_at_raises :
        (t : ℕ)
        → is_well_formed host s a ≡ true
        → a.action ≡ retry_at
        → a.retry_at_time ≡ some (naive t)
        → (validate host s a ctx key attempts now ≡ none)
          × (validate_self_serve host s a ctx key attempts now ≡ none)
    unfolding validate_self_serve outcome
    naive_retry_at_raises t w e r = (
      validate-outcome host s a ctx key attempts now (λ x. cc)
          ∙ rw (naive→raise t w e r, outcome) refl,
      rw (naive→raise t w e r, outcome) refl,
    )
