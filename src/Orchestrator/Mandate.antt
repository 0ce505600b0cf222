-- ===== src/Orchestrator/Mandate.antt =====
-- `charge_promise_mandate` of src/orchestrator.py, the debit of a mandate on a promise's day, and
-- the choice of `charge_due_promises` of src/scheduler.py for one promise.
use payment_recovery_engine.Prelude.{
  ℕ, String, Bool, true, false, ◌&&◌, not, Option, none, some, List, [], ◌∷◌, ◌++◌, any, leb,
  str_eq, if◌then◌else◌,
}
use payment_recovery_engine.Clock.{Timestamp}
use payment_recovery_engine.Settings.{Settings}
use payment_recovery_engine.Actions.{Host, retry_now, RetryAction, FailureContext}
use payment_recovery_engine.Chasers.{RiskPolicy, policy_for}
use payment_recovery_engine.Guardrail.Gate.{GuardrailResult, validate}
use payment_recovery_engine.Cases.Model.{
  RecoveryCase, RetryAttempt, AttemptResult, RetryLedger, PromiseToPay, MandateStatus,
}
use payment_recovery_engine.Cases.Lifecycle.{StopReason, stop_reason}
use payment_recovery_engine.Cases.Promises.{is_pending}
use payment_recovery_engine.Orchestrator.Context.{build_case_context}
use payment_recovery_engine.Orchestrator.Chase.{make_attempt}
use payment_recovery_engine.Orchestrator.FirmStop.{firm_stop}

-- What a debit commits to the database: the attempts, and the promise.
pub record Kept : Type 0 where
  pub attempts : List RetryAttempt
  pub promise : PromiseToPay

-- In their order: the commits of a debit, and its two calls of the gateway.
pub data Act : Type 0 where
  saved : Kept → Act
  ordered debited : Act

pub data ChargeOutcome : Type 0 where
  skipped_stop : StopReason → ChargeOutcome
  already_charged skipped_guardrail failed charged : ChargeOutcome

-- What the code reads: the clock for itself and for the gate, the customer's row, the last notice,
-- whether the row's key was taken meanwhile, the id of the order, or none if it raised, and
-- whether the debit came back.
pub record DebitInputs : Type 0 where
  pub now : ℕ
  pub now_again : ℕ
  pub ledger : Option RetryLedger
  pub last_notification : Option Timestamp
  pub fresh_id : ℕ
  pub raced : Bool
  pub order_id : Option String
  pub came_back : Bool

-- `_attempt_exists`
abbrev pub attempt_exists : String → List RetryAttempt → Bool
attempt_exists key = any (λ a. str_eq a.idempotency_key key)

-- The payment rail has no policy, and its context falls back on the settings.
abbrev pub policy_or : Settings → Option RiskPolicy → RiskPolicy
policy_or cfg (some p) = p
policy_or cfg none = record {
  max_attempts = cfg.max_retries_per_payment;
  consent_window_hours = cfg.consent_window_hours;
  first_action_hours = 0;
  re_chase_hours = 0;
  recommended_rail = none;
  failure_class = "payment_failure";
}

unfoldable pub debit_context : Settings → DebitInputs → RecoveryCase → PromiseToPay → FailureContext
debit_context cfg i c p =
    record (build_case_context cfg i.now c (policy_or cfg (policy_for c.risk_type)) i.ledger
      i.last_notification) { is_mandate_debit = true; amount = p.amount_promised }

abbrev pub debit_action : {F : Type 0} → RetryAction F
debit_action = record {
  action = retry_now;
  rail = none;
  retry_at_time = none;
  reason = "promise mandate debit";
  confidence = none;
}

-- The row of a debit belongs to the case, and takes none of its attempts.
unfoldable pub debit_row : String → DebitInputs → RecoveryCase → RetryAttempt
debit_row key i c = record (make_attempt i.now i.fresh_id key retry_now c) {
  recovery_case_id = some c.id;
}

-- A commit with the row as it stands.
abbrev pub save : Kept → RetryAttempt → PromiseToPay → Act
save k row p = saved (record { attempts = k.attempts ++ row ∷ []; promise = p })

abbrev pub charged_promise : ℕ → PromiseToPay → PromiseToPay
charged_promise now p = record p {
  mandate_status = some MandateStatus.charged;
  mandate_charged_at = some now;
}

-- The order, committed before the debit, and the debit.
unfoldable pub debit : DebitInputs → Kept → RetryAttempt → Option String → ChargeOutcome × List Act
debit i k row none = (
  failed,
  save k row k.promise ∷ save k (record row { result = AttemptResult.failed }) k.promise ∷ [],
)
debit i k row (some order_id) =
    let with_order = record row { external_ref = some order_id } in
    let before = save k row k.promise ∷ ordered ∷ save k with_order k.promise ∷ debited ∷ [] in
    if i.came_back
    then (
      charged,
      before
          ++ save k (record with_order { result = AttemptResult.success })
              (charged_promise i.now k.promise)
            ∷ [],
    )
    else (
      failed,
      before ++ save k (record with_order { result = AttemptResult.failed }) k.promise ∷ [],
    )

-- The commit of a refusal fails where the key was taken meanwhile; `none` is an exception.
unfoldable pub debit_judged :
    {F : Type 0}
    → DebitInputs
    → Kept
    → RetryAttempt
    → GuardrailResult F
    → Option (ChargeOutcome × List Act)
unfolding debit
debit_judged i k row g =
    if g.passed
    then some (if i.raced then (already_charged, []) else debit i k row i.order_id)
    else if i.raced
    then none
    else some
        (skipped_guardrail, save k (record row { result = AttemptResult.rejected }) k.promise ∷ [])

-- The stopping rule, the key of the attempt, and the gate's answer, in their order.
unfoldable pub debit_checked :
    {F : Type 0}
    → DebitInputs
    → Kept
    → RetryAttempt
    → Option StopReason
    → Bool
    → Option (GuardrailResult F)
    → Option (ChargeOutcome × List Act)
debit_checked i k row (some r) taken v = some (skipped_stop r, [])
debit_checked i k row none true v = some (already_charged, [])
debit_checked i k row none false none = none
debit_checked i k row none false (some g) = debit_judged i k row g

unfoldable pub charge_promise_mandate :
    Host → Settings → String → DebitInputs → RecoveryCase → Kept → Option (ChargeOutcome × List Act)
charge_promise_mandate host cfg key i c k =
    debit_checked i k (debit_row key i c) (firm_stop c (stop_reason i.now c i.ledger))
      (attempt_exists key k.attempts)
      (validate host cfg debit_action (debit_context cfg i c k.promise) (some key) c.attempts_used
        i.now_again)

-- What the database holds after some of the acts.
abbrev pub persisted : Kept → List Act → Kept
persisted k [] = k
persisted k (saved k' ∷ acts) = persisted k' acts
persisted k (ordered ∷ acts) = persisted k acts
persisted k (debited ∷ acts) = persisted k acts

abbrev is_active : Option MandateStatus → Bool
is_active (some MandateStatus.active) = true
is_active _ = false

-- `promises_due_for_mandate_debit`, of one promise.
unfoldable pub is_due_for_debit : ℕ → PromiseToPay → Bool
is_due_for_debit now p = is_pending p.status && is_active p.mandate_status && leb p.due_at now

abbrev failed_mandate : Kept → Kept
failed_mandate k = record k {
  promise = record k.promise { mandate_status = some MandateStatus.failed };
}

-- The debits counted, and what the sweep commits besides.
unfoldable pub counted : Kept → Option (ChargeOutcome × List Act) → ℕ × List Act
counted k none = (0, [])
counted k (some (charged, acts)) = (1, acts)
counted k (some (failed, acts)) = (0, acts ++ saved (failed_mandate (persisted k acts)) ∷ [])
counted k (some (_, acts)) = (0, acts)

-- The body of `charge_due_promises`, where the case is there: the flags say whether the feature
-- is on and whether the promise has its token and its customer at the gateway.
unfoldable pub charge_due :
    Host → Settings → Bool → Bool → String → DebitInputs → RecoveryCase → Kept → ℕ × List Act
unfolding counted is_due_for_debit
charge_due host cfg enabled has_credentials key i c k =
    if not (enabled && is_due_for_debit i.now k.promise)
    then (0, [])
    else if has_credentials
    then counted k (charge_promise_mandate host cfg key i c k)
    else (0, saved (failed_mandate k) ∷ [])
