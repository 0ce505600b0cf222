-- ===== src/Orchestrator/Payment.antt =====
-- `PaymentRecoveryOrchestrator.process_payment_failure` of src/orchestrator.py, from the class of
-- the failure and the case that `open_case` gave for it.
use payment_recovery_engine.Prelude.{
  ℕ, ◌+◌, String, Bool, true, false, Option, none, some, List, [], ◌∷◌, ◌++◌, if◌then◌else◌,
}
use payment_recovery_engine.Clock.{Timestamp, aware, to_ist, hour_of}
use payment_recovery_engine.Settings.{Settings}
use payment_recovery_engine.Classifier.Taxonomy.{FailureClass, value, is_hard_decline}
use payment_recovery_engine.Actions.{
  Host, ActionType, abandon, RetryAction, payment_failure, FailureContext,
}
use payment_recovery_engine.Guardrail.Gate.{GuardrailResult, validate}
use payment_recovery_engine.Cases.Model
use payment_recovery_engine.Cases.Model.{
  RecoveryCase, RetryAttempt, AttemptResult, RetryLedger, EventType, CaseState,
}
use payment_recovery_engine.Cases.Lifecycle.{
  StopReason, close_case, stop_reason, attach_attempt, bind_attempt,
}
use payment_recovery_engine.Orchestrator.Context.{
  Surroundings, counts_of, refresh_counts, prepare_payment,
}
use payment_recovery_engine.Orchestrator.Execution.{
  Effect, committed, decided, Outcome, Gateway, execute_case_and_record,
}
use payment_recovery_engine.Orchestrator.Chase.{
  ends, stop_event_type, make_attempt, ledger_after, scheduled_time,
}

-- What the rest reads of the row of the failure.
pub record Declined : Type 0 where
  pub payment_id : String
  pub amount : ℕ
  pub failure_class : FailureClass
  pub failed_at : Timestamp

-- What the handling of a failure reads and is told, the rows under the lock with it.
pub record PaymentInputs (F : Type 0) : Type 0 where
  pub ledger : Option RetryLedger
  pub canonical : Option String
  -- The key of an abandoned attempt, and whether it is in use.
  pub abandon_key : String
  pub abandon_taken : Bool
  pub around : Surroundings
  pub decision : RetryAction F
  -- The number of the payment's attempts, the key it gives, and whether that is in use.
  pub attempt_count : ℕ
  pub key : String
  pub key_taken : Bool
  pub now_again : ℕ
  pub fresh_case : RecoveryCase
  pub fresh_ledger : Option RetryLedger
  pub fresh_id : ℕ
  pub gateway : Gateway

unfoldable pub build_failure_context : Settings → ℕ → Declined → Option RetryLedger → FailureContext
build_failure_context cfg now d ledger =
    let (retries, nudges) = counts_of cfg ledger now in
    record {
      risk_type = payment_failure;
      payment_id = d.payment_id;
      failure_class = value d.failure_class;
      amount = d.amount;
      retry_count_24h = retries;
      nudge_count_24h = nudges;
      failed_at = d.failed_at;
      current_time = aware now;
      hour_of_day = hour_of (to_ist now);
      consent_window = none;
      last_notification_sent_at = none;
      is_mandate_debit = false;
    }

-- The row of a payment that is given up: it spends no attempt.
unfoldable pub abandoned_attempt : ℕ → ℕ → String → RecoveryCase → RetryAttempt
abandoned_attempt now fresh_id key c = record {
  id = fresh_id;
  recovery_case_id = some c.id;
  attempt_number = 0;
  idempotency_key = key;
  external_ref = none;
  action_type = abandon;
  result = AttemptResult.skipped;
  executed_at = none;
  created_at = now;
}

-- A hard decline: the case is closed, and no agent is asked.
unfoldable pub give_up : {F : Type 0} → ℕ → Declined → PaymentInputs F → RecoveryCase → Outcome
unfolding abandoned_attempt
give_up now d i c = record {
  case = close_case now CaseState.abandoned (Model.hard_decline (value d.failure_class)) c;
  row = if i.abandon_taken then none else some (abandoned_attempt now i.fresh_id i.abandon_key c);
  ledger = i.ledger;
  events = EventType.closed CaseState.abandoned ∷ [];
  effects = committed ∷ [];
}

module _ {F : Type 0} (cfg : Settings) (i : PaymentInputs F) where
  payment_done :
      Option RetryLedger → RecoveryCase → RetryAttempt → List EventType → List Effect → Outcome
  payment_done ledger c row events effects = record {
    case = c;
    row = some row;
    ledger = ledger;
    events = events;
    effects = committed ∷ decided ∷ effects ++ committed ∷ [];
  }

  payment_ledger : ActionType → Option RetryLedger
  payment_ledger t = ledger_after i.canonical cfg i.now_again t i.fresh_ledger

  -- An approved action. No voice call follows it.
  unfoldable pub carry_out_payment : RetryAction F → RecoveryCase → RetryAttempt → Option Outcome
  unfolding payment_done payment_ledger
  carry_out_payment a c row = elim (scheduled_time a) [
    | some t ↦ some (
        payment_done (payment_ledger a.action) c (record row { result = AttemptResult.scheduled })
          (EventType.deferred ∷ []) [])
    | none ↦
        elim (execute_case_and_record i.now_again a.action (record i.gateway { voice = false })
          row) [
            | none ↦ none
            | some (row', events, effects) ↦
                some (payment_done (payment_ledger a.action) c row' events effects)
          ]
  ]

  unfoldable pub judged_payment : RetryAction F → GuardrailResult F → Option Outcome
  unfolding payment_done
  judged_payment a g =
      let c = attach_attempt cfg i.now_again a.action i.fresh_case in
      let made = make_attempt i.now_again i.fresh_id i.key a.action i.fresh_case in
      let row =
        bind_attempt i.fresh_case none (record made { attempt_number = i.attempt_count + 1 }) in
      if g.passed
      then carry_out_payment a c row
      else some
          (payment_done i.fresh_ledger c (record row { result = AttemptResult.rejected }) [] [])

  -- The key first, then the case and the counters under the lock, then the gate's answer.
  unfoldable pub keyed_payment :
      RecoveryCase
      → RetryAction F
      → Bool
      → Option StopReason
      → Option (GuardrailResult F)
      → Option Outcome
  keyed_payment c a true r v = some (ends c i.ledger [] (committed ∷ decided ∷ []))
  keyed_payment c a false (some r) v =
      some (ends i.fresh_case i.fresh_ledger (stop_event_type r ∷ []) (committed ∷ decided ∷ []))
  keyed_payment c a false none none = none
  keyed_payment c a false none (some g) = judged_payment a g

module _ (host : Host) (cfg : Settings) where
  open host use {Float}

  unfoldable pub act_payment : ℕ → Declined → PaymentInputs Float → RecoveryCase → Option Outcome
  act_payment now d i c =
      let ctx = build_failure_context cfg now d i.ledger in
      let a = prepare_payment host cfg i.around ctx i.decision in
      keyed_payment cfg i c a i.key_taken (stop_reason i.now_again i.fresh_case i.fresh_ledger) (
        validate host cfg a (refresh_counts cfg i.now_again i.fresh_ledger ctx) (some i.key)
          i.attempt_count i.now_again)

  -- `none` is an exception.
  unfoldable pub process_payment_failure :
      ℕ → Declined → PaymentInputs Float → RecoveryCase → Option Outcome
  process_payment_failure now d i c =
      if is_hard_decline d.failure_class
      then some (give_up now d i c)
      else elim (stop_reason now c i.ledger) [
        | some r ↦ some (ends c i.ledger (stop_event_type r ∷ []) [])
        | none ↦ act_payment now d i c
      ]
