-- ===== src/Orchestrator/Reminder.antt =====
-- `send_promise_reminder` of src/orchestrator.py, the reminder before a promise's day.
use payment_recovery_engine.Prelude.{
  ℕ, String, Bool, true, false, Option, none, some, [], ◌∷◌, ◌++◌, max, if◌then◌else◌,
}
use payment_recovery_engine.Clock.{Timestamp}
use payment_recovery_engine.Settings.{Settings}
use payment_recovery_engine.Actions.{Host, nudge_customer, RetryAction, FailureContext}
use payment_recovery_engine.Chasers.{policy_for}
use payment_recovery_engine.Guardrail.Gate.{GuardrailResult, validate}
use payment_recovery_engine.Cases.Model.{
  RecoveryCase, RetryAttempt, AttemptResult, RetryLedger, PromiseToPay,
}
use payment_recovery_engine.Cases.Lifecycle.{StopReason, stop_reason, attach_attempt, bind_attempt}
use payment_recovery_engine.Orchestrator.Context.{build_case_context}
use payment_recovery_engine.Orchestrator.Execution.{
  committed, Outcome, Gateway, execute_case_and_record,
}
use payment_recovery_engine.Orchestrator.Chase.{make_attempt, ledger_after}
use payment_recovery_engine.Orchestrator.FirmStop.{firm_stop}
use payment_recovery_engine.Orchestrator.Mandate.{policy_or}

-- `reminded` is with the result that the attempt's row was left with.
pub data ReminderOutcome : Type 0 where
  skipped_stop : StopReason → ReminderOutcome
  already_sent skipped_guardrail : ReminderOutcome
  reminded : AttemptResult → ReminderOutcome

-- What the code reads: the clock for itself and for what it calls, the customer's row, the last
-- notice, the key of the reminder and whether an attempt has it, and the gateway's answer.
pub record ReminderInputs : Type 0 where
  pub now : ℕ
  pub now_again : ℕ
  pub ledger : Option RetryLedger
  pub canonical : Option String
  pub last_notification : Option Timestamp
  pub key : String
  pub key_taken : Bool
  pub fresh_id : ℕ
  pub gateway : Gateway

unfoldable pub reminder_context : Settings → ReminderInputs → RecoveryCase → FailureContext
reminder_context cfg i c =
    build_case_context cfg i.now c (policy_or cfg (policy_for c.risk_type)) i.ledger
      i.last_notification

abbrev pub reminder_action : {F : Type 0} → RetryAction F
reminder_action = record {
  action = nudge_customer;
  rail = none;
  retry_at_time = none;
  reason = "pre-due reminder";
  confidence = none;
}

-- `_aware(case.next_action_at) or now`
abbrev pub or_now : Option ℕ → ℕ → ℕ
or_now none now = now
or_now (some t) now = t

-- The case after the reminder's last step.
abbrev pub quiet_until : ℕ → PromiseToPay → RecoveryCase → RecoveryCase
quiet_until now p c = record c {
  next_action_at = some (max (or_now c.next_action_at now) p.due_at);
}

module _ (cfg : Settings) (i : ReminderInputs) (p : PromiseToPay) where
  -- The case with the attempt on it, and the attempt.
  unfoldable pub remind : RecoveryCase → RetryAttempt → Option (ReminderOutcome × Outcome)
  remind c row = elim (execute_case_and_record i.now_again nudge_customer i.gateway row) [
    | none ↦ none
    | some (row', events, effects) ↦ some (
      reminded row'.result,
      record {
        case = quiet_until i.now p c;
        row = some row';
        ledger = ledger_after i.canonical cfg i.now_again nudge_customer i.ledger;
        events = events;
        effects = effects ++ committed ∷ committed ∷ [];
      },
    )
  ]

  unfoldable pub reminder_judged :
      {F : Type 0} → RecoveryCase → GuardrailResult F → Option (ReminderOutcome × Outcome)
  unfolding remind
  reminder_judged c g =
      let c' = attach_attempt cfg i.now_again nudge_customer c in
      let row = bind_attempt c none (make_attempt i.now_again i.fresh_id i.key nudge_customer c) in
      if g.passed
      then remind c' row
      else some (
        skipped_guardrail,
        record {
          case = c';
          row = some (record row { result = AttemptResult.rejected });
          ledger = i.ledger;
          events = [];
          effects = committed ∷ [];
        },
      )

  -- The stopping rule, the key of the attempt, and the gate's answer, in their order.
  unfoldable pub reminder_checked :
      {F : Type 0}
      → RecoveryCase
      → Option StopReason
      → Bool
      → Option (GuardrailResult F)
      → Option (ReminderOutcome × Outcome)
  unfolding reminder_judged
  reminder_checked c (some r) taken v = some (
    skipped_stop r,
    record { case = c; row = none; ledger = i.ledger; events = []; effects = [] },
  )
  reminder_checked c none true v =
      some (
        already_sent,
        record { case = c; row = none; ledger = i.ledger; events = []; effects = [] },
      )
  reminder_checked c none false none = none
  reminder_checked c none false (some g) = reminder_judged c g

-- `none` is an exception.
unfoldable pub send_promise_reminder :
    Host
    → Settings
    → ReminderInputs
    → PromiseToPay
    → RecoveryCase
    → Option (ReminderOutcome × Outcome)
unfolding reminder_context
send_promise_reminder host cfg i p c =
    reminder_checked cfg i p c (firm_stop c (stop_reason i.now c i.ledger)) i.key_taken (
      validate host cfg reminder_action (reminder_context cfg i c) (some i.key) c.attempts_used
        i.now_again)
