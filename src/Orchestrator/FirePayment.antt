-- ===== src/Orchestrator/FirePayment.antt =====
-- The firing of a parked attempt for a failed payment: `_fire_one` of src/scheduler.py, after the
-- claim of the row.
use payment_recovery_engine.Prelude.{
  ℕ, ◌-◌, String, Bool, true, false, Option, none, some, List, [], ◌∷◌, ◌++◌, str_eq, if◌then◌else◌,
}
use payment_recovery_engine.Settings.{Settings}
use payment_recovery_engine.Actions.{Host, RetryAction}
use payment_recovery_engine.Guardrail.Gate.{GuardrailResult, validate}
use payment_recovery_engine.Cases.Model.{
  RecoveryCase, RetryAttempt, AttemptResult, RetryLedger, EventType,
}
use payment_recovery_engine.Orchestrator.Execution.{committed, Gateway, execute_case_and_record}
use payment_recovery_engine.Orchestrator.Payment.{Declined, build_failure_context}
use payment_recovery_engine.Orchestrator.Fire.{
  Parked, Fired, mark, withheld, fired_action, fired_action_type, is_stopped,
}

-- What the firing reads besides: the row of the case's customer and of the payment's, and the clock
-- again.
pub record PaymentFiring : Type 0 where
  pub case_ledger : Option RetryLedger
  pub ledger : Option RetryLedger
  pub now_again : ℕ
  pub gateway : Gateway

-- `attempt.agent_reasoning or "scheduled retry"`
abbrev pub reason_or : Option String → String
reason_or none = "scheduled retry"
reason_or (some s) = if str_eq s "" then "scheduled retry" else s

unfoldable pub fired_payment_action : {F : Type 0} → Parked F → RetryAction F
fired_payment_action p = record (fired_action p) { reason = reason_or p.agent_reasoning }

-- An end without a commit.
unfoldable pub left : AttemptResult → ℕ → RetryAttempt → Option RecoveryCase → Fired
left result at_ row c = record {
  fired = false;
  row = mark result at_ row;
  case = c;
  events = [];
  effects = [];
}

abbrev pub stop_events : Option RecoveryCase → List EventType
stop_events none = []
stop_events (some c) = EventType.stopped ∷ []

abbrev pub is_stopped_case : Option RecoveryCase → Option RetryLedger → Bool
is_stopped_case none ledger = false
is_stopped_case (some c) ledger = is_stopped c ledger

module _ {F : Type 0} (f : PaymentFiring) (p : Parked F) where
  unfoldable pub fire_approved : Option RecoveryCase → Option Fired
  fire_approved none = some (left AttemptResult.skipped f.now_again p.row none)
  fire_approved (some c) =
      elim (execute_case_and_record f.now_again (fired_action_type p.row.action_type)
        (record f.gateway { voice = false }) p.row) [
          | none ↦ none
          | some (row', events, effects) ↦ some (record {
            fired = true;
            row = row';
            case = some c;
            events = events;
            effects = effects ++ committed ∷ [];
          })
        ]

  -- The gate was asked, or raised.
  unfoldable pub fire_payment_judged :
      Option RecoveryCase → Option (GuardrailResult F) → Option Fired
  fire_payment_judged c none = none
  fire_payment_judged c (some g) =
      if g.passed
      then fire_approved c
      else some (withheld AttemptResult.rejected f.now_again p.row c (stop_events c))

module _ (host : Host) (cfg : Settings) where
  open host use {Float}

  abbrev pub fire_payment_verdict :
      ℕ → PaymentFiring → Parked Float → Declined → Option (GuardrailResult Float)
  fire_payment_verdict now f p d =
      validate host cfg (fired_payment_action p) (build_failure_context cfg now d f.ledger)
        (some p.row.idempotency_key) (p.row.attempt_number - 1) f.now_again

  -- `none` is an exception. The failure and the case are there or not.
  unfoldable pub fire_payment_attempt :
      ℕ → PaymentFiring → Parked Float → Option Declined → Option RecoveryCase → Option Fired
  fire_payment_attempt now f p none c = some (left AttemptResult.skipped f.now_again p.row c)
  fire_payment_attempt now f p (some d) c =
      if is_stopped_case c f.case_ledger
      then some (withheld AttemptResult.cancelled f.now_again p.row c (EventType.stopped ∷ []))
      else fire_payment_judged f p c (fire_payment_verdict now f p d)
