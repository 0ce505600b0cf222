-- ===== src/Orchestrator/Fire.antt =====
-- The firing of an attempt that was put on the schedule: `_fire_case_attempt`,
-- `_fired_action_type` and `_mark` of src/scheduler.py, after the claim of the row.
use payment_recovery_engine.Prelude.{
  ℕ, ◌-◌, String, Bool, true, false, ◌||◌, Option, none, some, List, [], ◌∷◌, ◌++◌, str_eq,
  if◌then◌else◌,
}
use payment_recovery_engine.Clock.{Timestamp}
use payment_recovery_engine.Settings.{Settings}
use payment_recovery_engine.Actions.{
  Host, ActionType, retry_now, retry_at, PaymentRail, RetryAction, FailureContext,
}
use payment_recovery_engine.Chasers.{RiskPolicy, policy_for}
use payment_recovery_engine.Guardrail.Gate.{GuardrailResult, validate}
use payment_recovery_engine.Cases.Model.{
  RecoveryCase, RetryAttempt, AttemptResult, RetryLedger, EventType, is_terminal,
}
use payment_recovery_engine.Cases.Lifecycle.{is_opted_out}
use payment_recovery_engine.Orchestrator.Context.{build_case_context}
use payment_recovery_engine.Orchestrator.Execution.{
  Effect, committed, Gateway, execute_case_and_record, advance_ladder,
}

-- A claimed row, with the columns that hold the agent's decision.
pub record Parked (F : Type 0) : Type 0 where
  pub row : RetryAttempt
  pub target_rail : Option PaymentRail
  pub agent_reasoning : Option String
  pub agent_confidence : Option F

-- What the firing reads besides: the clock again, when it writes the row.
pub record Firing : Type 0 where
  pub ledger : Option RetryLedger
  pub last_notification : Option Timestamp
  pub now_again : ℕ
  pub gateway : Gateway

-- Whether the gateway's turn came, and the row, the case, the log and the effects it left.
pub record Fired : Type 0 where
  pub fired : Bool
  pub row : RetryAttempt
  pub case : Option RecoveryCase
  pub events : List EventType
  pub effects : List Effect

unfoldable pub fired_action_type : ActionType → ActionType
fired_action_type retry_at = retry_now
fired_action_type t = t

-- `text or default`
or_text : Option String → String → String
or_text none d = d
or_text (some s) d = if str_eq s "" then d else s

unfoldable pub mark : AttemptResult → ℕ → RetryAttempt → RetryAttempt
mark result at_ row = record row { result = result; executed_at = some at_ }

-- A firing that ends without the gateway.
unfoldable pub withheld :
    AttemptResult → ℕ → RetryAttempt → Option RecoveryCase → List EventType → Fired
unfolding mark
withheld result at_ row c events = record {
  fired = false;
  row = mark result at_ row;
  case = c;
  events = events;
  effects = committed ∷ [];
}

unfoldable pub fired_action : {F : Type 0} → Parked F → RetryAction F
unfolding or_text
fired_action p = record {
  action = fired_action_type p.row.action_type;
  rail = p.target_rail;
  retry_at_time = none;
  reason = or_text p.agent_reasoning "scheduled case retry";
  confidence = p.agent_confidence;
}

abbrev pub is_stopped : RecoveryCase → Option RetryLedger → Bool
is_stopped c ledger = is_terminal c.state || is_opted_out ledger

module _ {F : Type 0} (now : ℕ) (policy : RiskPolicy) (f : Firing) (p : Parked F) where
  -- The gate was asked, or raised; and so may the execution.
  unfoldable pub fire_judged : RecoveryCase → Option (GuardrailResult F) → Option Fired
  fire_judged c none = none
  fire_judged c (some g) =
      let (c', more) = advance_ladder now policy c in
      if g.passed
      then elim (execute_case_and_record f.now_again (fired_action_type p.row.action_type) f.gateway
          p.row) [
            | none ↦ none
            | some (row', events, effects) ↦ some (record {
              fired = true;
              row = row';
              case = some c';
              events = events ++ more;
              effects = effects ++ committed ∷ [];
            })
          ]
      else some
          (withheld AttemptResult.rejected f.now_again p.row (some c') (EventType.stopped ∷ more))

module _ (host : Host) (cfg : Settings) where
  open host use {Float}

  -- The case's context when the attempt fires.
  abbrev pub fire_context : ℕ → RiskPolicy → Firing → RecoveryCase → FailureContext
  fire_context now policy f c = build_case_context cfg now c policy f.ledger f.last_notification

  abbrev pub fire_verdict :
      ℕ → RiskPolicy → Firing → Parked Float → RecoveryCase → Option (GuardrailResult Float)
  fire_verdict now policy f p c =
      validate host cfg (fired_action p) (fire_context now policy f c) (some p.row.idempotency_key)
        (p.row.attempt_number - 1) f.now_again

  -- `none` is an exception.
  unfoldable pub fire_case_attempt : ℕ → Firing → Parked Float → Option RecoveryCase → Option Fired
  fire_case_attempt now f p none = some (withheld AttemptResult.skipped f.now_again p.row none [])
  fire_case_attempt now f p (some c) = elim (policy_for c.risk_type) [
    | none ↦ some (withheld AttemptResult.skipped f.now_again p.row (some c) [])
    | some policy ↦
        if is_stopped c f.ledger
        then some
            (withheld AttemptResult.cancelled f.now_again p.row (some c) (EventType.stopped ∷ []))
        else fire_judged now policy f p c (fire_verdict now policy f p c)
  ]
