-- ===== src/Orchestrator/Execution.antt =====
-- Carrying out an approved action on a case, written ahead (`_execute_case_and_record` and
-- `_record_execution_outcome` of src/orchestrator.py), and what follows (`_advance_ladder` of
-- src/scheduler.py, which `chase_case` repeats).
use payment_recovery_engine.Prelude.{
  ℕ, ◌+◌, String, Bool, true, false, Option, none, some, List, [], ◌∷◌, leb, if◌then◌else◌,
}
use payment_recovery_engine.Clock.{hours}
use payment_recovery_engine.Actions.{ActionType, nudge_customer, abandon}
use payment_recovery_engine.Chasers.{RiskPolicy}
use payment_recovery_engine.Cases.Model
use payment_recovery_engine.Cases.Model.{
  RecoveryCase, RetryAttempt, AttemptResult, RetryLedger, EventType, CaseState, CloseReason,
  is_terminal,
}
use payment_recovery_engine.Cases.Lifecycle.{close_case}

-- The order of what a step does outside its own memory: its commits, the agent's decision, and
-- the call of the gateway with the action.
pub data Effect : Type 0 where
  committed decided : Effect
  executed : ActionType → Effect

-- The case, the attempt's row and the customer's counters as they are left, what was logged, and
-- what was done.
pub record Outcome : Type 0 where
  pub case : RecoveryCase
  pub row : Option RetryAttempt
  pub ledger : Option RetryLedger
  pub events : List EventType
  pub effects : List Effect

-- The gateway's answer.
pub record ExecResult : Type 0 where
  pub success : Bool
  pub payment_link_id : Option String

-- What the surroundings make of an execution: whether the key was free when the row was written
-- ahead, the gateway's answer, or none if the call raised, and whether voice calls are on and the
-- customer has a number.
pub record Gateway : Type 0 where
  pub key_free : Bool
  pub answer : Option ExecResult
  pub voice : Bool

is_contact : ActionType → Bool
is_contact nudge_customer = true
is_contact _ = false

outcome_events : ActionType → Gateway → Bool → List EventType
unfolding is_contact
outcome_events t g false = []
outcome_events t g true =
    if is_contact t
    then EventType.escalated ∷ (if g.voice then EventType.contacted ∷ [] else [])
    else EventType.contacted ∷ []

link_or : Option String → Option String → Option String
link_or none old = old
link_or (some l) old = some l

record_execution_outcome :
    ℕ → ActionType → Gateway → ExecResult → RetryAttempt → RetryAttempt × List EventType
unfolding outcome_events link_or
record_execution_outcome now t g r a = (
  record a {
    executed_at = some now;
    result = if r.success then AttemptResult.success else AttemptResult.failed;
    external_ref = link_or r.payment_link_id a.external_ref;
  },
  outcome_events t g r.success,
)

answered :
    ℕ → ActionType → Gateway → Option ExecResult → RetryAttempt → RetryAttempt × List EventType
unfolding record_execution_outcome
answered now t g none a = (record a { result = AttemptResult.failed }, [])
answered now t g (some r) a = record_execution_outcome now t g r a

-- The row, what was logged and what was done. The row is committed as pending before the call;
-- where its key is taken, the transaction is rolled back and the row's next use raises.
unfoldable pub execute_case_and_record :
    ℕ → ActionType → Gateway → RetryAttempt → Option (RetryAttempt × List EventType × List Effect)
unfolding answered
execute_case_and_record now abandon g a = some (record a { result = AttemptResult.skipped }, [], [])
execute_case_and_record now t g a =
    if g.key_free
    then (let (a', events) =
          answered now t g g.answer (record a { result = AttemptResult.pending }) in
        some (a', events, committed ∷ executed t ∷ []))
    else none

later_than : Option ℕ → ℕ → Bool
later_than none now = false
later_than (some t) now = if leb t now then false else true

-- Where a case stands after a step: closed once its budget is spent, else due again later.
unfoldable pub advance_ladder : ℕ → RiskPolicy → RecoveryCase → RecoveryCase × List EventType
unfolding later_than
advance_ladder now policy c =
    if is_terminal c.state
    then (c, [])
    else if leb c.max_attempts c.attempts_used
    then (
      close_case now CaseState.exhausted (Model.other_reason "attempt budget spent") c,
      EventType.closed CaseState.exhausted ∷ [],
    )
    else if later_than c.next_action_at now
    then (c, [])
    else (record c { next_action_at = some (now + hours policy.re_chase_hours) }, [])
