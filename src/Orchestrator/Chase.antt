-- ===== src/Orchestrator/Chase.antt =====
-- `PaymentRecoveryOrchestrator.chase_case` of src/orchestrator.py: one bounded step on a case.
use payment_recovery_engine.Prelude.{
  ℕ, ◌+◌, ◌*◌, String, Bool, true, false, ◌&&◌, not, Option, none, some, List, [], ◌∷◌, ◌++◌, ltb,
  if◌then◌else◌,
}
use payment_recovery_engine.Clock.{Timestamp, to_utc, hours, minute_us, to_ist, hour_of}
use payment_recovery_engine.Settings.{Settings}
use payment_recovery_engine.Actions.{
  Host, ActionType, retry_at, RetryAction, RiskType, invoice_overdue,
}
use payment_recovery_engine.Chasers.{RiskPolicy, policy_for}
use payment_recovery_engine.Guardrail.Rules.{is_in_blackout}
use payment_recovery_engine.Guardrail.Gate.{GuardrailResult, validate}
use payment_recovery_engine.Guardrail.Blackout.{clamp_retry_at_out_of_blackout}
use payment_recovery_engine.Receivables.Hours.{is_b2b_contact_time, next_b2b_window}
use payment_recovery_engine.Cases.Model
use payment_recovery_engine.Cases.Model.{
  RecoveryCase, RetryAttempt, AttemptResult, RetryLedger, EventType, CaseState, is_terminal,
  new_ledger,
}
use payment_recovery_engine.Cases.Lifecycle.{
  StopReason, not_due_until, close_case, stop_reason, attach_attempt, bind_attempt,
}
use payment_recovery_engine.Orchestrator.Window.{update_retry_ledger}
use payment_recovery_engine.Orchestrator.Context.{
  Surroundings, build_case_context, refresh_counts, prepare,
}
use payment_recovery_engine.Orchestrator.Execution.{
  Effect, committed, decided, Outcome, Gateway, execute_case_and_record, advance_ladder,
}

-- What a chase reads and is told.
pub record Inputs (F : Type 0) : Type 0 where
  -- The result of the newest attempt, the ledger, and whether a dispute is open.
  pub latest : Option AttemptResult
  pub ledger : Option RetryLedger
  pub canonical : Option String
  pub dispute_open : Bool
  pub last_notification : Option Timestamp
  -- The agent's decision, taken with no lock held.
  pub around : Surroundings
  pub decision : RetryAction F
  -- The key of the attempt, whether it is in use, and the rows read again under the lock.
  pub key : String
  pub key_taken : Bool
  pub now_again : ℕ
  pub fresh_case : RecoveryCase
  pub fresh_ledger : Option RetryLedger
  pub fresh_id : ℕ
  pub gateway : Gateway

-- A step that ends with one commit.
abbrev pub ends : RecoveryCase → Option RetryLedger → List EventType → List Effect → Outcome
ends c ledger events before = record {
  case = c;
  row = none;
  ledger = ledger;
  events = events;
  effects = before ++ committed ∷ [];
}

-- `_stop_event_type`
unfoldable pub stop_event_type : StopReason → EventType
stop_event_type (not_due_until t) = EventType.deferred
stop_event_type _ = EventType.stopped

abbrev pub is_pending : Option AttemptResult → Bool
is_pending (some AttemptResult.pending) = true
is_pending _ = false

abbrev pub is_invoice : RiskType → Bool
is_invoice invoice_overdue = true
is_invoice _ = false

abbrev pub defer : RecoveryCase → Option RetryLedger → ℕ → Outcome
defer c ledger t = ends (record c { next_action_at = some t }) ledger (EventType.deferred ∷ []) []

unfoldable pub make_attempt : ℕ → ℕ → String → ActionType → RecoveryCase → RetryAttempt
make_attempt now fresh_id key t c = record {
  id = fresh_id;
  recovery_case_id = none;
  attempt_number = c.attempts_used + 1;
  idempotency_key = key;
  external_ref = none;
  action_type = t;
  result = AttemptResult.pending;
  executed_at = none;
  created_at = now;
}

-- The row of the customer, started where there is none.
or_new : String → Option RetryLedger → RetryLedger
or_new canonical none = new_ledger canonical
or_new canonical (some l) = l

-- `_update_ledger_and_commit`, where the first argument is the customer's canonical key.
unfoldable pub ledger_after :
    Option String → Settings → ℕ → ActionType → Option RetryLedger → Option RetryLedger
unfolding or_new
ledger_after none cfg now t l = l
ledger_after (some canonical) cfg now t l =
    some (update_retry_ledger cfg now t (or_new canonical l))

-- What is decided without the agent: the step ends here, or goes on.
unfoldable pub hold :
    Settings
    → ℕ
    → RiskPolicy
    → Option AttemptResult
    → Bool
    → Option RetryLedger
    → RecoveryCase
    → Option Outcome
hold cfg now policy latest dispute_open ledger c =
    if is_pending latest
    then some (defer c ledger (now + 30 * minute_us))
    else elim (stop_reason now c ledger) [
      | some r ↦ some (ends c ledger (stop_event_type r ∷ []) [])
      | none ↦
          if ltb (c.opened_at + hours policy.consent_window_hours) now
          then some (
              ends (close_case now CaseState.expired (Model.other_reason "consent window closed") c)
                ledger (EventType.closed CaseState.expired ∷ []) [])
          else if dispute_open
          then some (defer c ledger (now + hours policy.re_chase_hours))
          else if is_invoice c.risk_type && not (is_b2b_contact_time now)
          then some (defer c ledger (next_b2b_window now))
          else if is_in_blackout cfg (hour_of (to_ist now))
          then some (defer c ledger (clamp_retry_at_out_of_blackout cfg now))
          else none
    ]

-- A deferred retry is put on the schedule, and the case waits for it. (The gate lets only an
-- aware time through.)
unfoldable pub schedule : Timestamp → RecoveryCase → RecoveryCase
schedule t c = record c { next_action_at = some (to_utc t) }

-- `action == "retry_at" and retry_at is not None`
unfoldable pub scheduled_time : {F : Type 0} → RetryAction F → Option Timestamp
scheduled_time a = elim a.action [ retry_at ↦ a.retry_at_time | _ ↦ none ]

module _ {F : Type 0} (cfg : Settings) (now : ℕ) (policy : RiskPolicy) (i : Inputs F) where
  unfoldable pub finish :
      ActionType → Bool → RecoveryCase → RetryAttempt → List EventType → List Effect → Outcome
  finish t passed c row events effects =
      let (c', more) = advance_ladder now policy c in
      record {
        case = c';
        row = some row;
        ledger =
            if passed
            then ledger_after i.canonical cfg i.now_again t i.fresh_ledger
            else i.fresh_ledger;
        events = events ++ more;
        effects = effects ++ committed ∷ [];
      }

  -- An approved action: a retry with a time is put off, any other is carried out.
  unfoldable pub carry_out : RetryAction F → RecoveryCase → RetryAttempt → Option Outcome
  unfolding finish schedule
  carry_out a c row = elim (scheduled_time a) [
    | some t ↦ some (record {
      case = schedule t c;
      row = some (record row { result = AttemptResult.scheduled });
      ledger = ledger_after i.canonical cfg i.now_again a.action i.fresh_ledger;
      events = EventType.deferred ∷ [];
      effects = committed ∷ decided ∷ committed ∷ [];
    })
    | none ↦ elim (execute_case_and_record i.now_again a.action i.gateway row) [
      | none ↦ none
      | some (row', events, effects) ↦
          some (finish a.action true c row' events (committed ∷ decided ∷ effects))
    ]
  ]

  -- What the gate said of the action.
  unfoldable pub judged : RetryAction F → GuardrailResult F → Option Outcome
  judged a g =
      let c = attach_attempt cfg i.now_again a.action i.fresh_case in
      let row =
        bind_attempt i.fresh_case none
          (make_attempt i.now_again i.fresh_id i.key a.action i.fresh_case) in
      if g.passed
      then carry_out a c row
      else some (
          finish a.action false c (record row { result = AttemptResult.rejected }) []
            (committed ∷ decided ∷ []))

  -- The gate's answer, or an exception.
  unfoldable pub gated : RetryAction F → Option (GuardrailResult F) → Option Outcome
  gated a none = none
  gated a (some g) = judged a g

  -- The case and the counters, read again under the lock, may stop the step.
  unfoldable pub locked :
      RetryAction F → Option StopReason → Option (GuardrailResult F) → Option Outcome
  locked a (some r) v =
      some (ends i.fresh_case i.fresh_ledger (stop_event_type r ∷ []) (committed ∷ decided ∷ []))
  locked a none v = gated a v

  -- A key that is in use ends the step.
  unfoldable pub keyed :
      RecoveryCase
      → RetryAction F
      → Bool
      → Option StopReason
      → Option (GuardrailResult F)
      → Option Outcome
  keyed c a true r v = some (ends c i.ledger [] (committed ∷ decided ∷ []))
  keyed c a false r v = locked a r v

module _ (host : Host) (cfg : Settings) where
  open host use {Float}

  -- After the decision: the key, the case and the counters are looked at again, and the gate is
  -- asked.
  unfoldable pub act : ℕ → RiskPolicy → Inputs Float → RecoveryCase → Option Outcome
  act now policy i c =
      let ctx = build_case_context cfg now c policy i.ledger i.last_notification in
      let a = prepare host cfg i.around now policy ctx i.decision in
      keyed cfg now policy i c a i.key_taken (stop_reason i.now_again i.fresh_case i.fresh_ledger) (
        validate host cfg a (refresh_counts cfg i.now_again i.fresh_ledger ctx) (some i.key)
          i.fresh_case.attempts_used i.now_again)

  -- `none` is an exception, and then nothing of the step is kept.
  unfoldable pub chase_case : ℕ → Inputs Float → RecoveryCase → Option Outcome
  chase_case now i c = elim (policy_for c.risk_type) [
    | none ↦ some (record { case = c; row = none; ledger = i.ledger; events = []; effects = [] })
    | some policy ↦ elim (hold cfg now policy i.latest i.dispute_open i.ledger c) [
      | some o ↦ some o
      | none ↦ act now policy i c
    ]
  ]
