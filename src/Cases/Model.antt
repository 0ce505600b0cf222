-- ===== src/Cases/Model.antt =====
-- The rows that src/cases.py works on (src/models.py), and the store that holds them. Ids are
-- numbers; times are the instants that `_aware` makes of the columns.
use payment_recovery_engine.Prelude.{
  ℕ, String, Bool, true, false, Option, none, List, [], ◌∷◌, ◌++◌, map, find, ◌==◌, if◌then◌else◌,
}
use payment_recovery_engine.Actions.{ActionType, RiskType}

pub data CaseState : Type 0 where
  open_ recovered exhausted abandoned expired opted_out : CaseState

-- `case.state in _TERMINAL`
abbrev pub is_terminal : CaseState → Bool
is_terminal open_ = false
is_terminal _ = true

-- Why a case was closed: the texts that this module formats, or another's.
pub data CloseReason : Type 0 where
  -- the total, the payment, and the number of the attempt that earned it
  captured : ℕ → String → Option ℕ → CloseReason
  customer_withdrew_consent : CloseReason
  other_reason hard_decline : String → CloseReason
  -- the reason of the dispute, of which the text shows the first 200 characters
  dispute_upheld : String → CloseReason

pub record RecoveryCase : Type 0 where
  pub id : ℕ
  pub risk_type : RiskType
  pub subject_ref : String
  pub customer_id : Option String
  pub batch_id : Option String
  pub amount_at_risk : ℕ
  pub amount_recovered : ℕ
  pub recovered_ref : Option String
  pub credited_refs : List String
  pub recovered_at : Option ℕ
  pub recovered_via_attempt_id : Option ℕ
  pub due_at : Option ℕ
  pub next_action_at : Option ℕ
  pub state : CaseState
  pub close_reason : Option CloseReason
  pub closed_at : Option ℕ
  pub attempts_used : ℕ
  pub max_attempts : ℕ
  pub escalation_level : ℕ
  pub opened_at : ℕ

pub data AttemptResult : Type 0 where
  pending success failed scheduled superseded rejected skipped cancelled : AttemptResult

pub record RetryAttempt : Type 0 where
  pub id : ℕ
  pub recovery_case_id : Option ℕ
  pub attempt_number : ℕ
  pub idempotency_key : String
  pub external_ref : Option String
  pub action_type : ActionType
  pub result : AttemptResult
  pub executed_at : Option ℕ
  pub created_at : ℕ

pub data PromiseStatus : Type 0 where
  pending kept broken cancelled : PromiseStatus

pub data Channel : Type 0 where
  whatsapp sms email voice payment_link payment_plan merchant : Channel

pub data MandateStatus : Type 0 where
  pending active charged failed : MandateStatus

pub record PromiseToPay : Type 0 where
  pub id : ℕ
  pub recovery_case_id : ℕ
  pub amount_promised : ℕ
  pub due_at : ℕ
  pub channel : Option Channel
  pub status : PromiseStatus
  pub resolved_at : Option ℕ
  pub resolved_ref : Option String
  pub kept_late_days : Option ℕ
  pub mandate_status : Option MandateStatus
  pub mandate_charged_at : Option ℕ

pub data MatchedOn : Type 0 where
  link_id idempotency_key order_ref notes_subject_ref : MatchedOn

-- The audit vocabulary, with the details that the theorems speak of.
pub data EventType : Type 0 where
  opened : ℕ → EventType
  -- the amount, the payment, the attempt credited, and how the case was found
  attributed overpayment : ℕ → String → Option ℕ → MatchedOn → EventType
  mandate_post_debit_confirmation : ℕ → String → EventType
  closed : CaseState → EventType
  promise_made promise_kept promise_broken promise_cancelled : ℕ → EventType
  promise_refused_horizon promise_refused_cap : EventType
  customer_opted_out deferred stopped contacted escalated : EventType
  -- the amount and the bank's reference
  reconciled : ℕ → String → EventType

pub record CaseEvent : Type 0 where
  pub recovery_case_id : ℕ
  pub event_type : EventType

pub data ConsentStatus : Type 0 where
  granted opted_out : ConsentStatus

pub record RetryLedger : Type 0 where
  pub customer_id : String
  pub consent_status : ConsentStatus
  pub opted_out_at : Option ℕ
  pub total_retries_24h : ℕ
  pub last_retry_at : Option ℕ
  pub retries_window_started_at : Option ℕ
  pub total_nudges_24h : ℕ
  pub last_nudge_at : Option ℕ
  pub nudges_window_started_at : Option ℕ

-- The row that is started for a customer without one.
abbrev pub new_ledger : String → RetryLedger
new_ledger canonical = record {
  customer_id = canonical;
  consent_status = ConsentStatus.granted;
  opted_out_at = none;
  total_retries_24h = 0;
  last_retry_at = none;
  retries_window_started_at = none;
  total_nudges_24h = 0;
  last_nudge_at = none;
  nudges_window_started_at = none;
}

pub record PaymentFailure : Type 0 where
  pub payment_id : String
  pub order_id : Option String

pub record Store : Type 0 where
  pub cases : List RecoveryCase
  pub attempts : List RetryAttempt
  pub promises : List PromiseToPay
  pub events : List CaseEvent
  pub ledgers : List RetryLedger
  pub failures : List PaymentFailure

-- `session.get(RecoveryCase, id)`
abbrev pub get_case : ℕ → List RecoveryCase → Option RecoveryCase
get_case i = find (λ c. c.id == i)

abbrev pub replace : RecoveryCase → List RecoveryCase → List RecoveryCase
replace c = map (λ x. if x.id == c.id then c else x)

-- The row of a case that was changed in memory.
unfoldable pub put_case : RecoveryCase → Store → Store
put_case c s = record s { cases = replace c s.cases }

-- `log_event`: one more row of the audit trail.
unfoldable pub log_event : ℕ → EventType → Store → Store
log_event case_id event_type s = record s {
  events = s.events ++ record { recovery_case_id = case_id; event_type = event_type } ∷ [];
}
