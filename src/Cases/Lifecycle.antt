-- ===== src/Cases/Lifecycle.antt =====
-- Opening, bounding and closing a case (src/cases.py).
use payment_recovery_engine.Prelude.{
  ℕ, ◌+◌, ◌-◌, ◌*◌, String, Bool, true, false, ◌&&◌, Option, none, some, List, ◌∷◌, [], ◌++◌, find,
  str_eq, ltb, leb, ◌==◌, if◌then◌else◌,
}
use payment_recovery_engine.Clock.{hours}
use payment_recovery_engine.Settings.{Settings}
use payment_recovery_engine.Actions.{
  ActionType, nudge_customer, RiskType, payment_failure, checkout_abandonment, subscription_failure,
  invoice_overdue, mandate_failure,
}
use payment_recovery_engine.Chasers.{policy_for}
use payment_recovery_engine.Cases.Model
use payment_recovery_engine.Cases.Model.{
  CaseState, is_terminal, CloseReason, RecoveryCase, RetryAttempt, RetryLedger, ConsentStatus,
  Store, log_event,
}

-- What is still owed.
unfoldable pub outstanding_paise : RecoveryCase → ℕ
outstanding_paise c = c.amount_at_risk - c.amount_recovered

-- The first close wins.
unfoldable pub close_case : ℕ → CaseState → CloseReason → RecoveryCase → RecoveryCase
close_case now state reason c =
    if is_terminal c.state
    then c
    else record c { state = state; close_reason = some reason; closed_at = some now }

abbrev pub risk_code : RiskType → ℕ
risk_code payment_failure = 0
risk_code checkout_abandonment = 1
risk_code subscription_failure = 2
risk_code invoice_overdue = 3
risk_code mandate_failure = 4

-- The lookup by the natural key.
unfoldable pub find_case : RiskType → String → List RecoveryCase → Option RecoveryCase
find_case risk_type subject_ref =
    find (λ c. risk_code c.risk_type == risk_code risk_type && str_eq c.subject_ref subject_ref)

pub record NewCase : Type 0 where
  pub risk_type : RiskType
  pub subject_ref : String
  pub amount_at_risk : ℕ
  pub customer_id : Option String
  pub batch_id : Option String
  pub max_attempts : Option ℕ
  pub due_at : Option ℕ
  pub next_action_at : Option ℕ

-- `max_attempts or get_settings().max_retries_per_payment`
budget_or_default : Settings → Option ℕ → ℕ
budget_or_default cfg none = cfg.max_retries_per_payment
budget_or_default cfg (some n) = if n == 0 then cfg.max_retries_per_payment else n

unfoldable pub new_case : Settings → ℕ → ℕ → NewCase → RecoveryCase
unfolding budget_or_default
new_case cfg now fresh_id n = record {
  id = fresh_id;
  risk_type = n.risk_type;
  subject_ref = n.subject_ref;
  customer_id = n.customer_id;
  batch_id = n.batch_id;
  amount_at_risk = n.amount_at_risk;
  amount_recovered = 0;
  recovered_ref = none;
  credited_refs = [];
  recovered_at = none;
  recovered_via_attempt_id = none;
  due_at = n.due_at;
  next_action_at = n.next_action_at;
  state = CaseState.open_;
  close_reason = none;
  closed_at = none;
  attempts_used = 0;
  max_attempts = budget_or_default cfg n.max_attempts;
  escalation_level = 0;
  opened_at = now;
}

-- `open_case`, where no other transaction inserts the same subject in between; the id is the
-- database's.
unfoldable pub open_case : Settings → ℕ → ℕ → NewCase → Store → Store × RecoveryCase
unfolding new_case
open_case cfg now fresh_id n s = elim (find_case n.risk_type n.subject_ref s.cases) [
  | some existing ↦ (s, existing)
  | none ↦
      let c = new_case cfg now fresh_id n in
      (log_event c.id (Model.opened c.amount_at_risk) (record s { cases = s.cases ++ c ∷ [] }), c)
]

pub data StopReason : Type 0 where
  already_closed : CaseState → StopReason
  budget_spent : ℕ → ℕ → StopReason
  customer_opted_out : StopReason
  not_due_until : ℕ → StopReason

abbrev pub is_opted_out : Option RetryLedger → Bool
is_opted_out none = false
is_opted_out (some l) = elim l.consent_status [
  | ConsentStatus.granted ↦ false
  | ConsentStatus.opted_out ↦ true
]

-- `next_action_at is not None and now < next_action_at`
abbrev pub wait_until : Option ℕ → ℕ → Option StopReason
wait_until none now = none
wait_until (some t) now = if ltb now t then some (not_due_until t) else none

unfoldable pub stop_reason : ℕ → RecoveryCase → Option RetryLedger → Option StopReason
stop_reason now c ledger =
    if is_terminal c.state
    then some (already_closed c.state)
    else if leb c.max_attempts c.attempts_used
    then some (budget_spent c.attempts_used c.max_attempts)
    else if is_opted_out ledger
    then some customer_opted_out
    else wait_until c.next_action_at now

unfoldable pub is_nudge : ActionType → Bool
is_nudge nudge_customer = true
is_nudge _ = false

unfoldable pub is_cart : RiskType → Bool
is_cart checkout_abandonment = true
is_cart _ = false

-- The last call of a cart: two hours before its window closes, if that is later than the backoff.
unfoldable pub last_call : RecoveryCase → ℕ → ℕ
last_call c backoff = elim (policy_for c.risk_type) [
  | none ↦ backoff
  | some p ↦
      let last = c.opened_at + hours p.consent_window_hours - hours 2 in
      if ltb backoff last then last else backoff
]

-- The backoff of a contact that was just counted: its level times the setting.
unfoldable pub backoff_of : Settings → ℕ → RecoveryCase → ℕ
unfolding is_cart last_call
backoff_of cfg now c =
    let backoff = now + hours (cfg.escalation_backoff_hours * c.escalation_level) in
    if is_cart c.risk_type && leb c.max_attempts (c.attempts_used + 1)
    then last_call c backoff
    else backoff

-- What an attempt costs its case; the attempt's own row is bound by `bind_attempt`.
unfoldable pub attach_attempt : Settings → ℕ → ActionType → RecoveryCase → RecoveryCase
unfolding is_nudge backoff_of
attach_attempt cfg now action_type c =
    let spent = record c { attempts_used = c.attempts_used + 1 } in
    let contacted = record spent { escalation_level = spent.escalation_level + 1 } in
    if is_nudge action_type
    then record contacted { next_action_at = some (backoff_of cfg now contacted) }
    else spent

or_else : {A : Type 0} → Option A → Option A → Option A
or_else none old = old
or_else (some a) old = some a

unfoldable pub bind_attempt : RecoveryCase → Option String → RetryAttempt → RetryAttempt
unfolding or_else
bind_attempt c external_ref a = record a {
  recovery_case_id = some c.id;
  external_ref = or_else external_ref a.external_ref;
}
