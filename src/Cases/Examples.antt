-- ===== src/Cases/Examples.antt =====
-- Captures, promises and attempts on a concrete case.
use payment_recovery_engine.Prelude.{ℕ, ◌+◌, ◌<◌, ◌≡◌, ◌↔◌, refl, false, none, some, [], ◌∷◌}
use payment_recovery_engine.Prelude.Int.{pos}
use payment_recovery_engine.Clock.{hours, days}
use payment_recovery_engine.Settings.{default_settings}
use payment_recovery_engine.Actions.{payment_failure, nudge_customer}
use payment_recovery_engine.Cases.Model.{
  CaseState, RecoveryCase, RetryAttempt, AttemptResult, PromiseToPay, Store, is_terminal,
}
use payment_recovery_engine.Cases.Model
use payment_recovery_engine.Cases.Lifecycle.{stop_reason, is_opted_out}
use payment_recovery_engine.Cases.Promises.{record_promise}
use payment_recovery_engine.Cases.Capture.{integer, Capture, Match, attribute_capture, apply_match}
use payment_recovery_engine.Cases.Credit.{settled}
use payment_recovery_engine.Cases.Audit.{
  IsAudited, IsOutcome, attribute_capture-IsAudited, attribute_capture-IsOutcome,
}
use payment_recovery_engine.Cases.Replay.{apply_match_once}
use payment_recovery_engine.Cases.Stops.{IsDue, stop_reason-none}
use payment_recovery_engine.Cases.Deferral.{IsRecorded, record_promise-IsRecorded}

abbrev pub noon : ℕ
noon = days 20000

abbrev pub owed : RecoveryCase
owed = record {
  id = 1;
  risk_type = payment_failure;
  subject_ref = "pay_1";
  customer_id = some "c";
  batch_id = none;
  amount_at_risk = 500;
  amount_recovered = 0;
  recovered_ref = none;
  credited_refs = [];
  recovered_at = none;
  recovered_via_attempt_id = none;
  due_at = none;
  next_action_at = none;
  state = CaseState.open_;
  close_reason = none;
  closed_at = none;
  attempts_used = 1;
  max_attempts = 3;
  escalation_level = 1;
  opened_at = noon;
}

abbrev nudge : RetryAttempt
nudge = record {
  id = 7;
  recovery_case_id = some 1;
  attempt_number = 1;
  idempotency_key = "key_1";
  external_ref = some "plink_1";
  action_type = nudge_customer;
  result = AttemptResult.pending;
  executed_at = none;
  created_at = noon;
}

abbrev promised : PromiseToPay
promised = record {
  id = 3;
  recovery_case_id = 1;
  amount_promised = 500;
  due_at = noon + days 2;
  channel = some Model.sms;
  status = Model.PromiseStatus.pending;
  resolved_at = none;
  resolved_ref = none;
  kept_late_days = none;
  mandate_status = none;
  mandate_charged_at = none;
}

abbrev pub store : Store
store = record {
  cases = owed ∷ [];
  attempts = nudge ∷ [];
  promises = promised ∷ [];
  events = [];
  ledgers = [];
  failures = [];
}

abbrev paid_by_link : Capture
paid_by_link = record {
  amount = integer (pos 500);
  recovered_ref = "pay_2";
  link = some "plink_1";
  key = none;
  order = none;
  subject = none;
  risk_name = none;
}

abbrev found : Match
found = record { case = owed; attempt = some nudge; matched_on = Model.link_id }

attribute_capture-IsAudited_example :
    IsAudited (attribute_capture (noon + hours 1) paid_by_link store).0
attribute_capture-IsAudited_example =
    attribute_capture-IsAudited (noon + hours 1) paid_by_link store (refl, tt)

attribute_capture-IsOutcome_example :
    IsOutcome paid_by_link store (attribute_capture (noon + hours 1) paid_by_link store)
attribute_capture-IsOutcome_example =
    attribute_capture-IsOutcome (noon + hours 1) paid_by_link store

apply_match_once_example :
    apply_match
      (noon + hours 2)
      500
      "pay_2"
      (record {
        case = settled (noon + hours 1) 500 "pay_2" found;
        attempt = none;
        matched_on = Model.order_ref;
      })
      store
    ≡ (store, none)
apply_match_once_example =
    apply_match_once (noon + hours 1) (noon + hours 2) 500 500 "pay_2" found
      (record {
        case = settled (noon + hours 1) 500 "pay_2" found;
        attempt = none;
        matched_on = Model.order_ref;
      })
      store refl

stop_reason-none_example : (stop_reason noon owed none ≡ none) ↔ (
    (is_terminal owed.state ≡ false)
    × (owed.attempts_used < owed.max_attempts)
    × (is_opted_out none ≡ false)
    × IsDue noon owed.next_action_at)
stop_reason-none_example = stop_reason-none noon owed none

record_promise-IsRecorded_example :
    IsRecorded default_settings noon owed 500
      (noon + days 3)
      (some Model.email)
      store
      (record_promise default_settings noon 4 owed 500 (noon + days 3) (some Model.email) store)
record_promise-IsRecorded_example =
    record_promise-IsRecorded default_settings noon 4 owed 500 (noon + days 3) (some Model.email)
      store
