-- ===== src/Ingestion/Examples.antt =====
-- Webhooks and sweeps at concrete inputs.
use payment_recovery_engine.Prelude.{
  ℕ, ◌+◌, ◌≤◌, ◌≡◌, refl, true, false, none, some, List, [], ◌∷◌, length, str_eq, if◌then◌else◌,
  arith, inr,
}
use payment_recovery_engine.Settings.{default_settings}
use payment_recovery_engine.Clock.{days}
use payment_recovery_engine.Ingestion.Receive.{
  Payload, Web, Request, WebhookEvent, Inbox, receive, event_id_of, is_duplicate_event,
  verify_webhook_signature, body_too_large, record_event,
}
use payment_recovery_engine.Ingestion.Once.{IsAnswer, receive-IsAnswer}
use payment_recovery_engine.Ingestion.Prune.{
  Action, arrival, prune, perform, perform_all, prune_processed_events, old_batch,
  sort_by_processed, insert_by_processed,
}
use payment_recovery_engine.Ingestion.Resent.{stored, perform_all-stored_once}
use payment_recovery_engine.Ingestion.Sweep.{done, raised, died, Run, reconcile_one}
use payment_recovery_engine.Ingestion.Chances.{IsDrained, all_chances}
use payment_recovery_engine.Ingestion.Drain.{Round, run_rounds, run_rounds-IsDrained}
use payment_recovery_engine.Ingestion.Lost.{handlings, died_for_good}

abbrev payload : Payload
payload = record { event = "payment.failed"; payment_id = "pay_1"; created_at = "1700000000" }

-- A keyed digest that is not one, but reads the secret and the body.
abbrev web : Web
web = record {
  hexdigest = λ secret body. if str_eq secret "s3" then body else "";
  short_digest = λ body. body;
  loads = λ body. if str_eq body "{}" then some payload else none;
}

abbrev request : Request
request = record {
  ip_allowed = true;
  content_length = some 2;
  body = "{}";
  body_length = 2;
  signature = "{}";
}

abbrev empty : Inbox
empty = record { seen = []; events = [] }

-- The gateway sends its event twice, someone else sends it unsigned, and the table is pruned.
abbrev sent : List Action
sent =
    arrival (days 20000) 1 request
    ∷ arrival (days 20001) 2 (record request { signature = "forged" })
    ∷ prune (days 20001)
    ∷ arrival (days 20002) 3 request
    ∷ []

receive-IsAnswer_example :
    IsAnswer web "s3" (days 20000) 1 request empty (receive web "s3" (days 20000) 1 request empty)
receive-IsAnswer_example = receive-IsAnswer web "s3" (days 20000) 1 request empty

perform_all-stored_once_example :
    stored "payment.failed_pay_1_1700000000"
      (perform_all default_settings web "s3" sent empty).events
    ≤ 1
perform_all-stored_once_example =
    perform_all-stored_once default_settings web "s3" "payment.failed_pay_1_1700000000" (days 20000)
      sent empty refl (omega arith, (omega arith, (inr (omega arith), (omega arith, tt))))

sent_twice :
    stored "payment.failed_pay_1_1700000000"
      (perform_all default_settings web "s3" sent empty).events
    ≡ 1
unfolding perform receive record_event is_duplicate_event event_id_of verify_webhook_signature
    body_too_large prune_processed_events old_batch sort_by_processed insert_by_processed
sent_twice = refl

abbrev event : WebhookEvent
event = record {
  id = 1;
  razorpay_event_id = "payment.failed_pay_1_1700000000";
  event_type = "payment.failed";
  payload = payload;
  received_at = days 20000;
  processed = false;
  processing_attempts = 1;
}

abbrev run : Run ℕ
run = record { events = event ∷ []; books = 0; recovered = 0; begun = []; stopped = false }

-- A handling that always raises, and one that works.
abbrev rounds : List (Round ℕ)
rounds =
    record { now = days 20001; handle = λ e s. raised s }
    ∷ record { now = days 20002; handle = λ e s. done (s + 1) }
    ∷ []

run_rounds-IsDrained_example :
    IsDrained default_settings (days 20001) (run_rounds default_settings rounds run).events
    × (length (run_rounds default_settings rounds run).begun
        ≤ all_chances run.events + length run.begun)
run_rounds-IsDrained_example =
    run_rounds-IsDrained default_settings (days 20001) rounds run (omega arith)
      (omega arith, (omega arith, tt)) (omega arith)

died_for_good_example :
    ((reconcile_one (λ e s. died (s + 7)) event run).books ≡ 7)
    × (handlings event.id
          (run_rounds default_settings rounds (reconcile_one (λ e s. died (s + 7)) event run)).begun
        ≡ 1 + handlings event.id run.begun)
died_for_good_example =
    died_for_good default_settings (λ e s. died (s + 7)) event run rounds 7 refl refl refl
