-- ===== src/Ingestion/Receive.antt =====
-- `receive_razorpay_webhook` of src/ingestion/router.py, with src/ingestion/signature.py and
-- src/ingestion/idempotency.py.
use Prim.Native.String.{◌++◌ as append}
use payment_recovery_engine.Prelude.{
  ℕ, String, Bool, true, false, ◌||◌, not, Option, none, some, List, [], ◌∷◌, ◌++◌, any, str_eq,
  ltb, if◌then◌else◌,
}

-- What the code reads of the JSON: the event, the payment's id or an empty text, and the text of
-- the time of creation.
pub record Payload : Type 0 where
  pub event : String
  pub payment_id : String
  pub created_at : String

-- The libraries: HMAC-SHA256 in hexadecimal under a secret, the first sixteen hexadecimal digits of
-- SHA-256, and the JSON object that a text is, if it is one.
pub record Web : Type 0 where
  pub hexdigest : String → String → String
  pub short_digest : String → String
  pub loads : String → Option Payload

-- A request: whether the allowlist lets its address pass, its declared length if that is a number,
-- its body with the length of it, and its signature, where an absent one is empty.
pub record Request : Type 0 where
  pub ip_allowed : Bool
  pub content_length : Option ℕ
  pub body : String
  pub body_length : ℕ
  pub signature : String

pub record WebhookEvent : Type 0 where
  pub id : ℕ
  pub razorpay_event_id : String
  pub event_type : String
  pub payload : Payload
  pub received_at : ℕ
  pub processed : Bool
  pub processing_attempts : ℕ

pub record ProcessedEvent : Type 0 where
  pub razorpay_event_id : String
  pub processed_at : ℕ

-- The tables processed_events and webhook_events.
pub record Inbox : Type 0 where
  pub seen : List ProcessedEvent
  pub events : List WebhookEvent

pub data Response : Type 0 where
  forbidden too_large unauthorized bad_request already_processed accepted : Response

unfoldable pub status_code : Response → ℕ
status_code forbidden = 403
status_code too_large = 413
status_code unauthorized = 401
status_code bad_request = 400
status_code already_processed = 200
status_code accepted = 200

abbrev pub max_body_bytes : ℕ
max_body_bytes = 1048576

unfoldable pub body_too_large : Option ℕ → Option ℕ → Bool
body_too_large none none = false
body_too_large none (some n) = ltb max_body_bytes n
body_too_large (some d) none = ltb max_body_bytes d
body_too_large (some d) (some n) = ltb max_body_bytes d || ltb max_body_bytes n

unfoldable pub verify_webhook_signature : Web → String → String → String → Bool
verify_webhook_signature web body signature secret =
    if str_eq signature "" || str_eq secret ""
    then false
    else str_eq (web.hexdigest secret body) signature

-- The natural key of an event, with the digest of the body where there is no payment.
unfoldable pub event_id_of : Web → String → Payload → String
event_id_of web body p =
    if str_eq p.payment_id ""
    then append p.event (append "_" (web.short_digest body))
    else append p.event (append "_" (append p.payment_id (append "_" p.created_at)))

abbrev pub is_seen : String → List ProcessedEvent → Bool
is_seen key = any (λ k. str_eq k.razorpay_event_id key)

-- The row that the database adds, with its own time.
abbrev pub new_processed : ℕ → String → ProcessedEvent
new_processed now event_id = record { razorpay_event_id = event_id; processed_at = now }

-- The insert under the unique key.
unfoldable pub is_duplicate_event : ℕ → String → List ProcessedEvent → Bool × List ProcessedEvent
is_duplicate_event now event_id seen =
    if is_seen event_id seen then (true, seen) else (false, seen ++ new_processed now event_id ∷ [])

-- The events that are handled.
abbrev pub is_handled : String → Bool
is_handled t = str_eq t "payment.failed" || str_eq t "payment.captured"

unfoldable pub new_event : ℕ → ℕ → String → Payload → WebhookEvent
new_event now fresh_id event_id p = record {
  id = fresh_id;
  razorpay_event_id = event_id;
  event_type = p.event;
  payload = p;
  received_at = now;
  processed = false;
  processing_attempts = 0;
}

-- A verified body: the answer, the tables, and the event whose handling is started.
unfoldable pub record_event :
    Web → ℕ → ℕ → String → Option Payload → Inbox → Response × Inbox × Option WebhookEvent
unfolding is_duplicate_event new_event event_id_of
record_event web now fresh_id body none s = (bad_request, s, none)
record_event web now fresh_id body (some p) s =
    let event_id = event_id_of web body p in
    let (duplicate, seen) = is_duplicate_event now event_id s.seen in
    let event = new_event now fresh_id event_id p in
    if duplicate then (already_processed, s, none) else (
      accepted,
      record { seen = seen; events = s.events ++ event ∷ [] },
      if is_handled p.event then some event else none,
    )

unfoldable pub receive :
    Web → String → ℕ → ℕ → Request → Inbox → Response × Inbox × Option WebhookEvent
unfolding body_too_large
receive web secret now fresh_id r s =
    if not r.ip_allowed
    then (forbidden, s, none)
    else if body_too_large r.content_length none
    then (too_large, s, none)
    else if body_too_large none (some r.body_length)
    then (too_large, s, none)
    else if str_eq r.signature ""
    then (unauthorized, s, none)
    else if verify_webhook_signature web r.body r.signature secret
    then record_event web now fresh_id r.body (web.loads r.body) s
    else (unauthorized, s, none)
