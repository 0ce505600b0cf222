-- ===== src/Ingestion/Sweep.antt =====
-- `rearm` of src/ingestion/router.py, and the sweep `_reconcile_sweep` of src/scheduler.py in the
-- use that `reconcile_events` makes of it.
use payment_recovery_engine.Prelude.{
  ℕ, ◌+◌, Bool, true, false, ◌&&◌, not, List, [], ◌∷◌, any, keep, take, ltb, leb, ◌==◌,
  if◌then◌else◌,
}
use payment_recovery_engine.Clock.{seconds}
use payment_recovery_engine.Settings.{Settings}
use payment_recovery_engine.Ingestion.Receive.{WebhookEvent, is_handled}

abbrev pub event_reconcile_max_attempts : ℕ
event_reconcile_max_attempts = 3

-- What the handling of an event comes to: it ends, it raises, or the process dies; each with the
-- books as they are committed then, since a handling commits as it goes.
pub data Handling (S : Type 0) : Type 0 where
  done raised died : S → Handling S

-- The table, the books, how many events were recovered, those whose handling was begun, and
-- whether the process is gone.
pub record Run (S : Type 0) : Type 0 where
  pub events : List WebhookEvent
  pub books : S
  pub recovered : ℕ
  pub begun : List ℕ
  pub stopped : Bool

-- `update(model).where(model.id == id, model.processed.is_(False))`
unfoldable pub update_open :
    ℕ → (WebhookEvent → WebhookEvent) → List WebhookEvent → List WebhookEvent
update_open id f [] = []
update_open id f (e ∷ es) = (if e.id == id && not e.processed then f e else e) ∷ update_open id f es

-- Whether that update finds a row.
abbrev pub finds_open : ℕ → List WebhookEvent → Bool
finds_open id = any (λ e. e.id == id && not e.processed)

unfoldable pub claim : WebhookEvent → WebhookEvent
claim e = record e { processed = true }

unfoldable pub rearm : WebhookEvent → WebhookEvent
rearm e =
    let attempts = e.processing_attempts + 1 in
    let again = ltb attempts event_reconcile_max_attempts in
    record e { processed = not again; processing_attempts = attempts }

-- The handling of a claimed event; what a failed one wrote and did not
-- commit is rolled back.
unfoldable pub settle_one : {S : Type 0} → WebhookEvent → Run S → Handling S → Run S
unfolding claim rearm update_open
settle_one e w (done books) = record w {
  events = update_open e.id claim w.events;
  books = books;
  recovered = w.recovered + 1;
  begun = e.id ∷ w.begun;
}
settle_one e w (raised books) = record w {
  books = books;
  events = update_open e.id (λ r. rearm (claim r)) w.events;
  begun = e.id ∷ w.begun;
}
settle_one e w (died books) = record w {
  books = books;
  events = update_open e.id claim w.events;
  begun = e.id ∷ w.begun;
  stopped = true;
}

-- An event that another worker has claimed meanwhile is left to it.
unfoldable pub reconcile_one :
    {S : Type 0} → (WebhookEvent → S → Handling S) → WebhookEvent → Run S → Run S
unfolding settle_one
reconcile_one handle e w =
    if w.stopped
    then w
    else if finds_open e.id w.events
    then settle_one e w (handle e w.books)
    else w

unfoldable pub reconcile_each :
    {S : Type 0} → (WebhookEvent → S → Handling S) → List WebhookEvent → Run S → Run S
unfolding reconcile_one
reconcile_each handle [] w = w
reconcile_each handle (e ∷ es) w = reconcile_each handle es (reconcile_one handle e w)

unfoldable pub is_stale : Settings → ℕ → WebhookEvent → Bool
is_stale cfg now e =
    not e.processed
    && leb (e.received_at + seconds cfg.event_reconcile_after_seconds) now
    && is_handled e.event_type

-- `ORDER BY received_at`
unfoldable pub insert_by_received : WebhookEvent → List WebhookEvent → List WebhookEvent
insert_by_received e [] = e ∷ []
insert_by_received e (x ∷ xs) =
    if leb e.received_at x.received_at then e ∷ x ∷ xs else x ∷ insert_by_received e xs

unfoldable pub sort_by_received : List WebhookEvent → List WebhookEvent
unfolding insert_by_received
sort_by_received [] = []
sort_by_received (e ∷ es) = insert_by_received e (sort_by_received es)

unfoldable pub batch_of : Settings → ℕ → List WebhookEvent → List WebhookEvent
unfolding sort_by_received is_stale
batch_of cfg now es = take cfg.scheduler_batch_size (sort_by_received (keep (is_stale cfg now) es))

-- A sweep by a process that is up.
unfoldable pub reconcile_sweep :
    {S : Type 0} → Settings → (WebhookEvent → S → Handling S) → ℕ → Run S → Run S
unfolding batch_of reconcile_each
reconcile_sweep cfg handle now w =
    reconcile_each handle (batch_of cfg now w.events) (record w { stopped = false })
