-- ===== src/Ingestion/Prune.antt =====
-- `prune_processed_events` of src/scheduler.py, and the requests and prunings of the table in any
-- order.
use payment_recovery_engine.Prelude.{
  ℕ, ◌+◌, String, Bool, not, List, [], ◌∷◌, keep, take, ltb, leb, ◌==◌, if◌then◌else◌,
}
use payment_recovery_engine.Clock.{days}
use payment_recovery_engine.Settings.{Settings}
use payment_recovery_engine.Ingestion.Receive.{
  ProcessedEvent, Inbox, Request, Web, is_seen, receive,
}

-- `ProcessedEvent.processed_at < cutoff`
abbrev pub is_old : Settings → ℕ → ProcessedEvent → Bool
is_old cfg now k = ltb (k.processed_at + days cfg.processed_events_retention_days) now

-- `ORDER BY processed_at`
unfoldable pub insert_by_processed : ProcessedEvent → List ProcessedEvent → List ProcessedEvent
insert_by_processed k [] = k ∷ []
insert_by_processed k (x ∷ xs) =
    if leb k.processed_at x.processed_at then k ∷ x ∷ xs else x ∷ insert_by_processed k xs

unfoldable pub sort_by_processed : List ProcessedEvent → List ProcessedEvent
unfolding insert_by_processed
sort_by_processed [] = []
sort_by_processed (k ∷ ks) = insert_by_processed k (sort_by_processed ks)

unfoldable pub old_batch : Settings → ℕ → List ProcessedEvent → List ProcessedEvent
unfolding sort_by_processed
old_batch cfg now seen =
    take cfg.scheduler_batch_size (sort_by_processed (keep (is_old cfg now) seen))

-- The rows are deleted by their event's id, which is as unique as the primary key.
unfoldable pub prune_processed_events : Settings → ℕ → List ProcessedEvent → List ProcessedEvent
unfolding old_batch
prune_processed_events cfg now seen =
    if cfg.processed_events_retention_days == 0
    then seen
    else keep (λ k. not (is_seen k.razorpay_event_id (old_batch cfg now seen))) seen

pub data Action : Type 0 where
  arrival : ℕ → ℕ → Request → Action
  prune : ℕ → Action

unfoldable pub perform : Settings → Web → String → Action → Inbox → Inbox
unfolding prune_processed_events
perform cfg web secret (arrival now fresh_id r) s = (receive web secret now fresh_id r s).1
perform cfg web secret (prune now) s = record s { seen = prune_processed_events cfg now s.seen }

abbrev pub perform_all : Settings → Web → String → List Action → Inbox → Inbox
perform_all cfg web secret [] s = s
perform_all cfg web secret (a ∷ rest) s =
    perform_all cfg web secret rest (perform cfg web secret a s)
