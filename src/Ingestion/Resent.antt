-- ===== src/Ingestion/Resent.antt =====
-- How often an event is stored (src/ingestion/router.py, and the pruning of src/scheduler.py).
use payment_recovery_engine.Prelude.{
  ℕ, zero, suc, ◌+◌, ◌≤◌, String, Bool, true, false, List, [], ◌∷◌, ◌++◌, All, keep, take, not, ◌≡◌,
  ◌⊎◌, refl, sym, inl, inr, arith, str_eq, eq_iff, ◌==◌, if◌then◌else◌, Bool-cases,
}
use payment_recovery_engine.Clock.{days}
use payment_recovery_engine.Settings.{Settings}
use payment_recovery_engine.Ingestion.Receive.{
  Web, Request, WebhookEvent, ProcessedEvent, Inbox, is_seen, new_processed, event_id_of, new_event,
  receive,
}
use payment_recovery_engine.Ingestion.Once.{receive-IsAnswer}
use payment_recovery_engine.Ingestion.Prune.{
  is_old, insert_by_processed, sort_by_processed, old_batch, prune_processed_events, Action,
  arrival, prune, perform, perform_all,
}

-- The rows of an event.
abbrev pub stored : String → List WebhookEvent → ℕ
stored key [] = 0
stored key (e ∷ es) = (if str_eq e.razorpay_event_id key then 1 else 0) + stored key es

-- What is known of the event is no older than a time.
abbrev IsSince : ℕ → String → List ProcessedEvent → Type 0
IsSince start key = All (λ k. str_eq k.razorpay_event_id key ≡ true → start ≤ k.processed_at)

stored-append :
    (key : String) (xs ys : List WebhookEvent)
    → stored key (xs ++ ys) ≡ stored key xs + stored key ys
stored-append key [] ys = omega arith
stored-append key (x ∷ xs) ys = omega (arith, stored-append key xs ys)

-- A request is no earlier than a time, and a pruning does not reach back to it.
abbrev pub IsTimely : Settings → ℕ → Action → Type 0
IsTimely cfg start (arrival now fresh_id r) = start ≤ now
IsTimely cfg start (prune now) =
    (cfg.processed_events_retention_days ≡ 0)
    ⊎ (now ≤ start + days cfg.processed_events_retention_days)

module _ (key : String) where
  seen-append :
      (xs : List ProcessedEvent) (k : ProcessedEvent)
      → is_seen key (xs ++ k ∷ [])
        ≡ (if is_seen key xs then true else str_eq k.razorpay_event_id key)
  seen-append [] k = ground arith
  seen-append (x ∷ xs) k = ground (arith, seen-append xs k)

  unseen-IsSince :
      (start : ℕ) (ks : List ProcessedEvent) → is_seen key ks ≡ false → IsSince start key ks
  unseen-IsSince start [] h = tt
  unseen-IsSince start (k ∷ ks) h = (λ e. ground arith, unseen-IsSince start ks (ground (arith, h)))

  append-IsSince :
      (start now : ℕ) (ks : List ProcessedEvent) (id : String)
      → start ≤ now
      → IsSince start key ks
      → IsSince start key (ks ++ new_processed now id ∷ [])
  append-IsSince start now [] id le h = (λ e. le, tt)
  append-IsSince start now (k ∷ ks) id le h = (h.0, append-IsSince start now ks id le h.1)

  insert-seen :
      (k : ProcessedEvent) (ks : List ProcessedEvent)
      → str_eq k.razorpay_event_id key ≡ false
      → is_seen key ks ≡ false
      → is_seen key (insert_by_processed k ks) ≡ false
  unfolding insert_by_processed
  insert-seen k [] p h = ground arith
  insert-seen k (x ∷ xs) p h = ground (arith, insert-seen k xs p)

  sort-seen :
      (ks : List ProcessedEvent)
      → is_seen key ks ≡ false
      → is_seen key (sort_by_processed ks) ≡ false
  unfolding sort_by_processed
  sort-seen [] h = refl
  sort-seen (k ∷ ks) h =
      insert-seen k (sort_by_processed ks) (ground (arith, h)) (sort-seen ks (ground (arith, h)))

  take-seen :
      (n : ℕ) (ks : List ProcessedEvent) → is_seen key ks ≡ false → is_seen key (take n ks) ≡ false
  take-seen zero ks h = refl
  take-seen (suc n) [] h = refl
  take-seen (suc n) (k ∷ ks) h = ground (arith, take-seen n ks)

  -- The rows of the event are too young to be pruned.
  young-seen :
      (cfg : Settings) (start now : ℕ) (ks : List ProcessedEvent)
      → now ≤ start + days cfg.processed_events_retention_days
      → IsSince start key ks
      → is_seen key (keep (is_old cfg now) ks) ≡ false
  young-seen cfg start now [] le h = refl
  young-seen cfg start now (k ∷ ks) le (young, h) = elim (Bool-cases (is_old cfg now k)) [
    | inl o ↦ rw o (ground (arith, young, young-seen cfg start now ks le h))
    | inr o ↦ rw o (young-seen cfg start now ks le h)
  ]

  batch-seen :
      (cfg : Settings) (start now : ℕ) (ks : List ProcessedEvent)
      → now ≤ start + days cfg.processed_events_retention_days
      → IsSince start key ks
      → is_seen key (old_batch cfg now ks) ≡ false
  unfolding old_batch
  batch-seen cfg start now ks le h =
      take-seen cfg.scheduler_batch_size _ (sort-seen _ (young-seen cfg start now ks le h))

  kept-seen :
      (batch ks : List ProcessedEvent)
      → is_seen key batch ≡ false
      → is_seen key (keep (λ k. not (is_seen k.razorpay_event_id batch)) ks) ≡ is_seen key ks
  kept-seen batch [] h = refl
  kept-seen batch (k ∷ ks) h = elim (Bool-cases (str_eq k.razorpay_event_id key)) [
    | inl e ↦
        let absent = (rw (sym ((eq_iff k.razorpay_event_id key).0 e)) at h) in rw (absent, e) refl
    | inr e ↦ elim (Bool-cases (is_seen k.razorpay_event_id batch)) [
      | inl b ↦ rw (b, e) (kept-seen batch ks h)
      | inr b ↦ rw (b, e) (kept-seen batch ks h)
    ]
  ]

  kept-IsSince :
      (start : ℕ) (test : ProcessedEvent → Bool) (ks : List ProcessedEvent)
      → IsSince start key ks
      → IsSince start key (keep test ks)
  kept-IsSince start test [] h = tt
  kept-IsSince start test (k ∷ ks) h = elim (Bool-cases (test k)) [
    | inl e ↦ rw e (h.0, kept-IsSince start test ks h.1)
    | inr e ↦ rw e (kept-IsSince start test ks h.1)
  ]

  -- One row more than there were at most, and none before the event is among those seen.
  record IsSingle (start n : ℕ) (s : Inbox) : Type 0 where
    count : stored key s.events ≤ n + (if is_seen key s.seen then 1 else 0)
    since : IsSince start key s.seen

  added-count :
      (n now : ℕ) (id : String) (e : WebhookEvent) (s : Inbox)
      → e.razorpay_event_id ≡ id
      → is_seen id s.seen ≡ false
      → stored key s.events ≤ n + (if is_seen key s.seen then 1 else 0)
      → stored key (s.events ++ e ∷ [])
        ≤ n + (if is_seen key (s.seen ++ new_processed now id ∷ []) then 1 else 0)
  added-count n now id e s same fresh h = elim (Bool-cases (str_eq id key)) [
    | inl q ↦
        let unseen = (rw ((eq_iff id key).0 q) at fresh) in
        rw (seen-append s.seen (new_processed now id))
          (ground (arith, stored-append key s.events (e ∷ []), unseen, same, q, h))
    | inr q ↦
        rw (seen-append s.seen (new_processed now id))
          (ground (arith, stored-append key s.events (e ∷ []), same, q, h))
  ]

  module _ (cfg : Settings) (web : Web) (secret : String) (start n : ℕ) where
    receive-IsSingle :
        (now fresh_id : ℕ) (r : Request) (s : Inbox)
        → start ≤ now
        → IsSingle start n s
        → IsSingle start n (receive web secret now fresh_id r s).1
    unfolding new_event
    receive-IsSingle now fresh_id r s le h = elim (receive-IsAnswer web secret now fresh_id r s) [
      | inl (same, _, _) ↦ rw same h
      | inr (p, g, _, seen, events, _) ↦
          let id = event_id_of web r.body p in
          record {
            count =
                rw (seen, events)
                  (added-count n now id (new_event now fresh_id id p) s refl g.unseen h.count);
            since = rw seen (append-IsSince start now s.seen id le h.since);
          }
    ]

    prune-IsSingle :
        (now : ℕ) (s : Inbox)
        → (cfg.processed_events_retention_days ≡ 0)
          ⊎ (now ≤ start + days cfg.processed_events_retention_days)
        → IsSingle start n s
        → IsSingle start n (record s { seen = prune_processed_events cfg now s.seen })
    unfolding prune_processed_events
    prune-IsSingle now s (inl never) h = rw never h
    prune-IsSingle now s (inr le) h = elim (Bool-cases (cfg.processed_events_retention_days == 0)) [
      | inl z ↦ rw z h
      | inr z ↦ rw z (record {
        count =
            rw
              (kept-seen (old_batch cfg now s.seen) s.seen
                (batch-seen cfg start now s.seen le h.since))
              h.count;
        since = kept-IsSince start _ s.seen h.since;
      })
    ]

    perform_all-IsSingle :
        (actions : List Action) (s : Inbox)
        → All (IsTimely cfg start) actions
        → IsSingle start n s
        → IsSingle start n (perform_all cfg web secret actions s)
    unfolding perform
    perform_all-IsSingle [] s within h = h
    perform_all-IsSingle (arrival now fresh_id r ∷ rest) s (early, within) h =
        perform_all-IsSingle rest _ within (receive-IsSingle now fresh_id r s early h)
    perform_all-IsSingle (prune now ∷ rest) s (late, within) h =
        perform_all-IsSingle rest _ within (prune-IsSingle now s late h)

-- However often requests are sent from some moment on, the gateway's repeats included, and in
-- whichever order with the prunings of the processed events: an event that is not among those
-- processed at that moment is stored once more at most, if no pruning comes later than the
-- retention after that moment, or the retention is 0, which is no pruning at all.
pub perform_all-stored_once :
    (cfg : Settings) (web : Web) (secret key : String) (start : ℕ) (actions : List Action)
    (s : Inbox)
    → is_seen key s.seen ≡ false
    → All (IsTimely cfg start) actions
    → stored key (perform_all cfg web secret actions s).events ≤ stored key s.events + 1
perform_all-stored_once cfg web secret key start actions s unseen within =
    let single =
      perform_all-IsSingle key cfg web secret start (stored key s.events) actions s within
        (record { count = omega arith; since = unseen-IsSince key start s.seen unseen }) in
    ground (arith, single.count)
