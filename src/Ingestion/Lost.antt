-- ===== src/Ingestion/Lost.antt =====
-- An event whose handling in a sweep (src/scheduler.py) dies with its process.
use payment_recovery_engine.Prelude.{
  ℕ, ◌+◌, Bool, true, false, List, [], ◌∷◌, ◌==◌, ◌≡◌, inl, inr, refl, sym, ==_iff, arith,
  if◌then◌else◌, Bool-cases,
}
use payment_recovery_engine.Settings.{Settings}
use payment_recovery_engine.Ingestion.Receive.{WebhookEvent}
use payment_recovery_engine.Ingestion.Sweep.{
  Handling, done, raised, died, Run, update_open, finds_open, claim, rearm, settle_one,
  reconcile_one, reconcile_each, batch_of, reconcile_sweep,
}
use payment_recovery_engine.Ingestion.Chances.{if-either}
use payment_recovery_engine.Ingestion.Drain.{Round, run_rounds}

abbrev pub handlings : ℕ → List ℕ → ℕ
handlings id [] = 0
handlings id (x ∷ xs) = (if x == id then 1 else 0) + handlings id xs

-- The event's row is claimed, and its handlings so far are these.
record IsClaimed {S : Type 0} (id n : ℕ) (w : Run S) : Type 0 where
  taken : finds_open id w.events ≡ false
  count : handlings id w.begun ≡ n

module _ (id : ℕ) where
  update_open-taken :
      (f : WebhookEvent → WebhookEvent) (other : ℕ) (es : List WebhookEvent)
      → ((e : WebhookEvent) → (f e).id ≡ e.id)
      → finds_open id es ≡ false
      → finds_open id (update_open other f es) ≡ false
  unfolding update_open
  update_open-taken f other [] keeps h = refl
  update_open-taken f other (e ∷ es) keeps h =
      ground (arith, keeps e, update_open-taken f other es keeps)

  claims : (es : List WebhookEvent) → finds_open id (update_open id claim es) ≡ false
  unfolding update_open claim
  claims [] = refl
  claims (e ∷ es) = ground (arith, claims es)

  another :
      (other : ℕ) (es : List WebhookEvent)
      → finds_open other es ≡ true
      → finds_open id es ≡ false
      → (other == id) ≡ false
  another other es found taken = elim (Bool-cases (other == id)) [
    | inr ne ↦ ne
    | inl q ↦ let taken' = (rw (sym ((==_iff other id).0 q)) at taken) in cc
  ]

module _ (id n : ℕ) {S : Type 0} where
  settle_one-IsClaimed :
      (e : WebhookEvent) (w : Run S) (o : Handling S)
      → finds_open e.id w.events ≡ true
      → IsClaimed id n w
      → IsClaimed id n (settle_one e w o)
  unfolding settle_one claim rearm
  settle_one-IsClaimed e w (done s) found h = record {
    taken = update_open-taken id _ e.id w.events (λ x. refl) h.taken;
    count = ground (arith, another id e.id w.events found h.taken, h.count);
  }
  settle_one-IsClaimed e w (raised s) found h = record {
    taken = update_open-taken id _ e.id w.events (λ x. refl) h.taken;
    count = ground (arith, another id e.id w.events found h.taken, h.count);
  }
  settle_one-IsClaimed e w (died s) found h = record {
    taken = update_open-taken id _ e.id w.events (λ x. refl) h.taken;
    count = ground (arith, another id e.id w.events found h.taken, h.count);
  }

  reconcile_one-IsClaimed :
      (handle : WebhookEvent → S → Handling S) (e : WebhookEvent) (w : Run S)
      → IsClaimed id n w
      → IsClaimed id n (reconcile_one handle e w)
  unfolding reconcile_one
  reconcile_one-IsClaimed handle e w h =
      if-either (IsClaimed id n) w.stopped _ _ h (found_or (finds_open e.id w.events) refl)
    where
      found_or :
          (b : Bool)
          → finds_open e.id w.events ≡ b
          → IsClaimed id n (if b then settle_one e w (handle e w.books) else w)
      found_or true q = settle_one-IsClaimed e w (handle e w.books) q h
      found_or false q = h

  reconcile_each-IsClaimed :
      (handle : WebhookEvent → S → Handling S) (es : List WebhookEvent) (w : Run S)
      → IsClaimed id n w
      → IsClaimed id n (reconcile_each handle es w)
  unfolding reconcile_each
  reconcile_each-IsClaimed handle [] w h = h
  reconcile_each-IsClaimed handle (e ∷ es) w h =
      reconcile_each-IsClaimed handle es _ (reconcile_one-IsClaimed handle e w h)

  run_rounds-IsClaimed :
      (cfg : Settings) (rs : List (Round S)) (w : Run S)
      → IsClaimed id n w
      → IsClaimed id n (run_rounds cfg rs w)
  unfolding reconcile_sweep
  run_rounds-IsClaimed cfg [] w h = h
  run_rounds-IsClaimed cfg (r ∷ rs) w h = run_rounds-IsClaimed cfg rs _ (
      reconcile_each-IsClaimed r.handle (batch_of cfg r.now w.events) (record w { stopped = false })
        (record { taken = h.taken; count = h.count }))

-- An event in whose handling the process dies leaves the books as far as the handling had
-- committed them, and no sweep ever handles it again: its row is claimed, which is what processed
-- means to the sweeps.
pub died_for_good :
    {S : Type 0} (cfg : Settings) (handle : WebhookEvent → S → Handling S) (e : WebhookEvent)
    (w : Run S) (rs : List (Round S)) (books : S)
    → w.stopped ≡ false
    → finds_open e.id w.events ≡ true
    → handle e w.books ≡ died books
    → ((reconcile_one handle e w).books ≡ books)
      × (handlings e.id (run_rounds cfg rs (reconcile_one handle e w)).begun
          ≡ 1 + handlings e.id w.begun)
unfolding reconcile_one settle_one
died_for_good cfg handle e w rs books up found dies =
    rw (up, found, dies)
      (
        refl,
        (run_rounds-IsClaimed e.id _ cfg rs _
            (record { taken = claims e.id w.events; count = ground arith })).count,
      )
