-- ===== src/Ingestion/Chances.antt =====
-- The chances of an event under `_reconcile_sweep` (src/scheduler.py): each handling takes one.
use payment_recovery_engine.Prelude.{
  ℕ, ◌+◌, ◌-◌, ◌≤◌, ◌<◌, Bool, true, false, List, [], ◌∷◌, All, length, ◌≡◌, refl, arith,
  if◌then◌else◌,
}
use payment_recovery_engine.Settings.{Settings}
use payment_recovery_engine.Ingestion.Receive.{WebhookEvent}
use payment_recovery_engine.Ingestion.Sweep.{
  Handling, done, raised, died, Run, update_open, finds_open, claim, rearm, settle_one,
  reconcile_one, reconcile_each, is_stale,
}

-- How often an event can still be handled, and all of them together.
abbrev pub chances : WebhookEvent → ℕ
chances e = if e.processed then 0 else 1 + (2 - e.processing_attempts)

abbrev pub all_chances : List WebhookEvent → ℕ
all_chances [] = 0
all_chances (e ∷ es) = chances e + all_chances es

abbrev pub IsDrained : Settings → ℕ → List WebhookEvent → Type 0
IsDrained cfg t es = All (λ e. is_stale cfg t e ≡ false) es

-- An update of an unprocessed event that takes one of its chances, and makes none stale.
record IsSpending (cfg : Settings) (t : ℕ) (f : WebhookEvent → WebhookEvent) : Type 0 where
  spends : (e : WebhookEvent) → e.processed ≡ false → chances (f e) < chances e
  drains :
      (e : WebhookEvent)
      → e.processed ≡ false
      → is_stale cfg t e ≡ false
      → is_stale cfg t (f e) ≡ false

pub if-either :
    {A : Type 0} (P : A → Type 0) (b : Bool) (x y : A) → P x → P y → P (if b then x else y)
if-either P true x y p q = p
if-either P false x y p q = q

module _ (cfg : Settings) (t : ℕ) where
  claim-IsSpending : IsSpending cfg t claim
  unfolding claim is_stale
  claim-IsSpending = record { spends = λ e u. ground arith; drains = λ e u s. refl }

  rearm-IsSpending : IsSpending cfg t (λ e. rearm (claim e))
  unfolding claim rearm is_stale
  rearm-IsSpending = record { spends = λ e u. ground arith; drains = λ e u s. ground arith }

  module _ (f : WebhookEvent → WebhookEvent) (ok : IsSpending cfg t f) where
    update_open-chances :
        (id : ℕ) (es : List WebhookEvent)
        → all_chances (update_open id f es) + (if finds_open id es then 1 else 0) ≤ all_chances es
    unfolding update_open
    update_open-chances id [] = omega arith
    update_open-chances id (e ∷ es) = ground (arith, ok.spends e, update_open-chances id es)

    update_open-IsDrained :
        (id : ℕ) (es : List WebhookEvent)
        → IsDrained cfg t es
        → IsDrained cfg t (update_open id f es)
    unfolding update_open
    update_open-IsDrained id [] h = tt
    update_open-IsDrained id (e ∷ es) h =
        (ground (arith, ok.drains e, h.0), update_open-IsDrained id es h.1)

  module _ {S : Type 0} (handle : WebhookEvent → S → Handling S) where
    -- Each handling begun takes a chance, and a process that is up takes one where it finds the
    -- event.
    settle_one-spent :
        (e : WebhookEvent) (w : Run S) (o : Handling S)
        → all_chances (settle_one e w o).events + (if finds_open e.id w.events then 1 else 0)
          ≤ all_chances w.events
    unfolding settle_one
    settle_one-spent e w (done s) = update_open-chances claim claim-IsSpending e.id w.events
    settle_one-spent e w (raised s) = update_open-chances _ rearm-IsSpending e.id w.events
    settle_one-spent e w (died s) = update_open-chances claim claim-IsSpending e.id w.events

    settle_one-begun :
        (e : WebhookEvent) (w : Run S) (o : Handling S) → (settle_one e w o).begun ≡ e.id ∷ w.begun
    unfolding settle_one
    settle_one-begun e w (done s) = refl
    settle_one-begun e w (raised s) = refl
    settle_one-begun e w (died s) = refl

    settle_one-IsDrained :
        (e : WebhookEvent) (w : Run S) (o : Handling S)
        → IsDrained cfg t w.events
        → IsDrained cfg t (settle_one e w o).events
    unfolding settle_one
    settle_one-IsDrained e w (done s) = update_open-IsDrained claim claim-IsSpending e.id w.events
    settle_one-IsDrained e w (raised s) = update_open-IsDrained _ rearm-IsSpending e.id w.events
    settle_one-IsDrained e w (died s) = update_open-IsDrained claim claim-IsSpending e.id w.events

    reconcile_one-spent :
        (e : WebhookEvent) (w : Run S)
        → all_chances (reconcile_one handle e w).events + length (reconcile_one handle e w).begun
          ≤ all_chances w.events + length w.begun
    unfolding reconcile_one
    reconcile_one-spent e w =
        ground
          (arith, settle_one-spent e w (handle e w.books), settle_one-begun e w (handle e w.books))

    -- The first event of a sweep's batch.
    pub reconcile_one-strict :
        (e : WebhookEvent) (w : Run S)
        → w.stopped ≡ false
        → finds_open e.id w.events ≡ true
        → all_chances (reconcile_one handle e w).events < all_chances w.events
    unfolding reconcile_one
    reconcile_one-strict e w u f = ground (arith, settle_one-spent e w (handle e w.books))

    reconcile_one-IsDrained :
        (e : WebhookEvent) (w : Run S)
        → IsDrained cfg t w.events
        → IsDrained cfg t (reconcile_one handle e w).events
    unfolding reconcile_one
    reconcile_one-IsDrained e w h =
        if-either (λ (x : Run S). IsDrained cfg t x.events) w.stopped _ _ h
          (if-either (λ (x : Run S). IsDrained cfg t x.events) (finds_open e.id w.events) _ _
            (settle_one-IsDrained e w (handle e w.books) h) h)

    reconcile_one-chances :
        (e : WebhookEvent) (w : Run S)
        → all_chances (reconcile_one handle e w).events ≤ all_chances w.events
    unfolding reconcile_one
    reconcile_one-chances e w = ground (arith, settle_one-spent e w (handle e w.books))

    pub reconcile_each-spent :
        (es : List WebhookEvent) (w : Run S)
        → all_chances (reconcile_each handle es w).events
            + length (reconcile_each handle es w).begun
          ≤ all_chances w.events + length w.begun
    unfolding reconcile_each
    reconcile_each-spent [] w = omega arith
    reconcile_each-spent (e ∷ es) w =
        omega (arith, reconcile_one-spent e w, reconcile_each-spent es (reconcile_one handle e w))

    pub reconcile_each-chances :
        (es : List WebhookEvent) (w : Run S)
        → all_chances (reconcile_each handle es w).events ≤ all_chances w.events
    unfolding reconcile_each
    reconcile_each-chances [] w = omega arith
    reconcile_each-chances (e ∷ es) w =
        omega
          (arith, reconcile_one-chances e w, reconcile_each-chances es (reconcile_one handle e w))

    pub reconcile_each-IsDrained :
        (es : List WebhookEvent) (w : Run S)
        → IsDrained cfg t w.events
        → IsDrained cfg t (reconcile_each handle es w).events
    unfolding reconcile_each
    reconcile_each-IsDrained [] w h = h
    reconcile_each-IsDrained (e ∷ es) w h =
        reconcile_each-IsDrained es (reconcile_one handle e w) (reconcile_one-IsDrained e w h)
