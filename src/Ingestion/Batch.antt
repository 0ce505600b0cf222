-- ===== src/Ingestion/Batch.antt =====
-- The batch of `_reconcile_sweep` (src/scheduler.py): what is in it can be claimed.
use payment_recovery_engine.Prelude.{
  ℕ, suc, ◌≤◌, true, List, [], ◌∷◌, keep, All, All-imp, length, leb, ◌≡◌, inl, inr, refl, arith,
  Bool-cases,
}
use payment_recovery_engine.Settings.{Settings}
use payment_recovery_engine.Ingestion.Receive.{WebhookEvent}
use payment_recovery_engine.Ingestion.Sweep.{
  finds_open, is_stale, insert_by_received, sort_by_received,
}
use payment_recovery_engine.Ingestion.Chances.{IsDrained, if-either}

-- A batch's events are there, unclaimed.
insert-All :
    (P : WebhookEvent → Type 0) (e : WebhookEvent) (es : List WebhookEvent)
    → P e
    → All P es
    → All P (insert_by_received e es)
unfolding insert_by_received
insert-All P e [] p h = (p, tt)
insert-All P e (x ∷ xs) p h =
    if-either (All P) (leb e.received_at x.received_at) _ _ (p, h) (h.0, insert-All P e xs p h.1)

sort-All :
    (P : WebhookEvent → Type 0) (es : List WebhookEvent) → All P es → All P (sort_by_received es)
unfolding sort_by_received
sort-All P [] h = tt
sort-All P (e ∷ es) h = insert-All P e (sort_by_received es) h.0 (sort-All P es h.1)

length-insert :
    (e : WebhookEvent) (es : List WebhookEvent) → length (insert_by_received e es) ≡ suc (length es)
unfolding insert_by_received
length-insert e [] = refl
length-insert e (x ∷ xs) = ground (arith, length-insert e xs)

pub length-sort : (es : List WebhookEvent) → length (sort_by_received es) ≡ length es
unfolding sort_by_received
length-sort [] = refl
length-sort (e ∷ es) = omega (arith, length-insert e (sort_by_received es), length-sort es)

module _ (cfg : Settings) where
  finds_itself :
      (now : ℕ) (es : List WebhookEvent)
      → All (λ e. is_stale cfg now e ≡ true → finds_open e.id es ≡ true) es
  unfolding is_stale
  finds_itself now [] = tt
  finds_itself now (e ∷ es) =
      (λ s. ground arith, All-imp (λ x h s. ground (arith, h s)) es (finds_itself now es))

  stale-found :
      (now : ℕ) (es all : List WebhookEvent)
      → All (λ e. is_stale cfg now e ≡ true → finds_open e.id all ≡ true) es
      → All (λ e. finds_open e.id all ≡ true) (keep (is_stale cfg now) es)
  stale-found now [] all h = tt
  stale-found now (e ∷ es) all h = elim (Bool-cases (is_stale cfg now e)) [
    | inl s ↦ rw s (h.0 s, stale-found now es all h.1)
    | inr s ↦ rw s (stale-found now es all h.1)
  ]

  pub sorted-found :
      (now : ℕ) (es : List WebhookEvent)
      → All (λ e. finds_open e.id es ≡ true) (sort_by_received (keep (is_stale cfg now) es))
  sorted-found now es = sort-All _ _ (stale-found now es es (finds_itself now es))

  pub kept_none :
      (now : ℕ) (es : List WebhookEvent)
      → length (keep (is_stale cfg now) es) ≡ 0
      → IsDrained cfg now es
  kept_none now [] h = tt
  kept_none now (e ∷ es) h = elim (Bool-cases (is_stale cfg now e)) [
    | inl s ↦ let h' = (rw s at h) in absurd (omega (arith, h'))
    | inr s ↦ (s, kept_none now es (rw s at h))
  ]

  pub sooner-IsDrained :
      (t now : ℕ) (es : List WebhookEvent) → t ≤ now → IsDrained cfg now es → IsDrained cfg t es
  unfolding is_stale
  sooner-IsDrained t now es le = All-imp (λ e h. ground arith) es
