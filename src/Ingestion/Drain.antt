-- ===== src/Ingestion/Drain.antt =====
-- Sweep after sweep of `_reconcile_sweep` (src/scheduler.py): none handles for ever.
use payment_recovery_engine.Prelude.{
  ℕ, suc, zero, ◌+◌, ◌≤◌, ◌<◌, true, false, List, [], ◌∷◌, keep, take, All, length, ◌≡◌, ◌⊎◌, inl,
  inr, refl, arith,
}
use payment_recovery_engine.Settings.{Settings}
use payment_recovery_engine.Ingestion.Receive.{WebhookEvent}
use payment_recovery_engine.Ingestion.Sweep.{
  Handling, Run, finds_open, reconcile_one, reconcile_each, is_stale, sort_by_received, batch_of,
  reconcile_sweep,
}
use payment_recovery_engine.Ingestion.Chances.{
  all_chances, IsDrained, reconcile_one-strict, reconcile_each-chances, reconcile_each-spent,
  reconcile_each-IsDrained,
}
use payment_recovery_engine.Ingestion.Batch.{length-sort, sorted-found, kept_none, sooner-IsDrained}

module _ (cfg : Settings) where
  module _ {S : Type 0} (handle : WebhookEvent → S → Handling S) where
    taken-strict :
        (n : ℕ) (xs : List WebhookEvent) (w : Run S)
        → 1 ≤ n
        → w.stopped ≡ false
        → All (λ e. finds_open e.id w.events ≡ true) xs
        → (length xs ≡ 0)
          ⊎ (all_chances (reconcile_each handle (take n xs) w).events < all_chances w.events)
    unfolding reconcile_each
    taken-strict n [] w one up h = inl refl
    taken-strict zero (x ∷ xs) w one up h = absurd (omega (arith, one))
    taken-strict (suc n) (x ∷ xs) w one up h = inr (
        omega (
          arith,
          reconcile_one-strict cfg 0 handle x w up h.0,
          reconcile_each-chances cfg 0 handle (take n xs) (reconcile_one handle x w),
        ))

    -- A sweep leaves nothing stale to a later one, or takes a chance.
    sweep-progress :
        (now : ℕ) (w : Run S)
        → 1 ≤ cfg.scheduler_batch_size
        → IsDrained cfg now w.events
          ⊎ (all_chances (reconcile_sweep cfg handle now w).events < all_chances w.events)
    unfolding reconcile_sweep batch_of
    sweep-progress now w one =
        elim (taken-strict cfg.scheduler_batch_size
          (sort_by_received (keep (is_stale cfg now) w.events)) (record w { stopped = false }) one
          refl (sorted-found cfg now w.events)) [
            | inl none_stale ↦ inl (
                kept_none cfg now w.events
                  (omega (arith, none_stale, length-sort (keep (is_stale cfg now) w.events))))
            | inr fewer ↦ inr fewer
          ]

    reconcile_sweep-spent :
        (now : ℕ) (w : Run S)
        → all_chances (reconcile_sweep cfg handle now w).events
            + length (reconcile_sweep cfg handle now w).begun
          ≤ all_chances w.events + length w.begun
    unfolding reconcile_sweep
    reconcile_sweep-spent now w =
        reconcile_each-spent cfg 0 handle (batch_of cfg now w.events) (record w { stopped = false })

    reconcile_sweep-IsDrained :
        (t now : ℕ) (w : Run S)
        → IsDrained cfg t w.events
        → IsDrained cfg t (reconcile_sweep cfg handle now w).events
    unfolding reconcile_sweep
    reconcile_sweep-IsDrained t now w =
        reconcile_each-IsDrained cfg t handle (batch_of cfg now w.events)
          (record w { stopped = false })

-- A sweep: its time, and how the handlings in it end.
pub record Round (S : Type 0) : Type 0 where
  pub now : ℕ
  pub handle : WebhookEvent → S → Handling S

abbrev pub run_rounds : {S : Type 0} → Settings → List (Round S) → Run S → Run S
run_rounds cfg [] w = w
run_rounds cfg (r ∷ rs) w = run_rounds cfg rs (reconcile_sweep cfg r.handle r.now w)

module _ (cfg : Settings) (t : ℕ) where
  no_chances : (es : List WebhookEvent) → all_chances es ≡ 0 → IsDrained cfg t es
  unfolding is_stale
  no_chances [] h = tt
  no_chances (e ∷ es) h = (ground arith, no_chances es (omega (arith, h)))

module _ (cfg : Settings) (t : ℕ) {S : Type 0} where
  stays-IsDrained :
      (rs : List (Round S)) (w : Run S)
      → IsDrained cfg t w.events
      → IsDrained cfg t (run_rounds cfg rs w).events
  stays-IsDrained [] w h = h
  stays-IsDrained (r ∷ rs) w h =
      stays-IsDrained rs _ (reconcile_sweep-IsDrained cfg r.handle t r.now w h)

  drains :
      (rs : List (Round S)) (w : Run S)
      → 1 ≤ cfg.scheduler_batch_size
      → All (λ r. t ≤ r.now) rs
      → all_chances w.events ≤ length rs
      → IsDrained cfg t (run_rounds cfg rs w).events
  drains [] w one late enough = no_chances cfg t w.events (omega (arith, enough))
  drains (r ∷ rs) w one (le, late) enough = elim (sweep-progress cfg r.handle r.now w one) [
    | inl d ↦ stays-IsDrained rs _ (
        reconcile_sweep-IsDrained cfg r.handle t r.now w
          (sooner-IsDrained cfg t r.now w.events le d))
    | inr fewer ↦ drains rs _ one late (omega (arith, fewer, enough))
  ]

  run_rounds-spent :
      (rs : List (Round S)) (w : Run S)
      → all_chances (run_rounds cfg rs w).events + length (run_rounds cfg rs w).begun
        ≤ all_chances w.events + length w.begun
  run_rounds-spent [] w = omega arith
  run_rounds-spent (r ∷ rs) w =
      omega (arith, reconcile_sweep-spent cfg r.handle r.now w, run_rounds-spent rs _)

  -- The sweeps come to an end, however the handlings in them end: done, with an exception, or with
  -- the death of the process. Sweeps that are no earlier than a time, as many as the unprocessed
  -- events have chances (three of each, less the attempts that failed, and one at least), leave
  -- no event that is stale at that time, where a batch holds one event or more; and all of them
  -- together begin no more handlings than there were chances.
  pub run_rounds-IsDrained :
      (rs : List (Round S)) (w : Run S)
      → 1 ≤ cfg.scheduler_batch_size
      → All (λ r. t ≤ r.now) rs
      → all_chances w.events ≤ length rs
      → IsDrained cfg t (run_rounds cfg rs w).events
        × (length (run_rounds cfg rs w).begun ≤ all_chances w.events + length w.begun)
  run_rounds-IsDrained rs w one late enough =
      (drains rs w one late enough, omega (arith, run_rounds-spent rs w))
