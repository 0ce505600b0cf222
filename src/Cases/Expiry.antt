-- ===== src/Cases/Expiry.antt =====
-- Which promises the sweep breaks (src/cases.py).
use payment_recovery_engine.Prelude.{
  ℕ, zero, suc, ◌+◌, ◌≤◌, Bool, true, false, ◌&&◌, not, List, [], ◌∷◌, keep, take, inl, inr, leb,
  Bool-cases, ◌≡◌, arith, All, keep-passes, All-imp,
}
use payment_recovery_engine.Clock.{hours}
use payment_recovery_engine.Settings.{Settings}
use payment_recovery_engine.Cases.Model.{PromiseToPay}
use payment_recovery_engine.Cases.Promises.{
  is_pending, charge_in_flight, sort_by_due, insert_by_due, expired_view,
}

module _ (P : PromiseToPay → Type 0) where
  insert_by_due-All :
      (p : PromiseToPay) (ps : List PromiseToPay) → P p → All P ps → All P (insert_by_due p ps)
  unfolding insert_by_due
  insert_by_due-All p [] h hs = (h, tt)
  insert_by_due-All p (q ∷ qs) h hs = elim (Bool-cases (leb p.due_at q.due_at)) [
    | inl e ↦ rw e (h, hs)
    | inr e ↦ rw e (hs.0, insert_by_due-All p qs h hs.1)
  ]

  sort_by_due-All : (ps : List PromiseToPay) → All P ps → All P (sort_by_due ps)
  unfolding sort_by_due
  sort_by_due-All [] hs = tt
  sort_by_due-All (p ∷ ps) hs = insert_by_due-All p _ hs.0 (sort_by_due-All ps hs.1)

  take-All : (n : ℕ) (ps : List PromiseToPay) → All P ps → All P (take n ps)
  take-All zero ps hs = tt
  take-All (suc n) [] hs = tt
  take-All (suc n) (p ∷ ps) hs = (hs.0, take-All n ps hs.1)

keep-both :
    (P : PromiseToPay → Type 0) (test : PromiseToPay → Bool) (ps : List PromiseToPay)
    → All P ps
    → All (λ p. P p × (test p ≡ true)) (keep test ps)
keep-both P test [] hs = tt
keep-both P test (p ∷ ps) hs = elim (Bool-cases (test p)) [
  | inl e ↦ rw e ((hs.0, e), keep-both P test ps hs.1)
  | inr e ↦ rw e (keep-both P test ps hs.1)
]

-- A promise that the sweep may break at this time.
abbrev pub IsExpired : Settings → ℕ → PromiseToPay → Type 0
IsExpired cfg now p =
    (is_pending p.status ≡ true)
    × (p.due_at + hours cfg.promise_grace_hours ≤ now)
    × (charge_in_flight p now (hours cfg.promise_grace_hours) ≡ false)

ripe : (b : Bool) (d now : ℕ) → b && leb d now ≡ true → b ≡ true
ripe b d now h = ground arith

past : (b : Bool) (d now : ℕ) → leb d now && not b ≡ true → (d ≤ now) × (b ≡ false)
past b d now h = ground arith

-- However many the sweep takes, every promise that it finds broken is pending, is past its date
-- and the whole grace after it, and has no charge of its mandate in flight.
pub expired_view-IsExpired :
    (cfg : Settings) (now limit : ℕ) (promises : List PromiseToPay)
    → All (IsExpired cfg now) (expired_view cfg now limit promises)
unfolding expired_view
expired_view-IsExpired cfg now limit promises =
    All-imp
      (λ p h. (
        ripe (is_pending p.status) p.due_at now h.0,
        (past (charge_in_flight p now (hours cfg.promise_grace_hours)) _ now h.1).0,
        (past (charge_in_flight p now (hours cfg.promise_grace_hours)) _ now h.1).1,
      ))
      _
      (keep-both _ _ _ (
        take-All _ limit _ (
          sort_by_due-All _ _
            (keep-passes (λ p. is_pending p.status && leb p.due_at now) promises))))
