-- ===== src/Orchestrator/MandateSweep.antt =====
-- What `charge_due_promises` of src/scheduler.py leaves of a promise that it has debited.
use payment_recovery_engine.Prelude.{
  ℕ, ◌&&◌, String, Bool, true, false, Option, none, some, List, In, ◌⊎◌, inl, inr, ◌≡◌, refl, arith,
  Bool-cases,
}
use payment_recovery_engine.Settings.{Settings}
use payment_recovery_engine.Actions.{Host}
use payment_recovery_engine.Guardrail.Gate.{GuardrailResult}
use payment_recovery_engine.Cases.Model.{RecoveryCase, RetryAttempt}
use payment_recovery_engine.Cases.Lifecycle.{StopReason}
use payment_recovery_engine.Orchestrator.MandateOnce.{debits}
use payment_recovery_engine.Orchestrator.Mandate.{
  Kept, Act, debited, DebitInputs, debit_row, debit, debit_judged, debit_checked, persisted,
  is_due_for_debit, counted, charge_due, charge_promise_mandate,
}

-- Of one promise: it is counted only if it was debited and the gateway answered, and once debited
-- it is due for no debit any more.
abbrev pub IsSettledDebit : DebitInputs → Kept → ℕ × List Act → Type 0
IsSettledDebit i k (n, acts) =
    ((n ≡ 0) ⊎ ((n ≡ 1) × In debited acts × (i.came_back ≡ true)))
    × ((debits acts ≡ 0)
        ⊎ ((later : ℕ) → is_due_for_debit later (persisted k acts).promise ≡ false))

module _ (i : DebitInputs) (k : Kept) (row : RetryAttempt) where
  debit-IsSettledDebit :
      (order_id : Option String) → IsSettledDebit i k (counted k (some (debit i k row order_id)))
  unfolding debit counted is_due_for_debit
  debit-IsSettledDebit none = (inl refl, inl refl)
  debit-IsSettledDebit (some x) = elim (Bool-cases i.came_back) [
    | inl e ↦ rw e (inr (refl, inr (inr (inr (inl refl))), refl), inr (λ later. ground arith))
    | inr e ↦ rw e (inl refl, inr (λ later. ground arith))
  ]

  checked-IsSettledDebit :
      {F : Type 0} (r : Option StopReason) (taken : Bool) (v : Option (GuardrailResult F))
      → IsSettledDebit i k (counted k (debit_checked i k row r taken v))
  unfolding debit_checked debit_judged counted
  checked-IsSettledDebit (some r) taken v = (inl refl, inl refl)
  checked-IsSettledDebit none true v = (inl refl, inl refl)
  checked-IsSettledDebit none false none = (inl refl, inl refl)
  checked-IsSettledDebit none false (some g) = elim (Bool-cases g.passed) [
    | inl p ↦ elim (Bool-cases i.raced) [
      | inl r ↦ rw (p, r) ((inl refl, inl refl))
      | inr r ↦ rw (p, r) (debit-IsSettledDebit i.order_id)
    ]
    | inr p ↦ elim (Bool-cases i.raced) [
      | inl r ↦ rw (p, r) ((inl refl, inl refl))
      | inr r ↦ rw (p, r) ((inl refl, inl refl))
    ]
  ]

-- One round of `charge_due_promises` over a promise counts it only if the gateway answered its
-- debit, and leaves a promise that it asked a debit of due for none, at any later time: whether
-- the debit came back or failed, later rounds pass the promise by.
pub charge_due-IsSettledDebit :
    (host : Host) (cfg : Settings) (enabled has_credentials : Bool) (key : String) (i : DebitInputs)
    (c : RecoveryCase) (k : Kept)
    → IsSettledDebit i k (charge_due host cfg enabled has_credentials key i c k)
unfolding charge_due charge_promise_mandate
charge_due-IsSettledDebit host cfg enabled has_credentials key i c k =
    elim (Bool-cases (enabled && is_due_for_debit i.now k.promise)) [
      | inl d ↦ elim (Bool-cases has_credentials) [
        | inl h ↦ rw (d, h) (checked-IsSettledDebit i k (debit_row key i c) _ _ _)
        | inr h ↦ rw (d, h) ((inl refl, inl refl))
      ]
      | inr d ↦ rw d ((inl refl, inl refl))
    ]
