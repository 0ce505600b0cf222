-- ===== src/Orchestrator/MandateSafety.antt =====
-- What lets `charge_promise_mandate` of src/orchestrator.py take money.
use payment_recovery_engine.Prelude.{
  String, Bool, true, false, Option, none, some, List, [], ◌∷◌, In, inl, inr, ◌≡◌, ◌↔◌, refl, sym,
  ap, arith, Bool-cases,
}
use payment_recovery_engine.Clock.{aware}
use payment_recovery_engine.Settings.{Settings}
use payment_recovery_engine.Actions.{Host}
use payment_recovery_engine.Guardrail.Meaning.{IsNotified}
use payment_recovery_engine.Guardrail.Gate.{GuardrailResult}
use payment_recovery_engine.Guardrail.Permission.{passes, IsPermitted, validate_permission}
use payment_recovery_engine.Cases.Model.{RecoveryCase, RetryAttempt}
use payment_recovery_engine.Cases.Lifecycle.{StopReason}
use payment_recovery_engine.Orchestrator.Context.{build_case_context}
use payment_recovery_engine.Orchestrator.FirmStop.{IsUnstopped, firm_stop-IsUnstopped}
use payment_recovery_engine.Orchestrator.Mandate.{
  Kept, save, Act, saved, ordered, debited, ChargeOutcome, charged, DebitInputs, attempt_exists,
  debit_action, debit_context, debit_row, debit, debit_judged, debit_checked,
  charge_promise_mandate,
}

-- The row, then the order, then the row with the order's id are there before the one debit, and a
-- commit follows it.
pub record IsWrittenAhead (i : DebitInputs) (k : Kept) (row : RetryAttempt) (o : ChargeOutcome)
    (acts : List Act) : Type 0 where
  pub end : Kept
  pub order : String
  pub given : i.order_id ≡ some order
  pub ahead :
      acts
      ≡ save k row k.promise
        ∷ ordered
        ∷ save k (record row { external_ref = some order }) k.promise
        ∷ debited
        ∷ saved end
        ∷ []
  pub told : (o ≡ charged) ↔ (i.came_back ≡ true)

not_idle :
    (o' o : ChargeOutcome) (acts : List Act)
    → ◌≡◌ {A = Option (ChargeOutcome × List Act)} (some (o', [])) (some (o, acts))
    → In debited acts
    → ⊥
not_idle o' o [] e m = m
not_idle o' o (a ∷ acts) e m = cc

module _ (i : DebitInputs) (k : Kept) (row : RetryAttempt) where
  debit-IsWrittenAhead :
      (order_id : Option String) (o : ChargeOutcome) (acts : List Act)
      → i.order_id ≡ order_id
      → debit i k row order_id ≡ (o, acts)
      → In debited acts
      → IsWrittenAhead i k row o acts
  unfolding debit
  debit-IsWrittenAhead none o acts s e m = ground arith
  debit-IsWrittenAhead (some x) o acts s e m = elim (Bool-cases i.came_back) [
    | inl b ↦
        let e' = (rw b at e) in
        record {
          end = _;
          order = x;
          given = s;
          ahead = sym (ap (λ z. z.1) e');
          told = (λ q. b, λ q. cc);
        }
    | inr b ↦
        let e' = (rw b at e) in
        record {
          end = _;
          order = x;
          given = s;
          ahead = sym (ap (λ z. z.1) e');
          told = (λ q. cc, λ q. cc);
        }
  ]

  judged-IsWrittenAhead :
      {F : Type 0} (g : GuardrailResult F) (o : ChargeOutcome) (acts : List Act)
      → debit_judged i k row g ≡ some (o, acts)
      → In debited acts
      → (g.passed ≡ true) × (i.raced ≡ false) × IsWrittenAhead i k row o acts
  unfolding debit_judged
  judged-IsWrittenAhead g o acts e m = elim (Bool-cases g.passed) [
    | inl p ↦ elim (Bool-cases i.raced) [
      | inl r ↦ let e' = (rw (p, r) at e) in absurd (not_idle _ o acts e' m)
      | inr r ↦
          let e' = (rw (p, r) at e) in (p, r, debit-IsWrittenAhead i.order_id o acts refl (cc) m)
    ]
    | inr p ↦ elim (Bool-cases i.raced) [
      | inl r ↦ let e' = (rw (p, r) at e) in cc
      | inr r ↦ let e' = (rw (p, r) at e) in ground arith
    ]
  ]

  checked-IsWrittenAhead :
      {F : Type 0} (r : Option StopReason) (taken : Bool) (v : Option (GuardrailResult F))
      (o : ChargeOutcome) (acts : List Act)
      → debit_checked i k row r taken v ≡ some (o, acts)
      → In debited acts
      → (r ≡ none)
        × (taken ≡ false)
        × (passes v ≡ true)
        × (i.raced ≡ false)
        × IsWrittenAhead i k row o acts
  unfolding debit_checked
  checked-IsWrittenAhead (some r) taken v o acts e m = absurd (not_idle _ o acts e m)
  checked-IsWrittenAhead none true v o acts e m = absurd (not_idle _ o acts e m)
  checked-IsWrittenAhead none false none o acts e m = cc
  checked-IsWrittenAhead none false (some g) o acts e m =
      let (p, q, w) = judged-IsWrittenAhead g o acts e m in (refl, refl, p, q, w)

-- A debit that the engine may do: the case is open, has attempts left and its customer has not
-- opted out, or it is closed for a reason in whose text the code reads a wait; no attempt bears the debit's key, nor did one come in between; a notice of the debit
-- went out 24 hours before or earlier and is in force; and the guardrail's policy permits a
-- payment now of the promised amount as the debit of a mandate.
pub record IsCollectable (host : Host) (cfg : Settings) (key : String) (i : DebitInputs)
    (c : RecoveryCase) (k : Kept) : Type 0 where
  pub unstopped : IsUnstopped c i.ledger
  pub key_free : attempt_exists key k.attempts ≡ false
  pub unraced : i.raced ≡ false
  pub forewarned : IsNotified cfg i.last_notification (aware i.now)
  pub approved :
      IsPermitted host cfg debit_action
        (debit_context cfg i c k.promise)
        (some key)
        c.attempts_used
        i.now_again
  pub of_promise : (debit_context cfg i c k.promise).amount ≡ k.promise.amount_promised

-- If `charge_promise_mandate` asks the gateway for a debit, then the debit was one that it may do:
-- see the record. The row of the attempt is committed before the order is made, the order's id
-- before the debit, the debit is asked for once, there is a commit after it, and the answer
-- is `charged` exactly if the gateway answered.
pub charge-IsCollectable :
    (host : Host) (cfg : Settings) (key : String) (i : DebitInputs) (c : RecoveryCase) (k : Kept)
    (o : ChargeOutcome) (acts : List Act)
    → charge_promise_mandate host cfg key i c k ≡ some (o, acts)
    → In debited acts
    → IsCollectable host cfg key i c k × IsWrittenAhead i k (debit_row key i c) o acts
unfolding charge_promise_mandate debit_context build_case_context
charge-IsCollectable host cfg key i c k o acts e m =
    let (stop, free, passed, unraced, ahead) =
      checked-IsWrittenAhead i k (debit_row key i c) _ _ _ o acts e m in
    let permit =
      (validate_permission host cfg debit_action (debit_context cfg i c k.promise) (some key)
          c.attempts_used i.now_again (λ q. cc)).0
        passed in
    (
      record {
        unstopped = firm_stop-IsUnstopped i.now c i.ledger stop;
        key_free = free;
        unraced = unraced;
        forewarned = permit.notified (inl refl);
        approved = permit;
        of_promise = refl;
      },
      ahead,
    )
