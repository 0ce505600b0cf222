-- ===== src/Orchestrator/FirePaymentTime.antt =====
-- What holds when a parked attempt for a failed payment fires (`_fire_one` of src/scheduler.py).
use payment_recovery_engine.Prelude.{
  ℕ, ◌-◌, true, false, Option, none, some, [], ◌∷◌, inl, inr, ◌≡◌, ◌≢◌, refl, sym, ◌∙◌, arith,
  Bool-cases, Option-cases, In,
}
use payment_recovery_engine.Settings.{Settings}
use payment_recovery_engine.Actions.{Host, ActionType, retry_at, abandon}
use payment_recovery_engine.Guardrail.Gate.{GuardrailResult}
use payment_recovery_engine.Guardrail.Permission.{passes, IsPermitted, validate_permission}
use payment_recovery_engine.Cases.Model.{RecoveryCase, is_terminal}
use payment_recovery_engine.Cases.Lifecycle.{is_opted_out}
use payment_recovery_engine.Orchestrator.Execution.{committed, executed, execute_case_and_record}
use payment_recovery_engine.Orchestrator.Payment.{Declined, build_failure_context}
use payment_recovery_engine.Orchestrator.Fire.{
  Parked, Fired, fired_action, fired_action_type, withheld,
}
use payment_recovery_engine.Orchestrator.FireTime.{execute-call, fired_action_type-ready, unstopped}
use payment_recovery_engine.Orchestrator.FirePayment.{
  PaymentFiring, fired_payment_action, left, is_stopped_case, fire_approved, fire_payment_judged,
  fire_payment_attempt,
}

-- A firing for a payment that the engine may do: its case is there and still open, the customer has
-- not opted out, and the guardrail's policy permits the action as things stand now.
pub record IsPayable (host : Host) (cfg : Settings) (now : ℕ) (f : PaymentFiring)
    (p : Parked host.Float) (d : Declined) (case : Option RecoveryCase) : Type 0 where
  pub own_case : RecoveryCase
  pub has_case : case ≡ some own_case
  pub still_open : is_terminal own_case.state ≡ false
  pub consent : is_opted_out f.case_ledger ≡ false
  pub approved :
      IsPermitted host cfg
        (fired_payment_action p)
        (build_failure_context cfg now d f.ledger)
        (some p.row.idempotency_key)
        (p.row.attempt_number - 1)
        f.now_again

module _ {F : Type 0} (f : PaymentFiring) (p : Parked F) where
  fire_approved-call :
      (case : Option RecoveryCase) (r : Fired) (t : ActionType)
      → fire_approved f p case ≡ some r
      → In (executed t) r.effects
      → (case ≢ none)
        × (t ≢ abandon)
        × (t ≡ fired_action_type p.row.action_type)
        × (r.effects ≡ committed ∷ executed t ∷ committed ∷ [])
  unfolding fire_approved left
  fire_approved-call none r t e m = ground arith
  fire_approved-call (some c) r t e m =
      elim (Option-cases (
        execute_case_and_record f.now_again (fired_action_type p.row.action_type)
          (record f.gateway { voice = false }) p.row)) [
            | inl x ↦ ground arith
            | inr ((row', events, effects), x) ↦ ground (
              arith,
              execute-call f.now_again (fired_action_type p.row.action_type) t
                  (record f.gateway { voice = false }) p.row row' events effects x,
            )
          ]

  fire_payment_judged-call :
      (case : Option RecoveryCase) (v : Option (GuardrailResult F)) (r : Fired) (t : ActionType)
      → fire_payment_judged f p case v ≡ some r
      → In (executed t) r.effects
      → (passes v ≡ true)
        × (case ≢ none)
        × (t ≢ abandon)
        × (t ≡ fired_action_type p.row.action_type)
        × (r.effects ≡ committed ∷ executed t ∷ committed ∷ [])
  unfolding fire_payment_judged withheld
  fire_payment_judged-call case none r t e m = cc
  fire_payment_judged-call case (some g) r t e m = elim (Bool-cases g.passed) [
    | inr q ↦ ground arith
    | inl q ↦
        let (there, live, same, ahead) =
          fire_approved-call case r t (rw (q, fire_payment_judged) at e) m in
        (q, there, live, same, ahead)
  ]

module _ (host : Host) (cfg : Settings) (now : ℕ) (f : PaymentFiring) (p : Parked host.Float)
    (d : Declined) where
  payment_action-live :
      {t : ActionType}
      → t ≢ abandon
      → t ≡ fired_action_type p.row.action_type
      → (fired_payment_action p).action ≢ abandon
  unfolding fired_payment_action fired_action
  payment_action-live live same e = live (same ∙ e)

  -- If the firing of a parked attempt for a failed payment calls the gateway, then it may: see the
  -- record. What is called is no deferred retry, and the call is made once, with a commit before
  -- it and after it.
  pub fire_payment_attempt-IsPayable :
      (case : Option RecoveryCase) (r : Fired) (t : ActionType)
      → fire_payment_attempt host cfg now f p (some d) case ≡ some r
      → In (executed t) r.effects
      → IsPayable host cfg now f p d case
        × (t ≢ retry_at)
        × (r.effects ≡ committed ∷ executed t ∷ committed ∷ [])
  unfolding fire_payment_attempt withheld
  fire_payment_attempt-IsPayable none r t e m =
      let (passed, there, live, same, ahead) = fire_payment_judged-call f p none _ r t e m in
      absurd (there refl)
  fire_payment_attempt-IsPayable (some c) r t e m =
      elim (Bool-cases (is_stopped_case (some c) f.case_ledger)) [
        | inl s ↦ ground arith
        | inr s ↦
            let (open_, willing) = unstopped c f.case_ledger s in
            let (passed, there, live, same, ahead) =
              fire_payment_judged-call f p (some c) _ r t (rw (fire_payment_attempt, s) at e) m in
            (
              record {
                own_case = c;
                has_case = refl;
                still_open = open_;
                consent = willing;
                approved =
                    (validate_permission host cfg (fired_payment_action p)
                        (build_failure_context cfg now d f.ledger) (some p.row.idempotency_key)
                        (p.row.attempt_number - 1) f.now_again (payment_action-live live same)).0
                      passed;
              },
              (λ x. fired_action_type-ready p.row.action_type (sym same ∙ x)),
              ahead,
            )
      ]
