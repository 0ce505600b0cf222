-- ===== src/Orchestrator/PaymentSafety.antt =====
-- When the handling of a failed payment calls the gateway (`process_payment_failure` of
-- src/orchestrator.py).
use payment_recovery_engine.Prelude.{
  ℕ, Bool, true, false, Option, none, some, inl, inr, ◌≡◌, ◌≢◌, refl, arith, Bool-cases,
  Option-cases, In,
}
use payment_recovery_engine.Settings.{Settings}
use payment_recovery_engine.Classifier.Taxonomy.{is_hard_decline}
use payment_recovery_engine.Actions.{Host, ActionType, abandon, RetryAction, FailureContext}
use payment_recovery_engine.Guardrail.Gate.{GuardrailResult}
use payment_recovery_engine.Guardrail.Permission.{passes, IsPermitted, validate_permission}
use payment_recovery_engine.Cases.Model.{RecoveryCase, RetryAttempt}
use payment_recovery_engine.Cases.Lifecycle.{StopReason, stop_reason}
use payment_recovery_engine.Orchestrator.Context.{refresh_counts, prepare_payment}
use payment_recovery_engine.Orchestrator.Execution.{executed, Outcome, execute_case_and_record}
use payment_recovery_engine.Orchestrator.Chase.{scheduled_time}
use payment_recovery_engine.Orchestrator.Safety.{written_ahead, execute-written_ahead, unexecuted}
use payment_recovery_engine.Orchestrator.Payment.{
  Declined, PaymentInputs, build_failure_context, give_up, carry_out_payment, judged_payment,
  keyed_payment, act_payment, process_payment_failure,
}

module _ {F : Type 0} (cfg : Settings) (i : PaymentInputs F) where
  carry_out_payment-written_ahead :
      (a : RetryAction F) (c : RecoveryCase) (row : RetryAttempt) (o : Outcome) (t : ActionType)
      → carry_out_payment cfg i a c row ≡ some o
      → In (executed t) o.effects
      → (a.action ≢ abandon) × (t ≡ a.action) × (o.effects ≡ written_ahead t)
  unfolding carry_out_payment
  carry_out_payment-written_ahead a c row o t e m = elim (Option-cases (scheduled_time a)) [
    | inr (at_, q) ↦ ground arith
    | inl q ↦
        elim (Option-cases
          (execute_case_and_record i.now_again a.action (record i.gateway { voice = false }) row)) [
            | inl x ↦ ground arith
            | inr ((row', events, effects), x) ↦ ground (
              arith,
              execute-written_ahead i.now_again a.action t (record i.gateway { voice = false }) row
                  row' events effects x,
            )
          ]
  ]

  judged_payment-written_ahead :
      (a : RetryAction F) (g : GuardrailResult F) (o : Outcome) (t : ActionType)
      → judged_payment cfg i a g ≡ some o
      → In (executed t) o.effects
      → (g.passed ≡ true) × (a.action ≢ abandon) × (t ≡ a.action) × (o.effects ≡ written_ahead t)
  unfolding judged_payment
  judged_payment-written_ahead a g o t e m = elim (Bool-cases g.passed) [
    | inl p ↦
        let (live, same, ahead) =
          carry_out_payment-written_ahead a _ _ o t (rw (p, judged_payment) at e) m in
        (p, live, same, ahead)
    | inr p ↦ unexecuted t o _ refl (rw (p, judged_payment) at e) m
  ]

  keyed_payment-written_ahead :
      (c : RecoveryCase) (a : RetryAction F) (taken : Bool) (r : Option StopReason)
      (v : Option (GuardrailResult F)) (o : Outcome) (t : ActionType)
      → keyed_payment cfg i c a taken r v ≡ some o
      → In (executed t) o.effects
      → (taken ≡ false)
        × (r ≡ none)
        × (passes v ≡ true)
        × (a.action ≢ abandon)
        × (t ≡ a.action)
        × (o.effects ≡ written_ahead t)
  unfolding keyed_payment
  keyed_payment-written_ahead c a true r v o t e m = unexecuted t o _ refl e m
  keyed_payment-written_ahead c a false (some r) v o t e m = unexecuted t o _ refl e m
  keyed_payment-written_ahead c a false none none o t e m = cc
  keyed_payment-written_ahead c a false none (some g) o t e m =
      let (passed, live, same, ahead) = judged_payment-written_ahead a g o t e m in
      (refl, refl, passed, live, same, ahead)

-- A retry of a failed payment that the engine may do: the failure is no hard decline, nothing
-- stopped the case before the agent was asked nor after, under the lock, the key of the attempt
-- was free, and the guardrail's policy permits the action with the counters as read again.
pub record IsRetryable (host : Host) (cfg : Settings) (now : ℕ) (d : Declined)
    (i : PaymentInputs host.Float) (c : RecoveryCase) (t : ActionType) : Type 0 where
  pub soft : is_hard_decline d.failure_class ≡ false
  pub allowed : stop_reason now c i.ledger ≡ none
  pub key_free : i.key_taken ≡ false
  pub still_allowed : stop_reason i.now_again i.fresh_case i.fresh_ledger ≡ none
  pub approved :
      (a : RetryAction host.Float) × (t ≡ a.action)
      × IsPermitted host cfg a
          (refresh_counts cfg i.now_again i.fresh_ledger (build_failure_context cfg now d i.ledger))
          (some i.key)
          i.attempt_count
          i.now_again

module _ (host : Host) (cfg : Settings) (now : ℕ) (d : Declined) (i : PaymentInputs host.Float)
    (c : RecoveryCase) where
  act_payment-IsRetryable :
      (o : Outcome) (t : ActionType)
      → is_hard_decline d.failure_class ≡ false
      → stop_reason now c i.ledger ≡ none
      → act_payment host cfg now d i c ≡ some o
      → In (executed t) o.effects
      → IsRetryable host cfg now d i c t × (o.effects ≡ written_ahead t)
  unfolding act_payment
  act_payment-IsRetryable o t soft go e m =
      let (k, q, passed, live, same, ahead) =
        keyed_payment-written_ahead cfg i c action i.key_taken _ _ o t e m in
      (
        record {
          soft = soft;
          allowed = go;
          key_free = k;
          still_allowed = q;
          approved = (
            action,
            same,
            (validate_permission host cfg action context (some i.key) i.attempt_count i.now_again
                  live).0
                passed,
          );
        },
        ahead,
      )
    where
      context : FailureContext
      context =
          refresh_counts cfg i.now_again i.fresh_ledger (build_failure_context cfg now d i.ledger)

      action : RetryAction host.Float
      action =
          prepare_payment host cfg i.around (build_failure_context cfg now d i.ledger) i.decision

  -- If the handling of a failed payment calls the gateway, then the retry was allowed: see the
  -- record. The attempt's row is committed before the call, the call is made once, and there is a
  -- commit after it.
  pub process_payment_failure-IsRetryable :
      (o : Outcome) (t : ActionType)
      → process_payment_failure host cfg now d i c ≡ some o
      → In (executed t) o.effects
      → IsRetryable host cfg now d i c t × (o.effects ≡ written_ahead t)
  unfolding process_payment_failure give_up
  process_payment_failure-IsRetryable o t e m =
      elim (Bool-cases (is_hard_decline d.failure_class)) [
        | inl q ↦ ground arith
        | inr q ↦ elim (Option-cases (stop_reason now c i.ledger)) [
          | inr (r, s) ↦ ground arith
          | inl s ↦ act_payment-IsRetryable o t q s (rw (q, process_payment_failure, s) at e) m
        ]
      ]
