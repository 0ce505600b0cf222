-- ===== src/Orchestrator/Safety.antt =====
-- When a chase calls the gateway (`chase_case` of src/orchestrator.py).
use payment_recovery_engine.Prelude.{
  ℕ, Bool, true, false, Option, none, some, List, [], ◌∷◌, ◌++◌, inl, inr, ◌≡◌, ◌≢◌, refl, sym, ap,
  subst, ◌∙◌, arith, Bool-cases, Option-cases, In,
}
use payment_recovery_engine.Settings.{Settings}
use payment_recovery_engine.Actions.{Host, ActionType, abandon, RetryAction, FailureContext}
use payment_recovery_engine.Chasers.{RiskPolicy, policy_for}
use payment_recovery_engine.Guardrail.Gate.{GuardrailResult}
use payment_recovery_engine.Guardrail.Permission.{passes, IsPermitted, validate_permission}
use payment_recovery_engine.Cases.Model.{RecoveryCase, RetryAttempt, EventType}
use payment_recovery_engine.Cases.Lifecycle.{StopReason, stop_reason}
use payment_recovery_engine.Orchestrator.Context.{build_case_context, refresh_counts, prepare}
use payment_recovery_engine.Orchestrator.Execution.{
  Effect, committed, decided, executed, Outcome, Gateway, execute_case_and_record,
}
use payment_recovery_engine.Orchestrator.Chase.{
  Inputs, hold, act, chase_case, carry_out, judged, keyed, locked, gated, finish,
}
use payment_recovery_engine.Orchestrator.Guards.{IsChaseable, hold-IsChaseable, hold-committed}

-- The gateway is called once, after the row of the attempt was committed.
abbrev pub written_ahead : ActionType → List Effect
written_ahead t = committed ∷ decided ∷ committed ∷ executed t ∷ committed ∷ []

pub execute-written_ahead :
    (now : ℕ) (t u : ActionType) (g : Gateway) (row row' : RetryAttempt) (events : List EventType)
    (effects : List Effect)
    → execute_case_and_record now t g row ≡ some (row', events, effects)
    → In (executed u) (committed ∷ decided ∷ effects ++ committed ∷ [])
    → (t ≢ abandon) × (u ≡ t) × (effects ≡ committed ∷ executed t ∷ [])
unfolding execute_case_and_record
execute-written_ahead now t u g row row' events effects e m = ground arith

abbrev effects_of : Option Outcome → List Effect
effects_of none = []
effects_of (some o) = o.effects

-- The gateway is not called by a step that only commits and decides.
pub unexecuted :
    {P : Type 0} (t : ActionType) (o o' : Outcome)
    → o'.effects ≡ committed ∷ decided ∷ committed ∷ []
    → some o' ≡ some o
    → In (executed t) o.effects
    → P
unexecuted t o o' q e m = absurd (never (subst (In (executed t)) (sym (ap effects_of e) ∙ q) m))
  where
    never : In (executed t) (committed ∷ decided ∷ committed ∷ []) → ⊥
    never m = ground arith

module _ {F : Type 0} (cfg : Settings) (now : ℕ) (policy : RiskPolicy) (i : Inputs F) where
  carry_out-written_ahead :
      (a : RetryAction F) (c : RecoveryCase) (row : RetryAttempt) (o : Outcome) (t : ActionType)
      → carry_out cfg now policy i a c row ≡ some o
      → In (executed t) o.effects
      → (a.action ≢ abandon) × (t ≡ a.action) × (o.effects ≡ written_ahead t)
  unfolding carry_out finish
  carry_out-written_ahead a c row o t e m =
      elim (Option-cases (execute_case_and_record i.now_again a.action i.gateway row)) [
        | inl q ↦ ground arith
        | inr ((row', events, effects), q) ↦ ground (
          arith,
          execute-written_ahead i.now_again a.action t i.gateway row row' events effects q,
        )
      ]

  judged-written_ahead :
      (a : RetryAction F) (g : GuardrailResult F) (o : Outcome) (t : ActionType)
      → judged cfg now policy i a g ≡ some o
      → In (executed t) o.effects
      → (g.passed ≡ true) × (a.action ≢ abandon) × (t ≡ a.action) × (o.effects ≡ written_ahead t)
  unfolding judged finish
  judged-written_ahead a g o t e m = elim (Bool-cases g.passed) [
    | inl p ↦
        let (live, same, ahead) = carry_out-written_ahead a _ _ o t (rw (p, judged) at e) m in
        (p, live, same, ahead)
    | inr p ↦ unexecuted t o _ refl (rw (p, judged) at e) m
  ]

  keyed-written_ahead :
      (c : RecoveryCase) (a : RetryAction F) (taken : Bool) (r : Option StopReason)
      (v : Option (GuardrailResult F)) (o : Outcome) (t : ActionType)
      → keyed cfg now policy i c a taken r v ≡ some o
      → In (executed t) o.effects
      → (taken ≡ false)
        × (r ≡ none)
        × (passes v ≡ true)
        × (a.action ≢ abandon)
        × (t ≡ a.action)
        × (o.effects ≡ written_ahead t)
  unfolding keyed locked gated
  keyed-written_ahead c a true r v o t e m = unexecuted t o _ refl e m
  keyed-written_ahead c a false (some r) v o t e m = unexecuted t o _ refl e m
  keyed-written_ahead c a false none none o t e m = cc
  keyed-written_ahead c a false none (some g) o t e m =
      let (passed, live, same, ahead) = judged-written_ahead a g o t e m in
      (refl, refl, passed, live, same, ahead)

-- An execution that the engine may do: the case could be chased, the key of the attempt was free,
-- nothing stopped the case when it was read again under the lock, and the guardrail's policy
-- permits the action, with the counters as they were read again.
pub record IsAuthorised (host : Host) (cfg : Settings) (now : ℕ) (i : Inputs host.Float)
    (c : RecoveryCase) (t : ActionType) : Type 0 where
  pub policy : RiskPolicy
  pub has_policy : policy_for c.risk_type ≡ some policy
  pub chaseable : IsChaseable cfg now policy i.latest i.dispute_open i.ledger c
  pub key_free : i.key_taken ≡ false
  pub still_allowed : stop_reason i.now_again i.fresh_case i.fresh_ledger ≡ none
  pub approved :
      (a : RetryAction host.Float) × (t ≡ a.action)
      × IsPermitted host cfg a
          (refresh_counts cfg i.now_again i.fresh_ledger
            (build_case_context cfg now c policy i.ledger i.last_notification))
          (some i.key)
          i.fresh_case.attempts_used
          i.now_again

module _ (host : Host) (cfg : Settings) (now : ℕ) (i : Inputs host.Float) (c : RecoveryCase) where
  act-IsAuthorised :
      (policy : RiskPolicy) (o : Outcome) (t : ActionType)
      → policy_for c.risk_type ≡ some policy
      → IsChaseable cfg now policy i.latest i.dispute_open i.ledger c
      → act host cfg now policy i c ≡ some o
      → In (executed t) o.effects
      → IsAuthorised host cfg now i c t × (o.effects ≡ written_ahead t)
  unfolding act
  act-IsAuthorised policy o t known ready e m =
      let (k, q, passed, live, same, ahead) =
        keyed-written_ahead cfg now policy i c action i.key_taken _ _ o t e m in
      (
        record {
          policy = policy;
          has_policy = known;
          chaseable = ready;
          key_free = k;
          still_allowed = q;
          approved = (
            action,
            same,
            (validate_permission host cfg action context (some i.key) i.fresh_case.attempts_used
                  i.now_again live).0
                passed,
          );
        },
        ahead,
      )
    where
      context : FailureContext
      context =
          refresh_counts cfg i.now_again i.fresh_ledger
            (build_case_context cfg now c policy i.ledger i.last_notification)

      action : RetryAction host.Float
      action =
          prepare host cfg i.around now policy
            (build_case_context cfg now c policy i.ledger i.last_notification) i.decision

  -- If a chase calls the gateway with an action, then it was authorised to: see the record. The
  -- chase has committed the attempt's row before the call, calls it once and commits again after
  -- it.
  pub chase_case-IsAuthorised :
      (o : Outcome) (t : ActionType)
      → chase_case host cfg now i c ≡ some o
      → In (executed t) o.effects
      → IsAuthorised host cfg now i c t × (o.effects ≡ written_ahead t)
  unfolding chase_case
  chase_case-IsAuthorised o t e m = elim (Option-cases (policy_for c.risk_type)) [
    | inl q ↦ ground arith
    | inr (policy, q) ↦
        elim (Option-cases (hold cfg now policy i.latest i.dispute_open i.ledger c)) [
          | inl h ↦
              act-IsAuthorised policy o t q (hold-IsChaseable cfg now policy _ _ _ c h)
                (rw (q, chase_case, h) at e) m
          | inr (o', h) ↦ ground (arith, hold-committed cfg now policy _ _ _ c o' h)
        ]
  ]
