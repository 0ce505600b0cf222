-- ===== src/Orchestrator/FireTime.antt =====
-- What holds when an attempt from the schedule fires (`_fire_case_attempt` of src/scheduler.py).
use payment_recovery_engine.Prelude.{
  ℕ, ◌-◌, ◌<◌, Bool, true, false, Option, none, some, List, [], ◌∷◌, ◌++◌, inl, inr, ◌≡◌, ◌≢◌, sym,
  ◌∙◌, arith, Bool-cases, Option-cases, In,
}
use payment_recovery_engine.Settings.{Settings}
use payment_recovery_engine.Actions.{Host, ActionType, retry_at, abandon}
use payment_recovery_engine.Chasers.{RiskPolicy, policy_for}
use payment_recovery_engine.Guardrail.Gate.{GuardrailResult}
use payment_recovery_engine.Guardrail.Permission.{passes, IsPermitted, validate_permission}
use payment_recovery_engine.Cases.Model.{
  RecoveryCase, RetryAttempt, AttemptResult, RetryLedger, EventType, is_terminal,
}
use payment_recovery_engine.Cases.Lifecycle.{is_opted_out}
use payment_recovery_engine.Orchestrator.Execution.{
  Effect, committed, executed, Gateway, execute_case_and_record,
}
use payment_recovery_engine.Orchestrator.Progress.{
  IsResting, advance_ladder-IsResting, re_chase-pos,
}
use payment_recovery_engine.Orchestrator.Fire.{
  Parked, Firing, Fired, fired_action_type, mark, withheld, fired_action, is_stopped, fire_judged,
  fire_context, fire_verdict, fire_case_attempt,
}

pub fired_action_type-ready : (t : ActionType) → fired_action_type t ≢ retry_at
unfolding fired_action_type
fired_action_type-ready t e = ground arith

pub execute-call :
    (now : ℕ) (t u : ActionType) (g : Gateway) (row row' : RetryAttempt) (events : List EventType)
    (effects : List Effect)
    → execute_case_and_record now t g row ≡ some (row', events, effects)
    → In (executed u) (effects ++ committed ∷ [])
    → (t ≢ abandon) × (u ≡ t) × (effects ≡ committed ∷ executed t ∷ [])
unfolding execute_case_and_record
execute-call now t u g row row' events effects e m = ground arith

module _ {F : Type 0} (now : ℕ) (policy : RiskPolicy) (f : Firing) (p : Parked F) where
  fire_judged-call :
      (c : RecoveryCase) (v : Option (GuardrailResult F)) (r : Fired) (t : ActionType)
      → fire_judged now policy f p c v ≡ some r
      → In (executed t) r.effects
      → (passes v ≡ true)
        × (t ≢ abandon)
        × (t ≡ fired_action_type p.row.action_type)
        × (r.effects ≡ committed ∷ executed t ∷ committed ∷ [])
  unfolding fire_judged withheld
  fire_judged-call c none r t e m = cc
  fire_judged-call c (some g) r t e m = elim (Bool-cases g.passed) [
    | inr q ↦ ground (arith)
    | inl q ↦
        elim (Option-cases (
          execute_case_and_record f.now_again (fired_action_type p.row.action_type) f.gateway
            p.row)) [
              | inl x ↦ ground (arith)
              | inr ((row', events, effects), x) ↦ ground (
                arith,
                execute-call f.now_again (fired_action_type p.row.action_type) t f.gateway p.row
                    row' events effects x,
              )
            ]
  ]

-- A firing that the engine may do: the case has a policy and is still open, its customer has not
-- opted out, and the guardrail's policy permits the action as the case stands now.
pub record IsFireable (host : Host) (cfg : Settings) (now : ℕ) (f : Firing) (p : Parked host.Float)
    (c : RecoveryCase) : Type 0 where
  pub policy : RiskPolicy
  pub has_policy : policy_for c.risk_type ≡ some policy
  pub still_open : is_terminal c.state ≡ false
  pub consent : is_opted_out f.ledger ≡ false
  pub approved :
      IsPermitted host cfg
        (fired_action p)
        (fire_context host cfg now policy f c)
        (some p.row.idempotency_key)
        (p.row.attempt_number - 1)
        f.now_again

pub unstopped :
    (c : RecoveryCase) (ledger : Option RetryLedger)
    → is_stopped c ledger ≡ false
    → (is_terminal c.state ≡ false) × (is_opted_out ledger ≡ false)
unstopped c ledger h = ground arith

module _ (host : Host) (cfg : Settings) (now : ℕ) (f : Firing) (p : Parked host.Float)
    (c : RecoveryCase) where
  action-live :
      {t : ActionType}
      → t ≢ abandon
      → t ≡ fired_action_type p.row.action_type
      → (fired_action p).action ≢ abandon
  unfolding fired_action
  action-live live same e = live (same ∙ e)

  -- If the firing of a parked attempt calls the gateway, then it may: see the record. What is
  -- called is no deferred retry, since the wait is over, and the call is made once, with a commit
  -- before it and after it.
  pub fire_case_attempt-IsFireable :
      (r : Fired) (t : ActionType)
      → fire_case_attempt host cfg now f p (some c) ≡ some r
      → In (executed t) r.effects
      → IsFireable host cfg now f p c
        × (t ≡ fired_action_type p.row.action_type)
        × (t ≢ retry_at)
        × (r.effects ≡ committed ∷ executed t ∷ committed ∷ [])
  unfolding fire_case_attempt withheld
  fire_case_attempt-IsFireable r t e m = elim (Option-cases (policy_for c.risk_type)) [
    | inl q ↦ ground arith
    | inr (policy, q) ↦ elim (Bool-cases (is_stopped c f.ledger)) [
      | inl s ↦ ground arith
      | inr s ↦
          let (open_, willing) = unstopped c f.ledger s in
          let (passed, live, same, ahead) =
            fire_judged-call now policy f p c _ r t (rw (q, fire_case_attempt, s) at e) m in
          (
            record {
              policy = policy;
              has_policy = q;
              still_open = open_;
              consent = willing;
              approved =
                  (validate_permission host cfg (fired_action p)
                      (fire_context host cfg now policy f c) (some p.row.idempotency_key)
                      (p.row.attempt_number - 1) f.now_again (action-live live same)).0
                    passed;
            },
            same,
            (λ x. fired_action_type-ready p.row.action_type (sym same ∙ x)),
            ahead,
          )
    ]
  ]

-- An attempt that is over.
abbrev pub is_final : AttemptResult → Bool
is_final AttemptResult.pending = false
is_final AttemptResult.scheduled = false
is_final _ = true

execute-is_final :
    (now : ℕ) (t : ActionType) (g : Gateway) (row row' : RetryAttempt) (events : List EventType)
    (effects : List Effect)
    → execute_case_and_record now t g row ≡ some (row', events, effects)
    → is_final row'.result ≡ true
unfolding execute_case_and_record
execute-is_final now t g row row' events effects e = ground arith

-- The case that a firing leaves is closed, or due at a later time.
abbrev pub IsRestingCase : ℕ → Option RecoveryCase → Type 0
IsRestingCase now none = ⊥
IsRestingCase now (some c) = IsResting now c

module _ {F : Type 0} (now : ℕ) (policy : RiskPolicy) (f : Firing) (p : Parked F) where
  fire_judged-IsFinal :
      (c : RecoveryCase) (v : Option (GuardrailResult F)) (r : Fired)
      → 0 < policy.re_chase_hours
      → fire_judged now policy f p c v ≡ some r
      → (is_final r.row.result ≡ true) × (r.fired ≡ passes v) × IsRestingCase now r.case
  unfolding fire_judged withheld mark
  fire_judged-IsFinal c none r waits e = cc
  fire_judged-IsFinal c (some g) r waits e = elim (Bool-cases g.passed) [
    | inr q ↦ ground (arith, advance_ladder-IsResting now policy c waits)
    | inl q ↦
        elim (Option-cases (
          execute_case_and_record f.now_again (fired_action_type p.row.action_type) f.gateway
            p.row)) [
              | inl x ↦ ground (arith)
              | inr ((row', events, effects), x) ↦ ground (
                arith,
                advance_ladder-IsResting now policy c waits,
                execute-is_final f.now_again (fired_action_type p.row.action_type) f.gateway p.row
                    row' events effects x,
              )
            ]
  ]

module _ (host : Host) (cfg : Settings) (now : ℕ) (f : Firing) (p : Parked host.Float)
    (c : RecoveryCase) where
  -- A firing that does not raise, of an attempt of a case with a policy that nothing stopped, ends
  -- the attempt: its row is neither pending nor scheduled any more. It counts as fired exactly if
  -- the gate let the action through, and either way the case is left closed, or due at a later
  -- time, so the next sweep does not chase it again at once.
  pub fire_case_attempt-IsFinal :
      (r : Fired) (policy : RiskPolicy)
      → policy_for c.risk_type ≡ some policy
      → is_stopped c f.ledger ≡ false
      → fire_case_attempt host cfg now f p (some c) ≡ some r
      → (is_final r.row.result ≡ true)
        × (r.fired ≡ passes (fire_verdict host cfg now policy f p c))
        × IsRestingCase now r.case
  unfolding fire_case_attempt
  fire_case_attempt-IsFinal r policy q s e =
      fire_judged-IsFinal now policy f p c _ r (re_chase-pos c.risk_type policy q)
        (rw (q, fire_case_attempt, s) at e)
