-- ===== src/Orchestrator/Budget.antt =====
-- The attempts of a case over any number of chases (`chase_case` of src/orchestrator.py).
use payment_recovery_engine.Prelude.{
  ℕ, ◌+◌, ◌-◌, ◌≤◌, Bool, true, false, Option, none, some, List, [], ◌∷◌, ◌++◌, sum_by, inl, inr,
  ◌⊎◌, ◌≡◌, refl, arith, Bool-cases, Option-cases,
}
use payment_recovery_engine.Settings.{Settings}
use payment_recovery_engine.Actions.{Host, ActionType, RetryAction}
use payment_recovery_engine.Chasers.{RiskPolicy, policy_for}
use payment_recovery_engine.Guardrail.Gate.{GuardrailResult}
use payment_recovery_engine.Cases.Model.{
  RecoveryCase, RetryAttempt, AttemptResult, RetryLedger, EventType,
}
use payment_recovery_engine.Cases.Lifecycle.{StopReason, close_case, stop_reason, attach_attempt}
use payment_recovery_engine.Cases.Stops.{stop_reason-none}
use payment_recovery_engine.Orchestrator.Execution.{
  Effect, committed, executed, Outcome, Gateway, execute_case_and_record, advance_ladder,
}
use payment_recovery_engine.Orchestrator.Chase.{
  Inputs, hold, act, chase_case, carry_out, judged, keyed, locked, gated, finish, schedule,
  scheduled_time,
}

-- Whether a step made an attempt: its row is kept.
abbrev pub attempts_made : Outcome → ℕ
attempts_made o = elim o.row [ none ↦ 0 | some r ↦ 1 ]

abbrev is_call : Effect → ℕ
is_call (executed t) = 1
is_call _ = 0

-- How often a step called the gateway.
abbrev pub calls_made : Outcome → ℕ
calls_made o = sum_by is_call o.effects

-- A step counts its attempt on the case, and makes one only if the budget has one left;
-- it calls the gateway for an attempt only.
abbrev pub IsCounted : RecoveryCase → Outcome → Type 0
IsCounted c o =
    (o.case.max_attempts ≡ c.max_attempts)
    × (o.case.attempts_used ≡ c.attempts_used + attempts_made o)
    × ((attempts_made o ≡ 0) ⊎ (o.case.attempts_used ≤ c.max_attempts))
    × (calls_made o ≤ attempts_made o)

advance_ladder-attempts :
    (now : ℕ) (policy : RiskPolicy) (c : RecoveryCase)
    → let c' = (advance_ladder now policy c).0 in
      (c'.attempts_used ≡ c.attempts_used) × (c'.max_attempts ≡ c.max_attempts)
unfolding advance_ladder close_case
advance_ladder-attempts now policy c = ground arith

attach_attempt-attempts :
    (cfg : Settings) (now : ℕ) (t : ActionType) (c : RecoveryCase)
    → let c' = attach_attempt cfg now t c in
      (c'.attempts_used ≡ c.attempts_used + 1) × (c'.max_attempts ≡ c.max_attempts)
unfolding attach_attempt
attach_attempt-attempts cfg now t c = ground arith

hold-IsCounted :
    (cfg : Settings) (now : ℕ) (policy : RiskPolicy) (latest : Option AttemptResult)
    (dispute_open : Bool) (ledger : Option RetryLedger) (c : RecoveryCase) (o : Outcome)
    → hold cfg now policy latest dispute_open ledger c ≡ some o
    → IsCounted c o
unfolding hold close_case
hold-IsCounted cfg now policy latest dispute_open ledger c o e = ground arith

execute-calls :
    (now : ℕ) (t : ActionType) (g : Gateway) (row row' : RetryAttempt) (events : List EventType)
    (effects : List Effect)
    → execute_case_and_record now t g row ≡ some (row', events, effects)
    → sum_by is_call (effects ++ committed ∷ []) ≤ 1
unfolding execute_case_and_record
execute-calls now t g row row' events effects e = ground arith

-- A step that has spent one attempt of a case, kept its row and called the gateway at most once.
abbrev Spends : ℕ → ℕ → Outcome → Type 0
Spends used limit o =
    (o.case.attempts_used ≡ used)
    × (o.case.max_attempts ≡ limit)
    × (attempts_made o ≡ 1)
    × (calls_made o ≤ 1)

module _ {F : Type 0} (cfg : Settings) (now : ℕ) (policy : RiskPolicy) (i : Inputs F) where
  carry_out-Spends :
      (a : RetryAction F) (c : RecoveryCase) (row : RetryAttempt) (o : Outcome)
      → carry_out cfg now policy i a c row ≡ some o
      → Spends c.attempts_used c.max_attempts o
  unfolding carry_out finish schedule
  carry_out-Spends a c row o e = elim (Option-cases (scheduled_time a)) [
    | inr (t, q) ↦ ground arith
    | inl q ↦ elim (Option-cases (execute_case_and_record i.now_again a.action i.gateway row)) [
      | inl x ↦ ground arith
      | inr ((row', events, effects), x) ↦ ground (
        arith,
        advance_ladder-attempts now policy c,
        execute-calls i.now_again a.action i.gateway row row' events effects x,
      )
    ]
  ]

  judged-Spends :
      (a : RetryAction F) (g : GuardrailResult F) (o : Outcome)
      → judged cfg now policy i a g ≡ some o
      → Spends (i.fresh_case.attempts_used + 1) i.fresh_case.max_attempts o
  unfolding judged finish
  judged-Spends a g o e =
      let spent = attach_attempt-attempts cfg i.now_again a.action i.fresh_case in
      elim (Bool-cases g.passed) [
        | inl p ↦ ground (arith, spent, carry_out-Spends a _ _ o (rw (p, judged) at e))
        | inr p ↦
            let k : some _ ≡ some o = rw (p, judged) at e in
            ground (
              arith,
              k,
              spent,
              advance_ladder-attempts now policy
                  (attach_attempt cfg i.now_again a.action i.fresh_case),
            )
      ]

  keyed-IsCounted :
      (c : RecoveryCase) (a : RetryAction F) (taken : Bool) (r : Option StopReason)
      (v : Option (GuardrailResult F)) (o : Outcome)
      → i.fresh_case ≡ c
      → stop_reason i.now_again i.fresh_case i.fresh_ledger ≡ r
      → keyed cfg now policy i c a taken r v ≡ some o
      → IsCounted c o
  unfolding keyed locked gated
  keyed-IsCounted c a true r v o same q e = ground arith
  keyed-IsCounted c a false (some r) v o same q e = ground arith
  keyed-IsCounted c a false none none o same q e = cc
  keyed-IsCounted c a false none (some g) o same q e =
      ground (
        arith,
        judged-Spends a g o e,
        (stop_reason-none i.now_again i.fresh_case i.fresh_ledger).0 q,
      )

module _ (host : Host) (cfg : Settings) where
  chase_case-IsCounted :
      (now : ℕ) (i : Inputs host.Float) (c : RecoveryCase) (o : Outcome)
      → i.fresh_case ≡ c
      → chase_case host cfg now i c ≡ some o
      → IsCounted c o
  unfolding chase_case act
  chase_case-IsCounted now i c o same e = elim (Option-cases (policy_for c.risk_type)) [
    | inl q ↦ ground arith
    | inr (policy, q) ↦
        elim (Option-cases (hold cfg now policy i.latest i.dispute_open i.ledger c)) [
          | inr (o', h) ↦
              let k : some o' ≡ some o = rw (q, chase_case, h) at e in
              ground
                (arith, k, hold-IsCounted cfg now policy i.latest i.dispute_open i.ledger c o' h)
          | inl h ↦
              keyed-IsCounted cfg now policy i c _ i.key_taken _ _ o same refl
                (rw (q, chase_case, h) at e)
        ]
  ]

  -- Chases of one case one after the other, each with its own time and inputs, where nobody else
  -- writes to the case while a chase decides.
  pub data Chases : RecoveryCase → List Outcome → RecoveryCase → Type 0 where
    idle : {c : RecoveryCase} → Chases c [] c
    chase :
        {c c' : RecoveryCase} {os : List Outcome} (now : ℕ) (i : Inputs host.Float) (o : Outcome)
        → i.fresh_case ≡ c
        → chase_case host cfg now i c ≡ some o
        → Chases o.case os c'
        → Chases c (o ∷ os) c'

  Chases-count :
      {c c' : RecoveryCase} {os : List Outcome}
      → Chases c os c'
      → (c'.max_attempts ≡ c.max_attempts)
        × (c'.attempts_used ≡ c.attempts_used + sum_by attempts_made os)
        × ((sum_by attempts_made os ≡ 0) ⊎ (c'.attempts_used ≤ c.max_attempts))
        × (sum_by calls_made os ≤ sum_by attempts_made os)
  Chases-count idle = ground arith
  Chases-count {c = c} (chase now i o same e rest) =
      ground (arith, chase_case-IsCounted now i c o same e, Chases-count rest)

  -- However often a case is chased, one chase after the other, it counts every attempt that was
  -- made, no more are made than its budget had left, and the gateway is called at most once for
  -- each.
  pub Chases-bounded :
      (c c' : RecoveryCase) (os : List Outcome)
      → Chases c os c'
      → (c'.attempts_used ≡ c.attempts_used + sum_by attempts_made os)
        × (sum_by attempts_made os ≤ c.max_attempts - c.attempts_used)
        × (sum_by calls_made os ≤ sum_by attempts_made os)
  Chases-bounded c c' os h = ground (arith, Chases-count h)
