-- ===== src/Orchestrator/Progress.antt =====
-- A chase leaves its case closed, or due at a later time (`chase_case` of src/orchestrator.py).
use payment_recovery_engine.Prelude.{
  ℕ, ◌<◌, Bool, true, false, Option, none, some, inl, inr, ◌⊎◌, ◌≡◌, ◌≢◌, subst, arith, Bool-cases,
  Option-cases,
}
use payment_recovery_engine.Clock.{Timestamp, naive, aware, to_utc}
use payment_recovery_engine.Settings.{Settings}
use payment_recovery_engine.Actions.{
  Host, ActionType, retry_at, RetryAction, RiskType, payment_failure, checkout_abandonment,
}
use payment_recovery_engine.Chasers.{RiskPolicy, policy_for}
use payment_recovery_engine.Guardrail.Blackout.{clamp-later}
use payment_recovery_engine.Guardrail.Gate.{GuardrailResult, validate}
use payment_recovery_engine.Receivables.Hours.{next_b2b_window_later}
use payment_recovery_engine.Cases.Model.{
  RecoveryCase, RetryAttempt, AttemptResult, RetryLedger, is_terminal,
}
use payment_recovery_engine.Cases.Lifecycle.{StopReason, close_case, stop_reason, attach_attempt}
use payment_recovery_engine.Prelude.{String}
use payment_recovery_engine.Actions.{FailureContext, abandon}
use payment_recovery_engine.Guardrail.Permission.{passes, validate_permission, IsTimely}
use payment_recovery_engine.Orchestrator.Execution.{
  Outcome, execute_case_and_record, advance_ladder,
}
use payment_recovery_engine.Orchestrator.Chase.{
  Inputs, hold, act, chase_case, carry_out, judged, keyed, locked, gated, finish, schedule,
  scheduled_time,
}

-- There is a time, and it is still to come.
abbrev pub IsAfter : ℕ → Option ℕ → Type 0
IsAfter now none = ⊥
IsAfter now (some t) = now < t

-- The case is closed, or it is due at a later time.
abbrev pub IsResting : ℕ → RecoveryCase → Type 0
IsResting now c = (is_terminal c.state ≡ true) ⊎ IsAfter now c.next_action_at

-- Every policy waits between two contacts.
pub re_chase-pos :
    (r : RiskType) (policy : RiskPolicy) → policy_for r ≡ some policy → 0 < policy.re_chase_hours
unfolding policy_for
re_chase-pos payment_failure policy e = cc
re_chase-pos checkout_abandonment policy e = ground arith
re_chase-pos _ policy e = ground arith

pub advance_ladder-IsResting :
    (now : ℕ) (policy : RiskPolicy) (c : RecoveryCase)
    → 0 < policy.re_chase_hours
    → IsResting now (advance_ladder now policy c).0
unfolding advance_ladder close_case
advance_ladder-IsResting now policy c h = ground arith

-- A step that the guards end leaves the case closed or due later, if nothing stopped it.
hold-IsResting :
    (cfg : Settings) (now : ℕ) (policy : RiskPolicy) (latest : Option AttemptResult)
    (dispute_open : Bool) (ledger : Option RetryLedger) (c : RecoveryCase) (o : Outcome)
    → cfg.retry_blackout_end_hour < 24
    → 0 < policy.re_chase_hours
    → stop_reason now c ledger ≡ none
    → hold cfg now policy latest dispute_open ledger c ≡ some o
    → IsResting now o.case
unfolding hold close_case
hold-IsResting cfg now policy latest dispute_open ledger c o h pos go e =
    ground (arith, next_b2b_window_later now, clamp-later cfg now h)

module _ {F : Type 0} (cfg : Settings) (now : ℕ) (policy : RiskPolicy) (i : Inputs F)
    (waits : 0 < policy.re_chase_hours) where
  carry_out-IsResting :
      (a : RetryAction F) (c : RecoveryCase) (row : RetryAttempt) (o : Outcome)
      → ((t : Timestamp) → scheduled_time a ≡ some t → now < to_utc t)
      → carry_out cfg now policy i a c row ≡ some o
      → IsResting now o.case
  unfolding carry_out finish schedule
  carry_out-IsResting a c row o later e = elim (Option-cases (scheduled_time a)) [
    | inr (t, q) ↦ ground (arith, later t q)
    | inl q ↦ elim (Option-cases (execute_case_and_record i.now_again a.action i.gateway row)) [
      | inl x ↦ ground arith
      | inr ((row', events, effects), x) ↦
          ground (arith, advance_ladder-IsResting now policy c waits)
    ]
  ]

  judged-IsResting :
      (a : RetryAction F) (g : GuardrailResult F) (o : Outcome)
      → ((t : Timestamp) → scheduled_time a ≡ some t → g.passed ≡ true → now < to_utc t)
      → judged cfg now policy i a g ≡ some o
      → IsResting now o.case
  unfolding judged finish
  judged-IsResting a g o later e = elim (Bool-cases g.passed) [
    | inl p ↦ carry_out-IsResting a _ _ o (λ t q. later t q p) (rw (p, judged) at e)
    | inr p ↦
        let k : some _ ≡ some o = rw (p, judged) at e in
        ground (
          arith,
          advance_ladder-IsResting now policy (attach_attempt cfg i.now_again a.action i.fresh_case)
              waits,
        )
  ]

  keyed-IsResting :
      (c : RecoveryCase) (a : RetryAction F) (taken : Bool) (r : Option StopReason)
      (v : Option (GuardrailResult F)) (o : Outcome)
      → taken ≡ false
      → r ≡ none
      → ((t : Timestamp) → scheduled_time a ≡ some t → passes v ≡ true → now < to_utc t)
      → keyed cfg now policy i c a taken r v ≡ some o
      → IsResting now o.case
  unfolding keyed locked gated
  keyed-IsResting c a true r v o h q later e = absurd (differ h)
    where
      differ : true ≡ false → ⊥
      differ h = cc
  keyed-IsResting c a false (some r) v o h q later e = absurd (some-ne q)
    where
      some-ne : some r ≡ none → ⊥
      some-ne q = cc
  keyed-IsResting c a false none none o h q later e = absurd (never e)
    where
      never : none ≡ some o → ⊥
      never e = cc
  keyed-IsResting c a false none (some g) o h q later e = judged-IsResting a g o later e

scheduled_time-retry_at :
    {F : Type 0} (a : RetryAction F) (t : Timestamp)
    → scheduled_time a ≡ some t
    → (a.action ≡ retry_at) × (a.retry_at_time ≡ some t)
unfolding scheduled_time
scheduled_time-retry_at a t e = ground arith

retry-live : {t : ActionType} → t ≡ retry_at → t ≢ abandon
retry-live e q = cc

timely-later : {now now' : ℕ} (t : Timestamp) → now < now' → IsTimely (some t) now' → now < to_utc t
timely-later (naive t) lt h = absurd h
timely-later (aware t) lt h = omega (arith, lt, h)

module _ (host : Host) (cfg : Settings) (now : ℕ) (i : Inputs host.Float) (c : RecoveryCase) where
  -- A deferred retry that the gate lets through is for a time that is still to come.
  scheduled-later :
      (a : RetryAction host.Float) (ctx : FailureContext) (key : Option String) (n : ℕ)
      (t : Timestamp)
      → now < i.now_again
      → scheduled_time a ≡ some t
      → passes (validate host cfg a ctx key n i.now_again) ≡ true
      → now < to_utc t
  scheduled-later a ctx key n t lt e p =
      let (act, time) = scheduled_time-retry_at a t e in
      let permit = (validate_permission host cfg a ctx key n i.now_again (retry-live act)).0 p in
      timely-later t lt
        (subst (λ x. IsTimely x i.now_again) time (permit.valid_action.time_given act))

  -- If nothing stops the case and the key of the attempt is free, then a chase of a case with a
  -- policy that does not raise leaves the case closed, or due at a later time: it is never left to
  -- be chased again at once, nor forgotten. The clock has moved on when it is read again, and the
  -- end of the quiet hours is an hour of the day.
  pub chase_case-IsResting :
      (policy : RiskPolicy) (o : Outcome)
      → cfg.retry_blackout_end_hour < 24
      → now < i.now_again
      → policy_for c.risk_type ≡ some policy
      → stop_reason now c i.ledger ≡ none
      → stop_reason i.now_again i.fresh_case i.fresh_ledger ≡ none
      → i.key_taken ≡ false
      → chase_case host cfg now i c ≡ some o
      → IsResting now o.case
  unfolding chase_case act
  chase_case-IsResting policy o h lt known go go' free e =
      elim (Option-cases (hold cfg now policy i.latest i.dispute_open i.ledger c)) [
        | inr (o', q) ↦
            let k : some o' ≡ some o = rw (known, chase_case, q) at e in
            ground (
              arith,
              hold-IsResting cfg now policy i.latest i.dispute_open i.ledger c o' h
                  (re_chase-pos c.risk_type policy known) go q,
            )
        | inl q ↦
            keyed-IsResting cfg now policy i (re_chase-pos c.risk_type policy known) c _ i.key_taken
              _ _ o free go' (λ t s p. scheduled-later _ _ _ _ t lt s p)
              (rw (known, chase_case, q) at e)
      ]
