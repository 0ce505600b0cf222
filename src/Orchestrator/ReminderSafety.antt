-- ===== src/Orchestrator/ReminderSafety.antt =====
-- What lets `send_promise_reminder` of src/orchestrator.py contact a customer, and what it does to
-- the case.
use payment_recovery_engine.Prelude.{
  max, ◌+◌, Bool, true, false, Option, none, some, List, [], ◌∷◌, ◌++◌, In, inl, inr, ◌≡◌, refl,
  sym, subst, ap, arith, Bool-cases, Option-cases, ◌⊎◌,
}
use payment_recovery_engine.Settings.{Settings}
use payment_recovery_engine.Actions.{Host, ActionType, nudge_customer}
use payment_recovery_engine.Guardrail.Gate.{GuardrailResult}
use payment_recovery_engine.Guardrail.Permission.{passes, IsPermitted, validate_permission}
use payment_recovery_engine.Cases.Model.{RecoveryCase, RetryAttempt, PromiseToPay}
use payment_recovery_engine.Cases.Lifecycle.{StopReason, attach_attempt, backoff_of}
use payment_recovery_engine.Orchestrator.Execution.{
  Effect, committed, executed, Outcome, execute_case_and_record,
}
use payment_recovery_engine.Orchestrator.Safety.{execute-written_ahead}
use payment_recovery_engine.Orchestrator.FirmStop.{IsUnstopped, firm_stop-IsUnstopped}
use payment_recovery_engine.Orchestrator.Reminder.{
  ReminderOutcome, ReminderInputs, reminder_context, reminder_action, remind, reminder_judged,
  reminder_checked, send_promise_reminder,
}

-- The row before the one call, and commits after it.
abbrev pub reminder_ahead : List Effect
reminder_ahead = committed ∷ executed nudge_customer ∷ committed ∷ committed ∷ []

-- A reminder that the engine may send: the case is open, has attempts left, and its customer has
-- not opted out, or it is closed for a reason in whose text the code reads a wait; no attempt has
-- the reminder's key; and the guardrail's policy permits the nudge.
pub record IsRemindable (host : Host) (cfg : Settings) (i : ReminderInputs) (c : RecoveryCase)
    : Type 0 where
  pub unstopped : IsUnstopped c i.ledger
  pub key_free : i.key_taken ≡ false
  pub approved :
      IsPermitted host cfg reminder_action
        (reminder_context cfg i c)
        (some i.key)
        c.attempts_used
        i.now_again

-- What a sent reminder leaves: one call, written ahead; one attempt spent; and silence until the
-- later of the promise's day and the end of a backoff one rung up.
pub record IsReminded (cfg : Settings) (i : ReminderInputs) (p : PromiseToPay) (c : RecoveryCase)
    (o : Outcome) : Type 0 where
  pub ahead : o.effects ≡ reminder_ahead
  pub spent : o.case.attempts_used ≡ c.attempts_used + 1
  pub climbed : o.case.escalation_level ≡ c.escalation_level + 1
  pub silent :
      o.case.next_action_at
      ≡ some (
          max
            (backoff_of cfg i.now_again (record c {
              attempts_used = c.attempts_used + 1;
              escalation_level = c.escalation_level + 1;
            }))
            p.due_at)

not_executed :
    (x y : ReminderOutcome) (o o' : Outcome) (t : ActionType)
    → (o'.effects ≡ []) ⊎ (o'.effects ≡ committed ∷ [])
    → ◌≡◌ {A = Option (ReminderOutcome × Outcome)} (some (x, o')) (some (y, o))
    → In (executed t) o.effects
    → ⊥
not_executed x y o o' t none_done e m = ground arith

none_is_some :
    {x : ReminderOutcome × Outcome} → ◌≡◌ {A = Option (ReminderOutcome × Outcome)} none (some x) → ⊥
none_is_some e = cc

some_outcome :
    {x y : ReminderOutcome} {o o' : Outcome}
    → ◌≡◌ {A = Option (ReminderOutcome × Outcome)} (some (x, o)) (some (y, o'))
    → o ≡ o'
some_outcome e = cc

drop_commit :
    (t : ActionType) (es : List Effect)
    → In (executed t) (es ++ committed ∷ committed ∷ [])
    → In (executed t) (es ++ committed ∷ [])
drop_commit t [] (inl q) = inl q
drop_commit t [] (inr (inl q)) = inl q
drop_commit t [] (inr (inr m)) = absurd m
drop_commit t (e ∷ es) (inl q) = inl q
drop_commit t (e ∷ es) (inr m) = inr (drop_commit t es m)

module _ (cfg : Settings) (i : ReminderInputs) (p : PromiseToPay) where
  remind-IsReminded :
      (c : RecoveryCase) (row : RetryAttempt) (x : ReminderOutcome) (o : Outcome) (t : ActionType)
      → remind cfg i p (attach_attempt cfg i.now_again nudge_customer c) row ≡ some (x, o)
      → In (executed t) o.effects
      → (t ≡ nudge_customer) × IsReminded cfg i p c o
  unfolding remind attach_attempt
  remind-IsReminded c row x o t e m =
      elim (Option-cases (execute_case_and_record i.now_again nudge_customer i.gateway row)) [
        | inl q ↦ absurd (none_is_some (rw (remind, q) at e))
        | inr ((row', events, effects), q) ↦
            let e' = (rw (remind, q) at e) in
            let same = some_outcome e' in
            let (live, is_nudge, ahead) =
              execute-written_ahead i.now_again nudge_customer t i.gateway row row' events effects q
                (inr (
                  inr (
                    drop_commit t effects
                      (subst (λ z. In (executed t) z.effects) (sym same) m)))) in
            (
              is_nudge,
              subst (λ z. IsReminded cfg i p c z) same
                  (record {
                    ahead = ap (λ z. z ++ committed ∷ committed ∷ []) ahead;
                    spent = refl;
                    climbed = refl;
                    silent = refl;
                  }),
            )
      ]

  judged-IsReminded :
      {F : Type 0} (c : RecoveryCase) (g : GuardrailResult F) (x : ReminderOutcome) (o : Outcome)
      (t : ActionType)
      → reminder_judged cfg i p c g ≡ some (x, o)
      → In (executed t) o.effects
      → (g.passed ≡ true) × (t ≡ nudge_customer) × IsReminded cfg i p c o
  unfolding reminder_judged
  judged-IsReminded c g x o t e m = elim (Bool-cases g.passed) [
    | inl b ↦
        let (same, left) = remind-IsReminded c _ x o t (rw (reminder_judged, b) at e) m in
        (b, same, left)
    | inr b ↦ absurd (not_executed _ x o _ t (inr refl) (rw (reminder_judged, b) at e) m)
  ]

  checked-IsReminded :
      {F : Type 0} (c : RecoveryCase) (r : Option StopReason) (taken : Bool)
      (v : Option (GuardrailResult F)) (x : ReminderOutcome) (o : Outcome) (t : ActionType)
      → reminder_checked cfg i p c r taken v ≡ some (x, o)
      → In (executed t) o.effects
      → (r ≡ none)
        × (taken ≡ false)
        × (passes v ≡ true)
        × (t ≡ nudge_customer)
        × IsReminded cfg i p c o
  unfolding reminder_checked
  checked-IsReminded c (some r) taken v x o t e m = absurd (not_executed _ x o _ t (inl refl) e m)
  checked-IsReminded c none true v x o t e m = absurd (not_executed _ x o _ t (inl refl) e m)
  checked-IsReminded c none false none x o t e m = cc
  checked-IsReminded c none false (some g) x o t e m =
      let (p, same, left) = judged-IsReminded c g x o t e m in (refl, refl, p, same, left)

-- If a reminder of a promise calls the gateway with an action, then it is a nudge and one that the
-- engine may send: see the first record. The second says what the reminder leaves.
pub send_promise_reminder-IsRemindable :
    (host : Host) (cfg : Settings) (i : ReminderInputs) (p : PromiseToPay) (c : RecoveryCase)
    (x : ReminderOutcome) (o : Outcome) (t : ActionType)
    → send_promise_reminder host cfg i p c ≡ some (x, o)
    → In (executed t) o.effects
    → (t ≡ nudge_customer) × IsRemindable host cfg i c × IsReminded cfg i p c o
unfolding send_promise_reminder
send_promise_reminder-IsRemindable host cfg i p c x o t e m =
    let (stop, free, passed, same, left) = checked-IsReminded cfg i p c _ _ _ x o t e m in
    (
      same,
      record {
        unstopped = firm_stop-IsUnstopped i.now c i.ledger stop;
        key_free = free;
        approved =
            (validate_permission host cfg reminder_action (reminder_context cfg i c) (some i.key)
                c.attempts_used i.now_again (λ q. cc)).0
              passed;
      },
      left,
    )
