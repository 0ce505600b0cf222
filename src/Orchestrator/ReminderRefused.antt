-- ===== src/Orchestrator/ReminderRefused.antt =====
-- What a reminder that the guardrail refuses does to the silence that its promise bought
-- (`send_promise_reminder` of src/orchestrator.py).
use payment_recovery_engine.Prelude.{
  ℕ, ◌+◌, ◌≤◌, ◌<◌, Bool, true, false, Option, none, some, inl, inr, ◌≡◌, ◌≢◌, refl, subst, arith,
  Bool-cases, Option-cases,
}
use payment_recovery_engine.Settings.{Settings}
use payment_recovery_engine.Actions.{Host, nudge_customer}
use payment_recovery_engine.Guardrail.Gate.{GuardrailResult}
use payment_recovery_engine.Cases.Model.{
  is_terminal, RecoveryCase, RetryAttempt, PromiseToPay, RetryLedger,
}
use payment_recovery_engine.Cases.Lifecycle.{
  StopReason, is_opted_out, stop_reason, attach_attempt, backoff_of,
}
use payment_recovery_engine.Cases.Stops.{IsDue, stop_reason-none}
use payment_recovery_engine.Orchestrator.Execution.{Outcome, execute_case_and_record}
use payment_recovery_engine.Orchestrator.Reminder.{
  skipped_guardrail, ReminderInputs, remind, reminder_judged, reminder_checked,
  send_promise_reminder,
}

-- The case once a contact was counted.
abbrev pub contacted : RecoveryCase → RecoveryCase
contacted c = record c {
  attempts_used = c.attempts_used + 1;
  escalation_level = c.escalation_level + 1;
}

module _ (cfg : Settings) (i : ReminderInputs) (p : PromiseToPay) where
  remind-reminded :
      (c : RecoveryCase) (row : RetryAttempt) (o : Outcome)
      → remind cfg i p c row ≡ some (skipped_guardrail, o)
      → ⊥
  unfolding remind
  remind-reminded c row o e =
      elim (Option-cases (execute_case_and_record i.now_again nudge_customer i.gateway row)) [
        | inl q ↦ let e' = (rw (remind, q) at e) in cc
        | inr (x, q) ↦ let e' = (rw (remind, q) at e) in cc
      ]

  judged_refused :
      {F : Type 0} (c : RecoveryCase) (g : GuardrailResult F) (o : Outcome)
      → reminder_judged cfg i p c g ≡ some (skipped_guardrail, o)
      → attach_attempt cfg i.now_again nudge_customer c ≡ o.case
  unfolding reminder_judged
  judged_refused c g o e = elim (Bool-cases g.passed) [
    | inl b ↦ absurd (
        remind-reminded (attach_attempt cfg i.now_again nudge_customer c) _ o
          (rw (reminder_judged, b) at e))
    | inr b ↦ let e' = (rw (reminder_judged, b) at e) in cc
  ]

  checked_refused :
      {F : Type 0} (c : RecoveryCase) (r : Option StopReason) (taken : Bool)
      (v : Option (GuardrailResult F)) (o : Outcome)
      → reminder_checked cfg i p c r taken v ≡ some (skipped_guardrail, o)
      → (r ≡ none) × (attach_attempt cfg i.now_again nudge_customer c ≡ o.case)
  unfolding reminder_checked
  checked_refused c (some r) taken v o e = cc
  checked_refused c none true v o e = cc
  checked_refused c none false none o e = cc
  checked_refused c none false (some g) o e = (refl, judged_refused c g o e)

-- If an open case waits for a promise's day and the guardrail refuses the promise's reminder, then the
-- promise no longer silences the case: at any time after the end of the backoff of one more contact
-- and before the promise's day, nothing stops a chase of it, given that it has an attempt left
-- after the reminder's and that its customer has not opted out; without the reminder, the case is
-- stopped at that time.
pub reminder_refused_unsilences :
    (host : Host) (cfg : Settings) (i : ReminderInputs) (p : PromiseToPay) (c : RecoveryCase)
    (o : Outcome) (t : ℕ) (ledger : Option RetryLedger)
    → send_promise_reminder host cfg i p c ≡ some (skipped_guardrail, o)
    → is_terminal c.state ≡ false
    → c.next_action_at ≡ some p.due_at
    → backoff_of cfg i.now_again (contacted c) ≤ t
    → t < p.due_at
    → c.attempts_used + 1 < c.max_attempts
    → is_opted_out ledger ≡ false
    → (stop_reason t o.case ledger ≡ none) × (stop_reason t c ledger ≢ none)
unfolding send_promise_reminder attach_attempt stop_reason
reminder_refused_unsilences host cfg i p c o t ledger e unclosed silent over early left consent =
    let (stop, same) = checked_refused cfg i p c _ _ _ o e in
    (
      subst (λ z. stop_reason t z ledger ≡ none) same
          ((stop_reason-none t (attach_attempt cfg i.now_again nudge_customer c) ledger).1
            (unclosed, left, consent, over)),
      still_silent c.next_action_at silent refl,
    )
  where
    still_silent :
        (u : Option ℕ) → u ≡ some p.due_at → c.next_action_at ≡ u → stop_reason t c ledger ≢ none
    still_silent none q s h = cc
    still_silent (some d) q s h =
        let due = (stop_reason-none t c ledger).0 h in ground (arith, subst (IsDue t) s (due.3))
