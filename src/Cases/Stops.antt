-- ===== src/Cases/Stops.antt =====
-- What a case's bounds guarantee: when it may be acted on, what an attempt costs it and how it
-- closes (src/cases.py).
use payment_recovery_engine.Prelude.{
  ℕ, ◌+◌, ◌*◌, ◌≤◌, ◌<◌, Bool, true, false, Option, none, some, ◌≡◌, ◌≢◌, ◌↔◌, ◌&&◌, refl, arith,
  leb, Bool-cases, inl, inr, if◌then◌else◌,
}
use payment_recovery_engine.Clock.{hours}
use payment_recovery_engine.Settings.{Settings}
use payment_recovery_engine.Actions.{ActionType, nudge_customer}
use payment_recovery_engine.Cases.Model.{
  CaseState, CloseReason, RecoveryCase, RetryLedger, is_terminal,
}
use payment_recovery_engine.Cases.Lifecycle.{
  close_case, stop_reason, attach_attempt, is_opted_out, wait_until, is_nudge, backoff_of,
  last_call, is_cart,
}

-- The scheduled time has come, or there is none.
abbrev pub IsDue : ℕ → Option ℕ → Type 0
IsDue now none = Unit
IsDue now (some t) = t ≤ now

wait_until-IsDue : (o : Option ℕ) (now : ℕ) → (wait_until o now ≡ none) ↔ IsDue now o
wait_until-IsDue none now = ((λ h. tt), (λ h. refl))
wait_until-IsDue (some t) now = ground arith

-- Nothing stops a case exactly if it is open, has attempts left, its customer has not opted out,
-- and its scheduled time, if it has one, has come.
pub stop_reason-none :
    (now : ℕ) (c : RecoveryCase) (ledger : Option RetryLedger)
    → (stop_reason now c ledger ≡ none) ↔ (
        (is_terminal c.state ≡ false)
        × (c.attempts_used < c.max_attempts)
        × (is_opted_out ledger ≡ false)
        × IsDue now c.next_action_at)
unfolding stop_reason
stop_reason-none now c ledger = ground arith

-- A case that is closed in a terminal state is terminal, a later close of it changes nothing, and
-- from then on every attempt to act on it is stopped.
pub close_case_first_wins :
    (now now' t : ℕ) (state state' : CaseState) (reason reason' : CloseReason) (c : RecoveryCase)
    (ledger : Option RetryLedger)
    → is_terminal state ≡ true
    → (is_terminal (close_case now state reason c).state ≡ true)
      × (close_case now' state' reason' (close_case now state reason c)
          ≡ close_case now state reason c)
      × (stop_reason t (close_case now state reason c) ledger ≢ none)
unfolding close_case stop_reason
close_case_first_wins now now' t state state' reason reason' c ledger h =
    elim (Bool-cases (is_terminal c.state)) [
      | inl e ↦ (rw e e, rw e (rw e refl), rw e (rw e (λ q. cc)))
      | inr e ↦ (rw e h, rw e (rw h refl), rw e (rw h (λ q. cc)))
    ]

last_call-later : (c : RecoveryCase) (backoff : ℕ) → backoff ≤ last_call c backoff
unfolding last_call
last_call-later c backoff = ground arith

-- The backoff of a contact is never less than its level's.
backoff_of-later :
    (cfg : Settings) (now : ℕ) (c : RecoveryCase)
    → now + hours (cfg.escalation_backoff_hours * c.escalation_level) ≤ backoff_of cfg now c
unfolding backoff_of
backoff_of-later cfg now c =
    go (is_cart c.risk_type && leb c.max_attempts (c.attempts_used + 1))
      (last_call-later c (now + hours (cfg.escalation_backoff_hours * c.escalation_level)))
  where
    go : {a b : ℕ} (t : Bool) → a ≤ b → a ≤ (if t then b else a)
    go t h = ground arith

-- An attempt on a case that nothing stops stays within the case's budget, which it does not move.
pub attach_attempt_within_budget :
    (cfg : Settings) (now : ℕ) (c : RecoveryCase) (ledger : Option RetryLedger) (t : ActionType)
    → stop_reason now c ledger ≡ none
    → ((attach_attempt cfg now t c).attempts_used ≡ c.attempts_used + 1)
      × ((attach_attempt cfg now t c).attempts_used ≤ (attach_attempt cfg now t c).max_attempts)
      × ((attach_attempt cfg now t c).max_attempts ≡ c.max_attempts)
unfolding attach_attempt
attach_attempt_within_budget cfg now c ledger t h =
    let (live, within, consent, due) = (stop_reason-none now c ledger).0 h in
    elim (Bool-cases (is_nudge t)) [
      | inl e ↦ rw e (refl, omega (arith, within), refl)
      | inr e ↦ rw e (refl, omega (arith, within), refl)
    ]

-- After a contact, the case stays stopped until its new level's backoff is over: that many times
-- the configured hours from the contact.
pub nudge_defers :
    (cfg : Settings) (now later : ℕ) (c : RecoveryCase) (ledger : Option RetryLedger)
    → later < now + hours (cfg.escalation_backoff_hours * (c.escalation_level + 1))
    → stop_reason later (attach_attempt cfg now nudge_customer c) ledger ≢ none
unfolding attach_attempt is_nudge
nudge_defers cfg now later c ledger h q =
    let (live, within, consent, due) =
      (stop_reason-none later (attach_attempt cfg now nudge_customer c) ledger).0 q in
    omega (
      arith,
      h,
      due,
      backoff_of-later cfg now (record c {
        attempts_used = c.attempts_used + 1;
        escalation_level = c.escalation_level + 1;
      }),
    )
