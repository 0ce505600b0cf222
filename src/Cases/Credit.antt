-- ===== src/Cases/Credit.antt =====
-- What a credit does to the rows of the cases and to the audit trail (src/cases.py).
use payment_recovery_engine.Prelude.{
  ℕ, ◌+◌, String, true, false, Option, none, some, List, [], ◌∷◌, ◌++◌, inl, inr, keep, ◌==◌, leb,
  Bool-cases, Option-cases, if◌then◌else◌, ◌≡◌, refl, ap, ◌∙◌, All, sum_by, arith,
}
use payment_recovery_engine.Cases.Model.{
  RecoveryCase, RetryAttempt, EventType, CaseEvent, CaseState, Store, is_terminal, log_event,
  put_case, replace,
}
use payment_recovery_engine.Cases.Model
use payment_recovery_engine.Cases.Lifecycle.{close_case}
use payment_recovery_engine.Cases.Promises
use payment_recovery_engine.Cases.Promises.{
  resolve_promises, log_each, is_open_promise_of, resolve_rows,
}
use payment_recovery_engine.Cases.Capture.{
  Capture, Match, credited, settle, credit, confirm, is_mandate, supersede_all, is_replay,
  apply_match, attribute_capture, positive_amount, resolve, attempt_id, attempt_no,
}
use payment_recovery_engine.Cases.Found.{resolve-Every}

-- The money that an audit row credits.
abbrev pub amount_of : EventType → ℕ
amount_of (Model.attributed amount _ _ _) = amount
amount_of _ = 0

-- The money that the row credits to the case.
abbrev pub paid : ℕ → CaseEvent → ℕ
paid i e = if e.recovery_case_id == i then amount_of e.event_type else 0

pub sum_by-append_one :
    (i : ℕ) (es : List CaseEvent) (e : CaseEvent)
    → sum_by (paid i) (es ++ e ∷ []) ≡ sum_by (paid i) es + paid i e
sum_by-append_one i [] e = omega arith
sum_by-append_one i (x ∷ xs) e = omega (arith, sum_by-append_one i xs e)

-- An audit row that credits nothing leaves every total.
pub log_event-total :
    (i case_id : ℕ) (t : EventType) (s : Store)
    → amount_of t ≡ 0
    → sum_by (paid i) (log_event case_id t s).events ≡ sum_by (paid i) s.events
unfolding log_event
log_event-total i case_id t s h = elim (Bool-cases (case_id == i)) [
  | inl e ↦ sum_by-append_one i s.events _ ∙ rw e (rw h (omega arith))
  | inr e ↦ sum_by-append_one i s.events _ ∙ rw e (omega arith)
]

log_each-total :
    (i case_id : ℕ) (event : ℕ → EventType) (ps : List Model.PromiseToPay) (s : Store)
    → ((n : ℕ) → amount_of (event n) ≡ 0)
    → sum_by (paid i) (log_each case_id event ps s).events ≡ sum_by (paid i) s.events
unfolding log_each
log_each-total i case_id event [] s h = refl
log_each-total i case_id event (p ∷ ps) s h =
    log_each-total i case_id event ps _ h ∙ log_event-total i case_id (event p.id) s (h p.id)

log_each-cases :
    (case_id : ℕ) (event : ℕ → EventType) (ps : List Model.PromiseToPay) (s : Store)
    → (log_each case_id event ps s).cases ≡ s.cases
unfolding log_each log_event
log_each-cases case_id event [] s = refl
log_each-cases case_id event (p ∷ ps) s = log_each-cases case_id event ps _

-- The case after the money is added, closed if it is now whole.
abbrev pub settled : ℕ → ℕ → String → Match → RecoveryCase
settled now amount ref m =
    let c = credited now amount ref m.attempt m.case in
    if leb c.amount_at_risk c.amount_recovered
    then close_case now CaseState.recovered
        (Model.captured c.amount_recovered ref (attempt_no m.attempt)) c
    else c

settle-cases :
    (now : ℕ) (ref : String) (a : Option RetryAttempt) (c : RecoveryCase) (s : Store)
    → (settle now ref a c s).cases
      ≡ replace
          (if leb c.amount_at_risk c.amount_recovered
            then close_case now CaseState.recovered
                (Model.captured c.amount_recovered ref (attempt_no a))
                c
            else c)
          s.cases
unfolding settle put_case log_event
settle-cases now ref a c s = elim (Bool-cases (leb c.amount_at_risk c.amount_recovered)) [
  | inl e ↦ rw e refl
  | inr e ↦ rw e refl
]

settle-total :
    (i now : ℕ) (ref : String) (a : Option RetryAttempt) (c : RecoveryCase) (s : Store)
    → sum_by (paid i) (settle now ref a c s).events ≡ sum_by (paid i) s.events
unfolding settle put_case
settle-total i now ref a c s = elim (Bool-cases (leb c.amount_at_risk c.amount_recovered)) [
  | inl e ↦ rw e (log_event-total i c.id _ _ refl)
  | inr e ↦ rw e refl
]

confirm-cases :
    (c : RecoveryCase) (amount : ℕ) (ref : String) (s : Store)
    → (confirm c amount ref s).cases ≡ s.cases
unfolding confirm log_event
confirm-cases c amount ref s = elim (Bool-cases (is_mandate c.risk_type)) [
  | inl e ↦ rw e refl
  | inr e ↦ rw e refl
]

confirm-total :
    (i : ℕ) (c : RecoveryCase) (amount : ℕ) (ref : String) (s : Store)
    → sum_by (paid i) (confirm c amount ref s).events ≡ sum_by (paid i) s.events
unfolding confirm
confirm-total i c amount ref s = elim (Bool-cases (is_mandate c.risk_type)) [
  | inl e ↦ rw e (log_event-total i c.id _ s refl)
  | inr e ↦ rw e refl
]

resolve_promises-total :
    (i : ℕ) (ref : Option String) (now case_id : ℕ) (s : Store)
    → sum_by (paid i) (resolve_promises Promises.kept ref now case_id s).0.events
      ≡ sum_by (paid i) s.events
unfolding resolve_promises
resolve_promises-total i ref now case_id s =
    log_each-total i case_id Model.promise_kept (keep (is_open_promise_of case_id) s.promises)
      (record s { promises = resolve_rows Promises.kept ref now case_id s.promises }) (λ n. refl)

resolve_promises-cases :
    (ref : Option String) (now case_id : ℕ) (s : Store)
    → (resolve_promises Promises.kept ref now case_id s).0.cases ≡ s.cases
unfolding resolve_promises
resolve_promises-cases ref now case_id s =
    log_each-cases case_id Model.promise_kept (keep (is_open_promise_of case_id) s.promises)
      (record s { promises = resolve_rows Promises.kept ref now case_id s.promises })

attributed-total :
    (i case_id amount : ℕ) (ref : String) (a : Option ℕ) (how : Model.MatchedOn) (s : Store)
    → sum_by (paid i) (log_event case_id (Model.attributed amount ref a how) s).events
      ≡ sum_by (paid i) s.events + (if case_id == i then amount else 0)
unfolding log_event
attributed-total i case_id amount ref a how s = sum_by-append_one i s.events _

-- A credit replaces the case's row by the settled one.
pub credit-cases :
    (now amount : ℕ) (ref : String) (m : Match) (s : Store)
    → (credit now amount ref m s).cases ≡ replace (settled now amount ref m) s.cases
unfolding credit supersede_all log_event
credit-cases now amount ref m s =
    settle-cases now ref m.attempt _ _
    ∙ ap (replace (settled now amount ref m)) (
        resolve_promises-cases (some ref) now _ _
        ∙ confirm-cases (credited now amount ref m.attempt m.case) amount ref _)

-- A credit adds the amount to the case's audited total, and to no other.
pub credit-total :
    (i now amount : ℕ) (ref : String) (m : Match) (s : Store)
    → sum_by (paid i) (credit now amount ref m s).events
      ≡ sum_by (paid i) s.events + (if m.case.id == i then amount else 0)
unfolding credit supersede_all credited
credit-total i now amount ref m s =
    settle-total i now ref m.attempt _ _
    ∙ resolve_promises-total i (some ref) now _ _
    ∙ confirm-total i (credited now amount ref m.attempt m.case) amount ref _
    ∙ attributed-total i m.case.id amount ref (attempt_id m.attempt) m.matched_on s

-- What holds before a capture, after a note of an overpayment and after a credit to an open case
-- that has not seen the payment holds after the capture.
pub attribute_capture-cases :
    (now : ℕ) (k : Capture) (s : Store) (P : RecoveryCase → Type 0) (Q : Store × Option ℕ → Type 0)
    → All P s.cases
    → Q (s, none)
    → ((amount : ℕ) (m : Match)
        → is_terminal m.case.state ≡ true
        → Q (
          log_event m.case.id
              (Model.overpayment amount k.recovered_ref (attempt_id m.attempt) m.matched_on)
              s,
          some m.case.id,
        ))
    → ((amount : ℕ) (m : Match)
        → P m.case
        → positive_amount k.amount ≡ some amount
        → is_terminal m.case.state ≡ false
        → Q (credit now amount k.recovered_ref m s, some m.case.id))
    → Q (attribute_capture now k s)
unfolding attribute_capture apply_match
attribute_capture-cases now k s P Q ps q over cred =
    elim (Option-cases (positive_amount k.amount)) [
      | inl e ↦ rw (e, attribute_capture) q
      | inr (amount, e) ↦
          rw (e, attribute_capture)
            (elim (Option-cases (resolve k s)) [
              | inl e' ↦ rw e' q
              | inr (m, e') ↦ rw e' (apply amount m e (rw e' at (resolve-Every P k s ps)))
            ])
    ]
  where
    apply :
        (amount : ℕ) (m : Match)
        → positive_amount k.amount ≡ some amount
        → P m.case
        → Q (apply_match now amount k.recovered_ref m s)
    apply amount m a p = elim (Bool-cases (is_replay k.recovered_ref m.case)) [
      | inl e ↦ rw e q
      | inr e ↦ rw e (elim (Bool-cases (is_terminal m.case.state)) [
        | inl e' ↦ rw e' (over amount m e')
        | inr e' ↦ rw e' (cred amount m p a e')
      ])
    ]
