-- ===== src/Cases/Audit.antt =====
-- The books of the cases: what came back, the audit trail and the state agree (src/cases.py).
use payment_recovery_engine.Prelude.{
  ℕ, ◌+◌, ◌≤◌, ◌<◌, String, Bool, true, false, Option, none, some, List, [], ◌∷◌, inl, inr, ◌⊎◌,
  ◌==◌, Bool-cases, if◌then◌else◌, ◌≡◌, refl, sym, ap, subst, ◌∙◌, All, All-imp, sum_by, arith,
}
use payment_recovery_engine.Cases.Model.{
  RecoveryCase, CaseState, CaseEvent, EventType, Store, is_terminal, log_event, replace,
}
use payment_recovery_engine.Cases.Model
use payment_recovery_engine.Cases.Lifecycle.{close_case}
use payment_recovery_engine.Cases.Capture.{
  Capture, Match, credit, credited, attribute_capture, attempt_id, positive_amount,
}
use payment_recovery_engine.Cases.Credit.{
  paid, amount_of, settled, log_event-total, credit-cases, credit-total, attribute_capture-cases,
}

-- What came back for the case is what the audit trail credits to it.
abbrev pub IsAuditedCase : List CaseEvent → RecoveryCase → Type 0
IsAuditedCase events c = c.amount_recovered ≡ sum_by (paid c.id) events

abbrev pub IsAudited : Store → Type 0
IsAudited s = All (IsAuditedCase s.events) s.cases

abbrev is_recovered : CaseState → Bool
is_recovered CaseState.recovered = true
is_recovered _ = false

-- An open case is still owed money, and a recovered one is not.
abbrev pub IsSettledCase : RecoveryCase → Type 0
IsSettledCase c =
    ((is_terminal c.state ≡ true) ⊎ (c.amount_recovered < c.amount_at_risk))
    × ((is_recovered c.state ≡ false) ⊎ (c.amount_at_risk ≤ c.amount_recovered))

abbrev pub IsSettled : Store → Type 0
IsSettled s = All IsSettledCase s.cases

-- A property of each row survives the replacement of a row.
replace-All :
    (P P' : RecoveryCase → Type 0) (c : RecoveryCase) (cs : List RecoveryCase)
    → P' c
    → ((x : RecoveryCase) → (x.id == c.id) ≡ false → P x → P' x)
    → All P cs
    → All P' (replace c cs)
replace-All P P' c [] h step ps = tt
replace-All P P' c (x ∷ cs) h step ps = elim (Bool-cases (x.id == c.id)) [
  | inl e ↦ rw e (h, replace-All P P' c cs h step ps.1)
  | inr e ↦ rw e (step x e ps.0, replace-All P P' c cs h step ps.1)
]

settled-id : (now amount : ℕ) (ref : String) (m : Match) → (settled now amount ref m).id ≡ m.case.id
unfolding credited close_case
settled-id now amount ref m = ground arith

settled-amount :
    (now amount : ℕ) (ref : String) (m : Match)
    → (settled now amount ref m).amount_recovered ≡ m.case.amount_recovered + amount
unfolding credited close_case
settled-amount now amount ref m = ground arith

settled-IsSettledCase :
    (now amount : ℕ) (ref : String) (m : Match)
    → is_terminal m.case.state ≡ false
    → IsSettledCase (settled now amount ref m)
unfolding credited close_case
settled-IsSettledCase now amount ref m live = ground arith

log_event-IsAudited :
    (case_id : ℕ) (t : EventType) (s : Store)
    → amount_of t ≡ 0
    → IsAudited s
    → All (IsAuditedCase (log_event case_id t s).events) s.cases
log_event-IsAudited case_id t s h =
    All-imp (λ c q. q ∙ sym (log_event-total c.id case_id t s h)) s.cases

settled-IsAuditedCase :
    (now amount : ℕ) (ref : String) (m : Match) (s : Store)
    → IsAuditedCase s.events m.case
    → IsAuditedCase (credit now amount ref m s).events (settled now amount ref m)
settled-IsAuditedCase now amount ref m s h =
    settled-amount now amount ref m
    ∙ (added m.case.id h (credit-total m.case.id now amount ref m s))
    ∙ ap (λ i. sum_by (paid i) (credit now amount ref m s).events)
        (sym (settled-id now amount ref m))
  where
    added : {a t t' : ℕ} (i : ℕ) → a ≡ t → t' ≡ t + (if i == i then amount else 0) → a + amount ≡ t'
    added i h h' = ground arith

other-IsAuditedCase :
    (now amount : ℕ) (ref : String) (m : Match) (s : Store) (x : RecoveryCase)
    → (x.id == (settled now amount ref m).id) ≡ false
    → IsAuditedCase s.events x
    → IsAuditedCase (credit now amount ref m s).events x
other-IsAuditedCase now amount ref m s x e h =
    kept x.id (settled now amount ref m).id m.case.id e (settled-id now amount ref m) h
      (credit-total x.id now amount ref m s)
  where
    kept :
        {a t t' : ℕ} (i j k : ℕ)
        → (i == j) ≡ false
        → j ≡ k
        → a ≡ t
        → t' ≡ t + (if k == i then amount else 0)
        → a ≡ t'
    kept i j k e e' h h' = ground arith

credit-IsAudited :
    (now amount : ℕ) (ref : String) (m : Match) (s : Store)
    → IsAuditedCase s.events m.case
    → IsAudited s
    → All
        (IsAuditedCase (credit now amount ref m s).events)
        (replace (settled now amount ref m) s.cases)
credit-IsAudited now amount ref m s p h =
    replace-All (IsAuditedCase s.events) _ _ s.cases (settled-IsAuditedCase now amount ref m s p)
      (other-IsAuditedCase now amount ref m s) h

-- If what came back for each case is the sum of the `attributed` rows of its audit trail, then it
-- still is after any capture.
pub attribute_capture-IsAudited :
    (now : ℕ) (k : Capture) (s : Store) → IsAudited s → IsAudited (attribute_capture now k s).0
unfolding log_event
attribute_capture-IsAudited now k s h =
    attribute_capture-cases now k s (IsAuditedCase s.events) (λ r. IsAudited r.0) h h
      (λ amount m closed.
        log_event-IsAudited m.case.id
          (Model.overpayment amount k.recovered_ref (attempt_id m.attempt) m.matched_on) s refl h)
      (λ amount m p positive live.
        subst (All (IsAuditedCase (credit now amount k.recovered_ref m s).events))
          (sym (credit-cases now amount k.recovered_ref m s))
          (credit-IsAudited now amount k.recovered_ref m s p h))

-- If each open case is owed money and each recovered one is not, then this still holds after any
-- capture.
pub attribute_capture-IsSettled :
    (now : ℕ) (k : Capture) (s : Store) → IsSettled s → IsSettled (attribute_capture now k s).0
unfolding log_event
attribute_capture-IsSettled now k s h =
    attribute_capture-cases now k s IsSettledCase (λ r. IsSettled r.0) h h (λ amount m closed. h)
      (λ amount m p positive live. rw (credit-cases now amount k.recovered_ref m s) (
        replace-All IsSettledCase IsSettledCase _ s.cases
          (settled-IsSettledCase now amount k.recovered_ref m live) (λ x e q. q) h))

-- What a capture did, from the store that it found and what it returned.
abbrev pub IsOutcome : Capture → Store → Store × Option ℕ → Type 0
IsOutcome k s (s', none) = s' ≡ s
IsOutcome k s (s', some i) =
    ((s'.cases ≡ s.cases) × ((j : ℕ) → sum_by (paid j) s'.events ≡ sum_by (paid j) s.events))
    ⊎ ((amount : ℕ) × (positive_amount k.amount ≡ some amount)
        × ((j : ℕ)
            → sum_by (paid j) s'.events
              ≡ sum_by (paid j) s.events + (if i == j then amount else 0)))

All-refl : (cs : List RecoveryCase) → All (λ c. c ≡ c) cs
All-refl [] = tt
All-refl (c ∷ cs) = (refl, All-refl cs)

-- A capture without a case to return changes nothing. One that returns a case either leaves every
-- row of the cases and every case's credited total, or adds the capture's own amount, which is
-- positive, to the credited total of that case and nothing to any other's.
pub attribute_capture-IsOutcome :
    (now : ℕ) (k : Capture) (s : Store) → IsOutcome k s (attribute_capture now k s)
unfolding log_event
attribute_capture-IsOutcome now k s =
    attribute_capture-cases now k s (λ c. c ≡ c) (IsOutcome k s) (All-refl s.cases) refl
      (λ amount m closed. inl (
        refl,
        (λ j.
            log_event-total j m.case.id
              (Model.overpayment amount k.recovered_ref (attempt_id m.attempt) m.matched_on) s
              refl),
      ))
      (λ amount m p positive live.
        inr (amount, positive, (λ j. credit-total j now amount k.recovered_ref m s)))
