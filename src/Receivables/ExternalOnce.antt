-- ===== src/Receivables/ExternalOnce.antt =====
-- What a payment outside the gateway does, and that it counts once
-- (src/receivables/external.py).
use payment_recovery_engine.Prelude.{
  ℕ, ◌+◌, String, true, false, Option, none, some, List, [], ◌∷◌, eq_refl, ◌==◌, ◌≡◌, ◌∙◌, refl,
  sym, ap, inl, inr, arith, Bool-cases, Option-cases,
}
use payment_recovery_engine.Cases.Model.{
  CaseState, RecoveryCase, Store, get_case, put_case, log_event, replace, is_terminal,
}
use payment_recovery_engine.Cases.Capture.{Amount, positive_amount}
use payment_recovery_engine.Cases.Lifecycle.{close_case}
use payment_recovery_engine.Receivables.PlanInstalments.{found_id}
use payment_recovery_engine.Receivables.External.{
  ExternalOutcome, recorded, already_recorded, is_ref, external_credit, record_on,
  record_external_payment,
}

-- The case that a lookup finds after the row of that case was changed.
get_case-replace :
    (id : ℕ) (c c' : RecoveryCase) (cs : List RecoveryCase)
    → get_case id cs ≡ some c
    → c'.id ≡ id
    → get_case id (replace c' cs) ≡ some c'
get_case-replace id c c' [] h e = cc
get_case-replace id c c' (x ∷ xs) h e = elim (Bool-cases (x.id == id)) [
  | inl q ↦ ground (arith, q, e)
  | inr q ↦ ground (arith, q, e, get_case-replace id c c' xs (rw q at h) e)
]

-- A case that took such a payment: it is the case with the id, it was open, it holds the amount
-- besides what it had, credits no attempt with it, remembers the reference, and is closed as
-- recovered.
pub record IsCounted (id n : ℕ) (ref : String) (s s' : Store) : Type 0 where
  pub before : RecoveryCase
  pub after : RecoveryCase
  pub was : get_case id s.cases ≡ some before
  pub is_now : get_case id s'.cases ≡ some after
  pub was_open : is_terminal before.state ≡ false
  pub counted : after.amount_recovered ≡ before.amount_recovered + n
  pub unclaimed : after.recovered_via_attempt_id ≡ none
  pub remembered : is_ref ref after.recovered_ref ≡ true
  pub closed : after.state ≡ CaseState.recovered

module _ (now id : ℕ) (ref method : String) (paid_at : Option ℕ) where
  credited :
      (n : ℕ) (c : RecoveryCase)
      → is_terminal c.state ≡ false
      → let c' = external_credit now n ref method paid_at c in
        (c'.id ≡ c.id)
        × (c'.amount_recovered ≡ c.amount_recovered + n)
        × (c'.recovered_via_attempt_id ≡ none)
        × (is_ref ref c'.recovered_ref ≡ true)
        × (c'.state ≡ CaseState.recovered)
  unfolding external_credit close_case
  credited n c t = rw t (refl, refl, refl, eq_refl ref, refl)

  record_on-IsCounted :
      (n : ℕ) (o : Option RecoveryCase) (s s' : Store)
      → get_case id s.cases ≡ o
      → record_on now n ref method paid_at o s ≡ (s', recorded)
      → IsCounted id n ref s s'
  unfolding record_on put_case log_event
  record_on-IsCounted n none s s' f e = ground arith
  record_on-IsCounted n (some c) s s' f e = elim (Bool-cases (is_ref ref c.recovered_ref)) [
    | inl r ↦ let e' = (rw r at e) in ground arith
    | inr r ↦ elim (Bool-cases (is_terminal c.state)) [
      | inl t ↦ let e' = (rw (r, t) at e) in ground arith
      | inr t ↦
          let e' = (rw (r, t) at e) in
          let (same, counted, unclaimed, remembered, closed) = credited n c t in
          let cases : s'.cases ≡ replace (external_credit now n ref method paid_at c) s.cases =
            sym (ap (λ (x : Store × ExternalOutcome). x.0.cases) e') in
          record {
            before = c;
            after = external_credit now n ref method paid_at c;
            was = f;
            is_now =
                ap (get_case id) cases
                ∙ get_case-replace id c _ s.cases f (same ∙ found_id id s.cases c f);
            was_open = t;
            counted = counted;
            unclaimed = unclaimed;
            remembered = remembered;
            closed = closed;
          }
    ]
  ]

  external-IsCounted :
      (amount : Amount) (s s' : Store)
      → record_external_payment now (some id) amount ref method paid_at s ≡ (s', recorded)
      → (n : ℕ) × (positive_amount amount ≡ some n) × IsCounted id n ref s s'
  unfolding record_external_payment
  external-IsCounted amount s s' e = elim (Option-cases (positive_amount amount)) [
    | inl p ↦ let e' = (rw (record_external_payment, p) at e) in ground arith
    | inr (n, p) ↦ (
      n,
      p,
      record_on-IsCounted n (get_case id s.cases) s s' refl (rw (record_external_payment, p) at e),
    )
  ]

-- A payment outside the gateway counts once. Where one is recorded, the amount is a positive
-- integer, the case was open, and it is closed with that amount added and no attempt credited;
-- and when the same reference is sent again, for whatever positive amount, the answer is that it
-- was recorded already, and nothing changes.
pub external_counts_once :
    (now later id : ℕ) (ref method method' : String) (paid_at paid_at' : Option ℕ)
    (amount again : Amount) (m : ℕ) (s s' : Store)
    → record_external_payment now (some id) amount ref method paid_at s ≡ (s', recorded)
    → positive_amount again ≡ some m
    → ((n : ℕ) × (positive_amount amount ≡ some n) × IsCounted id n ref s s')
      × (record_external_payment later (some id) again ref method' paid_at' s'
          ≡ (s', already_recorded))
unfolding record_external_payment record_on
external_counts_once now later id ref method method' paid_at paid_at' amount again m s s' e p =
    let (n, q, c) = external-IsCounted now id ref method paid_at amount s s' e in
    ((n, q, c), rw (record_external_payment, p, c.is_now, record_on, c.remembered) refl)
