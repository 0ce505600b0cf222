-- ===== src/Receivables/OneDispute.antt =====
-- What opening a dispute guarantees (src/receivables/disputes.py).
use payment_recovery_engine.Prelude.{
  ℕ, String, Bool, true, Option, none, some, List, [], ◌∷◌, ◌++◌, any, find, str_eq, ◌==◌, ◌≡◌,
  refl, sym, ap, ◌∙◌, inl, inr, arith, Bool-cases,
}
use payment_recovery_engine.Cases.Model.{RecoveryCase, is_terminal}
use payment_recovery_engine.Receivables.Disputes.{
  CaseDispute, is_open_dispute, new_dispute, open_unless, open_dispute,
}

module _ (p : CaseDispute → Bool) where
  find-any : (ds : List CaseDispute) (d : CaseDispute) → find p ds ≡ some d → any p ds ≡ true
  find-any [] d h = cc
  find-any (x ∷ xs) d h = elim (Bool-cases (p x)) [
    | inl e ↦ rw e refl
    | inr e ↦ rw e (find-any xs d (rw e at h))
  ]

  any-append : (ds : List CaseDispute) (d : CaseDispute) → p d ≡ true → any p (ds ++ d ∷ []) ≡ true
  any-append [] d h = rw h refl
  any-append (x ∷ xs) d h = elim (Bool-cases (p x)) [
    | inl e ↦ rw e refl
    | inr e ↦ rw e (any-append xs d h)
  ]

eq_self : (i : ℕ) → (i == i) ≡ true
eq_self i = ground arith

module _ (strip shorten : String → String) (now fresh_id : ℕ) (c : RecoveryCase) where
  new-is_open_dispute :
      (reason : String) → is_open_dispute c.id (new_dispute now fresh_id reason c) ≡ true
  new-is_open_dispute reason = rw (eq_self c.id) refl

  open_unless-open :
      (reason : String) (ds ds' : List CaseDispute) (d : CaseDispute) (found : Option CaseDispute)
      → find (is_open_dispute c.id) ds ≡ found
      → open_unless strip shorten now fresh_id reason c ds found ≡ (ds', some d)
      → any (is_open_dispute c.id) ds' ≡ true
  unfolding open_unless
  open_unless-open reason ds ds' d (some x) h e =
      ap (λ l. any (is_open_dispute c.id) l) (sym (ap (λ r. r.0) e))
      ∙ find-any (is_open_dispute c.id) ds x h
  open_unless-open reason ds ds' d none h e = elim (Bool-cases (is_terminal c.state)) [
    | inl t ↦ ground arith
    | inr t ↦
        let row = new_dispute now fresh_id (shorten reason) c in
        let k : (ds ++ row ∷ [], some row) ≡ (ds', some d) = rw t at e in
        ap (λ r. any (is_open_dispute c.id) r.0) (sym k)
        ∙ any-append (is_open_dispute c.id) ds row (new-is_open_dispute (shorten reason))
  ]

  -- A dispute that is accepted is an open dispute of its case.
  pub open_dispute-open :
      (reason : String) (ds ds' : List CaseDispute) (d : CaseDispute)
      → open_dispute strip shorten now fresh_id reason c ds ≡ (ds', some d)
      → any (is_open_dispute c.id) ds' ≡ true
  unfolding open_dispute
  open_dispute-open reason ds ds' d e = elim (Bool-cases (str_eq (strip reason) "")) [
    | inl t ↦ ground arith
    | inr t ↦
        open_unless-open (strip reason) ds ds' d (find (is_open_dispute c.id) ds) refl (rw t at e)
  ]
