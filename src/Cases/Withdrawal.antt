-- ===== src/Cases/Withdrawal.antt =====
-- The row of a customer who withdraws consent (`record_opt_out` of src/cases.py).
use payment_recovery_engine.Prelude.{
  ℕ, String, Bool, true, false, Option, none, some, List, [], ◌∷◌, ◌++◌, find, str_eq, eq_refl,
  eq_iff, if◌then◌else◌, ◌≡◌, refl, sym, ap, ◌∙◌, inl, inr, Bool-cases,
}
use payment_recovery_engine.Cases.Model.{RetryLedger, new_ledger}
use payment_recovery_engine.Cases.Lifecycle.{is_opted_out}
use payment_recovery_engine.Cases.OptOut.{
  is_key, first_of, find_ledger, opt_out, put_ledger, put_or_add, withdraw,
}

-- A row that replaces the row it was found by is found by the same test, on the key of the row.
put-customer_id :
    (l x : RetryLedger)
    → (if str_eq x.customer_id l.customer_id then l else x).customer_id ≡ x.customer_id
put-customer_id l x = elim (Bool-cases (str_eq x.customer_id l.customer_id)) [
  | inl e ↦ rw e (sym ((eq_iff x.customer_id l.customer_id).0 e))
  | inr e ↦ rw e refl
]

module _ (q : String → Bool) where
  abbrev by_key : List RetryLedger → Option RetryLedger
  by_key = find (λ l. q l.customer_id)

  by_key-passes :
      (ls : List RetryLedger) (l : RetryLedger) → by_key ls ≡ some l → q l.customer_id ≡ true
  by_key-passes [] l h = cc
  by_key-passes (x ∷ xs) l h = elim (Bool-cases (q x.customer_id)) [
    | inl e ↦ let k : some x ≡ some l = rw e at h in cc
    | inr e ↦ by_key-passes xs l (rw e at h)
  ]

  by_key-skip :
      (y : RetryLedger) (ys : List RetryLedger)
      → q y.customer_id ≡ false
      → by_key (y ∷ ys) ≡ by_key ys
  by_key-skip y ys e = rw e refl

  by_key-hit :
      (y : RetryLedger) (ys : List RetryLedger) → q y.customer_id ≡ true → by_key (y ∷ ys) ≡ some y
  by_key-hit y ys e = rw e refl

  by_key-put_none :
      (l : RetryLedger) (ls : List RetryLedger) → by_key ls ≡ none → by_key (put_ledger l ls) ≡ none
  by_key-put_none l [] h = refl
  by_key-put_none l (x ∷ xs) h = elim (Bool-cases (q x.customer_id)) [
    | inl e ↦ let k : some x ≡ none = rw e at h in cc
    | inr e ↦
        by_key-skip (if str_eq x.customer_id l.customer_id then l else x) (put_ledger l xs)
          (ap q (put-customer_id l x) ∙ e)
        ∙ by_key-put_none l xs (rw e at h)
  ]

  by_key-put :
      (now : ℕ) (l : RetryLedger) (ls : List RetryLedger)
      → by_key ls ≡ some l
      → by_key (put_ledger (opt_out now l) ls) ≡ some (opt_out now l)
  by_key-put now l [] h = cc
  by_key-put now l (x ∷ xs) h = elim (Bool-cases (q x.customer_id)) [
    | inl e ↦
        let k : some x ≡ some l = rw e at h in
        let same : x ≡ l = cc in
        let t : str_eq x.customer_id l.customer_id ≡ true =
          (eq_iff x.customer_id l.customer_id).1 (ap (λ y. y.customer_id) same) in
        rw t
          (by_key-hit (opt_out now l) (put_ledger (opt_out now l) xs) (by_key-passes (x ∷ xs) l h))
    | inr e ↦
        by_key-skip (if str_eq x.customer_id l.customer_id then opt_out now l else x)
          (put_ledger (opt_out now l) xs) (ap q (put-customer_id (opt_out now l) x) ∙ e)
        ∙ by_key-put now l xs (rw e at h)
  ]

  by_key-append :
      (ls : List RetryLedger) (l : RetryLedger)
      → by_key ls ≡ none
      → q l.customer_id ≡ true
      → by_key (ls ++ l ∷ []) ≡ some l
  by_key-append [] l h e = rw e refl
  by_key-append (x ∷ xs) l h e = elim (Bool-cases (q x.customer_id)) [
    | inl t ↦ let k : some x ≡ none = rw t at h in cc
    | inr t ↦ rw t (by_key-append xs l (rw t at h) e)
  ]

is_canonical : String → String → Bool
is_canonical canonical k = str_eq k canonical

module _ (now : ℕ) (canonical : String) (rest : List String) (ls : List RetryLedger) where
  -- The row by which a customer is found says that consent is withdrawn, whichever way it was
  -- found before.
  opted_out-put_or_add :
      (a b : Option RetryLedger)
      → by_key (is_canonical canonical) ls ≡ a
      → by_key (is_key (canonical ∷ rest)) ls ≡ b
      → is_opted_out (
          first_of
            (by_key (is_canonical canonical) (put_or_add now canonical (first_of a b) ls))
            (by_key (is_key (canonical ∷ rest)) (put_or_add now canonical (first_of a b) ls)))
        ≡ true
  unfolding is_canonical
  opted_out-put_or_add (some l) b e e' = rw (by_key-put (is_canonical canonical) now l ls e) refl
  opted_out-put_or_add none (some l) e e' =
      rw
        (
          by_key-put_none (is_canonical canonical) (opt_out now l) ls e,
          by_key-put (is_key (canonical ∷ rest)) now l ls e',
        )
        refl
  opted_out-put_or_add none none e e' =
      rw
        (by_key-append (is_canonical canonical) ls (opt_out now (new_ledger canonical)) e
          (eq_refl canonical))
        refl

  pub withdraw-is_opted_out :
      is_opted_out (find_ledger canonical rest (withdraw now canonical rest ls)) ≡ true
  unfolding withdraw is_canonical
  withdraw-is_opted_out = opted_out-put_or_add _ _ refl refl
