-- ===== src/Cases/Silence.antt =====
-- What a customer's withdrawal of consent guarantees (`record_opt_out` of src/cases.py).
use payment_recovery_engine.Prelude.{
  ℕ, String, Bool, true, false, none, List, [], ◌∷◌, keep, any, length, ◌==◌, if◌then◌else◌, ◌≡◌,
  ◌≢◌, refl, sym, ap, ◌∙◌, inl, inr, ◌⊎◌, Bool-cases, All, All-imp, subst, arith,
}
use payment_recovery_engine.Cases.Model
use payment_recovery_engine.Cases.Model.{
  CaseState, RecoveryCase, RetryLedger, Store, new_ledger, EventType, PromiseToPay, put_case,
  log_event, is_terminal, replace,
}
use payment_recovery_engine.Cases.Lifecycle.{close_case, is_opted_out, stop_reason}
use payment_recovery_engine.Cases.Stops.{stop_reason-none}
use payment_recovery_engine.Cases.Promises
use payment_recovery_engine.Cases.Promises.{
  log_each, resolve_promises, resolve_rows, is_open_promise_of, event_of,
}
use payment_recovery_engine.Cases.OptOut.{
  find_ledger, withdraw, is_customer_of, is_open_of, close_one, close_each, record_opt_out,
}
use payment_recovery_engine.Cases.Withdrawal.{withdraw-is_opted_out}

log_each-rows :
    (case_id : ℕ) (event : ℕ → EventType) (ps : List PromiseToPay) (s : Store)
    → ((log_each case_id event ps s).cases ≡ s.cases)
      × ((log_each case_id event ps s).ledgers ≡ s.ledgers)
unfolding log_each log_event
log_each-rows case_id event [] s = (refl, refl)
log_each-rows case_id event (p ∷ ps) s =
    log_each-rows case_id event ps (log_event case_id (event p.id) s)

closed : ℕ → RecoveryCase → RecoveryCase
closed now = close_case now CaseState.opted_out Model.customer_withdrew_consent

close_one-rows :
    (now : ℕ) (c : RecoveryCase) (s : Store)
    → ((close_one now c s).cases ≡ replace (closed now c) s.cases)
      × ((close_one now c s).ledgers ≡ s.ledgers)
unfolding close_one resolve_promises put_case log_event closed
close_one-rows now c s =
    let s1 = put_case (closed now c) s in
    log_each-rows c.id (event_of Promises.cancelled) (keep (is_open_promise_of c.id) s.promises)
      (record s1 { promises = resolve_rows Promises.cancelled none now c.id s.promises })

-- An open case of the customer is still to be closed.
abbrev IsWaiting : List String → List RecoveryCase → RecoveryCase → Type 0
IsWaiting keys cs x = (is_open_of keys x ≡ false) ⊎ (any (λ c. x.id == c.id) cs ≡ true)

closed-IsClosed :
    (now : ℕ) (c : RecoveryCase)
    → ((closed now c).id ≡ c.id) × (is_terminal (closed now c).state ≡ true)
unfolding closed close_case
closed-IsClosed now c = ground arith

terminal-IsWaiting :
    (keys : List String) (cs : List RecoveryCase) (x : RecoveryCase)
    → is_terminal x.state ≡ true
    → IsWaiting keys cs x
terminal-IsWaiting keys cs x h = elim (Bool-cases (is_customer_of keys x)) [
  | inl e ↦ inl (rw (e, h) refl)
  | inr e ↦ inl (rw e refl)
]

closed-IsWaiting :
    (keys : List String) (c x y : RecoveryCase) (cs : List RecoveryCase)
    → y.id ≡ c.id
    → is_terminal y.state ≡ true
    → IsWaiting keys (c ∷ cs) x
    → IsWaiting keys cs (if x.id == y.id then y else x)
closed-IsWaiting keys c x y cs same over h = elim (Bool-cases (x.id == y.id)) [
  | inl e ↦ rw e (terminal-IsWaiting keys cs y over)
  | inr e ↦
      let e' : (x.id == c.id) ≡ false = subst (λ i. (x.id == i) ≡ false) same e in rw e (rw e' at h)
]

replace-IsWaiting :
    (now : ℕ) (keys : List String) (c : RecoveryCase) (cs xs : List RecoveryCase)
    → All (IsWaiting keys (c ∷ cs)) xs
    → All (IsWaiting keys cs) (replace (closed now c) xs)
replace-IsWaiting now keys c cs [] h = tt
replace-IsWaiting now keys c cs (x ∷ xs) h =
    let (same, over) = closed-IsClosed now c in
    (
      closed-IsWaiting keys c x (closed now c) cs same over h.0,
      replace-IsWaiting now keys c cs xs h.1,
    )

waiting-none :
    (keys : List String) (xs : List RecoveryCase)
    → All (IsWaiting keys []) xs
    → keep (is_open_of keys) xs ≡ []
waiting-none keys [] h = refl
waiting-none keys (x ∷ xs) (inl e, h) = rw e (waiting-none keys xs h)
waiting-none keys (x ∷ xs) (inr e, h) = cc

-- At first, every open case of the customer is among those that are to be closed.
any-more :
    (x c : RecoveryCase) (cs : List RecoveryCase)
    → any (λ y. x.id == y.id) cs ≡ true
    → any (λ y. x.id == y.id) (c ∷ cs) ≡ true
any-more x c cs h = elim (Bool-cases (x.id == c.id)) [ inl e ↦ rw e refl | inr e ↦ rw e h ]

==-same : (i : ℕ) → (i == i) ≡ true
==-same i = ground arith

IsWaiting-more :
    (keys : List String) (c : RecoveryCase) (cs xs : List RecoveryCase)
    → All (IsWaiting keys cs) xs
    → All (IsWaiting keys (c ∷ cs)) xs
IsWaiting-more keys c cs xs =
    All-imp (λ x h. elim h [ inl e ↦ inl e | inr e ↦ inr (any-more x c cs e) ]) xs

keep-kept :
    (p : RecoveryCase → Bool) (x : RecoveryCase) (xs : List RecoveryCase)
    → p x ≡ true
    → x ∷ keep p xs ≡ keep p (x ∷ xs)
keep-kept p x xs e = rw e refl

keep-left :
    (p : RecoveryCase → Bool) (x : RecoveryCase) (xs : List RecoveryCase)
    → p x ≡ false
    → keep p xs ≡ keep p (x ∷ xs)
keep-left p x xs e = rw e refl

kept-IsWaiting :
    (keys : List String) (xs : List RecoveryCase)
    → All (IsWaiting keys (keep (is_open_of keys) xs)) xs
kept-IsWaiting keys [] = tt
kept-IsWaiting keys (x ∷ xs) =
    let rest = kept-IsWaiting keys xs in
    elim (Bool-cases (is_open_of keys x)) [
      | inl e ↦
          subst (λ l. All (IsWaiting keys l) (x ∷ xs)) (keep-kept (is_open_of keys) x xs e)
            (
              inr (rw (==-same x.id) refl),
              IsWaiting-more keys x (keep (is_open_of keys) xs) xs rest,
            )
      | inr e ↦
          subst (λ l. All (IsWaiting keys l) (x ∷ xs)) (keep-left (is_open_of keys) x xs e)
            (inl e, rest)
    ]

close_each-silent :
    (now : ℕ) (keys : List String) (cs : List RecoveryCase) (s : Store)
    → All (IsWaiting keys cs) s.cases
    → (keep (is_open_of keys) (close_each now cs s).cases ≡ [])
      × ((close_each now cs s).ledgers ≡ s.ledgers)
unfolding close_each
close_each-silent now keys [] s h = (waiting-none keys s.cases h, refl)
close_each-silent now keys (c ∷ cs) s h =
    let (cases, ledgers) = close_one-rows now c s in
    let (silent, same) =
      close_each-silent now keys cs (close_one now c s)
        (subst (All (IsWaiting keys cs)) (sym cases) (replace-IsWaiting now keys c cs s.cases h)) in
    (silent, same ∙ ledgers)

-- After a customer with some key has opted out, the customer has no open case left, the number of
-- those that were closed is returned, and the row by which the customer is found says so: whatever
-- case is looked at with it, at any time, is stopped, also one that is opened later.
pub record_opt_out-IsSilent :
    (now t : ℕ) (canonical : String) (rest : List String) (s : Store) (c : RecoveryCase)
    → let (s', n) = record_opt_out now (canonical ∷ rest) s in
      (keep (is_open_of (canonical ∷ rest)) s'.cases ≡ [])
      × (n ≡ length (keep (is_open_of (canonical ∷ rest)) s.cases))
      × (is_opted_out (find_ledger canonical rest s'.ledgers) ≡ true)
      × (stop_reason t c (find_ledger canonical rest s'.ledgers) ≢ none)
unfolding record_opt_out
record_opt_out-IsSilent now t canonical rest s c =
    let keys = canonical ∷ rest in
    let (silent, same) =
      close_each-silent now keys (keep (is_open_of keys) s.cases)
        (record s { ledgers = withdraw now canonical rest s.ledgers })
        (kept-IsWaiting keys s.cases) in
    let out =
      ap (λ ls. is_opted_out (find_ledger canonical rest ls)) same
      ∙ withdraw-is_opted_out now canonical rest s.ledgers in
    (silent, refl, out, λ e. differ out ((stop_reason-none t c _).0 e).2)
  where
    differ : {b : Bool} → b ≡ true → b ≡ false → ⊥
    differ p q = cc
