-- ===== src/Cases/OptOut.antt =====
-- `record_opt_out` of src/cases.py: a customer withdraws consent. The keys of the customer, as
-- `ledger_keys` gives them with the canonical one first, are an argument.
use payment_recovery_engine.Prelude.{
  ℕ, String, Bool, false, ◌&&◌, not, Option, none, some, List, [], ◌∷◌, ◌++◌, map, keep, find, any,
  length, str_eq, if◌then◌else◌,
}
use payment_recovery_engine.Cases.Model
use payment_recovery_engine.Cases.Model.{
  CaseState, RecoveryCase, RetryLedger, Store, new_ledger, put_case, log_event, is_terminal,
  replace,
}
use payment_recovery_engine.Cases.Lifecycle.{close_case}
use payment_recovery_engine.Cases.Promises
use payment_recovery_engine.Cases.Promises.{resolve_promises}

-- `RetryLedger.customer_id.in_(keys)`
abbrev pub is_key : List String → String → Bool
is_key keys x = any (λ k. str_eq x k) keys

abbrev pub first_of : Option RetryLedger → Option RetryLedger → Option RetryLedger
first_of (some l) other = some l
first_of none other = other

-- The customer's row: the one under the canonical key before any other.
abbrev pub find_ledger : String → List String → List RetryLedger → Option RetryLedger
find_ledger canonical rest ls =
    first_of (find (λ l. str_eq l.customer_id canonical) ls)
      (find (λ l. is_key (canonical ∷ rest) l.customer_id) ls)

abbrev pub opt_out : ℕ → RetryLedger → RetryLedger
opt_out now l = record l { consent_status = Model.opted_out; opted_out_at = some now }

abbrev pub put_ledger : RetryLedger → List RetryLedger → List RetryLedger
put_ledger l = map (λ x. if str_eq x.customer_id l.customer_id then l else x)

-- The customer's row says that consent is withdrawn; a customer without a row gets one.
abbrev pub put_or_add : ℕ → String → Option RetryLedger → List RetryLedger → List RetryLedger
put_or_add now canonical none ls = ls ++ opt_out now (new_ledger canonical) ∷ []
put_or_add now canonical (some l) ls = put_ledger (opt_out now l) ls

unfoldable pub withdraw : ℕ → String → List String → List RetryLedger → List RetryLedger
withdraw now canonical rest ls = put_or_add now canonical (find_ledger canonical rest ls) ls

abbrev pub is_customer_of : List String → RecoveryCase → Bool
is_customer_of keys c = elim c.customer_id [ none ↦ false | some x ↦ is_key keys x ]

-- The open cases of the customer.
abbrev pub is_open_of : List String → RecoveryCase → Bool
is_open_of keys c = is_customer_of keys c && not (is_terminal c.state)

unfoldable pub close_one : ℕ → RecoveryCase → Store → Store
close_one now c s =
    let s1 = put_case (close_case now CaseState.opted_out Model.customer_withdrew_consent c) s in
    log_event c.id Model.customer_opted_out (resolve_promises Promises.cancelled none now c.id s1).0

unfoldable pub close_each : ℕ → List RecoveryCase → Store → Store
close_each now [] s = s
close_each now (c ∷ cs) s = close_each now cs (close_one now c s)

-- The number of the cases that were closed is returned. No key, no customer.
unfoldable pub record_opt_out : ℕ → List String → Store → Store × ℕ
record_opt_out now [] s = (s, 0)
record_opt_out now (canonical ∷ rest) s =
    let open_cases = keep (is_open_of (canonical ∷ rest)) s.cases in
    (
      close_each now open_cases (record s { ledgers = withdraw now canonical rest s.ledgers }),
      length open_cases,
    )
