-- ===== src/Cases/Capture.antt =====
-- Crediting a captured payment to its case (`attribute_capture` of src/cases.py).
use payment_recovery_engine.Prelude.{
  ℕ, suc, ◌+◌, String, Bool, true, false, ◌&&◌, ◌||◌, not, Option, none, some, is_some, List, [],
  ◌∷◌, ◌++◌, map, keep, any, str_eq, ltb, leb, ◌==◌, if◌then◌else◌,
}
use payment_recovery_engine.Prelude.Int.{ℤ, pos}
use payment_recovery_engine.Actions.{
  RiskType, payment_failure, checkout_abandonment, subscription_failure, invoice_overdue,
  mandate_failure,
}
use payment_recovery_engine.Cases.Model
use payment_recovery_engine.Cases.Model.{
  CaseState, RecoveryCase, RetryAttempt, AttemptResult, PaymentFailure, MatchedOn, Store, get_case,
  put_case, log_event, is_terminal,
}
use payment_recovery_engine.Cases.Lifecycle.{close_case, find_case}
use payment_recovery_engine.Cases.Promises
use payment_recovery_engine.Cases.Promises.{resolve_promises}

-- A value of the webhook's payload: a bool is an int to Python, and is told apart first.
pub data Amount : Type 0 where
  boolean : Bool → Amount
  integer : ℤ → Amount
  not_a_number : Amount

unfoldable pub positive_amount : Amount → Option ℕ
positive_amount (integer (pos (suc n))) = some (suc n)
positive_amount _ = none

pub record Capture : Type 0 where
  pub amount : Amount
  pub recovered_ref : String
  pub link : Option String
  pub key : Option String
  pub order : Option String
  pub subject : Option String
  pub risk_name : Option String

-- `if text:`, with the empty text false.
abbrev pub given : Option String → Option String
given none = none
given (some t) = if str_eq t "" then none else some t

-- `risk_type in RISK_TYPES`
unfoldable pub parse_risk_type : String → Option RiskType
parse_risk_type t =
    if str_eq t "payment_failure"
    then some payment_failure
    else if str_eq t "checkout_abandonment"
    then some checkout_abandonment
    else if str_eq t "subscription_failure"
    then some subscription_failure
    else if str_eq t "invoice_overdue"
    then some invoice_overdue
    else if str_eq t "mandate_failure"
    then some mandate_failure
    else none

-- `ORDER BY … DESC LIMIT 1`: the first of the newest rows.
abbrev pub newer : {A : Type 0} → (A → ℕ) → A → Option A → Option A
newer f a none = some a
newer f a (some b) = if ltb (f a) (f b) then some b else some a

unfoldable pub newest : {A : Type 0} → (A → ℕ) → List A → Option A
newest f [] = none
newest f (x ∷ xs) = newer f x (newest f xs)

unfoldable pub find_attempt : (RetryAttempt → Bool) → List RetryAttempt → Option RetryAttempt
find_attempt condition attempts = newest (λ a. a.created_at) (keep condition attempts)

has_ref : String → RetryAttempt → Bool
has_ref t a = elim a.external_ref [ none ↦ false | some r ↦ str_eq r t ]

try_ref : Option String → List RetryAttempt → Option RetryAttempt
unfolding has_ref
try_ref none attempts = none
try_ref (some t) attempts = find_attempt (has_ref t) attempts

try_key : Option String → List RetryAttempt → Option RetryAttempt
try_key none attempts = none
try_key (some t) attempts = find_attempt (λ a. str_eq a.idempotency_key t) attempts

abbrev pub or_then : {A : Type 0} → Option A → Option A → Option A
or_then none b = b
or_then (some a) b = some a

-- By the link, else by the key, else by an order that the engine itself charged.
unfoldable pub matching_attempt : Capture → List RetryAttempt → Option RetryAttempt
unfolding try_ref try_key
matching_attempt k attempts =
    or_then (try_ref (given k.link) attempts)
      (or_then (try_key (given k.key) attempts) (try_ref (given k.order) attempts))

is_failure_of : String → RecoveryCase → PaymentFailure → Bool
is_failure_of order c f =
    str_eq f.payment_id c.subject_ref && elim f.order_id [ none ↦ false | some o ↦ str_eq o order ]

-- `_find_case_by_order`: the newest open case whose failure carries the order.
unfoldable pub find_case_by_order : String → Store → Option RecoveryCase
unfolding is_failure_of
find_case_by_order order s =
    newest (λ c. c.opened_at)
      (keep (λ c. not (is_terminal c.state) && any (is_failure_of order c) s.failures) s.cases)

-- A case with the attempt that earned it and how it was found.
pub record Match : Type 0 where
  pub case : RecoveryCase
  pub attempt : Option RetryAttempt
  pub matched_on : MatchedOn

abbrev pub match_on : MatchedOn → Option RetryAttempt → Option RecoveryCase → Option Match
match_on how attempt none = none
match_on how attempt (some c) = some (record { case = c; attempt = attempt; matched_on = how })

-- `matched_on = "link_id" if link_id else "idempotency_key"`
direct_match : Capture → MatchedOn
direct_match k = if is_some (given k.link) then MatchedOn.link_id else MatchedOn.idempotency_key

-- A lookup that goes on from what another found.
abbrev pub and_then : {A B : Type 0} → Option A → (A → Option B) → Option B
and_then none f = none
and_then (some a) f = f a

unfoldable pub by_order : Capture → Store → Option Match
by_order k s =
    and_then (given k.order) (λ o. match_on MatchedOn.order_ref none (find_case_by_order o s))

-- The attempt's case, which may be gone; without one, the order's.
unfoldable pub case_or_order : Capture → Store → RetryAttempt → Option ℕ → Option Match
unfolding direct_match
case_or_order k s a none = by_order k s
case_or_order k s a (some i) = match_on (direct_match k) (some a) (get_case i s.cases)

unfoldable pub by_attempt : Capture → Store → Option RetryAttempt → Option Match
by_attempt k s none = by_order k s
by_attempt k s (some a) = case_or_order k s a a.recovery_case_id

unfoldable pub open_only : Option RecoveryCase → Option RecoveryCase
open_only none = none
open_only (some c) = if is_terminal c.state then none else some c

-- The merchant's own reference, for an open case of a known risk type.
unfoldable pub by_subject : Capture → Store → Option Match
by_subject k s = and_then (given k.subject) (λ t.
    and_then (and_then k.risk_name parse_risk_type)
      (λ r. match_on MatchedOn.notes_subject_ref none (open_only (find_case r t s.cases))))

unfoldable pub resolve : Capture → Store → Option Match
resolve k s = or_then (by_attempt k s (matching_attempt k s.attempts)) (by_subject k s)

-- `recovered_ref in case.credited_refs or case.recovered_ref == recovered_ref`
unfoldable pub is_replay : String → RecoveryCase → Bool
is_replay ref c =
    any (λ r. str_eq r ref) c.credited_refs
    || elim c.recovered_ref [ none ↦ false | some r ↦ str_eq r ref ]

abbrev pub attempt_id : Option RetryAttempt → Option ℕ
attempt_id none = none
attempt_id (some a) = some a.id

abbrev pub attempt_no : Option RetryAttempt → Option ℕ
attempt_no none = none
attempt_no (some a) = some a.attempt_number

-- The case's own row, with the money added.
unfoldable pub credited : ℕ → ℕ → String → Option RetryAttempt → RecoveryCase → RecoveryCase
credited now amount ref attempt c = record c {
  amount_recovered = c.amount_recovered + amount;
  recovered_ref = some ref;
  credited_refs = c.credited_refs ++ ref ∷ [];
  recovered_at = some now;
  recovered_via_attempt_id = or_then (attempt_id attempt) c.recovered_via_attempt_id;
}

-- The outstanding attempts of the case are moot.
abbrev pub supersede : ℕ → ℕ → RetryAttempt → RetryAttempt
supersede now case_id a = elim a.recovery_case_id [
  | none ↦ a
  | some i ↦ elim a.result [
    | AttemptResult.pending ↦
        if i == case_id
        then record a { result = AttemptResult.superseded; executed_at = some now }
        else a
    | _ ↦ a
  ]
]

unfoldable pub is_mandate : RiskType → Bool
is_mandate mandate_failure = true
is_mandate _ = false

-- The confirmation that a mandate's collection is owed.
unfoldable pub confirm : RecoveryCase → ℕ → String → Store → Store
unfolding is_mandate
confirm c amount ref s =
    if is_mandate c.risk_type
    then log_event c.id (Model.mandate_post_debit_confirmation amount ref) s
    else s

-- The case is closed once what came back covers what was at risk.
unfoldable pub settle : ℕ → String → Option RetryAttempt → RecoveryCase → Store → Store
settle now ref attempt c s =
    if leb c.amount_at_risk c.amount_recovered
    then log_event c.id (Model.closed CaseState.recovered) (
        put_case
          (close_case now CaseState.recovered
            (Model.captured c.amount_recovered ref (attempt_no attempt)) c)
          s)
    else put_case c s

unfoldable pub supersede_all : ℕ → ℕ → Store → Store
supersede_all now case_id s = record s { attempts = map (supersede now case_id) s.attempts }

unfoldable pub credit : ℕ → ℕ → String → Match → Store → Store
unfolding confirm
credit now amount ref m s =
    let c = credited now amount ref m.attempt m.case in
    let s1 = log_event c.id (Model.attributed amount ref (attempt_id m.attempt) m.matched_on) s in
    let s2 = confirm c amount ref s1 in
    let s3 = (resolve_promises Promises.kept (some ref) now c.id s2).0 in
    supersede_all now c.id (settle now ref m.attempt c s3)

-- A replay changes nothing; money for a closed case is only recorded, for a refund by hand.
unfoldable pub apply_match : ℕ → ℕ → String → Match → Store → Store × Option ℕ
apply_match now amount ref m s =
    if is_replay ref m.case
    then (s, none)
    else if is_terminal m.case.state
    then (
      log_event m.case.id (Model.overpayment amount ref (attempt_id m.attempt) m.matched_on) s,
      some m.case.id,
    )
    else (credit now amount ref m s, some m.case.id)

-- The store after the capture, and the case that it returns.
unfoldable pub attribute_capture : ℕ → Capture → Store → Store × Option ℕ
unfolding apply_match
attribute_capture now k s = elim (positive_amount k.amount) [
  | none ↦ (s, none)
  | some amount ↦ elim (resolve k s) [
    | none ↦ (s, none)
    | some m ↦ apply_match now amount k.recovered_ref m s
  ]
]
