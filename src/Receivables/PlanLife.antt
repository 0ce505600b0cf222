-- ===== src/Receivables/PlanLife.antt =====
-- The opening of a payment plan: `create_plan` of
-- src/receivables/plans.py, over the rows of src/receivables/models.py.
use payment_recovery_engine.Prelude.{
  ℕ, suc, Bool, true, false, ◌&&◌, Option, none, some, List, [], ◌∷◌, ◌++◌, any, map, ltb, ◌==◌,
  if◌then◌else◌,
}
use payment_recovery_engine.Prelude.Int.{ℤ, pos, negsuc}
use payment_recovery_engine.Clock.{Timestamp, to_utc}
use payment_recovery_engine.Settings.{Settings}
use payment_recovery_engine.Cases.Model.{RecoveryCase, Channel, Store, get_case, is_terminal}
use payment_recovery_engine.Cases.Capture.{integer}
use payment_recovery_engine.Cases.Lifecycle.{outstanding_paise}
use payment_recovery_engine.Cases.Promises.{record_promise}
use payment_recovery_engine.Receivables.Plans.{paise, validate_plan_shape}

pub data PlanStatus : Type 0 where
  active completed defaulted : PlanStatus

pub record PaymentPlan : Type 0 where
  pub id : ℕ
  pub case_id : ℕ
  pub principal_paise : ℕ
  pub settlement_paise : Option ℕ
  pub status : PlanStatus
  pub completed_at : Option ℕ

pub record PlanInstalment : Type 0 where
  pub plan_id : ℕ
  pub seq : ℕ
  pub amount_paise : ℕ
  pub due_at : ℕ
  pub promise_id : ℕ

-- What the merchant is told, with the id of the plan or of the case.
pub data Alert : Type 0 where
  plan_requested plan_instalment_missed plan_defaulted plan_completed : ℕ → Alert

-- The books, and the tables of the plans; the plans in the order of their creation.
pub record PlanStore : Type 0 where
  pub books : Store
  pub plans : List PaymentPlan
  pub instalments : List PlanInstalment
  pub alerts : List Alert

abbrev pub is_active_plan : PlanStatus → Bool
is_active_plan active = true
is_active_plan _ = false

abbrev pub is_active_of : ℕ → PaymentPlan → Bool
is_active_of case_id p = p.case_id == case_id && is_active_plan p.status

abbrev pub exceeds : ℕ → ℤ → Bool
exceeds target (pos n) = ltb target n
exceeds target (negsuc n) = false

-- `settlement_paise if settlement_paise is not None else outstanding`
abbrev pub target_of : Option ℕ → ℕ → ℕ
target_of none outstanding = outstanding
target_of (some s) outstanding = s

abbrev pub is_zero : Option ℕ → Bool
is_zero none = false
is_zero (some s) = s == 0

-- The case as the session holds it after a promise was recorded on it.
abbrev pub or_case : RecoveryCase → Option RecoveryCase → RecoveryCase
or_case c none = c
or_case c (some c') = c'

-- One promise and one row for each instalment, under the ids that the database gives; `none` is
-- the exception of a refused promise.
unfoldable pub record_instalments :
    Settings → ℕ → (ℕ → ℕ) → ℕ → RecoveryCase → ℕ → List ℕ → List ℕ → PlanStore → Option PlanStore
record_instalments cfg now fresh plan_id c seq [] dues s = some s
record_instalments cfg now fresh plan_id c seq (a ∷ amounts) [] s = some s
record_instalments cfg now fresh plan_id c seq (a ∷ amounts) (due ∷ dues) s =
    let (books, promise) =
      record_promise cfg now (fresh seq) c a due (some Channel.payment_plan) s.books in
    elim promise [
      | none ↦ none
      | some p ↦
          let row : PlanInstalment = record {
            plan_id = plan_id;
            seq = seq;
            amount_paise = a;
            due_at = due;
            promise_id = p.id;
          } in
          record_instalments cfg now fresh plan_id (or_case c (get_case c.id books.cases)) (suc seq)
            amounts dues (record s { books = books; instalments = s.instalments ++ row ∷ [] })
    ]

unfoldable pub new_plan : ℕ → RecoveryCase → Option ℕ → PaymentPlan
new_plan fresh_id c settlement = record {
  id = fresh_id;
  case_id = c.id;
  principal_paise = outstanding_paise c;
  settlement_paise = settlement;
  status = active;
  completed_at = none;
}

-- A plan whose shape was found good.
unfoldable pub open_plan :
    Settings
    → ℕ
    → (ℕ → ℕ)
    → RecoveryCase
    → List ℕ
    → List ℕ
    → PaymentPlan
    → PlanStore
    → Option (PlanStore × Option PaymentPlan)
unfolding record_instalments
open_plan cfg now fresh c amounts dues plan s =
    elim (record_instalments cfg now fresh plan.id c 1 amounts dues
      (record s { plans = s.plans ++ plan ∷ [] })) [
        | none ↦ none
        | some s' ↦ some (record s' { alerts = s'.alerts ++ plan_requested c.id ∷ [] }, some plan)
      ]

-- `create_plan`: the outer `none` is an exception, the inner one a refusal. The amounts are
-- integers, and a settlement is none or not negative, as its caller gives them.
unfoldable pub create_plan :
    Settings
    → ℕ
    → ℕ
    → (ℕ → ℕ)
    → RecoveryCase
    → List ℤ
    → List Timestamp
    → Option ℕ
    → PlanStore
    → Option (PlanStore × Option PaymentPlan)
unfolding open_plan new_plan
create_plan cfg now fresh_id fresh c amounts due_dates settlement s =
    let outstanding = outstanding_paise c in
    let target = target_of settlement outstanding in
    if is_terminal c.state
    then some (s, none)
    else if any (is_active_of c.id) s.plans
    then some (s, none)
    else if outstanding == 0
    then some (s, none)
    else if is_zero settlement
    then some (s, none)
    else if any (exceeds target) amounts
    then some (s, none)
    else elim (validate_plan_shape (map integer amounts) due_dates target) [
      | some problem ↦ some (s, none)
      | none ↦
          open_plan cfg now fresh c (map (λ a. paise (integer a)) amounts) (map to_utc due_dates)
            (new_plan fresh_id c settlement) s
    ]
