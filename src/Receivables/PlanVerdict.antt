-- ===== src/Receivables/PlanVerdict.antt =====
-- The verdict on a payment plan: `plan_progress` and `reconcile_plans` of
-- src/receivables/plans.py.
use payment_recovery_engine.Prelude.{
  ℕ, suc, zero, String, Bool, true, false, ◌&&◌, ◌||◌, not, Option, none, some, List, [], ◌∷◌, ◌++◌,
  any, find, keep, length, take, map, ltb, leb, ◌==◌, if◌then◌else◌,
}
use payment_recovery_engine.Cases.Model.{
  CaseState, RecoveryCase, PromiseToPay, PromiseStatus, get_case,
}
use payment_recovery_engine.Cases.Promises.{Resolution, is_pending, is_broken, resolve_promises}
use payment_recovery_engine.Receivables.PlanLife.{
  completed, defaulted, PaymentPlan, PlanInstalment, PlanStore, is_active_plan,
  plan_instalment_missed, plan_defaulted, plan_completed,
}

abbrev repeat : {A : Type 0} → ℕ → A → List A
repeat zero x = []
repeat (suc n) x = x ∷ repeat n x

-- The instalments of a plan with their promises, in the order of the rows, which is that of seq.
unfoldable pub rows_of :
    ℕ → List PromiseToPay → List PlanInstalment → List (PlanInstalment × PromiseToPay)
rows_of plan_id promises [] = []
rows_of plan_id promises (i ∷ rest) =
    let later = rows_of plan_id promises rest in
    if i.plan_id == plan_id
    then elim (find (λ p. p.id == i.promise_id) promises) [ none ↦ later | some p ↦ (i, p) ∷ later ]
    else later

abbrev pub has_status : (PromiseStatus → Bool) → PlanInstalment × PromiseToPay → Bool
has_status test (i, p) = test p.status

abbrev pub is_kept : PromiseStatus → Bool
is_kept PromiseStatus.kept = true
is_kept _ = false

-- `plan.settlement_paise or plan.principal_paise`
abbrev pub plan_target : PaymentPlan → ℕ
plan_target p = elim p.settlement_paise [
  | none ↦ p.principal_paise
  | some s ↦ if s == 0 then p.principal_paise else s
]

abbrev pub recovered_of : Option RecoveryCase → ℕ
recovered_of none = 0
recovered_of (some c) = c.amount_recovered

pub record Progress : Type 0 where
  pub total : ℕ
  pub kept : ℕ
  pub broken : ℕ
  pub pending : ℕ
  pub completed : Bool
  pub defaulted : Bool

unfoldable pub plan_progress : PaymentPlan → PlanStore → Progress
unfolding rows_of
plan_progress plan s =
    let rows = rows_of plan.id s.books.promises s.instalments in
    let kept = length (keep (has_status is_kept) rows) in
    let broken = length (keep (has_status is_broken) rows) in
    record {
      total = length rows;
      kept = kept;
      broken = broken;
      pending = length (keep (has_status is_pending) rows);
      completed =
          kept == length rows
          && leb (plan_target plan) (recovered_of (get_case plan.case_id s.books.cases));
      defaulted = ltb 0 broken;
    }

unfoldable pub put_plan : PaymentPlan → List PaymentPlan → List PaymentPlan
put_plan p = map (λ x. if x.id == p.id then p else x)

abbrev pub is_open_case : Option RecoveryCase → Bool
is_open_case none = false
is_open_case (some c) = elim c.state [ CaseState.open_ ↦ true | _ ↦ false ]

abbrev pub is_recovered_case : Option RecoveryCase → Bool
is_recovered_case none = false
is_recovered_case (some c) = elim c.state [ CaseState.recovered ↦ true | _ ↦ false ]

-- `promise.status in ("kept", "broken")`
abbrev pub is_resolved : PromiseStatus → Bool
is_resolved t = is_kept t || is_broken t

unfoldable pub default_plan : (ℕ → String) → ℕ → PaymentPlan → ℕ → PlanStore → PlanStore
unfolding put_plan
default_plan text now plan missed s =
    let case_open = is_open_case (get_case plan.case_id s.books.cases) in
    record s {
      plans = put_plan (record plan { status = defaulted }) s.plans;
      books =
          if case_open
          then (resolve_promises Resolution.cancelled (some (text plan.id)) now plan.case_id
              s.books).0
          else s.books;
      alerts =
          s.alerts ++ repeat missed (plan_instalment_missed plan.id) ++ plan_defaulted plan.id ∷ [];
    }

unfoldable pub complete_plan : ℕ → PaymentPlan → PlanStore → PlanStore
unfolding put_plan
complete_plan now plan s = record s {
  plans = put_plan (record plan { status = completed; completed_at = some now }) s.plans;
  alerts = s.alerts ++ plan_completed plan.id ∷ [];
}

-- The pass over one active plan, and whether it moved.
unfoldable pub reconcile_plan : (ℕ → String) → ℕ → PaymentPlan → PlanStore → PlanStore × Bool
unfolding rows_of default_plan complete_plan
reconcile_plan text now plan s =
    let rows = rows_of plan.id s.books.promises s.instalments in
    let missed = length (keep (has_status is_broken) rows) in
    let case_now = get_case plan.case_id s.books.cases in
    if ltb 0 missed
    then (default_plan text now plan missed s, true)
    else if is_recovered_case case_now
        && not (any (λ r. not (has_status is_resolved r)) rows)
        && leb (plan_target plan) (recovered_of case_now)
    then (complete_plan now plan s, true)
    else (s, false)

unfoldable pub reconcile_each_plan : (ℕ → String) → ℕ → List PaymentPlan → PlanStore → PlanStore × ℕ
unfolding reconcile_plan
reconcile_each_plan text now [] s = (s, 0)
reconcile_each_plan text now (plan ∷ plans) s =
    let (s1, moved) = reconcile_plan text now plan s in
    let (s2, n) = reconcile_each_plan text now plans s1 in (s2, if moved then suc n else n)

-- `reconcile_plans`: the oldest active plans, up to the limit.
unfoldable pub reconcile_plans : (ℕ → String) → ℕ → ℕ → PlanStore → PlanStore × ℕ
unfolding reconcile_each_plan
reconcile_plans text now limit s =
    reconcile_each_plan text now (take limit (keep (λ p. is_active_plan p.status) s.plans)) s
