-- ===== src/Receivables/PlanOnce.antt =====
-- A case has one active plan at most (src/receivables/plans.py).
use payment_recovery_engine.Prelude.{
  ℕ, ◌+◌, ◌≤◌, String, Bool, false, Option, none, some, List, [], ◌∷◌, ◌++◌, any, keep, take, ◌≡◌,
  refl, arith, Bool-cases, if◌then◌else◌, inl, inr, subst,
}
use payment_recovery_engine.Prelude.Int.{ℤ}
use payment_recovery_engine.Clock.{Timestamp}
use payment_recovery_engine.Settings.{Settings}
use payment_recovery_engine.Cases.Model.{RecoveryCase, Store}
use payment_recovery_engine.Receivables.PlanLife.{
  PlanStatus, PaymentPlan, PlanStore, is_active_plan, is_active_of, create_plan,
}
use payment_recovery_engine.Receivables.PlanVerdict.{
  put_plan, default_plan, complete_plan, reconcile_plan, reconcile_each_plan, reconcile_plans,
}
use payment_recovery_engine.Receivables.PlanOpening.{
  IsOpened, IsPlanAnswer, create_plan-IsPlanAnswer,
}

abbrev pub active_plans : ℕ → List PaymentPlan → ℕ
active_plans case_id [] = 0
active_plans case_id (p ∷ ps) = (if is_active_of case_id p then 1 else 0) + active_plans case_id ps

-- What happens to the plans: a request for one, a pass over them, and whatever else changes the
-- books alone.
pub data PlanStep : PlanStore → PlanStore → Type 0 where
  requested :
      (cfg : Settings) (now fresh_id : ℕ) (fresh : ℕ → ℕ) (c : RecoveryCase) (amounts : List ℤ)
      (due_dates : List Timestamp) (settlement : Option ℕ) (s s' : PlanStore)
      (answer : Option PaymentPlan)
      → create_plan cfg now fresh_id fresh c amounts due_dates settlement s ≡ some (s', answer)
      → PlanStep s s'
  reconciled :
      (text : ℕ → String) (now limit : ℕ) (s : PlanStore)
      → PlanStep s (reconcile_plans text now limit s).0
  elsewhere : (b : Store) (s : PlanStore) → PlanStep s (record s { books = b })

pub data PlanSteps : PlanStore → PlanStore → Type 0 where
  stay : (s : PlanStore) → PlanSteps s s
  step : (s t u : PlanStore) → PlanStep s t → PlanSteps t u → PlanSteps s u

abbrev pub IsPlannedOnce : PlanStore → Type 0
IsPlannedOnce s = (case_id : ℕ) → active_plans case_id s.plans ≤ 1

active_plans-append :
    (case_id : ℕ) (ps qs : List PaymentPlan)
    → active_plans case_id (ps ++ qs) ≡ active_plans case_id ps + active_plans case_id qs
active_plans-append case_id [] qs = omega arith
active_plans-append case_id (p ∷ ps) qs = omega (arith, active_plans-append case_id ps qs)

none_active :
    (case_id : ℕ) (ps : List PaymentPlan)
    → any (is_active_of case_id) ps ≡ false
    → active_plans case_id ps ≡ 0
none_active case_id [] h = refl
none_active case_id (p ∷ ps) h = ground (arith, none_active case_id ps)

put_plan-active_plans :
    (case_id : ℕ) (q : PaymentPlan) (ps : List PaymentPlan)
    → is_active_plan q.status ≡ false
    → active_plans case_id (put_plan q ps) ≤ active_plans case_id ps
unfolding put_plan
put_plan-active_plans case_id q [] h = omega arith
put_plan-active_plans case_id q (p ∷ ps) h = ground (arith, put_plan-active_plans case_id q ps h)

opened-once :
    (c : RecoveryCase) (amounts : List ℤ) (due_dates : List Timestamp) (settlement : Option ℕ)
    (plan : PaymentPlan) (s s' : PlanStore)
    → IsOpened c amounts due_dates settlement plan s s'
    → IsPlannedOnce s
    → IsPlannedOnce s'
opened-once c amounts due_dates settlement plan s s' o once case_id =
    rw o.scheduled.plans_kept (elim (Bool-cases (is_active_of case_id plan)) [
      | inl e ↦
          let same : case_id ≡ c.id = ground (arith, e, o.of_case) in
          rw same (
            omega (
              arith,
              active_plans-append c.id s.plans (plan ∷ []),
              none_active c.id s.plans o.unplanned,
              one (is_active_of c.id plan),
            ))
      | inr e ↦ ground (arith, e, active_plans-append case_id s.plans (plan ∷ []), once case_id)
    ])
  where
    one : (b : Bool) → (if b then 1 else 0) ≤ 1
    one b = ground arith

module _ (text : ℕ → String) (now case_id : ℕ) where
  reconcile_plan-active_plans :
      (plan : PaymentPlan) (s : PlanStore)
      → active_plans case_id (reconcile_plan text now plan s).0.plans ≤ active_plans case_id s.plans
  unfolding reconcile_plan default_plan complete_plan
  reconcile_plan-active_plans plan s = ground (
    arith,
    put_plan-active_plans case_id (record plan { status = PlanStatus.defaulted }) s.plans,
    put_plan-active_plans case_id
        (record plan { status = PlanStatus.completed; completed_at = some now }) s.plans,
  )

  reconcile_each_plan-active_plans :
      (plans : List PaymentPlan) (s : PlanStore)
      → active_plans case_id (reconcile_each_plan text now plans s).0.plans
        ≤ active_plans case_id s.plans
  unfolding reconcile_each_plan
  reconcile_each_plan-active_plans [] s = omega arith
  reconcile_each_plan-active_plans (plan ∷ plans) s = omega (
    arith,
    reconcile_plan-active_plans plan s,
    reconcile_each_plan-active_plans plans (reconcile_plan text now plan s).0,
  )

reconciled_once :
    (text : ℕ → String) (now limit case_id : ℕ) (s : PlanStore)
    → IsPlannedOnce s
    → active_plans case_id (reconcile_plans text now limit s).0.plans ≤ 1
unfolding reconcile_plans
reconciled_once text now limit case_id s once = omega (
  arith,
  once case_id,
  reconcile_each_plan-active_plans text now case_id
      (take limit (keep (λ p. is_active_plan p.status) s.plans)) s,
)

answered-once :
    (c : RecoveryCase) (amounts : List ℤ) (due_dates : List Timestamp) (settlement : Option ℕ)
    (s s' : PlanStore) (answer : Option PaymentPlan)
    → IsPlanAnswer c amounts due_dates settlement s (some (s', answer))
    → IsPlannedOnce s
    → IsPlannedOnce s'
answered-once c amounts due_dates settlement s s' none a once = rw a once
answered-once c amounts due_dates settlement s s' (some plan) a once =
    opened-once c amounts due_dates settlement plan s s' a once

PlanStep-IsPlannedOnce : {s t : PlanStore} → PlanStep s t → IsPlannedOnce s → IsPlannedOnce t
PlanStep-IsPlannedOnce
      (requested cfg now fresh_id fresh c amounts due_dates settlement s s' answer e) once case_id =
    answered-once c amounts due_dates settlement s s' answer
      (subst (IsPlanAnswer c amounts due_dates settlement s) e
        (create_plan-IsPlanAnswer cfg now fresh_id fresh c amounts due_dates settlement s))
      once case_id
PlanStep-IsPlannedOnce (reconciled text now limit s) once case_id =
    reconciled_once text now limit case_id s once
PlanStep-IsPlannedOnce (elsewhere b s) once case_id = once case_id

-- However requests for plans, passes over the plans and other changes of the books follow one
-- another, a case has one active plan at most, if each had one at most before.
pub PlanSteps-IsPlannedOnce : {s t : PlanStore} → PlanSteps s t → IsPlannedOnce s → IsPlannedOnce t
PlanSteps-IsPlannedOnce (stay s) once = once
PlanSteps-IsPlannedOnce (step s t u now later) once =
    PlanSteps-IsPlannedOnce later (PlanStep-IsPlannedOnce now once)
