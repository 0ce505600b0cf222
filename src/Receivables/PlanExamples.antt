-- ===== src/Receivables/PlanExamples.antt =====
-- A plan of two instalments, from its request to its verdict.
use payment_recovery_engine.Prelude.{
  ℕ, ◌+◌, ◌≤◌, ◌≡◌, refl, String, none, some, List, [], ◌∷◌, arith,
}
use payment_recovery_engine.Prelude.Int.{ℤ, pos}
use payment_recovery_engine.Clock.{Timestamp, aware, days}
use payment_recovery_engine.Settings.{default_settings}
use payment_recovery_engine.Cases.Capture.{positive_amount}
use payment_recovery_engine.Cases.Lifecycle.{outstanding_paise}
use payment_recovery_engine.Cases.Model.{put_case, log_event}
use payment_recovery_engine.Cases.Promises.{record_promise, new_promise}
use payment_recovery_engine.Cases.Examples.{noon, owed, store}
use payment_recovery_engine.Receivables.Plans.{validate_plan_shape}
use payment_recovery_engine.Receivables.PlanLife.{
  PaymentPlan, PlanStore, create_plan, open_plan, new_plan, record_instalments,
}
use payment_recovery_engine.Receivables.PlanVerdict.{reconcile_plans}
use payment_recovery_engine.Receivables.PlanOnce.{
  active_plans, stay, step, requested, reconciled, PlanSteps-IsPlannedOnce,
}

abbrev books : PlanStore
books = record { books = store; plans = []; instalments = []; alerts = [] }

abbrev amounts : List ℤ
amounts = pos 300 ∷ pos 200 ∷ []

abbrev dates : List Timestamp
dates = aware (noon + days 3) ∷ aware (noon + days 33) ∷ []

abbrev text : ℕ → String
text n = "plan"

-- The request is granted.
granted :
    (s : PlanStore) × (p : PaymentPlan) × (create_plan default_settings noon 5
        (λ seq. 10 + seq)
        owed
        amounts
        dates
        none
        books
      ≡ some (s, some p))
unfolding create_plan open_plan new_plan record_instalments outstanding_paise validate_plan_shape
    positive_amount record_promise new_promise put_case log_event
granted = (_, _, refl)

PlanSteps-IsPlannedOnce_example :
    active_plans 1 (reconcile_plans text (noon + days 40) 100 granted.0).0.plans ≤ 1
PlanSteps-IsPlannedOnce_example =
    PlanSteps-IsPlannedOnce
      (step _ _ _
        (requested default_settings noon 5 (λ seq. 10 + seq) owed amounts dates none books granted.0
          (some granted.1) granted.2)
        (step _ _ _ (reconciled text (noon + days 40) 100 granted.0) (stay _)))
      (λ case_id. omega arith) 1
