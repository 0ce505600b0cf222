-- ===== src/Receivables/PlanJudged.antt =====
-- The verdict of `reconcile_plans` of src/receivables/plans.py on one plan.
use payment_recovery_engine.Prelude.{
  ℕ, ◌+◌, ◌≤◌, String, Bool, true, false, ◌&&◌, not, some, List, [], ◌∷◌, any, keep, length, All,
  ltb, leb, ◌≡◌, ◌≢◌, ◌⊎◌, refl, ◌∙◌, sym, arith, Bool-cases, if◌then◌else◌, inl, inr,
}
use payment_recovery_engine.Cases.Model.{PromiseToPay, get_case}
use payment_recovery_engine.Cases.Promises.{Resolution, is_broken, is_open_promise_of}
use payment_recovery_engine.Cases.Deferral.{resolve_promises_none_pending}
use payment_recovery_engine.Receivables.PlanLife.{
  PlanStatus, PaymentPlan, PlanInstalment, PlanStore,
}
use payment_recovery_engine.Receivables.PlanVerdict.{
  rows_of, has_status, is_kept, is_resolved, plan_target, recovered_of, put_plan, is_open_case,
  is_recovered_case, default_plan, complete_plan,
}

-- Every row of the plan has the status.
abbrev pub HasPlanStatus : PlanStatus → ℕ → List PaymentPlan → Type 0
HasPlanStatus status id = All (λ p. (p.id ≢ id) ⊎ (p.status ≡ status))

put_plan-HasPlanStatus :
    (q : PaymentPlan) (ps : List PaymentPlan) → HasPlanStatus q.status q.id (put_plan q ps)
unfolding put_plan
put_plan-HasPlanStatus q [] = tt
put_plan-HasPlanStatus q (p ∷ ps) = (ground arith, put_plan-HasPlanStatus q ps)

any-kept :
    (rows : List (PlanInstalment × PromiseToPay))
    → length (keep (has_status is_broken) rows) ≡ 0
    → any (λ r. not (has_status is_resolved r)) rows ≡ false
    → All (λ r. has_status is_kept r ≡ true) rows
any-kept [] b h = tt
any-kept ((i, p) ∷ rows) b h =
    (ground (arith, b, h), any-kept rows (ground (arith, b)) (ground (arith, h)))

kept-none_unresolved :
    (rows : List (PlanInstalment × PromiseToPay))
    → All (λ r. has_status is_kept r ≡ true) rows
    → any (λ r. not (has_status is_resolved r)) rows ≡ false
kept-none_unresolved [] h = refl
kept-none_unresolved ((i, p) ∷ rows) h = ground (arith, h.0, kept-none_unresolved rows h.1)

-- All the instalments are paid, on a case that recovered the plan's target.
abbrev pub IsPaidOut : PaymentPlan → PlanStore → Type 0
IsPaidOut plan s =
    All (λ r. has_status is_kept r ≡ true) (rows_of plan.id s.books.promises s.instalments)
    × (is_recovered_case (get_case plan.case_id s.books.cases) ≡ true)
    × (plan_target plan ≤ recovered_of (get_case plan.case_id s.books.cases))

-- The three verdicts. A plan with a missed instalment is defaulted, and its case, where it is
-- open, is left without a pending promise. One whose instalments are all paid, on a case that
-- recovered its target, is completed. Any other stays as it is, and so does everything else.
abbrev pub IsJudged : (ℕ → String) → ℕ → PaymentPlan → PlanStore → PlanStore × Bool → Type 0
IsJudged text now plan s (s', moved) =
    ((moved ≡ true)
      × (any (has_status is_broken) (rows_of plan.id s.books.promises s.instalments) ≡ true)
      × HasPlanStatus PlanStatus.defaulted plan.id s'.plans
      × ((is_open_case (get_case plan.case_id s.books.cases) ≡ false)
          ⊎ (keep (is_open_promise_of plan.case_id) s'.books.promises ≡ [])))
    ⊎ ((moved ≡ true)
        × IsPaidOut plan s
        × HasPlanStatus PlanStatus.completed plan.id s'.plans
        × (s'.books ≡ s.books))
    ⊎ ((moved ≡ false)
        × (s' ≡ s)
        × (any (has_status is_broken) (rows_of plan.id s.books.promises s.instalments) ≡ false)
        × ¬ IsPaidOut plan s)

missed-any :
    (rows : List (PlanInstalment × PromiseToPay))
    → ltb 0 (length (keep (has_status is_broken) rows)) ≡ any (has_status is_broken) rows
missed-any [] = refl
missed-any (r ∷ rows) = elim (Bool-cases (has_status is_broken r)) [
  | inl e ↦ rw e (ground arith)
  | inr e ↦ rw e (missed-any rows)
]

module _ (text : ℕ → String) (now : ℕ) (plan : PaymentPlan) (s : PlanStore) where
  defaulted-pending :
      (missed : ℕ)
      → (is_open_case (get_case plan.case_id s.books.cases) ≡ false)
        ⊎ (keep
              (is_open_promise_of plan.case_id)
              (default_plan text now plan missed s).books.promises
            ≡ [])
  unfolding default_plan
  defaulted-pending missed =
      elim (Bool-cases (is_open_case (get_case plan.case_id s.books.cases))) [
        | inr e ↦ inl e
        | inl e ↦ inr (
            rw e
              (resolve_promises_none_pending Resolution.cancelled _ now plan.case_id
                (plan.case_id + 1) s.books (ground arith)).0)
      ]

  rows : List (PlanInstalment × PromiseToPay)
  rows = rows_of plan.id s.books.promises s.instalments

  is_paid_out : Bool
  is_paid_out =
      is_recovered_case (get_case plan.case_id s.books.cases)
      && not (any (λ r. not (has_status is_resolved r)) rows)
      && leb (plan_target plan) (recovered_of (get_case plan.case_id s.books.cases))

  judged :
      (missed paid : Bool)
      → ltb 0 (length (keep (has_status is_broken) rows)) ≡ missed
      → is_paid_out ≡ paid
      → IsJudged text now plan s (
          if missed
          then (default_plan text now plan (length (keep (has_status is_broken) rows)) s, true)
          else if paid
          then (complete_plan now plan s, true)
          else (s, false))
  unfolding rows is_paid_out default_plan complete_plan
  judged true paid m p = inl (
    refl,
    sym (missed-any rows) ∙ m,
    put_plan-HasPlanStatus (record plan { status = PlanStatus.defaulted }) s.plans,
    defaulted-pending (length (keep (has_status is_broken) rows)),
  )
  judged false true m p = inr (
      inl (
        refl,
        (
          any-kept rows (ground (arith, m)) (ground (arith, p)),
          ground (arith, p),
          ground (arith, p),
        ),
        put_plan-HasPlanStatus
            (record plan { status = PlanStatus.completed; completed_at = some now }) s.plans,
        refl,
      ))
  judged false false m p = inr (
      inr (
        refl,
        refl,
        sym (missed-any rows) ∙ m,
        λ (all_kept, recovered, reached).
            ground (arith, all_kept, kept-none_unresolved rows all_kept, recovered, reached, p),
      ))
