-- ===== src/Receivables/PlanOpening.antt =====
-- What `create_plan` of src/receivables/plans.py opens.
use payment_recovery_engine.Prelude.{
  ℕ, ◌≤◌, Bool, true, false, Option, none, some, List, [], ◌∷◌, ◌++◌, any, map, sum_by, ◌≡◌, ◌∙◌,
  refl, sym, subst, ap, arith, if◌then◌else◌, length-map, ◌==◌,
}
use payment_recovery_engine.Prelude.Int.{ℤ}
use payment_recovery_engine.Clock.{Timestamp, to_utc}
use payment_recovery_engine.Settings.{Settings}
use payment_recovery_engine.Cases.Model.{RecoveryCase, is_terminal}
use payment_recovery_engine.Cases.Capture.{integer}
use payment_recovery_engine.Cases.Lifecycle.{outstanding_paise}
use payment_recovery_engine.Receivables.Plans.{PlanProblem, paise, validate_plan_shape}
use payment_recovery_engine.Receivables.PlanShape.{IsPlanShape, validate_plan_shape-IsPlanShape}
use payment_recovery_engine.Receivables.PlanLife.{
  PaymentPlan, PlanInstalment, plan_requested, PlanStore, is_active_of, exceeds, target_of, is_zero,
  record_instalments, new_plan, open_plan, create_plan,
}
use payment_recovery_engine.Receivables.PlanInstalments.{
  IsScheduled, record_instalments-IsScheduled,
}

sum_by-map :
    {A B : Type 0} (f : A → B) (g : B → ℕ) (xs : List A)
    → sum_by g (map f xs) ≡ sum_by (λ x. g (f x)) xs
sum_by-map f g [] = refl
sum_by-map f g (x ∷ xs) = omega (arith, sum_by-map f g xs)

sum_of_rows :
    (rows : List PlanInstalment) (amounts : List ℤ)
    → map (λ r. r.amount_paise) rows ≡ map (λ a. paise (integer a)) amounts
    → sum_by (λ r. r.amount_paise) rows ≡ sum_by paise (map integer amounts)
sum_of_rows rows amounts e = omega (
  arith,
  sum_by-map (λ (r : PlanInstalment). r.amount_paise) (λ n. n) rows,
  ap (sum_by (λ n. n)) e,
  sum_by-map (λ a. paise (integer a)) (λ n. n) amounts,
  sum_by-map integer paise amounts,
)

-- A plan that was opened: on a case that is open to one and had none, for what its instalments
-- sum to, the settlement or all that is owed, in the shape of a plan, with its instalments of the
-- requested amounts on the requested dates, each on a pending promise added for it.
pub record IsOpened (c : RecoveryCase) (amounts : List ℤ) (due_dates : List Timestamp)
    (settlement : Option ℕ) (plan : PaymentPlan) (s s' : PlanStore) : Type 0 where
  pub unclosed : is_terminal c.state ≡ false
  pub unplanned : any (is_active_of c.id) s.plans ≡ false
  pub owed : 1 ≤ outstanding_paise c
  pub shaped :
      IsPlanShape (map integer amounts) due_dates (target_of settlement (outstanding_paise c))
  pub of_case : plan.case_id ≡ c.id
  pub standing : is_active_of c.id plan ≡ true
  pub scheduled :
      IsScheduled c.id plan.id
        (map (λ a. paise (integer a)) amounts)
        (map to_utc due_dates)
        (record s { plans = s.plans ++ plan ∷ []; alerts = s.alerts ++ plan_requested c.id ∷ [] })
        s'
  pub total :
      sum_by (λ r. r.amount_paise) scheduled.rows ≡ target_of settlement (outstanding_paise c)

-- It never raises, and a refusal changes nothing.
abbrev pub IsPlanAnswer :
    (c : RecoveryCase) (amounts : List ℤ) (due_dates : List Timestamp) (settlement : Option ℕ)
    (s : PlanStore)
    → Option (PlanStore × Option PaymentPlan)
    → Type 0
IsPlanAnswer c amounts due_dates settlement s none = ⊥
IsPlanAnswer c amounts due_dates settlement s (some (s', none)) = s' ≡ s
IsPlanAnswer c amounts due_dates settlement s (some (s', some plan)) =
    IsOpened c amounts due_dates settlement plan s s'

module _ (cfg : Settings) (now fresh_id : ℕ) (fresh : ℕ → ℕ) (c : RecoveryCase) (amounts : List ℤ)
    (due_dates : List Timestamp) (settlement : Option ℕ) (s : PlanStore) where
  unless :
      (b : Bool) (y : Option (PlanStore × Option PaymentPlan))
      → (b ≡ false → IsPlanAnswer c amounts due_dates settlement s y)
      → IsPlanAnswer c amounts due_dates settlement s (if b then some (s, none) else y)
  unless true y h = refl
  unless false y h = h refl

  opened :
      (s' : PlanStore)
      → record_instalments cfg now fresh fresh_id c 1
          (map (λ a. paise (integer a)) amounts)
          (map to_utc due_dates)
          (record s { plans = s.plans ++ new_plan fresh_id c settlement ∷ [] })
        ≡ some s'
      → open_plan cfg now fresh c
          (map (λ a. paise (integer a)) amounts)
          (map to_utc due_dates)
          (new_plan fresh_id c settlement)
          s
        ≡ some (
          record s' { alerts = s'.alerts ++ plan_requested c.id ∷ [] },
          some (new_plan fresh_id c settlement),
        )
  unfolding open_plan new_plan
  opened s' run = rw (open_plan, run) refl

  opens :
      is_terminal c.state ≡ false
      → any (is_active_of c.id) s.plans ≡ false
      → (outstanding_paise c == 0) ≡ false
      → IsPlanShape (map integer amounts) due_dates (target_of settlement (outstanding_paise c))
      → IsPlanAnswer c amounts due_dates settlement s (
          open_plan cfg now fresh c
            (map (λ a. paise (integer a)) amounts)
            (map to_utc due_dates)
            (new_plan fresh_id c settlement)
            s)
  unfolding open_plan new_plan
  opens unclosed unplanned owed shaped =
      let (least, most, dated, positive, zoned, sums, increasing, near) = shaped in
      let (s', run, e) =
        record_instalments-IsScheduled cfg now fresh fresh_id c.id
          (map (λ a. paise (integer a)) amounts) (map to_utc due_dates) c 1
          (record s { plans = s.plans ++ new_plan fresh_id c settlement ∷ [] }) refl
          (omega (
            arith,
            dated,
            length-map to_utc due_dates,
            length-map integer amounts,
            length-map (λ a. paise (integer a)) amounts,
          )) in
      subst (IsPlanAnswer c amounts due_dates settlement s) (sym (opened s' run)) (record {
        unclosed = unclosed;
        unplanned = unplanned;
        owed = ground arith;
        shaped = shaped;
        of_case = refl;
        standing = ground arith;
        scheduled = record {
          rows = e.rows;
          added = e.added;
          instalments_added = e.instalments_added;
          promises_added = e.promises_added;
          of_plan = e.of_plan;
          amounts_kept = e.amounts_kept;
          dues_kept = e.dues_kept;
          promise_each = e.promise_each;
          backed = e.backed;
          plans_kept = e.plans_kept;
          alerts_kept = ap (λ l. l ++ plan_requested c.id ∷ []) e.alerts_kept;
        };
        total = sum_of_rows e.rows amounts e.amounts_kept ∙ sums;
      })

  decided :
      (v : Option PlanProblem)
      → validate_plan_shape
          (map integer amounts)
          due_dates
          (target_of settlement (outstanding_paise c))
        ≡ v
      → is_terminal c.state ≡ false
      → any (is_active_of c.id) s.plans ≡ false
      → (outstanding_paise c == 0) ≡ false
      → IsPlanAnswer c amounts due_dates settlement s (elim v [
        | some problem ↦ some (s, none)
        | none ↦
            open_plan cfg now fresh c
              (map (λ a. paise (integer a)) amounts)
              (map to_utc due_dates)
              (new_plan fresh_id c settlement)
              s
      ])
  decided (some problem) e a b d = refl
  decided none e a b d = opens a b d ((validate_plan_shape-IsPlanShape _ _ _).0 e)

  pub create_plan-IsPlanAnswer :
      IsPlanAnswer c amounts due_dates settlement s
        (create_plan cfg now fresh_id fresh c amounts due_dates settlement s)
  unfolding create_plan
  create_plan-IsPlanAnswer =
      let target = target_of settlement (outstanding_paise c) in
      unless (is_terminal c.state) _ (λ a. unless (any (is_active_of c.id) s.plans) _ (λ b.
        unless (outstanding_paise c == 0) _ (λ d. unless (is_zero settlement) _ (λ e.
          unless (any (exceeds target) amounts) _ (λ f.
            decided (validate_plan_shape (map integer amounts) due_dates target) refl a b d)))))
