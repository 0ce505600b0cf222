-- ===== src/Receivables/PlanInstalments.antt =====
-- What `create_plan` of src/receivables/plans.py writes for the instalments of a plan.
use payment_recovery_engine.Prelude.{
  ℕ, suc, true, Option, none, some, List, [], ◌∷◌, ◌++◌, length, map, All, All-imp, In, inl, inr,
  ◌≡◌, ◌∙◌, refl, sym, ap, arith, Bool-cases, ◌==◌,
}
use payment_recovery_engine.Settings.{Settings}
use payment_recovery_engine.Cases.Model.{
  RecoveryCase, PromiseToPay, Channel, get_case, put_case, log_event,
}
use payment_recovery_engine.Cases.Promises.{is_pending, new_promise, record_promise}
use payment_recovery_engine.Receivables.PlanLife.{
  PlanInstalment, PlanStore, or_case, record_instalments,
}

-- An instalment is a pending promise of the case, of its amount and date.
abbrev pub IsBacked : ℕ → List PromiseToPay → PlanInstalment → Type 0
IsBacked case_id added r =
    (p : PromiseToPay) × In p added
    × (p.id ≡ r.promise_id)
    × (p.recovery_case_id ≡ case_id)
    × (p.amount_promised ≡ r.amount_paise)
    × (p.due_at ≡ r.due_at)
    × (is_pending p.status ≡ true)

-- The rows that a plan adds: an instalment for each amount, due on its date, and a promise for each
-- instalment, in the same order.
pub record IsScheduled (case_id plan_id : ℕ) (amounts dues : List ℕ) (s s' : PlanStore)
    : Type 0 where
  pub rows : List PlanInstalment
  pub added : List PromiseToPay
  pub instalments_added : s'.instalments ≡ s.instalments ++ rows
  pub promises_added : s'.books.promises ≡ s.books.promises ++ added
  pub of_plan : All (λ r. r.plan_id ≡ plan_id) rows
  pub amounts_kept : map (λ r. r.amount_paise) rows ≡ amounts
  pub dues_kept : map (λ r. r.due_at) rows ≡ dues
  pub promise_each : map (λ p. p.id) added ≡ map (λ r. r.promise_id) rows
  pub backed : All (IsBacked case_id added) rows
  pub plans_kept : s'.plans ≡ s.plans
  pub alerts_kept : s'.alerts ≡ s.alerts

append_nil : {A : Type 0} (xs : List A) → xs ++ [] ≡ xs
append_nil [] = refl
append_nil (x ∷ xs) = ap (λ l. x ∷ l) (append_nil xs)

append_assoc : {A : Type 0} (xs ys zs : List A) → xs ++ (ys ++ zs) ≡ (xs ++ ys) ++ zs
append_assoc [] ys zs = refl
append_assoc (x ∷ xs) ys zs = ap (λ l. x ∷ l) (append_assoc xs ys zs)

pub found_id :
    (i : ℕ) (cs : List RecoveryCase) (c : RecoveryCase) → get_case i cs ≡ some c → c.id ≡ i
found_id i [] c h = cc
found_id i (x ∷ xs) c h = elim (Bool-cases (x.id == i)) [
  | inl e ↦ let h' = (rw e at h) in ground (arith, e)
  | inr e ↦ found_id i xs c (rw e at h)
]

or_case_id :
    (c : RecoveryCase) (cs : List RecoveryCase) (o : Option RecoveryCase)
    → get_case c.id cs ≡ o
    → (or_case c o).id ≡ c.id
or_case_id c cs none h = refl
or_case_id c cs (some c') h = found_id c.id cs c' h

still-IsBacked :
    (case_id : ℕ) (p : PromiseToPay) (added : List PromiseToPay) (r : PlanInstalment)
    → IsBacked case_id added r
    → IsBacked case_id (p ∷ added) r
still-IsBacked case_id p added r (q, m, id, of_case, amount, due, pending) =
    (q, inr m, id, of_case, amount, due, pending)

-- A promise of a plan is neither capped nor held to the horizon, so none is refused.
pub record_instalments-IsScheduled :
    (cfg : Settings) (now : ℕ) (fresh : ℕ → ℕ) (plan_id case_id : ℕ) (amounts dues : List ℕ)
    (c : RecoveryCase) (seq : ℕ) (s : PlanStore)
    → c.id ≡ case_id
    → length dues ≡ length amounts
    → (s' : PlanStore) × (record_instalments cfg now fresh plan_id c seq amounts dues s ≡ some s')
      × IsScheduled case_id plan_id amounts dues s s'
unfolding record_instalments record_promise put_case log_event new_promise
record_instalments-IsScheduled cfg now fresh plan_id case_id [] [] c seq s own h = (
  s,
  refl,
  record {
    rows = [];
    added = [];
    instalments_added = sym (append_nil s.instalments);
    promises_added = sym (append_nil s.books.promises);
    of_plan = tt;
    amounts_kept = refl;
    dues_kept = refl;
    promise_each = refl;
    backed = tt;
    plans_kept = refl;
    alerts_kept = refl;
  },
)
record_instalments-IsScheduled cfg now fresh plan_id case_id [] (due ∷ dues) c seq s own h =
    absurd (omega (arith, h))
record_instalments-IsScheduled cfg now fresh plan_id case_id (a ∷ amounts) [] c seq s own h =
    absurd (omega (arith, h))
record_instalments-IsScheduled cfg now fresh plan_id case_id (a ∷ amounts) (due ∷ dues) c seq s own
      h =
    let p = new_promise (fresh seq) c a due (some Channel.payment_plan) in
    let (s', run, e) =
      record_instalments-IsScheduled cfg now fresh plan_id case_id amounts dues _ (suc seq) _
        (or_case_id c _ _ refl ∙ own) (omega (arith, h)) in
    (
      s',
      run,
      record {
        rows = _ ∷ e.rows;
        added = p ∷ e.added;
        instalments_added = e.instalments_added ∙ sym (append_assoc s.instalments _ e.rows);
        promises_added = e.promises_added ∙ sym (append_assoc s.books.promises (p ∷ []) e.added);
        of_plan = (refl, e.of_plan);
        amounts_kept = ap (λ l. a ∷ l) e.amounts_kept;
        dues_kept = ap (λ l. due ∷ l) e.dues_kept;
        promise_each = ap (λ l. fresh seq ∷ l) e.promise_each;
        backed = (
          (p, inl refl, refl, own, refl, refl, refl),
          All-imp (still-IsBacked case_id p e.added) e.rows e.backed,
        );
        plans_kept = e.plans_kept;
        alerts_kept = e.alerts_kept;
      },
    )
