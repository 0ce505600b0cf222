-- ===== src/Receivables/Plans.antt =====
-- The law on the shape of a payment plan (`validate_plan_shape` of src/receivables/plans.py).
use payment_recovery_engine.Prelude.{
  ℕ, ◌-◌, ◌/◌, Bool, true, false, ◌&&◌, ◌||◌, not, Option, none, some, List, [], ◌∷◌, length, any,
  ltb, leb, ◌==◌, if◌then◌else◌, sum_by,
}
use payment_recovery_engine.Clock.{Timestamp, naive, aware, to_utc, day_us}
use payment_recovery_engine.Cases.Capture.{Amount, positive_amount}

abbrev pub max_instalments : ℕ
max_instalments = 6

abbrev pub max_plan_horizon_days : ℕ
max_plan_horizon_days = 90

pub data PlanProblem : Type 0 where
  instalment_count due_date_missing amount_not_positive date_not_aware : PlanProblem
  wrong_sum dates_not_increasing beyond_plan_horizon : PlanProblem

-- The amount of an instalment once it is known to be a positive integer.
abbrev pub paise : Amount → ℕ
paise a = elim (positive_amount a) [ none ↦ 0 | some n ↦ n ]

abbrev pub is_positive : Amount → Bool
is_positive a = elim (positive_amount a) [ none ↦ false | some n ↦ true ]

abbrev pub is_naive : Timestamp → Bool
is_naive (naive t) = true
is_naive (aware t) = false

-- `any(b <= a for a, b in zip(due_dates, due_dates[1:]))`
abbrev pub steps_back : List Timestamp → Bool
steps_back [] = false
steps_back (a ∷ []) = false
steps_back (a ∷ b ∷ rest) = leb (to_utc b) (to_utc a) || steps_back (b ∷ rest)

abbrev pub last_date : ℕ → List Timestamp → ℕ
last_date d [] = d
last_date d (a ∷ rest) = last_date (to_utc a) rest

-- `(due_dates[-1] - due_dates[0]).days`
abbrev pub span_days : List Timestamp → ℕ
span_days [] = 0
span_days (a ∷ rest) = (last_date (to_utc a) rest - to_utc a) / day_us

unfoldable pub validate_plan_shape : List Amount → List Timestamp → ℕ → Option PlanProblem
validate_plan_shape amounts due_dates principal =
    if not (leb 2 (length amounts) && leb (length amounts) max_instalments)
    then some instalment_count
    else if not (length due_dates == length amounts)
    then some due_date_missing
    else if any (λ a. not (is_positive a)) amounts
    then some amount_not_positive
    else if any is_naive due_dates
    then some date_not_aware
    else if not (sum_by paise amounts == principal)
    then some wrong_sum
    else if steps_back due_dates
    then some dates_not_increasing
    else if ltb max_plan_horizon_days (span_days due_dates)
    then some beyond_plan_horizon
    else none
