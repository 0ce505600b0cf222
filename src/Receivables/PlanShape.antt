-- ===== src/Receivables/PlanShape.antt =====
-- The shape that a payment plan must have, and that `validate_plan_shape` asks for just that
-- (src/receivables/plans.py).
use payment_recovery_engine.Prelude.{
  ℕ, zero, suc, ◌+◌, ◌-◌, ◌*◌, ◌/◌, ◌≤◌, ◌<◌, Bool, true, false, ◌&&◌, ◌||◌, not, none, some, List,
  [], ◌∷◌, length, any, ltb, leb, ◌==◌, if◌then◌else◌, ◌≡◌, ◌↔◌, refl, arith, sum_by, All, All-imp,
  Bool-cases, inl, inr,
}
use payment_recovery_engine.Prelude.Int.{pos}
use payment_recovery_engine.Clock.{Timestamp, naive, aware, to_utc, day_us}
use payment_recovery_engine.Cases.Capture.{Amount, integer, boolean, not_a_number, positive_amount}
use payment_recovery_engine.Receivables.Plans.{
  instalment_count, due_date_missing, amount_not_positive, date_not_aware, wrong_sum,
  dates_not_increasing, beyond_plan_horizon, paise, is_positive, is_naive, steps_back, last_date,
  span_days, validate_plan_shape, max_instalments,
}

-- Each instalment is a positive integer, and is part of the sum.
abbrev pub IsPositive : Amount → Type 0
IsPositive a = (n : ℕ) × (1 ≤ n) × (a ≡ integer (pos n))

abbrev pub IsAware : Timestamp → Type 0
IsAware t = (u : ℕ) × (t ≡ aware u)

-- Every date is before all that follow it.
abbrev pub IsIncreasing : List Timestamp → Type 0
IsIncreasing [] = Unit
IsIncreasing (a ∷ rest) = All (λ b. to_utc a < to_utc b) rest × IsIncreasing rest

abbrev pub IsWithin : List Timestamp → Type 0
IsWithin [] = Unit
IsWithin (a ∷ rest) = All (λ b. to_utc b < to_utc a + 91 * day_us) rest

-- Two to six instalments, each with an aware date and a positive amount, that sum to what the plan
-- is for, on dates that increase and lie within ninety days of the first.
abbrev pub IsPlanShape : List Amount → List Timestamp → ℕ → Type 0
IsPlanShape amounts due_dates principal =
    (2 ≤ length amounts)
    × (length amounts ≤ 6)
    × (length due_dates ≡ length amounts)
    × All IsPositive amounts
    × All IsAware due_dates
    × (sum_by paise amounts ≡ principal)
    × IsIncreasing due_dates
    × IsWithin due_dates

not_any-All :
    {A : Type 0} (p : A → Bool) (P : A → Type 0) (xs : List A)
    → ((x : A) → (p x ≡ false) ↔ P x)
    → (any p xs ≡ false) ↔ All P xs
not_any-All p P [] f = ((λ e. tt), (λ e. refl))
not_any-All p P (x ∷ xs) f = (
  (λ e. elim (Bool-cases (p x)) [
    | inl e' ↦ let k : true ≡ false = rw e' at e in cc
    | inr e' ↦ ((f x).0 e', (not_any-All p P xs f).0 (rw e' at e))
  ]),
  (λ h. rw ((f x).1 h.0) ((not_any-All p P xs f).1 h.1)),
)

not-zero : (n : ℕ) → 1 ≤ n → integer (pos 0) ≡ integer (pos n) → true ≡ false
not-zero zero h e = absurd (omega (arith, h))
not-zero (suc n) h e = cc

is_positive-IsPositive : (a : Amount) → (not (is_positive a) ≡ false) ↔ IsPositive a
unfolding positive_amount
is_positive-IsPositive (boolean b) = ((λ e. cc), (λ h. cc))
is_positive-IsPositive (integer (pos zero)) = ((λ e. cc), (λ h. not-zero h.0 h.1 h.2))
is_positive-IsPositive (integer (pos (suc n))) = ((λ e. (suc n, omega arith, refl)), (λ h. refl))
is_positive-IsPositive (integer z) = ((λ e. cc), (λ h. cc))
is_positive-IsPositive not_a_number = ((λ e. cc), (λ h. cc))

naive-IsAware : (t : Timestamp) → (is_naive t ≡ false) ↔ IsAware t
naive-IsAware (naive t) = ((λ e. cc), (λ h. cc))
naive-IsAware (aware t) = ((λ e. (t, refl)), (λ h. refl))

or-false : (b c : Bool) → b || c ≡ false → (b ≡ false) × (c ≡ false)
or-false b c h = ground arith

steps_back-IsIncreasing : (ts : List Timestamp) → (steps_back ts ≡ false) ↔ IsIncreasing ts
steps_back-IsIncreasing [] = ((λ e. tt), (λ h. refl))
steps_back-IsIncreasing (a ∷ []) = ((λ e. (tt, tt)), (λ h. refl))
steps_back-IsIncreasing (a ∷ b ∷ rest) = (
  (λ e.
      let (now, after) = or-false (leb (to_utc b) (to_utc a)) (steps_back (b ∷ rest)) e in
      let h = (steps_back-IsIncreasing (b ∷ rest)).0 after in
      ((before _ _ now, All-imp (λ c q. omega (arith, q, before _ _ now)) rest h.0), h)),
  (λ h. rw (not-before _ _ h.0.0) ((steps_back-IsIncreasing (b ∷ rest)).1 h.1)),
)
  where
    before : (m n : ℕ) → leb m n ≡ false → n < m
    before m n h = ground arith

    not-before : (m n : ℕ) → n < m → leb m n ≡ false
    not-before m n h = ground arith

-- The last date of an increasing plan bounds them all.
last_date-below :
    (bound d : ℕ) (ts : List Timestamp)
    → d < bound
    → All (λ b. to_utc b < bound) ts
    → last_date d ts < bound
last_date-below bound d [] h hs = h
last_date-below bound d (a ∷ rest) h hs = last_date-below bound (to_utc a) rest hs.0 hs.1

below-last_date :
    (bound d : ℕ) (ts : List Timestamp)
    → IsIncreasing ts
    → last_date d ts < bound
    → All (λ b. to_utc b < bound) ts
below-last_date bound d [] inc h = tt
below-last_date bound d (a ∷ []) inc h = (h, tt)
below-last_date bound d (a ∷ b ∷ rest) inc h =
    let hs = below-last_date bound (to_utc a) (b ∷ rest) inc.1 h in
    (omega (arith, hs.0, inc.0.0), hs)

span_days-IsWithin :
    (ts : List Timestamp) → IsIncreasing ts → (ltb 90 (span_days ts) ≡ false) ↔ IsWithin ts
span_days-IsWithin [] inc = ((λ e. tt), (λ h. ground arith))
span_days-IsWithin (a ∷ rest) inc = (
  (λ e. below-last_date _ (to_utc a) rest inc.1 (near (last_date (to_utc a) rest) (to_utc a) e)),
  (λ h.
      far (last_date (to_utc a) rest) (to_utc a)
        (last_date-below _ (to_utc a) rest (omega arith) h)),
)
  where
    near : (l d : ℕ) → ltb 90 ((l - d) / day_us) ≡ false → l < d + 91 * day_us
    near l d h = ground arith

    far : (l d : ℕ) → l < d + 91 * day_us → ltb 90 ((l - d) / day_us) ≡ false
    far l d h = ground arith

tests-pass :
    (a b c d e f g : Bool)
    → ((if a
          then some instalment_count
          else if b
          then some due_date_missing
          else if c
          then some amount_not_positive
          else if d
          then some date_not_aware
          else if e
          then some wrong_sum
          else if f
          then some dates_not_increasing
          else if g
          then some beyond_plan_horizon
          else none)
        ≡ none)
      ↔ ((a ≡ false)
          × (b ≡ false)
          × (c ≡ false)
          × (d ≡ false)
          × (e ≡ false)
          × (f ≡ false)
          × (g ≡ false))
tests-pass a b c d e f g = ground arith

count_iff : (n : ℕ) → (not (leb 2 n && leb n max_instalments) ≡ false) ↔ ((2 ≤ n) × (n ≤ 6))
count_iff n = ground arith

same_iff : (m n : ℕ) → (not (m == n) ≡ false) ↔ (m ≡ n)
same_iff m n = ground arith

-- A plan is accepted exactly if it has the shape: two to six instalments, each with an aware date
-- and a positive amount, that sum to what the plan is for, on dates that increase and all lie
-- less than ninety-one days after the first.
pub validate_plan_shape-IsPlanShape :
    (amounts : List Amount) (due_dates : List Timestamp) (principal : ℕ)
    → (validate_plan_shape amounts due_dates principal ≡ none)
      ↔ IsPlanShape amounts due_dates principal
unfolding validate_plan_shape
validate_plan_shape-IsPlanShape amounts due_dates principal = (
  (λ e.
      let (count, dated, positive, zoned, total, ordered, near) = (tests-pass _ _ _ _ _ _ _).0 e in
      let inc = (steps_back-IsIncreasing due_dates).0 ordered in
      (
        ((count_iff (length amounts)).0 count).0,
        ((count_iff (length amounts)).0 count).1,
        (same_iff _ _).0 dated,
        (not_any-All _ IsPositive amounts is_positive-IsPositive).0 positive,
        (not_any-All _ IsAware due_dates naive-IsAware).0 zoned,
        (same_iff _ _).0 total,
        inc,
        (span_days-IsWithin due_dates inc).0 near,
      )),
  (λ h.
      let (least, most, dated, positive, zoned, total, inc, near) = h in
      (tests-pass _ _ _ _ _ _ _).1 (
        (count_iff (length amounts)).1 (least, most),
        (same_iff _ _).1 dated,
        (not_any-All _ IsPositive amounts is_positive-IsPositive).1 positive,
        (not_any-All _ IsAware due_dates naive-IsAware).1 zoned,
        (same_iff _ _).1 total,
        (steps_back-IsIncreasing due_dates).1 inc,
        (span_days-IsWithin due_dates inc).1 near,
      )),
)
