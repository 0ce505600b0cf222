-- ===== src/Receivables/Aging.antt =====
-- The aging table (`aging_buckets` of src/receivables/aging.py).
use payment_recovery_engine.Prelude.{
  ℕ, ◌+◌, ◌-◌, ◌/◌, Bool, true, false, ◌&&◌, ◌||◌, not, Option, none, some, List, [], ◌∷◌, keep,
  any, length, sum_by, leb, if◌then◌else◌, ◌≡◌, refl, ap, ◌∙◌, inl, inr, arith, Bool-cases,
}
use payment_recovery_engine.Prelude.Int.{ℤ, pos, negsuc, leb_ℤ}
use payment_recovery_engine.Clock.{day_us}
use payment_recovery_engine.Actions.{invoice_overdue}
use payment_recovery_engine.Cases.Model.{RecoveryCase, is_terminal}

-- A row of the table: its days past due, from and to, the number of its cases and what they owe.
pub record Bucket : Type 0 where
  pub lo : ℤ
  pub hi : Option ℤ
  pub count : ℕ
  pub outstanding : ℕ

abbrev pub empty_bucket : ℤ → Option ℤ → Bucket
empty_bucket lo hi = record { lo = lo; hi = hi; count = 0; outstanding = 0 }

-- `BUCKETS`
abbrev pub buckets : List Bucket
buckets =
    empty_bucket (negsuc 9999) (some (pos 0))
    ∷ empty_bucket (pos 1) (some (pos 7))
    ∷ empty_bucket (pos 8) (some (pos 14))
    ∷ empty_bucket (pos 15) (some (pos 30))
    ∷ empty_bucket (pos 31) none
    ∷ []

-- `(now - due).days`, rounded down.
abbrev pub days_past : ℕ → ℕ → ℤ
days_past now due =
    if leb due now then pos ((now - due) / day_us) else negsuc ((due - now - 1) / day_us)

abbrev pub up_to : Option ℤ → ℤ → Bool
up_to none d = true
up_to (some h) d = leb_ℤ d h

abbrev pub in_bucket : ℤ → Bucket → Bool
in_bucket d b = leb_ℤ b.lo d && up_to b.hi d

-- The first row whose days fit takes the case.
unfoldable pub tally : ℤ → ℕ → List Bucket → List Bucket
tally d owed [] = []
tally d owed (b ∷ bs) =
    if in_bucket d b
    then record b { count = b.count + 1; outstanding = b.outstanding + owed } ∷ bs
    else b ∷ tally d owed bs

-- `risk_type == "invoice_overdue" and state == "open"`
abbrev pub is_open_invoice : RecoveryCase → Bool
is_open_invoice c = elim c.risk_type [ invoice_overdue ↦ not (is_terminal c.state) | _ ↦ false ]

-- What is still owed, and never less than nothing.
abbrev pub owed_on : RecoveryCase → ℕ
owed_on c = c.amount_at_risk - c.amount_recovered

abbrev pub tally_case : ℕ → RecoveryCase → Option ℕ → List Bucket → List Bucket
tally_case now c none bs = bs
tally_case now c (some due) bs = tally (days_past now due) (owed_on c) bs

unfoldable pub tally_all : ℕ → List RecoveryCase → List Bucket → List Bucket
unfolding tally
tally_all now [] bs = bs
tally_all now (c ∷ cs) bs = tally_all now cs (tally_case now c c.due_at bs)

unfoldable pub aging_buckets : ℕ → List RecoveryCase → List Bucket
aging_buckets now cases = tally_all now (keep is_open_invoice cases) buckets

-- The table has a row for the days past due.
abbrev covers : List Bucket → ℤ → Bool
covers bs d = any (in_bucket d) bs

covers-buckets : (d : ℤ) → covers buckets d ≡ leb_ℤ (negsuc 9999) d
covers-buckets (pos n) = ground arith
covers-buckets (negsuc n) = ground arith

in-tally : (d d' : ℤ) (owed : ℕ) (bs : List Bucket) → covers (tally d owed bs) d' ≡ covers bs d'
unfolding tally
in-tally d d' owed [] = refl
in-tally d d' owed (b ∷ bs) = elim (Bool-cases (in_bucket d b)) [
  | inl e ↦ rw e refl
  | inr e ↦ rw e (ap (λ x. in_bucket d' b || x) (in-tally d d' owed bs))
]

count-tally :
    (d : ℤ) (owed : ℕ) (bs : List Bucket)
    → (sum_by (λ b. b.count) (tally d owed bs)
        ≡ sum_by (λ b. b.count) bs + (if covers bs d then 1 else 0))
      × (sum_by (λ b. b.outstanding) (tally d owed bs)
          ≡ sum_by (λ b. b.outstanding) bs + (if covers bs d then owed else 0))
unfolding tally
count-tally d owed [] = (refl, refl)
count-tally d owed (b ∷ bs) =
    let (count, outstanding) = count-tally d owed bs in
    elim (Bool-cases (in_bucket d b)) [
      | inl e ↦ rw e (omega arith, omega arith)
      | inr e ↦ rw e (omega (arith, count), omega (arith, outstanding))
    ]

-- Not due for more than ten thousand days is not in the table, and neither is an invoice without a
-- due date.
abbrev pub in_table : ℕ → RecoveryCase → Bool
in_table now c = elim c.due_at [ none ↦ false | some due ↦ leb_ℤ (negsuc 9999) (days_past now due) ]

abbrev pub total : (Bucket → ℕ) → List Bucket → ℕ
total = sum_by

tally_case-total :
    (now : ℕ) (c : RecoveryCase) (due_at : Option ℕ) (bs : List Bucket)
    → ((d : ℤ) → covers bs d ≡ leb_ℤ (negsuc 9999) d)
    → c.due_at ≡ due_at
    → (total (λ b. b.count) (tally_case now c due_at bs)
        ≡ total (λ b. b.count) bs + (if in_table now c then 1 else 0))
      × (total (λ b. b.outstanding) (tally_case now c due_at bs)
          ≡ total (λ b. b.outstanding) bs + (if in_table now c then owed_on c else 0))
      × ((d : ℤ) → covers (tally_case now c due_at bs) d ≡ leb_ℤ (negsuc 9999) d)
tally_case-total now c none bs h e = rw e (omega arith, omega arith, h)
tally_case-total now c (some due) bs h e =
    let d = days_past now due in
    let (count, outstanding) = count-tally d (owed_on c) bs in
    rw e (rw (h d) at count, rw (h d) at outstanding, (λ d'. in-tally d d' (owed_on c) bs ∙ h d'))

tally_all-total :
    (now : ℕ) (cs : List RecoveryCase) (bs : List Bucket)
    → ((d : ℤ) → covers bs d ≡ leb_ℤ (negsuc 9999) d)
    → (total (λ b. b.count) (tally_all now cs bs)
        ≡ total (λ b. b.count) bs + length (keep (in_table now) cs))
      × (total (λ b. b.outstanding) (tally_all now cs bs)
          ≡ total (λ b. b.outstanding) bs + sum_by owed_on (keep (in_table now) cs))
unfolding tally_all
tally_all-total now [] bs h = (omega arith, omega arith)
tally_all-total now (c ∷ cs) bs h =
    let (count, outstanding, same) = tally_case-total now c c.due_at bs h refl in
    let (counts, owed) = tally_all-total now cs (tally_case now c c.due_at bs) same in
    elim (Bool-cases (in_table now c)) [
      | inl e ↦
          rw e (omega (arith, counts, rw e at count), omega (arith, owed, rw e at outstanding))
      | inr e ↦
          rw e (omega (arith, counts, rw e at count), omega (arith, owed, rw e at outstanding))
    ]

-- The rows of the aging table share out the open invoices with a due date at most ten thousand days
-- ahead: the counts add up to their number, and the amounts to what they owe.
pub aging_buckets-total :
    (now : ℕ) (cases : List RecoveryCase)
    → let aged = keep (in_table now) (keep is_open_invoice cases) in
      (total (λ b. b.count) (aging_buckets now cases) ≡ length aged)
      × (total (λ b. b.outstanding) (aging_buckets now cases) ≡ sum_by owed_on aged)
unfolding aging_buckets
aging_buckets-total now cases =
    let (counts, owed) = tally_all-total now (keep is_open_invoice cases) buckets covers-buckets in
    (omega (arith, counts), omega (arith, owed))
