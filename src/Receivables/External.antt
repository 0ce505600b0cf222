-- ===== src/Receivables/External.antt =====
-- Money that came outside the gateway: `record_external_payment` of src/receivables/external.py.
use Prim.Native.String.{◌++◌ as append}
use payment_recovery_engine.Prelude.{
  ℕ, ◌+◌, String, Bool, false, Option, none, some, str_eq, if◌then◌else◌,
}
use payment_recovery_engine.Cases.Model
use payment_recovery_engine.Cases.Model.{
  CaseState, RecoveryCase, Store, get_case, put_case, log_event, is_terminal,
}
use payment_recovery_engine.Cases.Capture.{Amount, positive_amount}
use payment_recovery_engine.Cases.Lifecycle.{close_case}

pub data ExternalOutcome : Type 0 where
  recorded already_recorded refused_terminal refused_amount refused_no_case : ExternalOutcome

-- `case.recovered_ref == paid_ref`
abbrev pub is_ref : String → Option String → Bool
is_ref ref none = false
is_ref ref (some r) = str_eq r ref

-- `paid_at or now`
abbrev pub paid_time : Option ℕ → ℕ → ℕ
paid_time none now = now
paid_time (some t) now = t

-- The case with the money on it, closed.
unfoldable pub external_credit : ℕ → ℕ → String → String → Option ℕ → RecoveryCase → RecoveryCase
external_credit now amount ref method paid_at c =
    close_case now CaseState.recovered
      (Model.other_reason (append "external payment via " (append method (append ": " ref))))
      (record c {
        amount_recovered = c.amount_recovered + amount;
        recovered_via_attempt_id = none;
        recovered_ref = some ref;
        recovered_at = some (paid_time paid_at now);
      })

unfoldable pub record_on :
    ℕ → ℕ → String → String → Option ℕ → Option RecoveryCase → Store → Store × ExternalOutcome
unfolding external_credit
record_on now amount ref method paid_at none s = (s, refused_no_case)
record_on now amount ref method paid_at (some c) s =
    if is_ref ref c.recovered_ref
    then (s, already_recorded)
    else if is_terminal c.state
    then (s, refused_terminal)
    else (
      log_event c.id (Model.reconciled amount ref)
          (put_case (external_credit now amount ref method paid_at c) s),
      recorded,
    )

-- The id is `none` where it is no UUID.
unfoldable pub record_external_payment :
    ℕ → Option ℕ → Amount → String → String → Option ℕ → Store → Store × ExternalOutcome
unfolding record_on
record_external_payment now none amount ref method paid_at s = (s, refused_no_case)
record_external_payment now (some id) amount ref method paid_at s = elim (positive_amount amount) [
  | none ↦ (s, refused_amount)
  | some n ↦ record_on now n ref method paid_at (get_case id s.cases) s
]
