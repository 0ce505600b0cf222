-- ===== src/Receivables/AgingExamples.antt =====
-- The aging of two invoices, of which one is closed.
use payment_recovery_engine.Prelude.{◌≡◌, none, some, List, [], ◌∷◌, keep, length, sum_by}
use payment_recovery_engine.Clock.{days}
use payment_recovery_engine.Actions.{invoice_overdue}
use payment_recovery_engine.Cases.Model.{CaseState, RecoveryCase}
use payment_recovery_engine.Receivables.Aging.{
  aging_buckets, in_table, is_open_invoice, owed_on, total, aging_buckets-total,
}

abbrev invoice : RecoveryCase
invoice = record {
  id = 1;
  risk_type = invoice_overdue;
  subject_ref = "inv_1";
  customer_id = some "c";
  batch_id = none;
  amount_at_risk = 500;
  amount_recovered = 200;
  recovered_ref = none;
  credited_refs = [];
  recovered_at = none;
  recovered_via_attempt_id = none;
  due_at = some (days 20000);
  next_action_at = none;
  state = CaseState.open_;
  close_reason = none;
  closed_at = none;
  attempts_used = 1;
  max_attempts = 4;
  escalation_level = 1;
  opened_at = days 19990;
}

abbrev invoices : List RecoveryCase
invoices = invoice ∷ record invoice { id = 2; state = CaseState.expired } ∷ []

aging_buckets-total_example :
    let aged = keep (in_table (days 20010)) (keep is_open_invoice invoices) in
    (total (λ b. b.count) (aging_buckets (days 20010) invoices) ≡ length aged)
    × (total (λ b. b.outstanding) (aging_buckets (days 20010) invoices) ≡ sum_by owed_on aged)
aging_buckets-total_example = aging_buckets-total (days 20010) invoices
