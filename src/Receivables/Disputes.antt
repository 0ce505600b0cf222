-- ===== src/Receivables/Disputes.antt =====
-- Disputes of a case (src/receivables/disputes.py), over the rows of src/receivables/models.py. The
-- alerts that are raised with them are left out.
use payment_recovery_engine.Prelude.{
  ℕ, String, Bool, true, false, ◌&&◌, Option, none, some, List, [], ◌∷◌, ◌++◌, find, str_eq, ◌==◌,
  if◌then◌else◌,
}
use payment_recovery_engine.Cases.Model
use payment_recovery_engine.Cases.Model.{CaseState, RecoveryCase, EventType, is_terminal}
use payment_recovery_engine.Cases.Lifecycle.{close_case}

pub data DisputeStatus : Type 0 where
  open_ upheld rejected : DisputeStatus

pub record CaseDispute : Type 0 where
  pub id : ℕ
  pub case_id : ℕ
  pub reason : String
  pub status : DisputeStatus
  pub resolution_note : Option String
  pub opened_at : ℕ
  pub resolved_at : Option ℕ

abbrev pub is_open : DisputeStatus → Bool
is_open DisputeStatus.open_ = true
is_open _ = false

-- `CaseDispute.case_id == case.id, CaseDispute.status == "open"`
abbrev pub is_open_dispute : ℕ → CaseDispute → Bool
is_open_dispute case_id d = d.case_id == case_id && is_open d.status

abbrev pub new_dispute : ℕ → ℕ → String → RecoveryCase → CaseDispute
new_dispute now fresh_id reason c = record {
  id = fresh_id;
  case_id = c.id;
  reason = reason;
  status = DisputeStatus.open_;
  resolution_note = none;
  opened_at = now;
  resolved_at = none;
}

-- `reason.strip()`, and the first `MAX_DISPUTE_REASON_CHARS` characters of a text.
module _ (strip shorten : String → String) where
  unfoldable pub open_unless :
      ℕ
      → ℕ
      → String
      → RecoveryCase
      → List CaseDispute
      → Option CaseDispute
      → List CaseDispute × Option CaseDispute
  open_unless now fresh_id reason c ds (some d) = (ds, some d)
  open_unless now fresh_id reason c ds none = if is_terminal c.state then (ds, none) else (
    ds ++ new_dispute now fresh_id (shorten reason) c ∷ [],
    some (new_dispute now fresh_id (shorten reason) c),
  )

  -- The rows, and the dispute that is open now, or nothing if it was refused.
  unfoldable pub open_dispute :
      ℕ → ℕ → String → RecoveryCase → List CaseDispute → List CaseDispute × Option CaseDispute
  unfolding open_unless
  open_dispute now fresh_id reason c ds =
      if str_eq (strip reason) ""
      then (ds, none)
      else open_unless now fresh_id (strip reason) c ds (find (is_open_dispute c.id) ds)

-- The two verdicts of a person.
pub data Verdict : Type 0 where
  upheld rejected : Verdict

abbrev pub status_after : Verdict → DisputeStatus
status_after Verdict.upheld = DisputeStatus.upheld
status_after Verdict.rejected = DisputeStatus.rejected

abbrev pub verdict_on : ℕ → Verdict → String → RecoveryCase → RecoveryCase × List EventType
verdict_on now Verdict.rejected reason c = (c, [])
verdict_on now Verdict.upheld reason c = (
  close_case now CaseState.abandoned (Model.dispute_upheld reason) c,
  EventType.closed CaseState.abandoned ∷ [],
)

-- The first verdict stands.
unfoldable pub resolve_dispute :
    ℕ
    → Verdict
    → Option String
    → CaseDispute
    → RecoveryCase
    → CaseDispute × RecoveryCase × List EventType
resolve_dispute now v note d c =
    let (c', events) = verdict_on now v d.reason c in
    if is_open d.status
    then (
      record d { status = status_after v; resolution_note = note; resolved_at = some now },
      c',
      events,
    )
    else (d, c, [])
