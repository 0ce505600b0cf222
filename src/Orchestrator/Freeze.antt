-- ===== src/Orchestrator/Freeze.antt =====
-- An open dispute freezes its case (src/receivables/disputes.py with `chase_case` of
-- src/orchestrator.py).
use payment_recovery_engine.Prelude.{ℕ, String, Bool, true, false, some, List, any, ◌≡◌, ◌∙◌, In}
use payment_recovery_engine.Settings.{Settings}
use payment_recovery_engine.Actions.{Host, ActionType}
use payment_recovery_engine.Cases.Model.{RecoveryCase}
use payment_recovery_engine.Receivables.Disputes.{CaseDispute, is_open_dispute, open_dispute}
use payment_recovery_engine.Receivables.OneDispute.{open_dispute-open}
use payment_recovery_engine.Orchestrator.Execution.{Outcome, executed}
use payment_recovery_engine.Orchestrator.Chase.{Inputs, chase_case}
use payment_recovery_engine.Orchestrator.Safety.{chase_case-IsAuthorised}

apart : {b : Bool} → b ≡ true → b ≡ false → ⊥
apart p q = cc

-- Once a dispute of a case was accepted, and as long as its row stands, no chase of the case calls
-- the gateway, whatever the agent decides.
pub open_dispute_freezes :
    (strip shorten : String → String) (opened_at fresh_id : ℕ) (reason : String)
    (ds ds' : List CaseDispute) (d : CaseDispute) (host : Host) (cfg : Settings) (now : ℕ)
    (i : Inputs host.Float) (c : RecoveryCase) (o : Outcome) (t : ActionType)
    → open_dispute strip shorten opened_at fresh_id reason c ds ≡ (ds', some d)
    → i.dispute_open ≡ any (is_open_dispute c.id) ds'
    → chase_case host cfg now i c ≡ some o
    → ¬ In (executed t) o.effects
open_dispute_freezes strip shorten opened_at fresh_id reason ds ds' d host cfg now i c o t a r e m =
    let (authorised, effects) = chase_case-IsAuthorised host cfg now i c o t e m in
    apart (r ∙ open_dispute-open strip shorten opened_at fresh_id c reason ds ds' d a)
      authorised.chaseable.undisputed
