-- ===== src/Orchestrator/FreezeExamples.antt =====
-- A disputed case is chased.
use payment_recovery_engine.Prelude.{ℕ, String, ◌≡◌, refl, true, some, [], ◌∷◌, In}
use payment_recovery_engine.Settings.{default_settings}
use payment_recovery_engine.Actions.{retry_now}
use payment_recovery_engine.Chasers.{policy_for}
use payment_recovery_engine.Cases.Lifecycle.{stop_reason}
use payment_recovery_engine.Receivables.Disputes.{open_dispute, new_dispute}
use payment_recovery_engine.Orchestrator.Execution.{Outcome, executed}
use payment_recovery_engine.Orchestrator.Chase.{Inputs, chase_case, hold}
use payment_recovery_engine.Orchestrator.Freeze.{open_dispute_freezes}
use payment_recovery_engine.Orchestrator.Examples.{percent, noon, failed_renewal, inputs}

abbrev unchanged : String → String
unchanged t = t

abbrev disputed : Inputs ℕ
disputed = record inputs { dispute_open = true }

frozen : (o : Outcome) × (chase_case percent default_settings noon disputed failed_renewal ≡ some o)
unfolding chase_case policy_for hold stop_reason
frozen = (_, refl)

open_dispute_freezes_example : ¬ In (executed retry_now) frozen.0.effects
unfolding open_dispute
open_dispute_freezes_example =
    open_dispute_freezes unchanged unchanged noon 4 "wrong amount" []
      (new_dispute noon 4 "wrong amount" failed_renewal ∷ [])
      (new_dispute noon 4 "wrong amount" failed_renewal) percent default_settings noon disputed
      failed_renewal frozen.0 retry_now refl refl frozen.1
