-- ===== src/Orchestrator/ClaimExamples.antt =====
-- An attempt that was parked at noon for two hours.
use payment_recovery_engine.Prelude.{◌+◌, ◌≤◌, ◌≡◌, refl, arith}
use payment_recovery_engine.Clock.{hours}
use payment_recovery_engine.Settings.{default_settings}
use payment_recovery_engine.Orchestrator.Claims.{
  World, Steps, step, stay, find_due, claim, write_ahead, call, record_answer, claimed, claim_row,
  parked_at,
}
use payment_recovery_engine.Orchestrator.ClaimSafety.{
  Unheld, Unfenced, parked_called_once, parked_called_twice,
}
use payment_recovery_engine.Orchestrator.Examples.{noon}

-- One process fires it.
fired :
    (w : World) × Steps default_settings Unheld (parked_at (noon + hours 2) noon (noon + hours 2)) w
    × (w.calls ≡ 1)
unfolding claim_row
fired = (
  _,
  step _ _ _ (find_due (parked_at (noon + hours 2) noon (noon + hours 2)) refl) (
      step _ _ _ (claim _ 0 (record { created_at = noon; state = claimed }) refl refl) (
        step _ _ _ (write_ahead _ 0 refl)
          (step _ _ _ (call _ 0 refl) (step _ _ _ (record_answer _ 0 refl) (stay _))))),
  refl,
)

parked_called_once_example : fired.0.calls ≤ 1
parked_called_once_example =
    parked_called_once default_settings (noon + hours 2) noon (noon + hours 2) fired.0 fired.1

parked_called_twice_example :
    (w : World) × Steps default_settings Unfenced
      (parked_at (noon + hours 2) noon (noon + hours 2))
      w
    × (w.calls ≡ 2)
parked_called_twice_example =
    parked_called_twice default_settings (noon + hours 2) noon (noon + hours 2) (omega arith)
      (omega arith)
