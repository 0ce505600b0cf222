-- ===== src/Orchestrator/Context.antt =====
-- What a chase decides on: `_build_case_context` and `_revalidate_under_lock` of
-- src/orchestrator.py, and the changes that the code makes to the agent's action.
use payment_recovery_engine.Prelude.{
  ℕ, String, Bool, true, false, ◌&&◌, Option, none, some, List, is_some, if◌then◌else◌,
}
use payment_recovery_engine.Clock.{Timestamp, naive, aware, to_ist, hour_of}
use payment_recovery_engine.Settings.{Settings}
use payment_recovery_engine.Actions.{
  Host, ActionType, retry_now, retry_at, switch_rail, nudge_customer, PaymentRail, RetryAction,
  RiskType, mandate_failure, FailureContext,
}
use payment_recovery_engine.Chasers.{RiskPolicy}
use payment_recovery_engine.Guardrail.Rules.{check_mandate_predebit_notification, is_in_blackout}
use payment_recovery_engine.Guardrail.Blackout.{clamp_retry_at_out_of_blackout}
use payment_recovery_engine.Routing.Downtime.{Downtime}
use payment_recovery_engine.Routing.Rails.{resolve_target_rail}
use payment_recovery_engine.Cases.Model.{RecoveryCase, RetryLedger}
use payment_recovery_engine.Orchestrator.Window.{effective_counts}

unfoldable pub counts_of : Settings → Option RetryLedger → ℕ → ℕ × ℕ
counts_of cfg none now = (0, 0)
counts_of cfg (some l) now = effective_counts cfg l now

-- The last argument is the time of the last nudge of the case that succeeded.
unfoldable pub build_case_context :
    Settings
    → ℕ
    → RecoveryCase
    → RiskPolicy
    → Option RetryLedger
    → Option Timestamp
    → FailureContext
unfolding counts_of
build_case_context cfg now c policy ledger last_notification =
    let (retries, nudges) = counts_of cfg ledger now in
    record {
      risk_type = c.risk_type;
      payment_id = c.subject_ref;
      failure_class = policy.failure_class;
      amount = c.amount_at_risk;
      retry_count_24h = retries;
      nudge_count_24h = nudges;
      failed_at = aware c.opened_at;
      current_time = aware now;
      hour_of_day = hour_of (to_ist now);
      consent_window = some policy.consent_window_hours;
      last_notification_sent_at = last_notification;
      is_mandate_debit = false;
    }

-- The counters, read again under the lock.
unfoldable pub refresh_counts : Settings → ℕ → Option RetryLedger → FailureContext → FailureContext
refresh_counts cfg now none ctx = ctx
refresh_counts cfg now (some l) ctx =
    let (retries, nudges) = effective_counts cfg l now in
    record ctx { retry_count_24h = retries; nudge_count_24h = nudges }

is_mandate_case : RiskType → Bool
is_mandate_case mandate_failure = true
is_mandate_case _ = false

is_retry : ActionType → Bool
is_retry retry_now = true
is_retry retry_at = true
is_retry _ = false

-- What the surroundings of a decision give: the payment's method and bank, the health feed, and
-- Python's reading of a naive time as the server's local one.
pub record Surroundings : Type 0 where
  pub method : String
  pub bank : Option String
  pub downtime : Option (List Downtime)
  pub local_to_utc : ℕ → ℕ

module _ (host : Host) (cfg : Settings) where
  open host use {Float}

  -- A switch is given a rail that is not the one that failed.
  resolve_rail : Surroundings → FailureContext → RetryAction Float → RetryAction Float
  resolve_rail around ctx a = elim a.action [
    | switch_rail ↦ record a {
      rail =
          resolve_target_rail host around.method a.rail ctx.failure_class around.bank
            around.downtime;
    }
    | _ ↦ a
  ]

  -- A collection under a mandate without a valid notice becomes the notice.
  demote : ℕ → FailureContext → RetryAction Float → RetryAction Float
  unfolding is_mandate_case is_retry
  demote now ctx a =
      if is_mandate_case ctx.risk_type
        && is_retry a.action
        && is_some (
            check_mandate_predebit_notification cfg ctx.risk_type retry_now
              ctx.last_notification_sent_at (aware now) false)
      then record a { action = nudge_customer; retry_at_time = none }
      else a

  -- `clamp_retry_at_out_of_blackout`, of a time that may be naive.
  clamp_time : Surroundings → Timestamp → Timestamp
  clamp_time around (aware t) = aware (clamp_retry_at_out_of_blackout cfg t)
  clamp_time around (naive t) =
      let instant = around.local_to_utc t in
      if is_in_blackout cfg (hour_of (to_ist instant))
      then aware (clamp_retry_at_out_of_blackout cfg instant)
      else naive t

  clamp_opt : Surroundings → Option Timestamp → Option Timestamp
  unfolding clamp_time
  clamp_opt around none = none
  clamp_opt around (some t) = some (clamp_time around t)

  clamp_action : Surroundings → RetryAction Float → RetryAction Float
  unfolding clamp_opt
  clamp_action around a = elim a.action [
    | retry_at ↦ record a { retry_at_time = clamp_opt around a.retry_at_time }
    | _ ↦ a
  ]

  rail_or : Option PaymentRail → Option PaymentRail → Option PaymentRail
  rail_or (some r) recommended = some r
  rail_or none recommended = recommended

  -- The action as it goes to the gate.
  unfoldable pub prepare :
      Surroundings → ℕ → RiskPolicy → FailureContext → RetryAction Float → RetryAction Float
  unfolding resolve_rail demote clamp_action rail_or
  prepare around now policy ctx a =
      let b = clamp_action around (demote now ctx (resolve_rail around ctx a)) in
      record b { rail = rail_or b.rail policy.recommended_rail }

  -- The action of a failed payment, as it goes to the gate.
  unfoldable pub prepare_payment :
      Surroundings → FailureContext → RetryAction Float → RetryAction Float
  unfolding resolve_rail clamp_action
  prepare_payment around ctx a = clamp_action around (resolve_rail around ctx a)
