-- ===== src/Guardrail/Rules.antt =====
-- The business rules of src/guardrail/rules.py. A rule's `(True, None)` is `none`; its
-- `(False, reason)` is the reason, kept as data where the source formats a text.
use payment_recovery_engine.Prelude.{
  ℕ, ◌+◌, String, Bool, true, false, ◌&&◌, ◌||◌, not, Option, none, some, ltb, leb, ◌==◌,
  if◌then◌else◌,
}
use payment_recovery_engine.Clock.{Timestamp, to_utc, hours}
use payment_recovery_engine.Settings.{Settings}
use payment_recovery_engine.Classifier.Taxonomy
use payment_recovery_engine.Classifier.Taxonomy.{FailureClass, is_hard_decline, is_switch_only}
use payment_recovery_engine.Actions.{
  Host, ActionType, retry_now, retry_at, switch_rail, RiskType, mandate_failure,
}

pub data SchemaError : Type 0 where
  -- pydantic's `ValidationError`
  validation_failed : SchemaError
  missing_rail missing_retry_at : SchemaError
  retry_at_in_past : ℕ → SchemaError

pub data Violation : Type 0 where
  schema : SchemaError → Violation
  hard_decline_blocklist switch_only_class : FailureClass → Violation
  -- how many there were, and the limit
  max_retries_payment : ℕ → ℕ → String → Violation
  max_retries_customer nudge_rate_limit : ℕ → ℕ → Violation
  -- the amount and the ceiling, in paise
  ceiling_exceeded : ℕ → ℕ → Violation
  -- the instant, the failure's instant, and the hours of the window
  consent_expired retry_outside_window : ℕ → ℕ → ℕ → Violation
  -- the hour and the two ends
  blackout : ℕ → ℕ → ℕ → Violation
  missing_idempotency_key : Violation
  -- the amount and the cost
  expected_value_below_cost : ℕ → ℕ → Violation
  no_predebit_notice : Violation
  -- when the notice was sent, and when the debit was tried
  predebit_notice_recent predebit_notice_stale : ℕ → ℕ → Violation

unfoldable pub check_hard_decline_blocklist : String → Option Violation
check_hard_decline_blocklist failure_class = elim (Taxonomy.parse failure_class) [
  | none ↦ none
  | some fc ↦ if is_hard_decline fc then some (hard_decline_blocklist fc) else none
]

-- `action_type in ("retry_now", "retry_at")`
is_same_rail : ActionType → Bool
is_same_rail retry_now = true
is_same_rail retry_at = true
is_same_rail _ = false

unfoldable pub check_switch_only_class : String → ActionType → Option Violation
unfolding is_same_rail
check_switch_only_class failure_class action_type =
    if not (is_same_rail action_type) then none else elim (Taxonomy.parse failure_class) [
      | none ↦ none
      | some fc ↦ if is_switch_only fc then some (switch_only_class fc) else none
    ]

-- `risk_type == "mandate_failure" and action_type == "retry_now"`
represents_mandate : RiskType → ActionType → Bool
represents_mandate mandate_failure retry_now = true
represents_mandate _ _ = false

module _ (s : Settings) where
  unfoldable pub check_max_retries_per_payment : String → ℕ → Option Violation
  check_max_retries_per_payment payment_id current_attempts =
      if leb s.max_retries_per_payment current_attempts
      then some (max_retries_payment current_attempts s.max_retries_per_payment payment_id)
      else none

  unfoldable pub check_max_retries_per_customer : ℕ → Option Violation
  check_max_retries_per_customer customer_retries_24h =
      if leb s.max_retries_per_customer_24h customer_retries_24h
      then some (max_retries_customer customer_retries_24h s.max_retries_per_customer_24h)
      else none

  unfoldable pub check_amount_ceiling : ℕ → Option Violation
  check_amount_ceiling amount_paise =
      if ltb s.amount_ceiling_paise amount_paise
      then some (ceiling_exceeded amount_paise s.amount_ceiling_paise)
      else none

  -- `window_hours or self._settings.consent_window_hours`: an override of 0 counts as none.
  abbrev pub window_or_default : Option ℕ → ℕ
  window_or_default none = s.consent_window_hours
  window_or_default (some w) = if w == 0 then s.consent_window_hours else w

  -- Both times are made aware before they meet, so the comparison is of instants.
  unfoldable pub check_consent_window : Timestamp → Timestamp → Option ℕ → Option Violation
  check_consent_window failed_at current_time window_hours =
      let h = window_or_default window_hours in
      if ltb (to_utc failed_at + hours h) (to_utc current_time)
      then some (consent_expired (to_utc current_time) (to_utc failed_at) h)
      else none

  unfoldable pub check_retry_at_within_window :
      Option Timestamp → Timestamp → Option ℕ → Option Violation
  check_retry_at_within_window none failed_at window_hours = none
  check_retry_at_within_window (some t) failed_at window_hours =
      let h = window_or_default window_hours in
      if ltb (to_utc failed_at + hours h) (to_utc t)
      then some (retry_outside_window (to_utc t) (to_utc failed_at) h)
      else none

  unfoldable pub check_customer_nudge_rate_limit : ℕ → Option Violation
  check_customer_nudge_rate_limit nudges_24h =
      if leb s.max_nudges_per_customer_24h nudges_24h
      then some (nudge_rate_limit nudges_24h s.max_nudges_per_customer_24h)
      else none

  unfoldable pub is_in_blackout : ℕ → Bool
  is_in_blackout hour =
      if ltb s.retry_blackout_end_hour s.retry_blackout_start_hour
      then leb s.retry_blackout_start_hour hour || ltb hour s.retry_blackout_end_hour
      else leb s.retry_blackout_start_hour hour && ltb hour s.retry_blackout_end_hour

  unfoldable pub check_time_of_day_blackout : ℕ → Option Violation
  unfolding is_in_blackout
  check_time_of_day_blackout current_hour =
      if is_in_blackout current_hour
      then some (blackout current_hour s.retry_blackout_start_hour s.retry_blackout_end_hour)
      else none

  -- The source compares hours as floats; a microsecond more or less than a whole number of hours
  -- is far above their rounding, so the comparisons are those of the instants. A notice in the
  -- future is refused as recent, there and here.
  unfoldable pub check_mandate_predebit_notification :
      RiskType → ActionType → Option Timestamp → Timestamp → Bool → Option Violation
  unfolding represents_mandate
  check_mandate_predebit_notification risk_type action_type last_sent current_time
        is_mandate_debit =
      if not (is_mandate_debit || represents_mandate risk_type action_type)
      then none
      else elim last_sent [
        | none ↦ some no_predebit_notice
        | some sent ↦
            if ltb (to_utc current_time) (to_utc sent + hours 24)
            then some (predebit_notice_recent (to_utc sent) (to_utc current_time))
            else if ltb (to_utc sent + hours s.mandate_predebit_notification_valid_hours)
                (to_utc current_time)
            then some (predebit_notice_stale (to_utc sent) (to_utc current_time))
            else none
      ]

module _ (host : Host) where
  open host use {Float, product_le, is_blank}

  -- `not idempotency_key or not idempotency_key.strip()`; the empty text is blank too.
  unfoldable pub check_idempotency_key : Option String → Option Violation
  check_idempotency_key none = some missing_idempotency_key
  check_idempotency_key (some key) = if is_blank key then some missing_idempotency_key else none

  -- `action_type in ("retry_now", "switch_rail")`
  attempts_charge : ActionType → Bool
  attempts_charge retry_now = true
  attempts_charge switch_rail = true
  attempts_charge _ = false

  unfoldable pub check_expected_value : Settings → ActionType → Option Float → ℕ → Option Violation
  unfolding attempts_charge
  check_expected_value s action_type confidence amount_paise =
      if not (attempts_charge action_type) then none else elim confidence [
        | none ↦ none
        | some c ↦
            let cost = s.retry_attempt_cost_paise + s.retry_annoyance_cost_paise in
            if product_le c amount_paise cost
            then some (expected_value_below_cost amount_paise cost)
            else none
      ]
