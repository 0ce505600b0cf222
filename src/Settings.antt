-- ===== src/Settings.antt =====
-- The thresholds of src/config.py that the modelled rules read.
use payment_recovery_engine.Prelude.{ℕ}

pub record Settings : Type 0 where
  pub max_retries_per_payment : ℕ
  pub max_retries_per_customer_24h : ℕ
  pub amount_ceiling_paise : ℕ
  pub retry_attempt_cost_paise : ℕ
  pub retry_annoyance_cost_paise : ℕ
  pub consent_window_hours : ℕ
  pub max_nudges_per_customer_24h : ℕ
  pub rate_limit_window_hours : ℕ
  pub retry_blackout_start_hour : ℕ
  pub retry_blackout_end_hour : ℕ
  pub escalation_backoff_hours : ℕ
  pub promise_grace_hours : ℕ
  pub max_promises_per_case : ℕ
  pub promise_reminder_lead_hours : ℕ
  pub promise_max_horizon_days : ℕ
  pub mandate_predebit_notification_valid_hours : ℕ
  pub recovery_link_ttl_hours : ℕ
  pub scheduler_batch_size : ℕ
  pub event_reconcile_after_seconds : ℕ
  pub processed_events_retention_days : ℕ
  pub attempt_stale_after_seconds : ℕ

-- The values that the file gives as defaults.
abbrev pub default_settings : Settings
default_settings = record {
  max_retries_per_payment = 3;
  max_retries_per_customer_24h = 5;
  amount_ceiling_paise = 5000000;
  retry_attempt_cost_paise = 200;
  retry_annoyance_cost_paise = 0;
  consent_window_hours = 72;
  max_nudges_per_customer_24h = 2;
  rate_limit_window_hours = 24;
  retry_blackout_start_hour = 23;
  retry_blackout_end_hour = 7;
  escalation_backoff_hours = 24;
  promise_grace_hours = 24;
  max_promises_per_case = 3;
  promise_reminder_lead_hours = 48;
  promise_max_horizon_days = 14;
  mandate_predebit_notification_valid_hours = 168;
  recovery_link_ttl_hours = 24;
  scheduler_batch_size = 50;
  event_reconcile_after_seconds = 300;
  processed_events_retention_days = 30;
  attempt_stale_after_seconds = 900;
}
