-- ===== src/Actions.antt =====
-- The agent's action space and the context it decides on (src/agent/actions.py). What Python
-- itself supplies, floats and the Unicode text methods, is the parameter `Host`.
use payment_recovery_engine.Prelude.{ℕ, String, Bool, true, Option, ◌≡◌}
use payment_recovery_engine.Clock.{Timestamp}

pub record Host : Type 1 where
  -- IEEE doubles.
  pub Float : Type 0
  -- `0.0 <= c <= 1.0`
  pub in_unit_interval : Float → Bool
  -- `confidence * amount <= cost`, rounded as the product rounds.
  pub product_le : Float → ℕ → ℕ → Bool
  -- `not text.strip()`
  pub is_blank : String → Bool
  -- `text.lower()`
  pub lower : String → String
  pub is_blank_empty : is_blank "" ≡ true

pub data ActionType : Type 0 where
  retry_now retry_at switch_rail nudge_customer abandon : ActionType

pub data PaymentRail : Type 0 where
  upi card netbanking wallet : PaymentRail

pub record RetryAction (F : Type 0) : Type 0 where
  pub action : ActionType
  pub rail : Option PaymentRail
  pub retry_at_time : Option Timestamp
  pub reason : String
  pub confidence : Option F

-- The kinds of revenue leak (`RiskType` of src/cases.py).
pub data RiskType : Type 0 where
  payment_failure checkout_abandonment subscription_failure : RiskType
  invoice_overdue mandate_failure : RiskType

-- The fields that the guardrail reads.
pub record FailureContext : Type 0 where
  pub risk_type : RiskType
  pub payment_id : String
  pub failure_class : String
  pub amount : ℕ
  pub retry_count_24h : ℕ
  pub nudge_count_24h : ℕ
  pub failed_at : Timestamp
  pub current_time : Timestamp
  pub hour_of_day : ℕ
  pub consent_window : Option ℕ
  pub last_notification_sent_at : Option Timestamp
  pub is_mandate_debit : Bool
