-- ===== src/Classifier/Taxonomy.antt =====
-- The failure classes and their three sets (src/classifier/taxonomy.py).
use payment_recovery_engine.Prelude.{
  String, Bool, true, false, Option, none, some, str_eq, if◌then◌else◌, ◌≡◌, refl,
}

pub data FailureClass : Type 0 where
  insufficient_funds bank_downtime network_error upi_collect_timeout payment_timeout : FailureClass
  threeds_dropoff issuer_decline card_limit_exceeded risk_check_failed : FailureClass
  invalid_card expired_instrument fraud_block hard_decline customer_cancelled : FailureClass
  unknown : FailureClass

-- `.value` of the enum.
unfoldable pub value : FailureClass → String
value insufficient_funds = "insufficient_funds"
value bank_downtime = "bank_downtime"
value network_error = "network_error"
value upi_collect_timeout = "upi_collect_timeout"
value payment_timeout = "payment_timeout"
value threeds_dropoff = "3ds_dropoff"
value issuer_decline = "issuer_decline"
value card_limit_exceeded = "card_limit_exceeded"
value risk_check_failed = "risk_check_failed"
value invalid_card = "invalid_card"
value expired_instrument = "expired_instrument"
value fraud_block = "fraud_block"
value hard_decline = "hard_decline"
value customer_cancelled = "customer_cancelled"
value unknown = "unknown"

-- `FailureClass(s)`: `none` stands for its `ValueError`.
unfoldable pub parse : String → Option FailureClass
parse s =
    if str_eq s "insufficient_funds"
    then some insufficient_funds
    else if str_eq s "bank_downtime"
    then some bank_downtime
    else if str_eq s "network_error"
    then some network_error
    else if str_eq s "upi_collect_timeout"
    then some upi_collect_timeout
    else if str_eq s "payment_timeout"
    then some payment_timeout
    else if str_eq s "3ds_dropoff"
    then some threeds_dropoff
    else if str_eq s "issuer_decline"
    then some issuer_decline
    else if str_eq s "card_limit_exceeded"
    then some card_limit_exceeded
    else if str_eq s "risk_check_failed"
    then some risk_check_failed
    else if str_eq s "invalid_card"
    then some invalid_card
    else if str_eq s "expired_instrument"
    then some expired_instrument
    else if str_eq s "fraud_block"
    then some fraud_block
    else if str_eq s "hard_decline"
    then some hard_decline
    else if str_eq s "customer_cancelled"
    then some customer_cancelled
    else if str_eq s "unknown"
    then some unknown
    else none

abbrev pub is_retryable : FailureClass → Bool
is_retryable insufficient_funds = true
is_retryable bank_downtime = true
is_retryable network_error = true
is_retryable upi_collect_timeout = true
is_retryable payment_timeout = true
is_retryable threeds_dropoff = true
is_retryable issuer_decline = true
is_retryable card_limit_exceeded = true
is_retryable risk_check_failed = true
is_retryable _ = false

abbrev pub is_switch_only : FailureClass → Bool
is_switch_only risk_check_failed = true
is_switch_only _ = false

abbrev pub is_hard_decline : FailureClass → Bool
is_hard_decline invalid_card = true
is_hard_decline expired_instrument = true
is_hard_decline fraud_block = true
is_hard_decline hard_decline = true
is_hard_decline customer_cancelled = true
is_hard_decline _ = false

-- Each class is read back from its own text, so no class can pass for an unknown one.
pub parse-value : (c : FailureClass) → parse (value c) ≡ some c
unfolding parse value
parse-value insufficient_funds = refl
parse-value _ = refl
