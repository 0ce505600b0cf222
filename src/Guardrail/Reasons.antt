-- ===== src/Guardrail/Reasons.antt =====
-- The texts of the gate's refusals, and how a stored refusal is attributed to a rule again
-- (src/guardrail/rules.py, gate.py and `guardrail_trace` of src/merchant/console_data.py).
use text.Mathlib.Text.{find?}
use payment_recovery_engine.Prelude.{String, Bool, is_some}
use payment_recovery_engine.Guardrail.Rules
use payment_recovery_engine.Guardrail.Rules.{Violation, SchemaError}

-- The text of a reason up to its first formatted value; the whole text where it has none.
unfoldable pub reason_head : Violation → String
reason_head (Rules.schema Rules.validation_failed) = "Schema: Schema validation failed: "
reason_head (Rules.schema Rules.missing_rail) = "Schema: switch_rail action requires a target rail"
reason_head (Rules.schema Rules.missing_retry_at) =
    "Schema: retry_at action requires a retry_at timestamp"
reason_head (Rules.schema (Rules.retry_at_in_past t)) =
    "Schema: retry_at timestamp is in the past: "
reason_head (Rules.hard_decline_blocklist fc) = "Hard decline blocklist: "
reason_head (Rules.switch_only_class fc) = "Switch-only class: "
reason_head (Rules.max_retries_payment n limit p) = "Max retries per payment exceeded: "
reason_head (Rules.max_retries_customer n limit) = "Max retries per customer (24h) exceeded: "
reason_head (Rules.nudge_rate_limit n limit) = "Nudge rate limit exceeded: "
reason_head (Rules.ceiling_exceeded n c) = "Amount ceiling exceeded: ₹"
reason_head (Rules.consent_expired now f h) = "Consent window expired: "
reason_head (Rules.retry_outside_window t f h) =
    "Scheduled retry falls outside the consent window: "
reason_head (Rules.blackout h a b) = "Time-of-day blackout: hour "
reason_head Rules.missing_idempotency_key =
    "Missing idempotency key — every retry must be idempotent"
reason_head (Rules.expected_value_below_cost a c) = "Expected value below attempt cost: confidence "
reason_head Rules.no_predebit_notice =
    "RBI e-mandate framework: no pre-debit notification on record for this mandate — send nudge_customer at least 24h before re-presenting the charge"
reason_head (Rules.predebit_notice_recent t n) =
    "RBI e-mandate framework: pre-debit notification sent only "
reason_head (Rules.predebit_notice_stale t n) =
    "RBI e-mandate framework: pre-debit notification is stale — sent "

-- `prefix in reason`, on the fixed part of the reason.
unfoldable pub names_rule : String → Violation → Bool
unfolding reason_head
names_rule pre v = is_some (find? (reason_head v) pre)
