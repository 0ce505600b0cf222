-- ===== src/Orchestrator/Window.antt =====
-- The counters of a customer's contacts (`_effective_counts` and `_update_retry_ledger` of
-- src/orchestrator.py).
use payment_recovery_engine.Prelude.{
  ℕ, ◌+◌, Bool, true, false, Option, none, some, ltb, if◌then◌else◌, ◌≡◌, refl, ap, arith,
}
use payment_recovery_engine.Clock.{hours}
use payment_recovery_engine.Settings.{Settings}
use payment_recovery_engine.Actions.{
  ActionType, retry_now, retry_at, switch_rail, nudge_customer, abandon,
}
use payment_recovery_engine.Cases.Model.{RetryLedger}

-- The window from this instant is over.
abbrev pub is_over : Settings → ℕ → ℕ → Bool
is_over cfg start now = ltb (start + hours cfg.rate_limit_window_hours) now

-- A tally as it counts now: the anchor decides, or in its absence the last contact.
unfoldable pub effective_count : Settings → ℕ → Option ℕ → Option ℕ → ℕ → ℕ
effective_count cfg total (some anchor) last now = if is_over cfg anchor now then 0 else total
effective_count cfg total none none now = 0
effective_count cfg total none (some last) now = if is_over cfg last now then 0 else total

unfoldable pub effective_counts : Settings → RetryLedger → ℕ → ℕ × ℕ
effective_counts cfg l now = (
  effective_count cfg l.total_retries_24h l.retries_window_started_at l.last_retry_at now,
  effective_count cfg l.total_nudges_24h l.nudges_window_started_at l.last_nudge_at now,
)

-- The tally and the anchor after one more contact.
unfoldable pub bump : Settings → ℕ → Option ℕ → Option ℕ → ℕ → ℕ × ℕ
bump cfg total (some anchor) last now =
    if is_over cfg anchor now then (1, now) else (total + 1, anchor)
bump cfg total none none now = (1, now)
bump cfg total none (some last) now = if is_over cfg last now then (1, now) else (total + 1, last)

abbrev pub counts_as_retry : ActionType → Bool
counts_as_retry retry_now = true
counts_as_retry retry_at = true
counts_as_retry switch_rail = true
counts_as_retry _ = false

abbrev pub counts_as_nudge : ActionType → Bool
counts_as_nudge nudge_customer = true
counts_as_nudge _ = false

add_retry : Settings → ℕ → RetryLedger → RetryLedger
add_retry cfg now l =
    let (total, anchor) =
      bump cfg l.total_retries_24h l.retries_window_started_at l.last_retry_at now in
    record l {
      total_retries_24h = total;
      retries_window_started_at = some anchor;
      last_retry_at = some now;
    }

add_nudge : Settings → ℕ → RetryLedger → RetryLedger
add_nudge cfg now l =
    let (total, anchor) =
      bump cfg l.total_nudges_24h l.nudges_window_started_at l.last_nudge_at now in
    record l {
      total_nudges_24h = total;
      nudges_window_started_at = some anchor;
      last_nudge_at = some now;
    }

-- The row of the customer after an action.
unfoldable pub update_retry_ledger : Settings → ℕ → ActionType → RetryLedger → RetryLedger
unfolding add_retry add_nudge
update_retry_ledger cfg now action l =
    if counts_as_retry action
    then add_retry cfg now l
    else if counts_as_nudge action
    then add_nudge cfg now l
    else l

effective_count-bump :
    (cfg : Settings) (total : ℕ) (anchor last : Option ℕ) (now : ℕ)
    → let (total', anchor') = bump cfg total anchor last now in
      effective_count cfg total' (some anchor') (some now) now
      ≡ effective_count cfg total anchor last now + 1
unfolding effective_count bump
effective_count-bump cfg total (some a) last now = ground arith
effective_count-bump cfg total none none now = ground arith
effective_count-bump cfg total none (some l) now = ground arith

abbrev retries : Settings → RetryLedger → ℕ → ℕ
retries cfg l now =
    effective_count cfg l.total_retries_24h l.retries_window_started_at l.last_retry_at now

abbrev nudges : Settings → RetryLedger → ℕ → ℕ
nudges cfg l now =
    effective_count cfg l.total_nudges_24h l.nudges_window_started_at l.last_nudge_at now

retry-bump :
    (cfg : Settings) (l : RetryLedger) (now : ℕ)
    → retries cfg (add_retry cfg now l) now ≡ retries cfg l now + 1
unfolding add_retry
retry-bump cfg l now =
    effective_count-bump cfg l.total_retries_24h l.retries_window_started_at l.last_retry_at now

nudge-bump :
    (cfg : Settings) (l : RetryLedger) (now : ℕ)
    → nudges cfg (add_nudge cfg now l) now ≡ nudges cfg l now + 1
unfolding add_nudge
nudge-bump cfg l now =
    effective_count-bump cfg l.total_nudges_24h l.nudges_window_started_at l.last_nudge_at now

-- The reader of the counters agrees with their writer: right after an action, the count of its kind
-- is one more than it was, and the other count is what it was.
pub effective_counts-update_retry_ledger :
    (cfg : Settings) (now : ℕ) (action : ActionType) (l : RetryLedger)
    → let (retries, nudges) = effective_counts cfg l now in
      effective_counts cfg (update_retry_ledger cfg now action l) now ≡ (
        (if counts_as_retry action then retries + 1 else retries),
        (if counts_as_nudge action then nudges + 1 else nudges),
      )
unfolding effective_counts update_retry_ledger
effective_counts-update_retry_ledger cfg now retry_now l =
    ap (λ n. (n, nudges cfg l now)) (retry-bump cfg l now)
effective_counts-update_retry_ledger cfg now retry_at l =
    ap (λ n. (n, nudges cfg l now)) (retry-bump cfg l now)
effective_counts-update_retry_ledger cfg now switch_rail l =
    ap (λ n. (n, nudges cfg l now)) (retry-bump cfg l now)
effective_counts-update_retry_ledger cfg now nudge_customer l =
    ap (λ n. (retries cfg l now, n)) (nudge-bump cfg l now)
effective_counts-update_retry_ledger cfg now abandon l = refl
