-- ===== src/Cases/Promises.antt =====
-- Promises to pay (src/cases.py).
use payment_recovery_engine.Prelude.{
  ℕ, ◌+◌, ◌-◌, ◌/◌, String, Bool, true, false, ◌&&◌, ◌||◌, not, Option, none, some, List, [], ◌∷◌,
  ◌++◌, map, keep, length, take, ltb, leb, ◌==◌, if◌then◌else◌, max,
}
use payment_recovery_engine.Clock.{hours, days, day_us}
use payment_recovery_engine.Settings.{Settings}
use payment_recovery_engine.Actions.{RiskType, invoice_overdue}
use payment_recovery_engine.Receivables.Ladder.{stage_after_break}
use payment_recovery_engine.Cases.Model
use payment_recovery_engine.Cases.Model.{
  CaseState, RecoveryCase, PromiseToPay, PromiseStatus, Channel, MandateStatus, EventType, Store,
  get_case, put_case, log_event, is_terminal,
}

abbrev pub is_pending : PromiseStatus → Bool
is_pending PromiseStatus.pending = true
is_pending _ = false

abbrev pub is_broken : PromiseStatus → Bool
is_broken PromiseStatus.broken = true
is_broken _ = false

-- `PromiseResolution`: the three ways in which a promise ends.
pub data Resolution : Type 0 where
  kept broken cancelled : Resolution

abbrev pub status_of : Resolution → PromiseStatus
status_of Resolution.kept = PromiseStatus.kept
status_of Resolution.broken = PromiseStatus.broken
status_of Resolution.cancelled = PromiseStatus.cancelled

-- `_PROMISE_EVENT`
abbrev pub event_of : Resolution → ℕ → EventType
event_of Resolution.kept = Model.promise_kept
event_of Resolution.broken = Model.promise_broken
event_of Resolution.cancelled = Model.promise_cancelled

-- Whole days late, of a promise that is kept.
late_days : Resolution → ℕ → PromiseToPay → Option ℕ
late_days Resolution.kept now p = some ((now - p.due_at) / day_us)
late_days _ now p = p.kept_late_days

abbrev pub is_open_promise_of : ℕ → PromiseToPay → Bool
is_open_promise_of case_id p = p.recovery_case_id == case_id && is_pending p.status

unfoldable pub resolve_one : Resolution → Option String → ℕ → PromiseToPay → PromiseToPay
unfolding late_days
resolve_one how ref now p = record p {
  status = status_of how;
  resolved_at = some now;
  resolved_ref = ref;
  kept_late_days = late_days how now p;
}

-- One audit row for each of the promises.
unfoldable pub log_each : ℕ → (ℕ → EventType) → List PromiseToPay → Store → Store
log_each case_id event [] s = s
log_each case_id event (p ∷ ps) s = log_each case_id event ps (log_event case_id (event p.id) s)

-- The pending promises of the case, resolved.
abbrev pub resolve_rows : Resolution → Option String → ℕ → ℕ → List PromiseToPay → List PromiseToPay
resolve_rows how ref now case_id =
    map (λ p. if is_open_promise_of case_id p then resolve_one how ref now p else p)

-- Every pending promise of the case is resolved; the number of those that moved is returned.
unfoldable pub resolve_promises : Resolution → Option String → ℕ → ℕ → Store → Store × ℕ
unfolding log_each
resolve_promises how ref now case_id s =
    let moved = keep (is_open_promise_of case_id) s.promises in
    (
      log_each case_id (event_of how) moved
          (record s { promises = resolve_rows how ref now case_id s.promises }),
      length moved,
    )

abbrev pub is_plan : Option Channel → Bool
is_plan (some Channel.payment_plan) = true
is_plan _ = false

-- `PromiseToPay.channel != "payment_plan"` in SQL: a row whose channel is NULL is not selected.
abbrev pub is_not_plan_in_sql : Option Channel → Bool
is_not_plan_in_sql none = false
is_not_plan_in_sql (some Channel.payment_plan) = false
is_not_plan_in_sql (some _) = true

-- The promises of the case that count toward its cap.
unfoldable pub prior_promises : ℕ → List PromiseToPay → List PromiseToPay
prior_promises case_id = keep (λ p. p.recovery_case_id == case_id && is_not_plan_in_sql p.channel)

unfoldable pub cap_reached : Settings → List PromiseToPay → Bool
cap_reached cfg prior =
    leb cfg.max_promises_per_case (length prior)
    || leb (cfg.max_promises_per_case - 1) (length (keep (λ p. is_broken p.status) prior))

unfoldable pub beyond_horizon : Settings → ℕ → ℕ → Bool
beyond_horizon cfg now due_at = ltb (now + days cfg.promise_max_horizon_days) due_at

-- The later of the promise's date and what was already scheduled.
abbrev pub later_of : Option ℕ → ℕ → ℕ
later_of none due_at = due_at
later_of (some t) due_at = max t due_at

unfoldable pub new_promise : ℕ → RecoveryCase → ℕ → ℕ → Option Channel → PromiseToPay
new_promise fresh_id c amount due_at channel = record {
  id = fresh_id;
  recovery_case_id = c.id;
  amount_promised = amount;
  due_at = due_at;
  channel = channel;
  status = PromiseStatus.pending;
  resolved_at = none;
  resolved_ref = none;
  kept_late_days = none;
  mandate_status = none;
  mandate_charged_at = none;
}

-- `record_promise`: the id is the database's; a refusal is `none`. The date is aware, as its
-- callers pass it.
unfoldable pub record_promise :
    Settings → ℕ → ℕ → RecoveryCase → ℕ → ℕ → Option Channel → Store → Store × Option PromiseToPay
unfolding prior_promises cap_reached beyond_horizon new_promise
record_promise cfg now fresh_id c amount due_at channel s =
    if not (is_plan channel) && beyond_horizon cfg now due_at
    then (log_event c.id Model.promise_refused_horizon s, none)
    else if not (is_plan channel) && cap_reached cfg (prior_promises c.id s.promises)
    then (log_event c.id Model.promise_refused_cap s, none)
    else let p = new_promise fresh_id c amount due_at channel in
      let c' = record c { next_action_at = some (later_of c.next_action_at due_at) } in
      (
        log_event c.id (Model.promise_made fresh_id)
            (put_case c' (record s { promises = s.promises ++ p ∷ [] })),
        some p,
      )

abbrev pub is_charged : Option MandateStatus → Bool
is_charged (some MandateStatus.charged) = true
is_charged _ = false

-- `_charge_in_flight`
unfoldable pub charge_in_flight : PromiseToPay → ℕ → ℕ → Bool
charge_in_flight p now grace =
    is_charged p.mandate_status
    && elim p.mandate_charged_at [ none ↦ false | some t ↦ ltb now (t + grace) ]

-- `ORDER BY due_at`
unfoldable pub insert_by_due : PromiseToPay → List PromiseToPay → List PromiseToPay
insert_by_due p [] = p ∷ []
insert_by_due p (q ∷ qs) = if leb p.due_at q.due_at then p ∷ q ∷ qs else q ∷ insert_by_due p qs

unfoldable pub sort_by_due : List PromiseToPay → List PromiseToPay
unfolding insert_by_due
sort_by_due [] = []
sort_by_due (p ∷ ps) = insert_by_due p (sort_by_due ps)

-- The promises that the sweep finds broken: the earliest `limit` that are due, less those inside
-- the grace or with a charge in flight.
unfoldable pub expired_view : Settings → ℕ → ℕ → List PromiseToPay → List PromiseToPay
unfolding charge_in_flight sort_by_due
expired_view cfg now limit promises =
    let grace = hours cfg.promise_grace_hours in
    keep (λ p. leb (p.due_at + grace) now && not (charge_in_flight p now grace))
      (take limit (sort_by_due (keep (λ p. is_pending p.status && leb p.due_at now) promises)))

is_invoice : RiskType → Bool
is_invoice invoice_overdue = true
is_invoice _ = false

-- What the break of a promise does to its case.
unfoldable pub release : ℕ → RecoveryCase → RecoveryCase
unfolding is_invoice
release now c =
    if is_terminal c.state
    then c
    else let due = record c { next_action_at = some now } in
      if is_invoice c.risk_type
      then record due { escalation_level = stage_after_break c.escalation_level }
      else due

abbrev pub break_promise : ℕ → ℕ → PromiseToPay → PromiseToPay
break_promise now i q =
    if q.id == i then record q { status = PromiseStatus.broken; resolved_at = some now } else q

-- A promise whose case is gone is broken without an audit row, and not counted.
unfoldable pub expire_one : ℕ → PromiseToPay → Store × ℕ → Store × ℕ
unfolding release
expire_one now p (s, n) =
    let marked = record s { promises = map (break_promise now p.id) s.promises } in
    elim (get_case p.recovery_case_id s.cases) [
      | none ↦ (marked, n)
      | some c ↦
          (log_event c.id (Model.promise_broken p.id) (put_case (release now c) marked), n + 1)
    ]

expire_each : ℕ → List PromiseToPay → Store × ℕ → Store × ℕ
expire_each now [] s = s
expire_each now (p ∷ ps) s = expire_each now ps (expire_one now p s)

unfoldable pub expire_promises : Settings → ℕ → ℕ → Store → Store × ℕ
unfolding expire_each
expire_promises cfg now limit s = expire_each now (expired_view cfg now limit s.promises) (s, 0)
