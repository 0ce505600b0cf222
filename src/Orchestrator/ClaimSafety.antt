-- ===== src/Orchestrator/ClaimSafety.antt =====
-- How often a parked attempt reaches the gateway (src/scheduler.py).
use payment_recovery_engine.Prelude.{ℕ, suc, zero, ◌+◌, ◌≤◌, some, List, [], ◌++◌, ◌≡◌, refl, arith}
use payment_recovery_engine.Clock.{seconds, minute_us}
use payment_recovery_engine.Settings.{Settings}
use payment_recovery_engine.Orchestrator.Claims.{
  RowState, scheduled, claimed, written_ahead, over, ParkedRow, claim_row, write_ahead_row,
  close_row, is_stale_row, StaleVerdict, park_at, fail, read_stale, update_stale, World, Step,
  Steps, wait, find_due, claim, lose, refuse, write_ahead, call, record_answer, die_holding,
  die_calling, die_answered, read_row, reconcile, skip, stay, step, parked_at,
}

-- The calls that the row itself may still lead to, given how many hold it.
abbrev open_calls : RowState → ℕ → ℕ
open_calls (scheduled t) holding = suc holding
open_calls claimed zero = 1
open_calls claimed (suc n) = suc n
open_calls written_ahead holding = holding
open_calls over holding = holding

-- The calls made and those still possible are one at most.
abbrev IsSingleCall : World → Type 0
IsSingleCall w = w.calls + w.calling + open_calls w.row.state w.holding ≤ 1

-- The row is as a claim left it, and nobody is between the claim and the write-ahead, where the
-- sweep is to park the row.
abbrev pub Unheld : StaleVerdict → World → Type 0
Unheld (park_at t) w = (w.holding ≡ 0) × (w.row.state ≡ claimed)
Unheld fail w = Unit

claim-IsSingleCall :
    (w : World) (n : ℕ) (r : ParkedRow)
    → claim_row w.row ≡ some r
    → IsSingleCall w
    → IsSingleCall (record w { row = r; found = n; holding = suc w.holding })
unfolding claim_row
claim-IsSingleCall w n r e h = ground arith

reconcile-IsSingleCall :
    (w : World) (d : StaleVerdict) (r : ParkedRow) (left : List StaleVerdict)
    → Unheld d w
    → update_stale d w.row ≡ some r
    → IsSingleCall w
    → IsSingleCall (record w { row = r; sweeps = left })
unfolding update_stale
reconcile-IsSingleCall w (park_at t) r left (idle, unmoved) e h = ground arith
reconcile-IsSingleCall w fail r left u e h = ground arith

Step-IsSingleCall :
    {w v : World} (cfg : Settings) → Step cfg Unheld w v → IsSingleCall w → IsSingleCall v
unfolding write_ahead_row close_row
Step-IsSingleCall cfg (wait w t le) h = h
Step-IsSingleCall cfg (find_due w e) h = h
Step-IsSingleCall cfg (claim w n r q e) h = claim-IsSingleCall w n r e h
Step-IsSingleCall cfg (lose w n q e) h = h
Step-IsSingleCall cfg (refuse w n e) h = ground arith
Step-IsSingleCall cfg (write_ahead w n e) h = ground arith
Step-IsSingleCall cfg (call w n e) h = ground arith
Step-IsSingleCall cfg (record_answer w n e) h = ground arith
Step-IsSingleCall cfg (die_holding w n e) h = ground arith
Step-IsSingleCall cfg (die_calling w n e) h = ground arith
Step-IsSingleCall cfg (die_answered w n e) h = h
Step-IsSingleCall cfg (read_row w d e) h = h
Step-IsSingleCall cfg (reconcile w before after d r q f e) h =
    reconcile-IsSingleCall w d r (before ++ after) f e h
Step-IsSingleCall cfg (skip w before after d q e) h = h

Steps-IsSingleCall :
    (cfg : Settings) {w v : World} → Steps cfg Unheld w v → IsSingleCall w → IsSingleCall v
Steps-IsSingleCall cfg (stay w) h = h
Steps-IsSingleCall cfg (step w v u now later) h =
    Steps-IsSingleCall cfg later (Step-IsSingleCall cfg now h)

-- A parked attempt reaches the gateway at most once, however many processes work at it, in
-- whichever order they take their steps and wherever they die, if no sweep over stale attempts
-- parks it again, by an update after its read, while a process is between its claim and its
-- write-ahead, or once the row is past a write-ahead.
pub parked_called_once :
    (cfg : Settings) (now created due : ℕ) (w : World)
    → Steps cfg Unheld (parked_at now created due) w
    → w.calls ≤ 1
parked_called_once cfg now created due w run =
    let single = Steps-IsSingleCall cfg run (omega arith) in omega (arith, single)

-- A sweep at any moment.
abbrev pub Unfenced : StaleVerdict → World → Type 0
Unfenced d w = Unit

-- Without that condition it may reach the gateway twice: an attempt whose row is older than the
-- staleness threshold when it falls due can be claimed, parked again by a sweep at that very
-- moment, claimed a minute later, and called by both.
pub parked_called_twice :
    (cfg : Settings) (now created due : ℕ)
    → due ≤ now
    → created + seconds cfg.attempt_stale_after_seconds ≤ now
    → (w : World) × Steps cfg Unfenced (parked_at now created due) w × (w.calls ≡ 2)
unfolding claim_row read_stale update_stale is_stale_row
parked_called_twice cfg now created due le old = (
  _,
  step _ _ _ (find_due (parked_at now created due) (ground (arith, le))) (
      step _ _ _ (claim _ 0 claimed_row refl refl) (
        step _ _ _ (read_row _ (park_at (now + minute_us)) (ground (arith, old))) (
          step _ _ _ (reconcile _ [] [] (park_at (now + minute_us)) parked_row refl tt refl) (
            step _ _ _ (wait _ (now + minute_us) (omega arith)) (
              step _ _ _ (find_due _ (ground arith)) (
                step _ _ _ (claim _ 0 claimed_row refl refl) (
                  step _ _ _ (write_ahead _ 1 refl) (
                    step _ _ _ (write_ahead _ 0 refl)
                      (step _ _ _ (call _ 1 refl) (step _ _ _ (call _ 0 refl) (stay _))))))))))),
  refl,
)
  where
    claimed_row : ParkedRow
    claimed_row = record { created_at = created; state = claimed }

    parked_row : ParkedRow
    parked_row = record { created_at = created; state = scheduled (now + minute_us) }
