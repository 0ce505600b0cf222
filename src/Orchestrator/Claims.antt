-- ===== src/Orchestrator/Claims.antt =====
-- Who may fire a parked attempt: the claim of `fire_due_retries` and the sweep
-- `reconcile_stale_attempts` of src/scheduler.py, around the write-ahead of src/orchestrator.py. Each
-- reads the row first and updates it later, on a condition.
use payment_recovery_engine.Prelude.{
  ℕ, suc, ◌+◌, ◌≤◌, Bool, true, false, Option, none, some, List, [], ◌∷◌, ◌++◌, leb, ◌≡◌,
  if◌then◌else◌,
}
use payment_recovery_engine.Clock.{seconds, minute_us}
use payment_recovery_engine.Settings.{Settings}

-- What the row's result and its details say: put off until a time, claimed by a scheduler, claimed
-- and past the write-ahead, or over.
pub data RowState : Type 0 where
  scheduled : ℕ → RowState
  claimed written_ahead over : RowState

pub record ParkedRow : Type 0 where
  pub created_at : ℕ
  pub state : RowState

abbrev pub is_due : ℕ → RowState → Bool
is_due now (scheduled t) = leb t now
is_due now _ = false

-- The conditional update of `fire_due_retries`, on a row that was read as due; `none` where it finds
-- no row.
unfoldable pub claim_row : ParkedRow → Option ParkedRow
claim_row r = elim r.state [ scheduled t ↦ some (record r { state = claimed }) | _ ↦ none ]

-- `_execute_and_record` commits the marker before it calls the gateway.
unfoldable pub write_ahead_row : ParkedRow → ParkedRow
write_ahead_row r = record r { state = written_ahead }

-- `_mark`, and the result that an execution records.
unfoldable pub close_row : ParkedRow → ParkedRow
close_row r = record r { state = over }

unfoldable pub is_stale_row : Settings → ℕ → ParkedRow → Bool
is_stale_row cfg now r = leb (r.created_at + seconds cfg.attempt_stale_after_seconds) now

-- What `reconcile_stale_attempts` decides on a row that it has read, at the time of the sweep: a
-- claim that has not reached the write-ahead is to be parked again, a minute from then, and one
-- that has is to be failed.
pub data StaleVerdict : Type 0 where
  park_at : ℕ → StaleVerdict
  fail : StaleVerdict

abbrev pub resolution_of : ℕ → RowState → Option StaleVerdict
resolution_of now claimed = some (park_at (now + minute_us))
resolution_of now written_ahead = some fail
resolution_of now _ = none

unfoldable pub read_stale : Settings → ℕ → ParkedRow → Option StaleVerdict
unfolding is_stale_row
read_stale cfg now r = if is_stale_row cfg now r then resolution_of now r.state else none

abbrev pub resolved_state : StaleVerdict → RowState
resolved_state (park_at t) = scheduled t
resolved_state fail = over

-- `RetryAttempt.result == "pending"`, whatever the details say.
abbrev pub is_in_flight : RowState → Bool
is_in_flight claimed = true
is_in_flight written_ahead = true
is_in_flight _ = false

-- The sweep's conditional update; `none` where it finds no row.
unfoldable pub update_stale : StaleVerdict → ParkedRow → Option ParkedRow
update_stale d r =
    if is_in_flight r.state then some (record r { state = resolved_state d }) else none

-- A row and the processes at it: those that have read it as due and not tried to claim it, those
-- that have claimed it and not written ahead, those that have written ahead and not called, those
-- that wait to record an answer, the sweeps that have read it as stale and not updated it, and the
-- calls so far.
pub record World : Type 0 where
  pub now : ℕ
  pub row : ParkedRow
  pub found : ℕ
  pub holding : ℕ
  pub calling : ℕ
  pub answered : ℕ
  pub sweeps : List StaleVerdict
  pub calls : ℕ

-- One step of one of the processes. The update of a sweep needs what `Fence` says of it and of the
-- moment. An update that finds no row is `lose` or `skip`.
pub data Step (cfg : Settings) (Fence : StaleVerdict → World → Type 0)
    : World → World → Type 0 where
  wait : (w : World) (t : ℕ) → w.now ≤ t → Step cfg Fence w (record w { now = t })
  find_due :
      (w : World)
      → is_due w.now w.row.state ≡ true
      → Step cfg Fence w (record w { found = suc w.found })
  claim :
      (w : World) (n : ℕ) (r : ParkedRow)
      → w.found ≡ suc n
      → claim_row w.row ≡ some r
      → Step cfg Fence w (record w { row = r; found = n; holding = suc w.holding })
  lose :
      (w : World) (n : ℕ)
      → w.found ≡ suc n
      → claim_row w.row ≡ none
      → Step cfg Fence w (record w { found = n })
  refuse :
      (w : World) (n : ℕ)
      → w.holding ≡ suc n
      → Step cfg Fence w (record w { row = close_row w.row; holding = n })
  write_ahead :
      (w : World) (n : ℕ)
      → w.holding ≡ suc n
      → Step cfg Fence w
          (record w { row = write_ahead_row w.row; holding = n; calling = suc w.calling })
  call :
      (w : World) (n : ℕ)
      → w.calling ≡ suc n
      → Step cfg Fence w (record w { calling = n; answered = suc w.answered; calls = suc w.calls })
  record_answer :
      (w : World) (n : ℕ)
      → w.answered ≡ suc n
      → Step cfg Fence w (record w { row = close_row w.row; answered = n })
  die_holding :
      (w : World) (n : ℕ) → w.holding ≡ suc n → Step cfg Fence w (record w { holding = n })
  die_calling :
      (w : World) (n : ℕ) → w.calling ≡ suc n → Step cfg Fence w (record w { calling = n })
  die_answered :
      (w : World) (n : ℕ) → w.answered ≡ suc n → Step cfg Fence w (record w { answered = n })
  read_row :
      (w : World) (d : StaleVerdict)
      → read_stale cfg w.now w.row ≡ some d
      → Step cfg Fence w (record w { sweeps = d ∷ w.sweeps })
  reconcile :
      (w : World) (before after : List StaleVerdict) (d : StaleVerdict) (r : ParkedRow)
      → w.sweeps ≡ before ++ d ∷ after
      → Fence d w
      → update_stale d w.row ≡ some r
      → Step cfg Fence w (record w { row = r; sweeps = before ++ after })
  skip :
      (w : World) (before after : List StaleVerdict) (d : StaleVerdict)
      → w.sweeps ≡ before ++ d ∷ after
      → update_stale d w.row ≡ none
      → Step cfg Fence w (record w { sweeps = before ++ after })

pub data Steps (cfg : Settings) (Fence : StaleVerdict → World → Type 0)
    : World → World → Type 0 where
  stay : (w : World) → Steps cfg Fence w w
  step : (w v u : World) → Step cfg Fence w v → Steps cfg Fence v u → Steps cfg Fence w u

-- An attempt that was just parked.
abbrev pub parked_at : ℕ → ℕ → ℕ → World
parked_at now created due = record {
  now = now;
  row = record { created_at = created; state = scheduled due };
  found = 0;
  holding = 0;
  calling = 0;
  answered = 0;
  sweeps = [];
  calls = 0;
}
