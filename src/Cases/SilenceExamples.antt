-- ===== src/Cases/SilenceExamples.antt =====
-- A customer with one open case opts out.
use payment_recovery_engine.Prelude.{◌+◌, ◌≡◌, ◌≢◌, true, none, [], ◌∷◌, keep, length}
use payment_recovery_engine.Clock.{hours}
use payment_recovery_engine.Cases.Lifecycle.{is_opted_out, stop_reason}
use payment_recovery_engine.Cases.OptOut.{find_ledger, is_open_of, record_opt_out}
use payment_recovery_engine.Cases.Silence.{record_opt_out-IsSilent}
use payment_recovery_engine.Cases.Examples.{noon, owed, store}

record_opt_out-IsSilent_example :
    let (s, n) = record_opt_out noon ("c" ∷ []) store in
    (keep (is_open_of ("c" ∷ [])) s.cases ≡ [])
    × (n ≡ length (keep (is_open_of ("c" ∷ [])) store.cases))
    × (is_opted_out (find_ledger "c" [] s.ledgers) ≡ true)
    × (stop_reason (noon + hours 1) owed (find_ledger "c" [] s.ledgers) ≢ none)
record_opt_out-IsSilent_example = record_opt_out-IsSilent noon (noon + hours 1) "c" [] store owed
