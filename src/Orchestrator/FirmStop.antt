-- ===== src/Orchestrator/FirmStop.antt =====
-- The stops that `send_promise_reminder` and `charge_promise_mandate` of src/orchestrator.py heed:
-- those in whose text the words of a wait do not occur. The text of a closed case's stop ends in
-- its close reason, which may hold anyone's words.
use Prim.Native.Char.{code}
use payment_recovery_engine.Prelude.{
  ℕ, ◌<◌, ◌==◌, ◌&&◌, ◌||◌, String, Bool, true, false, Option, none, some, List, [], ◌∷◌, take, ◌≡◌,
  ◌⊎◌, arith, if◌then◌else◌,
}
use payment_recovery_engine.Cases.Model
use payment_recovery_engine.Cases.Model.{is_terminal, CloseReason, RecoveryCase, RetryLedger}
use payment_recovery_engine.Cases.Lifecycle.{
  StopReason, already_closed, not_due_until, is_opted_out, stop_reason,
}

abbrev codes : String → List ℕ
codes String.[] = []
codes (String.◌∷◌ c s) = code c ∷ codes s

begins_with : List ℕ → List ℕ → Bool
begins_with [] text = true
begins_with (x ∷ xs) [] = false
begins_with (x ∷ xs) (y ∷ ys) = x == y && begins_with xs ys

-- `words in text`
contains : List ℕ → List ℕ → Bool
contains words [] = begins_with words []
contains words (y ∷ ys) = begins_with words (y ∷ ys) || contains words ys

-- Whether a text holds the words that the code looks for.
unfoldable pub has_wait_words : List ℕ → Bool
unfolding contains begins_with
has_wait_words text = contains (codes "not due until") text

-- Whether the text of a close reason does; what the engine puts before the words of others does
-- not, nor does it end in a part of them.
unfoldable pub says_wait : Option CloseReason → Bool
unfolding has_wait_words
says_wait none = false
says_wait (some (Model.captured total payment attempt)) = has_wait_words (codes payment)
says_wait (some Model.customer_withdrew_consent) = false
says_wait (some (Model.other_reason text)) = has_wait_words (codes text)
says_wait (some (Model.hard_decline text)) = has_wait_words (codes text)
says_wait (some (Model.dispute_upheld text)) = has_wait_words (take 200 (codes text))

-- A stop in whose text the code does not find a wait.
abbrev pub firm_stop : RecoveryCase → Option StopReason → Option StopReason
firm_stop c none = none
firm_stop c (some (not_due_until t)) = none
firm_stop c (some (already_closed state)) =
    if says_wait c.close_reason then none else some (already_closed state)
firm_stop c (some r) = some r

-- The case is open, has attempts left, and its customer has not opted out; or it is closed, for a
-- reason whose text reads as a wait.
abbrev pub IsUnstopped : RecoveryCase → Option RetryLedger → Type 0
IsUnstopped c l =
    ((is_terminal c.state ≡ false) × (c.attempts_used < c.max_attempts) × (is_opted_out l ≡ false))
    ⊎ ((is_terminal c.state ≡ true) × (says_wait c.close_reason ≡ true))

pub firm_stop-IsUnstopped :
    (now : ℕ) (c : RecoveryCase) (l : Option RetryLedger)
    → firm_stop c (stop_reason now c l) ≡ none
    → IsUnstopped c l
unfolding stop_reason
firm_stop-IsUnstopped now c l h = ground arith
