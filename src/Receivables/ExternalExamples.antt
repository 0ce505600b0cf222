-- ===== src/Receivables/ExternalExamples.antt =====
-- A bank transfer that the merchant records twice.
use payment_recovery_engine.Prelude.{ℕ, ◌+◌, ◌≡◌, refl, none, some}
use payment_recovery_engine.Prelude.Int.{pos}
use payment_recovery_engine.Clock.{hours}
use payment_recovery_engine.Cases.Model.{Store, put_case, log_event}
use payment_recovery_engine.Cases.Lifecycle.{close_case}
use payment_recovery_engine.Cases.Capture.{integer, positive_amount}
use payment_recovery_engine.Cases.Examples.{noon, store}
use payment_recovery_engine.Receivables.External.{
  recorded, already_recorded, external_credit, record_on, record_external_payment,
}
use payment_recovery_engine.Receivables.ExternalOnce.{IsCounted, external_counts_once}

transferred :
    (s : Store) × (record_external_payment noon
        (some 1)
        (integer (pos 500))
        "utr_9"
        "neft"
        none
        store
      ≡ (s, recorded))
unfolding record_external_payment record_on external_credit close_case put_case log_event
    positive_amount
transferred = (_, refl)

external_counts_once_example :
    ((n : ℕ) × (positive_amount (integer (pos 500)) ≡ some n)
      × IsCounted 1 n "utr_9" store transferred.0)
    × (record_external_payment
          (noon + hours 1)
          (some 1)
          (integer (pos 700))
          "utr_9"
          "imps"
          none
          transferred.0
        ≡ (transferred.0, already_recorded))
unfolding positive_amount
external_counts_once_example =
    external_counts_once noon (noon + hours 1) 1 "utr_9" "neft" "imps" none none (integer (pos 500))
      (integer (pos 700)) 700 store transferred.0 transferred.1 refl
