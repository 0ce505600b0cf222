-- ===== src/Guardrail/Meaning.antt =====
-- What it means, in the words of the policy, that a rule of src/guardrail/rules.py passes.
use payment_recovery_engine.Prelude.{
  ℕ, ◌+◌, ◌≤◌, ◌<◌, ◌≡◌, ◌≢◌, ◌↔◌, ◌⊎◌, inl, inr, refl, String, Bool, true, false, Option, none,
  some, arith, Option-cases,
}
use payment_recovery_engine.Clock.{Timestamp, to_utc, hours}
use payment_recovery_engine.Settings.{Settings}
use payment_recovery_engine.Classifier.Taxonomy
use payment_recovery_engine.Classifier.Taxonomy.{FailureClass, is_hard_decline, risk_check_failed}
use payment_recovery_engine.Actions.{
  Host, ActionType, retry_now, retry_at, switch_rail, RiskType, mandate_failure,
}
use payment_recovery_engine.Guardrail.Rules.{
  window_or_default, is_in_blackout, check_hard_decline_blocklist, check_switch_only_class,
  check_max_retries_per_payment, check_max_retries_per_customer, check_amount_ceiling,
  check_consent_window, check_retry_at_within_window, check_customer_nudge_rate_limit,
  check_time_of_day_blackout, check_mandate_predebit_notification, check_idempotency_key,
  check_expected_value,
}

abbrev pub IsRecoverable : String → Type 0
IsRecoverable c = (fc : FailureClass) → Taxonomy.parse c ≡ some fc → is_hard_decline fc ≡ false

pub check_hard_decline_blocklist_lem :
    (c : String) → (check_hard_decline_blocklist c ≡ none) ↔ IsRecoverable c
unfolding check_hard_decline_blocklist
check_hard_decline_blocklist_lem c = (
  λ h fc e. ground arith,
  λ h. elim (Option-cases (Taxonomy.parse c)) [
    | inl e ↦ ground arith
    | inr (fc, e) ↦ ground (arith, h fc e)
  ],
)

-- The action re-presents the instrument that failed.
abbrev pub IsSameRail : ActionType → Type 0
IsSameRail t = (t ≡ retry_now) ⊎ (t ≡ retry_at)

abbrev pub IsSwitchRespected : String → ActionType → Type 0
IsSwitchRespected c t = IsSameRail t → Taxonomy.parse c ≢ some risk_check_failed

respected→none :
    (c : String) (t : ActionType)
    → Taxonomy.parse c ≢ some risk_check_failed
    → check_switch_only_class c t ≡ none
unfolding check_switch_only_class
respected→none c t h = ground arith

allowed→none :
    (c : String) (t : ActionType) → IsSwitchRespected c t → check_switch_only_class c t ≡ none
unfolding check_switch_only_class
allowed→none c retry_now h = respected→none c retry_now (h (inl refl))
allowed→none c retry_at h = respected→none c retry_at (h (inr refl))
allowed→none c _ h = refl

pub check_switch_only_class_lem :
    (c : String) (t : ActionType) → (check_switch_only_class c t ≡ none) ↔ IsSwitchRespected c t
unfolding check_switch_only_class
check_switch_only_class_lem c t = (λ h same e. ground arith, allowed→none c t)

module _ (s : Settings) where
  pub check_max_retries_per_payment_lem :
      (p : String) (n : ℕ)
      → (check_max_retries_per_payment s p n ≡ none) ↔ (n < s.max_retries_per_payment)
  unfolding check_max_retries_per_payment
  check_max_retries_per_payment_lem p n = ground arith

  pub check_max_retries_per_customer_lem :
      (n : ℕ) → (check_max_retries_per_customer s n ≡ none) ↔ (n < s.max_retries_per_customer_24h)
  unfolding check_max_retries_per_customer
  check_max_retries_per_customer_lem n = ground arith

  pub check_amount_ceiling_lem :
      (n : ℕ) → (check_amount_ceiling s n ≡ none) ↔ (n ≤ s.amount_ceiling_paise)
  unfolding check_amount_ceiling
  check_amount_ceiling_lem n = ground arith

  -- The instant falls inside the window that opened with the failure.
  abbrev pub IsInWindow : ℕ → Timestamp → Option ℕ → Type 0
  IsInWindow t failed_at w = t ≤ to_utc failed_at + hours (window_or_default s w)

  pub check_consent_window_lem :
      (f t : Timestamp) (w : Option ℕ)
      → (check_consent_window s f t w ≡ none) ↔ IsInWindow (to_utc t) f w
  unfolding check_consent_window
  check_consent_window_lem f t w = ground arith

  pub check_retry_at_within_window_lem :
      (r : Option Timestamp) (f : Timestamp) (w : Option ℕ)
      → (check_retry_at_within_window s r f w ≡ none)
        ↔ ((t : Timestamp) → r ≡ some t → IsInWindow (to_utc t) f w)
  unfolding check_retry_at_within_window
  check_retry_at_within_window_lem none f w = (λ _ t e. cc, λ _. refl)
  check_retry_at_within_window_lem (some r) f w =
      (λ h t e. ground arith, λ h. let hr : IsInWindow (to_utc r) f w = h r refl in ground arith)

  pub check_customer_nudge_rate_limit_lem :
      (n : ℕ) → (check_customer_nudge_rate_limit s n ≡ none) ↔ (n < s.max_nudges_per_customer_24h)
  unfolding check_customer_nudge_rate_limit
  check_customer_nudge_rate_limit_lem n = ground arith

  pub check_time_of_day_blackout_lem :
      (h : ℕ) → (check_time_of_day_blackout s h ≡ none) ↔ (is_in_blackout s h ≡ false)
  unfolding check_time_of_day_blackout
  check_time_of_day_blackout_lem h = ground arith

  -- The action would debit a standing mandate.
  abbrev pub IsMandateDebit : RiskType → ActionType → Bool → Type 0
  IsMandateDebit r t flag = (flag ≡ true) ⊎ ((r ≡ mandate_failure) × (t ≡ retry_now))

  -- A notice went out at least 24 hours before, and is still valid.
  abbrev pub IsNotified : Option Timestamp → Timestamp → Type 0
  IsNotified last now =
      (sent : Timestamp) × (last ≡ some sent)
      × (to_utc sent + hours 24 ≤ to_utc now)
      × (to_utc now ≤ to_utc sent + hours s.mandate_predebit_notification_valid_hours)

  notified :
      (r : RiskType) (t : ActionType) (last : Option Timestamp) (now : Timestamp) (flag : Bool)
      → check_mandate_predebit_notification s r t last now flag ≡ none
      → IsMandateDebit r t flag
      → IsNotified last now
  unfolding check_mandate_predebit_notification
  notified r t none now flag h d = ground arith
  notified r t (some sent) now flag h d = (sent, refl, ground arith, ground arith)

  -- Without a mandate at stake the rule passes; with one, on a notice in force.
  may_debit :
      (r : RiskType) (t : ActionType) (last : Option Timestamp) (now : Timestamp) (flag : Bool)
      → (IsMandateDebit r t flag → IsNotified last now)
      → check_mandate_predebit_notification s r t last now flag ≡ none
  unfolding check_mandate_predebit_notification
  may_debit mandate_failure retry_now last now flag h = ground (arith, h (inr (refl, refl)))
  may_debit r t last now true h = ground (arith, h (inl refl))
  may_debit _ _ last now false h = refl

  pub check_mandate_predebit_notification_lem :
      (r : RiskType) (t : ActionType) (last : Option Timestamp) (now : Timestamp) (flag : Bool)
      → (check_mandate_predebit_notification s r t last now flag ≡ none)
        ↔ (IsMandateDebit r t flag → IsNotified last now)
  unfolding check_mandate_predebit_notification
  check_mandate_predebit_notification_lem r t last now flag =
      (notified r t last now flag, may_debit r t last now flag)

module _ (host : Host) where
  abbrev pub IsKeyed : Option String → Type 0
  IsKeyed key = (k : String) × (key ≡ some k) × (host.is_blank k ≡ false)

  pub check_idempotency_key_lem :
      (key : Option String) → (check_idempotency_key host key ≡ none) ↔ IsKeyed key
  unfolding check_idempotency_key
  check_idempotency_key_lem none = (λ h. cc, λ h. absurd (cc (h.1)))
  check_idempotency_key_lem (some k) = (λ h. (k, refl, ground arith), λ h. ground arith)

  -- Where the action charges and the agent named a confidence, it clears the cost.
  abbrev pub IsWorthwhile : Settings → ActionType → Option host.Float → ℕ → Type 0
  IsWorthwhile s t confidence amount =
      (t ≡ retry_now) ⊎ (t ≡ switch_rail)
      → (c : host.Float) → confidence ≡ some c
      → host.product_le c amount (s.retry_attempt_cost_paise + s.retry_annoyance_cost_paise) ≡ false

  charged→worth :
      (s : Settings) (t : ActionType) (c : host.Float) (amount : ℕ)
      → check_expected_value host s t (some c) amount ≡ none
      → (t ≡ retry_now) ⊎ (t ≡ switch_rail)
      → host.product_le c amount (s.retry_attempt_cost_paise + s.retry_annoyance_cost_paise) ≡ false
  unfolding check_expected_value
  charged→worth s t c amount h charges = ground arith

  worth→none :
      (s : Settings) (t : ActionType) (c : host.Float) (amount : ℕ)
      → IsWorthwhile s t (some c) amount
      → check_expected_value host s t (some c) amount ≡ none
  unfolding check_expected_value
  worth→none s retry_now c amount h = ground (arith, h (inl refl) c refl)
  worth→none s switch_rail c amount h = ground (arith, h (inr refl) c refl)
  worth→none s _ c amount h = refl

  pub check_expected_value_lem :
      (s : Settings) (t : ActionType) (confidence : Option host.Float) (amount : ℕ)
      → (check_expected_value host s t confidence amount ≡ none)
        ↔ IsWorthwhile s t confidence amount
  unfolding check_expected_value
  check_expected_value_lem s t none amount = (λ _ _ c e. cc, λ _. ground arith)
  check_expected_value_lem s t (some c) amount =
      (λ h charges c' e. cc (charged→worth s t c amount h charges), worth→none s t c amount)
