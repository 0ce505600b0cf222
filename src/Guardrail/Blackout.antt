-- ===== src/Guardrail/Blackout.antt =====
-- `clamp_retry_at_out_of_blackout` of src/guardrail/rules.py, and what it does to a time.
use payment_recovery_engine.Prelude.{
  ℕ, ◌+◌, ◌-◌, ◌*◌, ◌/◌, ◌%◌, ◌≤◌, ◌<◌, ◌≡◌, ◌↔◌, inl, inr, true, false, leb, if◌then◌else◌,
  Bool-cases, refl, sym, ap, ◌∙◌, arith, dec_lt,
}
use payment_recovery_engine.Clock.{
  hour_us, day_us, minute_us, ist_offset_us, to_ist, hour_of, hours,
}
use payment_recovery_engine.Settings.{Settings}
use payment_recovery_engine.Guardrail.Rules.{is_in_blackout}

module _ (s : Settings) where
  -- `local.replace(hour=end % 24, minute=5, second=0, microsecond=0)`, the next day if that is
  -- not later than `local`.
  unfoldable pub next_wake : ℕ → ℕ
  next_wake local =
      let wake =
        (local / day_us) * day_us + (s.retry_blackout_end_hour % 24) * hour_us + 5 * minute_us in
      if leb wake local then wake + day_us else wake

  unfoldable pub clamp_retry_at_out_of_blackout : ℕ → ℕ
  unfolding next_wake
  clamp_retry_at_out_of_blackout retry_at =
      let local = to_ist retry_at in
      if is_in_blackout s (hour_of local) then next_wake local - ist_offset_us else retry_at

  -- For hours of the day the window is the cyclic interval from its start up to its end, also
  -- where it runs over midnight.
  pub is_in_blackout_cyclic :
      (h : ℕ)
      → h < 24
      → s.retry_blackout_start_hour < 24
      → s.retry_blackout_end_hour < 24
      → (is_in_blackout s h ≡ true) ↔ (
          (h + 24 - s.retry_blackout_start_hour) % 24
          < (s.retry_blackout_end_hour + 24 - s.retry_blackout_start_hour) % 24)
  unfolding is_in_blackout
  is_in_blackout_cyclic h hh hs he = ground arith

  end_outside : is_in_blackout s s.retry_blackout_end_hour ≡ false
  unfolding is_in_blackout
  end_outside = ground arith

  next_wake_after : (local : ℕ) → local < next_wake local
  unfolding next_wake
  next_wake_after local = ground arith

  next_wake_soon : (local : ℕ) → next_wake local ≤ local + day_us
  unfolding next_wake
  next_wake_soon local = ground arith

  hour_of-next_wake :
      (local : ℕ)
      → s.retry_blackout_end_hour < 24
      → hour_of (next_wake local) ≡ s.retry_blackout_end_hour
  unfolding next_wake
  hour_of-next_wake local h = ground arith

  later : (t : ℕ) → t ≤ clamp_retry_at_out_of_blackout t
  unfolding clamp_retry_at_out_of_blackout
  later t = elim (Bool-cases (is_in_blackout s (hour_of (to_ist t)))) [
    | inl e ↦ rw (e, clamp_retry_at_out_of_blackout) (omega (arith, next_wake_after (to_ist t)))
    | inr e ↦ rw (e, clamp_retry_at_out_of_blackout) (omega arith)
  ]

  soon : (t : ℕ) → clamp_retry_at_out_of_blackout t ≤ t + hours 24
  unfolding clamp_retry_at_out_of_blackout
  soon t = elim (Bool-cases (is_in_blackout s (hour_of (to_ist t)))) [
    | inl e ↦ rw (e, clamp_retry_at_out_of_blackout) (omega (arith, next_wake_soon (to_ist t)))
    | inr e ↦ rw (e, clamp_retry_at_out_of_blackout) (omega arith)
  ]

  awake→same :
      (t : ℕ) → is_in_blackout s (hour_of (to_ist t)) ≡ false → clamp_retry_at_out_of_blackout t ≡ t
  unfolding clamp_retry_at_out_of_blackout
  awake→same t e = rw e refl

  wake_instant : (t : ℕ) → to_ist (next_wake (to_ist t) - ist_offset_us) ≡ next_wake (to_ist t)
  wake_instant t = omega (arith, next_wake_after (to_ist t))

  clamp_awake :
      (t : ℕ)
      → s.retry_blackout_end_hour < 24
      → is_in_blackout s (hour_of (to_ist (clamp_retry_at_out_of_blackout t))) ≡ false
  unfolding clamp_retry_at_out_of_blackout
  clamp_awake t h = elim (Bool-cases (is_in_blackout s (hour_of (to_ist t)))) [
    | inl e ↦
        rw (e, clamp_retry_at_out_of_blackout)
          (rw (wake_instant t, hour_of-next_wake (to_ist t) h) end_outside)
    | inr e ↦ rw (e, clamp_retry_at_out_of_blackout) e
  ]

  -- Clamping only ever moves a deferred retry forward, by no more than a day, to a time outside
  -- the quiet hours; and clamping again changes nothing. The end of the window is an hour of the
  -- day.
  pub clamp_bounds :
      (t : ℕ)
      → s.retry_blackout_end_hour < 24
      → let c = clamp_retry_at_out_of_blackout t in
        (t ≤ c)
        × (c ≤ t + hours 24)
        × (is_in_blackout s (hour_of (to_ist c)) ≡ false)
        × (clamp_retry_at_out_of_blackout c ≡ c)
  clamp_bounds t h = (
    later t,
    soon t,
    clamp_awake t h,
    awake→same (clamp_retry_at_out_of_blackout t) (clamp_awake t h),
  )

  -- A time in the quiet hours is moved to a later one.
  pub clamp-later :
      (t : ℕ)
      → s.retry_blackout_end_hour < 24
      → is_in_blackout s (hour_of (to_ist t)) ≡ true
      → t < clamp_retry_at_out_of_blackout t
  clamp-later t h asleep = strict (later t) (λ e.
      let k : false ≡ true =
        sym (clamp_awake t h) ∙ ap (λ u. is_in_blackout s (hour_of (to_ist u))) (sym e) ∙ asleep in
      let z : ⊥ = cc in z)
    where
      strict : {a b : ℕ} → a ≤ b → (a ≡ b → ⊥) → a < b
      strict {a} {b} h ne = elim (dec_lt a b) [
        | yes lt ↦ lt
        | no ge ↦ absurd (ne (omega (arith, h, ge)))
      ]
