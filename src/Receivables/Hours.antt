-- ===== src/Receivables/Hours.antt =====
-- Business hours, Monday to Friday from 09:30 to 18:30 IST (src/receivables/ladder.py). The wall
-- clock is counted in minutes from a Monday at midnight, as Python's `datetime.min` is.
use payment_recovery_engine.Prelude.{
  ℕ, zero, suc, ◌+◌, ◌-◌, ◌*◌, ◌/◌, ◌%◌, ◌≤◌, ◌<◌, ◌≡◌, refl, sym, ap, ◌∙◌, Bool, true, false, ◌&&◌,
  leb, ltb, ◌==◌, if◌then◌else◌, arith, dec_lt, Bool-cases, inl, inr,
}
use payment_recovery_engine.Clock.{minute_us, ist_offset_us, to_ist}

-- `weekday() < 5` and `09:30 <= hour * 60 + minute < 18:30`, of a minute of the wall clock.
unfoldable pub is_open_minute : ℕ → Bool
is_open_minute m =
    ltb ((m / 1440) % 7) 5 && leb (9 * 60 + 30) (m % 1440) && ltb (m % 1440) (18 * 60 + 30)

unfoldable pub is_b2b_contact_time : ℕ → Bool
unfolding is_open_minute
is_b2b_contact_time dt = is_open_minute (to_ist dt / minute_us)

-- The scan, minute by minute.
unfoldable pub scan : ℕ → ℕ → ℕ
scan zero m = m
scan (suc fuel) m = let rest = scan fuel (m + 1) in if is_open_minute m then m else rest

-- The result is the wall clock of a whole minute, as an instant.
unfoldable pub next_b2b_window : ℕ → ℕ
next_b2b_window dt = scan (60 * 24 * 3) (to_ist dt / minute_us) * minute_us - ist_offset_us

-- The minutes until the next open one: nothing inside the hours, else to 09:30 of the next
-- weekday.
wait : ℕ → ℕ → ℕ
wait w d =
    if ltb w 5
    then (if ltb d 570
        then 570 - d
        else if ltb d 1110
        then 0
        else if ltb w 4
        then 1440 - d + 570
        else 3 * 1440 - d + 570)
    else if w == 5
    then 2 * 1440 - d + 570
    else 1440 - d + 570

wait-open : (m : ℕ) → is_open_minute (m + wait ((m / 1440) % 7) (m % 1440)) ≡ true
unfolding is_open_minute wait
wait-open m = ground arith

wait-lt : (w d : ℕ) → d < 1440 → wait w d < 4320
unfolding wait
wait-lt w d h = ground arith

-- What the scan returns, once an open minute lies within the fuel.
record IsNext (m r : ℕ) : Type 0 where
  open_ : is_open_minute r ≡ true
  after : m ≤ r
  first : (j : ℕ) → m ≤ j → j < r → is_open_minute j ≡ false

IsNext-later : (m r : ℕ) → is_open_minute m ≡ false → IsNext (m + 1) r → IsNext m r
IsNext-later m r shut n = record {
  open_ = n.open_;
  after = omega arith;
  first = λ j ge lt. elim (dec_lt m j) [
    | yes h ↦ n.first j (omega arith) lt
    | no h ↦ let e : j ≡ m = omega arith in rw e shut
  ];
}

scan-here : (fuel m : ℕ) → is_open_minute m ≡ true → scan (suc fuel) m ≡ m
unfolding scan
scan-here fuel m e = rw e refl

scan-step : (fuel m : ℕ) → is_open_minute m ≡ false → scan (suc fuel) m ≡ scan fuel (m + 1)
unfolding scan
scan-step fuel m e = rw e refl

shift-open :
    (m k : ℕ)
    → is_open_minute m ≡ false
    → is_open_minute (m + k) ≡ true
    → (0 < k) × (is_open_minute (m + 1 + (k - 1)) ≡ true)
shift-open m zero shut o = absurd (let e : m + 0 ≡ m = omega arith in cc (rw e at o))
shift-open m (suc k) shut o =
    let e : m + suc k ≡ m + 1 + (suc k - 1) = omega arith in (omega arith, rw (← e) o)

scan-IsNext : (fuel m k : ℕ) → k < fuel → is_open_minute (m + k) ≡ true → IsNext m (scan fuel m)
scan-IsNext zero m k lt o = absurd (omega arith)
scan-IsNext (suc fuel) m k lt o = elim (Bool-cases (is_open_minute m)) [
  | inl e ↦
      rw (scan-here fuel m e)
        (record { open_ = e; after = omega arith; first = λ j ge lt'. absurd (omega arith) })
  | inr e ↦
      let (pos_k, o') = shift-open m k e o in
      rw (scan-step fuel m e)
        (IsNext-later m (scan fuel (m + 1)) e (scan-IsNext fuel (m + 1) (k - 1) (omega arith) o'))
]

-- The three days of fuel are enough from every minute of the week.
scan-enough : (m : ℕ) → IsNext m (scan (60 * 24 * 3) m)
scan-enough m =
    scan-IsNext (60 * 24 * 3) m (wait ((m / 1440) % 7) (m % 1440))
      (wait-lt ((m / 1440) % 7) (m % 1440) (omega arith)) (wait-open m)

instant_minute :
    (dt r : ℕ) → to_ist dt / minute_us ≤ r → to_ist (r * minute_us - ist_offset_us) / minute_us ≡ r
instant_minute dt r h = omega arith

later-minute :
    (dt r : ℕ)
    → to_ist dt / minute_us ≤ r
    → (r ≡ to_ist dt / minute_us → ⊥)
    → dt < r * minute_us - ist_offset_us
later-minute dt r h ne = elim (dec_lt (to_ist dt / minute_us) r) [
  | yes lt ↦ omega (arith, lt)
  | no ge ↦ absurd (ne (omega (arith, ge, h)))
]

-- The answer lies in business hours, and no later time from `dt` on does before it. It is at or
-- after the minute in which `dt` lies.
pub next_b2b_window_lem :
    (dt : ℕ)
    → let r = next_b2b_window dt in
      (is_b2b_contact_time r ≡ true)
      × (dt < r + minute_us)
      × ((t : ℕ) → dt ≤ t → t < r → is_b2b_contact_time t ≡ false)
unfolding next_b2b_window is_b2b_contact_time
next_b2b_window_lem dt =
    let m = to_ist dt / minute_us in
    let n = scan-enough m in
    (
      rw (instant_minute dt (scan (60 * 24 * 3) m) n.after) n.open_,
      omega (arith, n.after),
      λ t ge lt. n.first (to_ist t / minute_us) (omega arith) (omega arith),
    )

-- Inside business hours the answer is the start of the minute, which is earlier than `dt` unless
-- `dt` is a whole minute.
pub next_b2b_window_inside :
    (dt : ℕ) → is_b2b_contact_time dt ≡ true → next_b2b_window dt ≡ dt - dt % minute_us
unfolding next_b2b_window is_b2b_contact_time
next_b2b_window_inside dt h = rw (scan-here 4319 (to_ist dt / minute_us) h) (omega arith)

-- Outside business hours the answer is later than `dt`.
pub next_b2b_window_later : (dt : ℕ) → is_b2b_contact_time dt ≡ false → dt < next_b2b_window dt
unfolding next_b2b_window is_b2b_contact_time
next_b2b_window_later dt shut =
    let m = to_ist dt / minute_us in
    let n = scan-enough m in
    later-minute dt (scan (60 * 24 * 3) m) n.after (λ e.
      let k : false ≡ true = sym shut ∙ ap is_open_minute (sym e) ∙ n.open_ in let z : ⊥ = cc in z)
