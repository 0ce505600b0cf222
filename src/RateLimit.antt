-- ===== src/RateLimit.antt =====
-- The limiter of src/rate_limit.py, where it counts in the process: a list of times for each key.
use payment_recovery_engine.Prelude.{
  ℕ, ◌+◌, String, Bool, true, false, ◌||◌, not, List, [], ◌∷◌, ◌++◌, keep, length, str_eq, ltb, leb,
  if◌then◌else◌,
}
mod Window
mod Buckets
mod Bound
mod Examples

-- `_BUCKETS`, in the order of insertion; the times of a key from the oldest on.
pub record TimeBucket : Type 0 where
  pub key : String
  pub times : List ℕ

abbrev pub gc_at : ℕ
gc_at = 10000

abbrev pub times_of : String → List TimeBucket → List ℕ
times_of key [] = []
times_of key (b ∷ bs) = if str_eq b.key key then b.times else times_of key bs

unfoldable pub put_times : String → List ℕ → List TimeBucket → List TimeBucket
put_times key ts [] = record { key = key; times = ts } ∷ []
put_times key ts (b ∷ bs) =
    if str_eq b.key key then record b { times = ts } ∷ bs else b ∷ put_times key ts bs

-- `now - t > window`
abbrev pub is_past : ℕ → ℕ → ℕ → Bool
is_past window now t = ltb (t + window) now

unfoldable pub drop_past : ℕ → ℕ → List ℕ → List ℕ
drop_past window now [] = []
drop_past window now (t ∷ ts) =
    let rest = drop_past window now ts in if is_past window now t then rest else t ∷ ts

abbrev pub last_time : ℕ → List ℕ → ℕ
last_time t [] = t
last_time t (u ∷ us) = last_time u us

-- `not v or now_mono - v[-1] > window`
abbrev pub is_spent : ℕ → ℕ → List ℕ → Bool
is_spent window now [] = true
is_spent window now (t ∷ ts) = is_past window now (last_time t ts)

unfoldable pub collect_spent : ℕ → ℕ → List TimeBucket → List TimeBucket
collect_spent window now bs =
    if ltb gc_at (length bs) then keep (λ b. not (is_spent window now b.times)) bs else bs

-- Whether the call is let through, which is no HTTP 429, and the buckets after it.
unfoldable pub check : ℕ → String → ℕ → ℕ → List TimeBucket → Bool × List TimeBucket
unfolding collect_spent put_times drop_past
check window key limit now bs =
    let ts = drop_past window now (times_of key bs) in
    if leb limit (length ts)
    then (false, put_times key ts bs)
    else (true, collect_spent window now (put_times key (ts ++ now ∷ []) bs))
