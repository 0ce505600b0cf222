-- ===== src/RateLimit/Buckets.antt =====
-- The buckets of the limiter of src/rate_limit.py, looked up, changed and collected.
use payment_recovery_engine.Prelude.{
  ℕ, ◌≤◌, String, Bool, true, false, not, List, [], ◌∷◌, keep, length, str_eq, eq_iff, eq_refl, ltb,
  All, All-imp, keep-All, ◌≡◌, refl, inl, inr, arith, Bool-cases,
}
use payment_recovery_engine.RateLimit.{
  TimeBucket, gc_at, times_of, put_times, is_spent, collect_spent,
}
use payment_recovery_engine.RateLimit.Window.{fresh, IsTidy, spent-fresh}

-- The buckets of a moment: each is tidy.
abbrev pub AllTidy : ℕ → List TimeBucket → Type 0
AllTidy now = All (λ b. IsTidy now b.times)

pub times_of-IsTidy :
    (now : ℕ) (key : String) (bs : List TimeBucket) → AllTidy now bs → IsTidy now (times_of key bs)
times_of-IsTidy now key [] h = tt
times_of-IsTidy now key (b ∷ bs) h = elim (Bool-cases (str_eq b.key key)) [
  | inl e ↦ rw e h.0
  | inr e ↦ rw e (times_of-IsTidy now key bs h.1)
]

pub put_times-AllTidy :
    (now : ℕ) (key : String) (ts : List ℕ) (bs : List TimeBucket)
    → IsTidy now ts
    → AllTidy now bs
    → AllTidy now (put_times key ts bs)
unfolding put_times
put_times-AllTidy now key ts [] t h = (t, tt)
put_times-AllTidy now key ts (b ∷ bs) t h = elim (Bool-cases (str_eq b.key key)) [
  | inl e ↦ rw e (t, h.1)
  | inr e ↦ rw e (h.0, put_times-AllTidy now key ts bs t h.1)
]

pub later-IsTidy : (now later : ℕ) (ts : List ℕ) → now ≤ later → IsTidy now ts → IsTidy later ts
later-IsTidy now later [] le h = tt
later-IsTidy now later (t ∷ ts) le h = (h.0, omega (arith, h.1, le))

pub times_of-put_times :
    (key : String) (ts : List ℕ) (bs : List TimeBucket) → times_of key (put_times key ts bs) ≡ ts
unfolding put_times
times_of-put_times key ts [] = rw (eq_refl key) refl
times_of-put_times key ts (b ∷ bs) = elim (Bool-cases (str_eq b.key key)) [
  | inl e ↦ ground (arith, e)
  | inr e ↦ ground (arith, e, times_of-put_times key ts bs)
]

other_key :
    (a key other : String) → str_eq key other ≡ false → str_eq a key ≡ true → str_eq a other ≡ false
other_key a key other ne e = rw ((eq_iff a key).0 e) ne

pub times_of-other :
    (key other : String) (ts : List ℕ) (bs : List TimeBucket)
    → str_eq key other ≡ false
    → times_of other (put_times key ts bs) ≡ times_of other bs
unfolding put_times
times_of-other key other ts [] ne = rw ne refl
times_of-other key other ts (b ∷ bs) ne = elim (Bool-cases (str_eq b.key key)) [
  | inl e ↦ ground (arith, e, other_key b.key key other ne e)
  | inr e ↦ ground (arith, e, times_of-other key other ts bs ne)
]

-- A bucket that is collected has nothing that a later window covers.
kept-fresh :
    (window now m : ℕ) (key : String) (bs : List TimeBucket)
    → AllTidy now bs
    → now ≤ m
    → fresh window m (times_of key bs)
      ≤ fresh window m (times_of key (keep (λ b. not (is_spent window now b.times)) bs))
kept-fresh window now m key [] h le = omega arith
kept-fresh window now m key (b ∷ bs) h le = elim (Bool-cases (is_spent window now b.times)) [
  | inl s ↦ rw s (
      ground
        (arith, spent-fresh window now m b.times h.0 s le, kept-fresh window now m key bs h.1 le))
  | inr s ↦ rw s (ground (arith, kept-fresh window now m key bs h.1 le))
]

kept-AllTidy :
    (now : ℕ) (p : TimeBucket → Bool) (bs : List TimeBucket)
    → AllTidy now bs
    → AllTidy now (keep p bs)
kept-AllTidy now p bs = keep-All (λ b. IsTidy now b.times) p bs

pub collect_spent-fresh :
    (window now m : ℕ) (key : String) (bs : List TimeBucket)
    → AllTidy now bs
    → now ≤ m
    → fresh window m (times_of key bs) ≤ fresh window m (times_of key (collect_spent window now bs))
unfolding collect_spent
collect_spent-fresh window now m key bs h le = ground (arith, kept-fresh window now m key bs h le)

pub collect_spent-AllTidy :
    (window now : ℕ) (bs : List TimeBucket)
    → AllTidy now bs
    → AllTidy now (collect_spent window now bs)
unfolding collect_spent
collect_spent-AllTidy window now bs h = elim (Bool-cases (ltb gc_at (length bs))) [
  | inl e ↦ rw e (kept-AllTidy now (λ b. not (is_spent window now b.times)) bs h)
  | inr e ↦ rw e h
]

pub sooner-AllTidy :
    (now later : ℕ) (bs : List TimeBucket) → now ≤ later → AllTidy now bs → AllTidy later bs
sooner-AllTidy now later bs le = All-imp (λ b h. later-IsTidy now later b.times le h) bs
