-- ===== src/RateLimit/Window.antt =====
-- The times that a window covers, and those that the limiter of src/rate_limit.py drops.
use payment_recovery_engine.Prelude.{
  ℕ, ◌+◌, ◌≤◌, ◌<◌, true, List, [], ◌∷◌, ◌++◌, length, leb, All, All-imp, ◌≡◌, refl, sym, subst,
  inl, inr, arith, Bool-cases, if◌then◌else◌,
}
use payment_recovery_engine.RateLimit.{is_past, drop_past, last_time, is_spent}

-- The times that a window which ends at a moment still covers.
abbrev pub fresh : ℕ → ℕ → List ℕ → ℕ
fresh window m [] = 0
fresh window m (t ∷ ts) = (if leb m (t + window) then 1 else 0) + fresh window m ts

pub fresh-length : (window m : ℕ) (ts : List ℕ) → fresh window m ts ≤ length ts
fresh-length window m [] = omega arith
fresh-length window m (t ∷ ts) = ground (arith, fresh-length window m ts)

pub fresh-append :
    (window m : ℕ) (xs ys : List ℕ)
    → fresh window m (xs ++ ys) ≡ fresh window m xs + fresh window m ys
fresh-append window m [] ys = omega arith
fresh-append window m (x ∷ xs) ys = omega (arith, fresh-append window m xs ys)

-- What is dropped now is covered by no later window.
pub fresh-drop_past :
    (window now m : ℕ) (ts : List ℕ)
    → now ≤ m
    → fresh window m (drop_past window now ts) ≡ fresh window m ts
unfolding drop_past
fresh-drop_past window now m [] le = refl
fresh-drop_past window now m (t ∷ ts) le = ground (arith, fresh-drop_past window now m ts le)

-- The times of a bucket are no later than its last, nor is that later than now.
abbrev pub IsTidy : ℕ → List ℕ → Type 0
IsTidy now [] = Unit
IsTidy now (t ∷ ts) = All (λ x. x ≤ last_time t ts) (t ∷ ts) × (last_time t ts ≤ now)

stale_none :
    (window m bound : ℕ) (ts : List ℕ)
    → All (λ x. x ≤ bound) ts
    → bound + window < m
    → fresh window m ts ≡ 0
stale_none window m bound [] h lt = refl
stale_none window m bound (t ∷ ts) h lt = ground (arith, h.0, stale_none window m bound ts h.1 lt)

pub spent-fresh :
    (window now m : ℕ) (ts : List ℕ)
    → IsTidy now ts
    → is_spent window now ts ≡ true
    → now ≤ m
    → fresh window m ts ≡ 0
spent-fresh window now m [] tidy s le = refl
spent-fresh window now m (t ∷ ts) tidy s le =
    stale_none window m (last_time t ts) (t ∷ ts) tidy.0 (ground (arith, s, le))

pub drop_past-IsTidy :
    (window now later : ℕ) (ts : List ℕ) → IsTidy later ts → IsTidy later (drop_past window now ts)
unfolding drop_past
drop_past-IsTidy window now later [] tidy = tt
drop_past-IsTidy window now later (t ∷ ts) tidy = elim (Bool-cases (is_past window now t)) [
  | inl p ↦ rw p (drop_past-IsTidy window now later ts (tail_tidy ts tidy))
  | inr p ↦ rw p tidy
]
  where
    tail_tidy : (us : List ℕ) → IsTidy later (t ∷ us) → IsTidy later us
    tail_tidy [] h = tt
    tail_tidy (u ∷ us) h = (h.0.1, h.1)

last_time-append : (t n : ℕ) (ts : List ℕ) → last_time t (ts ++ n ∷ []) ≡ n
last_time-append t n [] = refl
last_time-append t n (u ∷ us) = last_time-append u n us

All-append : (P : ℕ → Type 0) (xs : List ℕ) (n : ℕ) → All P xs → P n → All P (xs ++ n ∷ [])
All-append P [] n h p = (p, tt)
All-append P (x ∷ xs) n h p = (h.0, All-append P xs n h.1 p)

pub append-IsTidy : (now : ℕ) (ts : List ℕ) → IsTidy now ts → IsTidy now (ts ++ now ∷ [])
append-IsTidy now [] h = ((omega arith, tt), omega arith)
append-IsTidy now (t ∷ ts) h = (
  subst (λ b. All (λ x. x ≤ b) ((t ∷ ts) ++ now ∷ [])) (sym (last_time-append t now ts))
      (All-append (λ x. x ≤ now) (t ∷ ts) now (All-imp (λ x q. omega (arith, q, h.1)) (t ∷ ts) h.0)
        (omega arith)),
  omega (arith, last_time-append t now ts),
)
