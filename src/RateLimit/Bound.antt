-- ===== src/RateLimit/Bound.antt =====
-- How many calls the limiter of src/rate_limit.py lets through.
use payment_recovery_engine.Prelude.{
  ℕ, ◌+◌, ◌≤◌, ◌<◌, String, Bool, true, false, ◌&&◌, List, [], ◌∷◌, ◌++◌, length, str_eq, eq_iff,
  eq_refl, leb, sym, inl, inr, arith, Bool-cases, if◌then◌else◌,
}
use payment_recovery_engine.RateLimit.{
  TimeBucket, times_of, put_times, drop_past, collect_spent, check,
}
use payment_recovery_engine.RateLimit.Window.{
  fresh, IsTidy, fresh-length, fresh-append, fresh-drop_past, drop_past-IsTidy, append-IsTidy,
}
use payment_recovery_engine.RateLimit.Buckets.{
  AllTidy, times_of-IsTidy, put_times-AllTidy, later-IsTidy, times_of-put_times, times_of-other,
  collect_spent-fresh, collect_spent-AllTidy, sooner-AllTidy,
}

pub record Call : Type 0 where
  pub key : String
  pub limit : ℕ
  pub now : ℕ

-- Of the calls that were let through, those of the key that the window before a moment covers.
abbrev pub recent : ℕ → String → ℕ → List Call → ℕ
recent window key m [] = 0
recent window key m (c ∷ log) =
    (if str_eq c.key key && leb m (c.now + window) then 1 else 0) + recent window key m log

abbrev pub logged : Bool → Call → List Call → List Call
logged true c log = c ∷ log
logged false c log = log

-- The buckets after the calls, and those of the calls that were let through, the last one first.
abbrev pub serve : ℕ → List Call → List TimeBucket → List Call → List TimeBucket × List Call
serve window [] bs log = (bs, log)
serve window (c ∷ calls) bs log =
    let (through, bs') = check window c.key c.limit c.now bs in
    serve window calls bs' (logged through c log)

-- Each call is no earlier than the one before.
abbrev pub IsOrdered : ℕ → List Call → Type 0
IsOrdered now [] = Unit
IsOrdered now (c ∷ calls) = (now ≤ c.now) × IsOrdered c.now calls

-- Whenever a call was let through, the calls of its key that were let through in the window that
-- ends with it, itself included, are within its limit.
abbrev pub IsLimited : ℕ → List Call → Type 0
IsLimited window [] = Unit
IsLimited window (c ∷ log) = (recent window c.key c.now (c ∷ log) ≤ c.limit) × IsLimited window log

record IsKept (window now : ℕ) (bs : List TimeBucket) (log : List Call) : Type 0 where
  tidy : AllTidy now bs
  remembered :
      (key : String) (m : ℕ) → now ≤ m → recent window key m log ≤ fresh window m (times_of key bs)
  limited : IsLimited window log

module _ (window : ℕ) (c : Call) (bs : List TimeBucket) (log : List Call) where
  -- The bucket of the call with other times, which cover so many more.
  put-remembered :
      (times : List ℕ) (more : ℕ) (key : String) (m : ℕ)
      → fresh window m (times_of c.key bs) + more ≤ fresh window m times
      → recent window key m log ≤ fresh window m (times_of key bs)
      → (if str_eq c.key key then more else 0) + recent window key m log
        ≤ fresh window m (times_of key (put_times c.key times bs))
  put-remembered times more key m covers h = elim (Bool-cases (str_eq c.key key)) [
    | inl e ↦
        let same = (eq_iff c.key key).0 e in
        let h' = (rw (sym same) at h) in
        rw (sym same)
          (rw (times_of-put_times c.key times bs) (ground (arith, eq_refl c.key, h', covers)))
    | inr e ↦ rw (e, times_of-other c.key key times bs e) (omega (arith, h))
  ]

  module _ (earlier : ℕ) (le : earlier ≤ c.now) (kept : IsKept window earlier bs log) where
    left_times : List ℕ
    left_times = drop_past window c.now (times_of c.key bs)

    left-IsTidy : IsTidy c.now left_times
    unfolding left_times
    left-IsTidy =
        drop_past-IsTidy window c.now c.now (times_of c.key bs)
          (later-IsTidy earlier c.now _ le (times_of-IsTidy earlier c.key bs kept.tidy))

    turned_away : IsKept window c.now (put_times c.key left_times bs) log
    unfolding left_times
    turned_away = record {
      tidy =
          put_times-AllTidy c.now c.key left_times bs left-IsTidy
            (sooner-AllTidy earlier c.now bs le kept.tidy);
      remembered = λ key m later.
          let covers = fresh-drop_past window c.now m (times_of c.key bs) later in
          let h =
            put-remembered left_times 0 key m (omega (arith, covers))
              (kept.remembered key m (omega (arith, later, le))) in
          ground (arith, h);
      limited = kept.limited;
    }

    let_through :
        length left_times < c.limit
        → IsKept window c.now
            (collect_spent window c.now (put_times c.key (left_times ++ c.now ∷ []) bs))
            (c ∷ log)
    unfolding left_times
    let_through room = record {
      tidy = collect_spent-AllTidy window c.now _ tidy_put;
      remembered = λ key m later.
          let covers = fresh-drop_past window c.now m (times_of c.key bs) later in
          let h =
            put-remembered (left_times ++ c.now ∷ []) (if leb m (c.now + window) then 1 else 0) key
              m (omega (arith, covers, fresh-append window m left_times (c.now ∷ [])))
              (kept.remembered key m (omega (arith, later, le))) in
          let g = collect_spent-fresh window c.now m key _ tidy_put later in ground (arith, h, g);
      limited = (within, kept.limited);
    }
      where
        tidy_put : AllTidy c.now (put_times c.key (left_times ++ c.now ∷ []) bs)
        tidy_put =
            put_times-AllTidy c.now c.key (left_times ++ c.now ∷ []) bs
              (append-IsTidy c.now left_times left-IsTidy)
              (sooner-AllTidy earlier c.now bs le kept.tidy)

        within : recent window c.key c.now (c ∷ log) ≤ c.limit
        within = ground (
          arith,
          room,
          kept.remembered c.key c.now le,
          fresh-drop_past window c.now c.now (times_of c.key bs) (omega arith),
          fresh-length window c.now left_times,
        )

    check-IsKept :
        let (through, bs') = check window c.key c.limit c.now bs in
        IsKept window c.now bs' (logged through c log)
    unfolding check left_times
    check-IsKept = elim (Bool-cases (leb c.limit (length left_times))) [
      | inl e ↦ rw e turned_away
      | inr e ↦ rw e (let_through (ground arith))
    ]

serve_from :
    (window now : ℕ) (calls : List Call) (bs : List TimeBucket) (log : List Call)
    → IsOrdered now calls
    → IsKept window now bs log
    → IsLimited window (serve window calls bs log).1
serve_from window now [] bs log ordered kept = kept.limited
serve_from window now (c ∷ calls) bs log (le, ordered) kept =
    serve_from window c.now calls _ _ ordered (check-IsKept window c bs log now le kept)

-- The limiter keeps its limits: over any calls of any keys in the order of their times, from empty
-- buckets on, whenever a call is let through, the calls of its key that were let through in the
-- window that ends with it, itself included, are no more than its limit, whatever was turned away
-- or collected in between.
pub serve-IsLimited :
    (window : ℕ) (calls : List Call)
    → IsOrdered 0 calls
    → IsLimited window (serve window calls [] []).1
serve-IsLimited window calls ordered =
    serve_from window 0 calls [] [] ordered
      (record { tidy = tt; remembered = λ key m le. omega arith; limited = tt })
