-- ===== src/Cases/Found.antt =====
-- The case that a capture is matched to is one of the store's (src/cases.py).
use payment_recovery_engine.Prelude.{
  ℕ, Bool, Option, none, some, List, [], ◌∷◌, inl, inr, find, ltb, Bool-cases, All, keep-All,
}
use payment_recovery_engine.Cases.Model.{RecoveryCase, RetryAttempt, MatchedOn, Store, is_terminal}
use payment_recovery_engine.Cases.Lifecycle.{find_case}
use payment_recovery_engine.Cases.Capture.{
  Capture, Match, newest, newer, or_then, match_on, find_case_by_order, by_order, by_attempt,
  by_subject, open_only, resolve, matching_attempt, given, and_then, case_or_order,
}

-- The property, of an answer if there is one.
abbrev pub Every : {A : Type 0} → (A → Type 0) → Option A → Type 0
Every P none = Unit
Every P (some a) = P a

module _ {A : Type 0} (P : A → Type 0) where
  find-Every : (p : A → Bool) (xs : List A) → All P xs → Every P (find p xs)
  find-Every p [] h = tt
  find-Every p (x ∷ xs) h = elim (Bool-cases (p x)) [
    | inl e ↦ rw e h.0
    | inr e ↦ rw e (find-Every p xs h.1)
  ]

  newer-Every : (f : A → ℕ) (x : A) (o : Option A) → P x → Every P o → Every P (newer f x o)
  newer-Every f x none h h' = h
  newer-Every f x (some b) h h' = elim (Bool-cases (ltb (f x) (f b))) [
    | inl e ↦ rw e h'
    | inr e ↦ rw e h
  ]

  newest-Every : (f : A → ℕ) (xs : List A) → All P xs → Every P (newest f xs)
  unfolding newest
  newest-Every f [] h = tt
  newest-Every f (x ∷ xs) h = newer-Every f x (newest f xs) h.0 (newest-Every f xs h.1)

  or_then-Every : (o o' : Option A) → Every P o → Every P o' → Every P (or_then o o')
  or_then-Every none o' h h' = h'
  or_then-Every (some a) o' h h' = h

  and_then-Every :
      {B : Type 0} (o : Option B) (f : B → Option A)
      → ((b : B) → Every P (f b))
      → Every P (and_then o f)
  and_then-Every none f h = tt
  and_then-Every (some b) f h = h b

-- A property of every case of the store is one of the case that is found.
module _ (P : RecoveryCase → Type 0) where
  abbrev pub MatchHas : Match → Type 0
  MatchHas m = P m.case

  match_on-Every :
      (how : MatchedOn) (a : Option RetryAttempt) (o : Option RecoveryCase)
      → Every P o
      → Every MatchHas (match_on how a o)
  match_on-Every how a none h = tt
  match_on-Every how a (some c) h = h

  open_only-Every : (o : Option RecoveryCase) → Every P o → Every P (open_only o)
  unfolding open_only
  open_only-Every none h = tt
  open_only-Every (some c) h = elim (Bool-cases (is_terminal c.state)) [
    | inl e ↦ rw e tt
    | inr e ↦ rw e h
  ]

  module _ (k : Capture) (s : Store) (ps : All P s.cases) where
    by_order-Every : Every MatchHas (by_order k s)
    unfolding by_order find_case_by_order
    by_order-Every =
        and_then-Every MatchHas (given k.order) _
          (λ o. match_on-Every _ none _ (newest-Every P _ _ (keep-All P _ s.cases ps)))

    case_or_order-Every : (a : RetryAttempt) (o : Option ℕ) → Every MatchHas (case_or_order k s a o)
    unfolding case_or_order
    case_or_order-Every a none = by_order-Every
    case_or_order-Every a (some i) = match_on-Every _ (some a) _ (find-Every P _ s.cases ps)

    by_attempt-Every : (o : Option RetryAttempt) → Every MatchHas (by_attempt k s o)
    unfolding by_attempt
    by_attempt-Every none = by_order-Every
    by_attempt-Every (some a) = case_or_order-Every a a.recovery_case_id

    by_subject-Every : Every MatchHas (by_subject k s)
    unfolding by_subject find_case
    by_subject-Every = and_then-Every MatchHas (given k.subject) _ (λ t.
        and_then-Every MatchHas _ _
          (λ r. match_on-Every _ none _ (open_only-Every _ (find-Every P _ s.cases ps))))

    pub resolve-Every : Every MatchHas (resolve k s)
    unfolding resolve
    resolve-Every =
        or_then-Every MatchHas _ _ (by_attempt-Every (matching_attempt k s.attempts))
          by_subject-Every
