-- ===== src/Classifier/Priority.antt =====
-- The class that `classify` answers with, among the rules that match and name a known class
-- (src/classifier/mapper.py).
use payment_recovery_engine.Prelude.{
  ◌≤◌, ◌≡◌, ◌⊎◌, inl, inr, refl, Bool, true, false, ◌&&◌, some, is_some, List, [], ◌∷◌, All,
  All-imp, In, leb→le, arith, Bool-cases, Option-cases, leb,
}
use payment_recovery_engine.Classifier.Taxonomy
use payment_recovery_engine.Classifier.Taxonomy.{FailureClass, unknown}
use payment_recovery_engine.Classifier.Mapper.{
  Rule, Failure, matches, insert, sort_by_priority, retryable_or, first_match, classify,
}

-- The rule matches the failure, and its class is known.
abbrev pub is_usable : Rule → Failure → Bool
is_usable r f = matches r f && is_some (Taxonomy.parse r.failure_class)

-- The answer is the rule's.
pub record Answers (r : Rule) (f : Failure) (answer : FailureClass × Bool) : Type 0 where
  pub match : matches r f ≡ true
  pub class : Taxonomy.parse r.failure_class ≡ some answer.0
  pub retry : answer.1 ≡ retryable_or r.retryable answer.0

abbrev IsSorted : List Rule → Type 0
IsSorted [] = Unit
IsSorted (r ∷ rs) = All (λ q. q.priority ≤ r.priority) rs × IsSorted rs

module _ (P : Rule → Type 0) where
  All-insert : (r : Rule) (rs : List Rule) → P r → All P rs → All P (insert r rs)
  unfolding insert
  All-insert r [] p ps = (p, tt)
  All-insert r (x ∷ xs) p ps = elim (Bool-cases (leb x.priority r.priority)) [
    | inl e ↦ rw e (p, ps)
    | inr e ↦ rw e (ps.0, All-insert r xs p ps.1)
  ]

  insert-All : (r : Rule) (rs : List Rule) → All P (insert r rs) → P r × All P rs
  unfolding insert
  insert-All r [] h = h
  insert-All r (x ∷ xs) h = elim (Bool-cases (leb x.priority r.priority)) [
    | inl e ↦ let k : P r × All P (x ∷ xs) = rw (e, insert) at h in k
    | inr e ↦
        let k : P x × All P (insert r xs) = rw (e, insert) at h in
        let (pr, pxs) = insert-All r xs k.1 in (pr, (k.0, pxs))
  ]

  -- What holds of the sorted rules holds of the rules.
  sort-All : (rs : List Rule) → All P (sort_by_priority rs) → All P rs
  unfolding sort_by_priority
  sort-All [] h = tt
  sort-All (r ∷ rs) h = let (p, ps) = insert-All r (sort_by_priority rs) h in (p, sort-All rs ps)

All-le_trans :
    (x r : Rule) (xs : List Rule)
    → x.priority ≤ r.priority
    → All (λ q. q.priority ≤ x.priority) xs
    → All (λ q. q.priority ≤ r.priority) xs
All-le_trans x r xs h =
    All-imp {P = λ q. q.priority ≤ x.priority} {Q = λ q. q.priority ≤ r.priority}
      (λ q e. omega arith) xs

insert-IsSorted : (r : Rule) (rs : List Rule) → IsSorted rs → IsSorted (insert r rs)
unfolding insert
insert-IsSorted r [] h = (tt, tt)
insert-IsSorted r (x ∷ xs) h = elim (Bool-cases (leb x.priority r.priority)) [
  | inl e ↦
      let le : x.priority ≤ r.priority = leb→le x.priority r.priority e in
      rw (e, insert) ((le, All-le_trans x r xs le h.0), h)
  | inr e ↦
      rw (e, insert)
        (
          All-insert (λ q. q.priority ≤ x.priority) r xs (ground arith) h.0,
          insert-IsSorted r xs h.1,
        )
]

sort-IsSorted : (rs : List Rule) → IsSorted (sort_by_priority rs)
unfolding sort_by_priority
sort-IsSorted [] = tt
sort-IsSorted (r ∷ rs) = insert-IsSorted r (sort_by_priority rs) (sort-IsSorted rs)

In-insert : {q : Rule} (r : Rule) (rs : List Rule) → In q (insert r rs) → (q ≡ r) ⊎ In q rs
unfolding insert
In-insert r [] m = m
In-insert r (x ∷ xs) m = elim (Bool-cases (leb x.priority r.priority)) [
  | inl e ↦ rw (e, insert) at m
  | inr e ↦ elim (rw (e, insert) at m) [
    | inl h ↦ inr (inl h)
    | inr h ↦ elim (In-insert r xs h) [ inl k ↦ inl k | inr k ↦ inr (inr k) ]
  ]
]

In-sort : (q : Rule) (rs : List Rule) → In q (sort_by_priority rs) → In q rs
unfolding sort_by_priority
In-sort q [] m = m
In-sort q (r ∷ rs) m = elim (In-insert r (sort_by_priority rs) m) [
  | inl e ↦ inl e
  | inr k ↦ inr (In-sort q rs k)
]

-- The answer is that of a usable rule with no usable rule above it; or no rule is usable and the
-- failure is unknown, and not to be retried.
abbrev pub IsClassified : List Rule → Failure → FailureClass × Bool → Type 0
IsClassified rs f answer =
    ((r : Rule) × In r rs
      × Answers r f answer
      × All (λ q. is_usable q f ≡ true → q.priority ≤ r.priority) rs)
    ⊎ (All (λ q. is_usable q f ≡ false) rs × (answer ≡ (unknown, false)))

skip :
    (r : Rule) (rs : List Rule) (f : Failure) (answer : FailureClass × Bool)
    → is_usable r f ≡ false
    → IsClassified rs f answer
    → IsClassified (r ∷ rs) f answer
skip r rs f answer h (inl (q, m, a, top)) = inl (q, inr m, a, (λ e. cc, top))
skip r rs f answer h (inr (nowhere, e)) = inr ((h, nowhere), e)

first_match-nil : (f : Failure) → first_match [] f ≡ (unknown, false)
unfolding first_match
first_match-nil f = refl

first_match-skip :
    (r : Rule) (rs : List Rule) (f : Failure)
    → is_usable r f ≡ false
    → first_match (r ∷ rs) f ≡ first_match rs f
unfolding first_match
first_match-skip r rs f h = ground arith

first_match-hit :
    (r : Rule) (rs : List Rule) (f : Failure) {c : FailureClass}
    → matches r f ≡ true
    → Taxonomy.parse r.failure_class ≡ some c
    → first_match (r ∷ rs) f ≡ (c, retryable_or r.retryable c)
unfolding first_match
first_match-hit r rs f h p = ground arith

usable-cases :
    (r : Rule) (f : Failure)
    → (is_usable r f ≡ false)
      ⊎ ((c : FailureClass) × (matches r f ≡ true) × (Taxonomy.parse r.failure_class ≡ some c))
usable-cases r f = elim (Option-cases (Taxonomy.parse r.failure_class)) [
  | inl p ↦ inl (ground arith)
  | inr (c, p) ↦ elim (Bool-cases (matches r f)) [
    | inl e ↦ inr (c, e, p)
    | inr e ↦ inl (ground arith)
  ]
]

first_match-IsClassified :
    (rs : List Rule) (f : Failure) → IsSorted rs → IsClassified rs f (first_match rs f)
first_match-IsClassified [] f s = inr (tt, first_match-nil f)
first_match-IsClassified (r ∷ rs) f s = elim (usable-cases r f) [
  | inl e ↦
      rw (first_match-skip r rs f e)
        (skip r rs f (first_match rs f) e (first_match-IsClassified rs f s.1))
  | inr (c, e, p) ↦ rw (first_match-hit r rs f e p) (
      inl (
        r,
        inl refl,
        record { match = e; class = p; retry = refl },
        (
          λ u. omega arith,
          All-imp {P = λ q. q.priority ≤ r.priority}
              {Q = λ q. is_usable q f ≡ true → q.priority ≤ r.priority} (λ q le u. le) rs s.0,
        ),
      ))
]

-- Whatever the order of the rules in the file, the class is that of a rule that matches the
-- failure and names a known class, and has the highest priority of the rules that do both, with
-- that rule's verdict on retrying; where none does both, the failure is `unknown` and not retried.
pub classify-IsClassified : (rs : List Rule) (f : Failure) → IsClassified rs f (classify rs f)
unfolding classify
classify-IsClassified rs f =
    elim (first_match-IsClassified (sort_by_priority rs) f (sort-IsSorted rs)) [
      | inl (r, m, a, top) ↦ inl (r, In-sort r rs m, a, sort-All _ rs top)
      | inr (nowhere, e) ↦ inr (sort-All _ rs nowhere, e)
    ]
