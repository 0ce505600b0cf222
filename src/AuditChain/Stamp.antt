-- ===== src/AuditChain/Stamp.antt =====
-- Stamping extends an intact chain to an intact chain (src/audit_chain.py).
use payment_recovery_engine.Prelude.{
  ℕ, ◌+◌, String, true, ◌&&◌, none, some, List, [], ◌∷◌, ◌++◌, str_eq, ◌≡◌, refl, ap, ◌∙◌, eq_refl,
  arith, All, length, inl, inr, Bool-cases, Option-cases,
}
use payment_recovery_engine.AuditChain.{
  Row, ChainVerification, intact, broken, last_hashed, stamp_from, stamp_unhashed_events,
  verify_from, verify_chain, same,
}

abbrev pub IsUnstamped : Row → Type 0
IsUnstamped r = r.event_hash ≡ none

module _ (chain_hash : String → String → String) (genesis_hash : String) where
  abbrev verify : String → ℕ → List Row → ChainVerification
  verify = verify_from chain_hash genesis_hash

  abbrev stamp : String → List Row → List Row
  stamp = stamp_from chain_hash genesis_hash

  -- A row that verifies has a hash, is chained to the hash before it, and so do the rows after it.
  pub verify-step :
      (h : String) (n m : ℕ) (r : Row) (rs : List Row)
      → verify h n (r ∷ rs) ≡ intact m
      → (t : String) × (r.event_hash ≡ some t)
        × ((str_eq (chain_hash h r.canonical_repr) t && same r.prev_event_hash h) ≡ true)
        × (verify t (n + 1) rs ≡ intact m)
  unfolding verify_from
  verify-step h n m r rs e = elim (Option-cases r.event_hash) [
    | inl q ↦ let k : broken (n + 1) r.id ≡ intact m = rw q at e in cc
    | inr (t, q) ↦
        elim (Bool-cases (str_eq (chain_hash h r.canonical_repr) t && same r.prev_event_hash h)) [
          | inl b ↦ (t, q, b, (rw (q, b) at e))
          | inr b ↦ let k : broken (n + 1) r.id ≡ intact m = rw (q, b) at e in cc
        ]
  ]

  intact-injective : (n m : ℕ) → intact n ≡ intact m → n ≡ m
  intact-injective n m e = cc

  pub verify-append :
      (h : String) (n m : ℕ) (old xs : List Row)
      → verify h n old ≡ intact m
      → verify h n (old ++ xs) ≡ verify (last_hashed chain_hash genesis_hash h old) m xs
  unfolding verify_from last_hashed
  verify-append h n m [] xs e = ap (λ k. verify h k xs) (intact-injective n m e)
  verify-append h n m (r ∷ rs) xs e =
      let (t, q, b, k) = verify-step h n m r rs e in rw (q, b) (verify-append t (n + 1) m rs xs k)

  stamp-hashed :
      (g t : String) (r : Row) (xs : List Row)
      → r.event_hash ≡ some t
      → stamp g (r ∷ xs) ≡ r ∷ stamp g xs
  unfolding stamp_from
  stamp-hashed g t r xs q = simp q

  pub stamp-append :
      (h g : String) (n m : ℕ) (old xs : List Row)
      → verify h n old ≡ intact m
      → stamp g (old ++ xs) ≡ old ++ stamp g xs
  stamp-append h g n m [] xs e = refl
  stamp-append h g n m (r ∷ rs) xs e =
      let (t, q, b, k) = verify-step h n m r rs e in
      stamp-hashed g t r (rs ++ xs) q ∙ ap (λ ys. r ∷ ys) (stamp-append t g (n + 1) m rs xs k)

  stamp-intact :
      (h g : String) (n m : ℕ) (rows : List Row) → verify h n rows ≡ intact m → stamp g rows ≡ rows
  unfolding stamp_from
  stamp-intact h g n m [] e = refl
  stamp-intact h g n m (r ∷ rs) e =
      let (t, q, b, k) = verify-step h n m r rs e in
      stamp-hashed g t r rs q ∙ ap (λ ys. r ∷ ys) (stamp-intact t g (n + 1) m rs k)

  last_hashed-unstamped :
      (h : String) (fresh : List Row)
      → All IsUnstamped fresh
      → last_hashed chain_hash genesis_hash h fresh ≡ h
  unfolding last_hashed
  last_hashed-unstamped h [] us = refl
  last_hashed-unstamped h (r ∷ rs) us = rw us.0 (last_hashed-unstamped h rs us.1)

  last_hashed-append :
      (h : String) (n m : ℕ) (old fresh : List Row)
      → verify h n old ≡ intact m
      → All IsUnstamped fresh
      → last_hashed chain_hash genesis_hash h (old ++ fresh)
        ≡ last_hashed chain_hash genesis_hash h old
  unfolding last_hashed
  last_hashed-append h n m [] fresh e us = last_hashed-unstamped h fresh us
  last_hashed-append h n m (r ∷ rs) fresh e us =
      let (t, q, b, k) = verify-step h n m r rs e in
      rw q (last_hashed-append t (n + 1) m rs fresh k us)

  stamp-verifies :
      (h : String) (m : ℕ) (fresh : List Row)
      → All IsUnstamped fresh
      → verify h m (stamp h fresh) ≡ intact (m + length fresh)
  unfolding stamp_from verify_from
  stamp-verifies h m [] us = ap intact (omega arith)
  stamp-verifies h m (r ∷ rs) us = rw us.0 (
      rw (eq_refl (chain_hash h r.canonical_repr), eq_refl h)
        (stamp-verifies (chain_hash h r.canonical_repr) (m + 1) rs us.1 ∙ ap intact (omega arith)))

  -- If the rows stamped so far verify and new rows without a hash have come after them, then
  -- stamping makes the whole trail verify, leaves the rows that were stamped, and stamping again
  -- changes nothing.
  pub stamp_unhashed_events-verify_chain :
      (n : ℕ) (old fresh : List Row)
      → verify_chain chain_hash genesis_hash old ≡ intact n
      → All IsUnstamped fresh
      → let rows = stamp_unhashed_events chain_hash genesis_hash (old ++ fresh) in
        (verify_chain chain_hash genesis_hash rows ≡ intact (n + length fresh))
        × ((new : List Row) × (rows ≡ old ++ new))
        × (stamp_unhashed_events chain_hash genesis_hash rows ≡ rows)
  unfolding verify_chain stamp_unhashed_events
  stamp_unhashed_events-verify_chain n old fresh e us =
      let last = last_hashed chain_hash genesis_hash genesis_hash old in
      let e' : stamp_unhashed_events chain_hash genesis_hash (old ++ fresh)
          ≡ old ++ stamp last fresh =
        ap (λ g. stamp g (old ++ fresh)) (last_hashed-append genesis_hash 0 n old fresh e us)
        ∙ stamp-append genesis_hash last 0 n old fresh e in
      let v : verify genesis_hash 0 (stamp_unhashed_events chain_hash genesis_hash (old ++ fresh))
          ≡ intact (n + length fresh) =
        ap (verify genesis_hash 0) e'
        ∙ verify-append genesis_hash 0 n old (stamp last fresh) e
        ∙ stamp-verifies last n fresh us in
      (v, (stamp last fresh, e'), stamp-intact genesis_hash _ 0 (n + length fresh) _ v)
