-- ===== src/AuditChain/Tamper.antt =====
-- A rewrite of the trail is found, and a row that arrives late breaks it (src/audit_chain.py).
use payment_recovery_engine.Prelude.{
  ℕ, ◌+◌, String, Bool, true, ◌&&◌, none, List, [], ◌∷◌, ◌++◌, str_eq, ◌≡◌, ◌≢◌, ap, sym, ◌∙◌,
  eq_iff, arith,
}
use payment_recovery_engine.AuditChain.{
  Row, intact, verify_from, verify_chain, last_hashed, stamped, stamp_from, stamp_unhashed_events,
}
use payment_recovery_engine.AuditChain.Stamp.{verify-step, verify-append, stamp-append}

module _ (chain_hash : String → String → String) (genesis_hash : String) where
  left-true : (a b : String) (c : Bool) → (str_eq a b && c) ≡ true → a ≡ b
  left-true a b c h = (eq_iff a b).0 (go (str_eq a b) c h)
    where
      go : (x y : Bool) → x && y ≡ true → x ≡ true
      go x y h = ground arith

  -- Two rows with one stored hash that both verify after the same hash have the same hash.
  stored_unique :
      (h : String) (k k' n m : ℕ) (r : Row) (text : String) (after after' : List Row)
      → verify_from chain_hash genesis_hash h k (r ∷ after) ≡ intact n
      → verify_from chain_hash genesis_hash h k' (record r { canonical_repr = text } ∷ after')
        ≡ intact m
      → chain_hash h text ≡ chain_hash h r.canonical_repr
  stored_unique h k k' n m r text after after' e e' =
      let (t, q, b, rest) = verify-step chain_hash genesis_hash h k n r after e in
      let (t', q', b', rest') =
        verify-step chain_hash genesis_hash h k' m (record r { canonical_repr = text }) after' e' in
      let same_hash : t ≡ t' = cc in
      left-true (chain_hash h text) t' _ b'
      ∙ sym same_hash
      ∙ sym (left-true (chain_hash h r.canonical_repr) t _ b)

  tamper-from :
      (h : String) (k k' n m : ℕ) (before after : List Row) (r : Row) (text : String)
      → verify_from chain_hash genesis_hash h k (before ++ r ∷ after) ≡ intact n
      → verify_from chain_hash genesis_hash h k'
          (before ++ record r { canonical_repr = text } ∷ after)
        ≡ intact m
      → chain_hash (last_hashed chain_hash genesis_hash h before) text
        ≡ chain_hash (last_hashed chain_hash genesis_hash h before) r.canonical_repr
  unfolding last_hashed
  tamper-from h k k' n m [] after r text e e' = stored_unique h k k' n m r text after after e e'
  tamper-from h k k' n m (x ∷ xs) after r text e e' =
      let (t, q, b, rest) = verify-step chain_hash genesis_hash h k n x _ e in
      let (t', q', b', rest') = verify-step chain_hash genesis_hash h k' m x _ e' in
      let same_hash : t' ≡ t = cc in
      rw q (tamper-from t (k + 1) (k' + 1) n m xs after r text rest (rw same_hash at rest'))

  -- If the trail verifies, then a rewrite of what one of its rows says, with the columns of the
  -- chain kept, does not verify, unless the new text and the old one have the same keyed hash.
  pub verify_chain_tamper :
      (n m : ℕ) (before after : List Row) (r : Row) (text : String)
      → verify_chain chain_hash genesis_hash (before ++ r ∷ after) ≡ intact n
      → chain_hash (last_hashed chain_hash genesis_hash genesis_hash before) text
        ≢ chain_hash (last_hashed chain_hash genesis_hash genesis_hash before) r.canonical_repr
      → verify_chain chain_hash genesis_hash (before ++ record r { canonical_repr = text } ∷ after)
        ≢ intact m
  unfolding verify_chain
  verify_chain_tamper n m before after r text e ne q =
      ne (tamper-from genesis_hash 0 0 n m before after r text e q)

  stamp-unhashed :
      (g : String) (r : Row) (rs : List Row)
      → r.event_hash ≡ none
      → stamp_from chain_hash genesis_hash g (r ∷ rs)
        ≡ stamped chain_hash genesis_hash g r
          ∷ stamp_from chain_hash genesis_hash (chain_hash g r.canonical_repr) rs
  unfolding stamp_from
  stamp-unhashed g r rs u = simp u

  -- A row that verifies is chained to the hash before it.
  verify-prev :
      (h g : String) (n m : ℕ) (r : Row) (rs : List Row)
      → verify_from chain_hash genesis_hash h n (stamped chain_hash genesis_hash g r ∷ rs)
        ≡ intact m
      → g ≡ h
  verify-prev h g n m r rs e =
      let (t, q, b, rest) =
        verify-step chain_hash genesis_hash h n m (stamped chain_hash genesis_hash g r) rs e in
      (eq_iff g h).0 (go (str_eq (chain_hash h r.canonical_repr) t) (str_eq g h) b)
    where
      go : (x y : Bool) → x && y ≡ true → y ≡ true
      go x y h = ground arith

  -- If a trail has a row without a hash right after a part that verifies, and the hash of the
  -- last stamped row is not that part's, as when a later row was stamped before this one could be
  -- seen, then stamping leaves a trail that does not verify.
  pub stamp_unhashed_events_late :
      (n m : ℕ) (before after : List Row) (late : Row)
      → verify_chain chain_hash genesis_hash before ≡ intact n
      → late.event_hash ≡ none
      → last_hashed chain_hash genesis_hash genesis_hash (before ++ late ∷ after)
        ≢ last_hashed chain_hash genesis_hash genesis_hash before
      → verify_chain chain_hash genesis_hash
          (stamp_unhashed_events chain_hash genesis_hash (before ++ late ∷ after))
        ≢ intact m
  unfolding verify_chain stamp_unhashed_events
  stamp_unhashed_events_late n m before after late e u ne q =
      let g = last_hashed chain_hash genesis_hash genesis_hash (before ++ late ∷ after) in
      ne (
        verify-prev _ g n m late _ (
          ap (verify_from chain_hash genesis_hash _ n) (sym (stamp-unhashed g late after u))
          ∙ sym (verify-append chain_hash genesis_hash genesis_hash 0 n before _ e)
          ∙ ap (verify_from chain_hash genesis_hash genesis_hash 0) (
              sym (stamp-append chain_hash genesis_hash genesis_hash g 0 n before (late ∷ after) e))
          ∙ q))
