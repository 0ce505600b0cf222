-- ===== src/AuditChain.antt =====
-- The hash chain over the audit trail (src/audit_chain.py): stamping it and verifying it.
use payment_recovery_engine.Prelude.{
  ℕ, ◌+◌, String, Bool, true, false, ◌&&◌, not, Option, none, some, List, [], ◌∷◌, str_eq,
  if◌then◌else◌,
}
mod Stamp
mod Tamper
mod Examples

-- A row of the trail: the text that `_canonical_repr` makes of what must not change, and the two
-- columns of the chain.
pub record Row : Type 0 where
  pub id : ℕ
  pub canonical_repr : String
  pub prev_event_hash : Option String
  pub event_hash : Option String

-- `ChainVerification`: the rows checked, and the first broken one.
pub data ChainVerification : Type 0 where
  intact : ℕ → ChainVerification
  broken : ℕ → ℕ → ChainVerification

abbrev pub same : Option String → String → Bool
same none h = false
same (some t) h = str_eq t h

-- The keyed hash of the previous hash and a row's text, and the hash that starts a chain.
module _ (chain_hash : String → String → String) (genesis_hash : String) where
  -- The hash of the last row that has one.
  unfoldable pub last_hashed : String → List Row → String
  last_hashed h [] = h
  last_hashed h (r ∷ rs) = elim r.event_hash [ none ↦ last_hashed h rs | some t ↦ last_hashed t rs ]

  abbrev pub stamped : String → Row → Row
  stamped h r = record r {
    prev_event_hash = some h;
    event_hash = some (chain_hash h r.canonical_repr);
  }

  -- The rows in the order of their ids; those that have a hash are left alone.
  unfoldable pub stamp_from : String → List Row → List Row
  stamp_from h [] = []
  stamp_from h (r ∷ rs) = elim r.event_hash [
    | none ↦ stamped h r ∷ stamp_from (chain_hash h r.canonical_repr) rs
    | some t ↦ r ∷ stamp_from h rs
  ]

  -- The batches are taken in the order of the ids until no row is left.
  unfoldable pub stamp_unhashed_events : List Row → List Row
  stamp_unhashed_events rows = stamp_from (last_hashed genesis_hash rows) rows

  unfoldable pub verify_from : String → ℕ → List Row → ChainVerification
  verify_from h checked [] = intact checked
  verify_from h checked (r ∷ rs) = elim r.event_hash [
    | none ↦ broken (checked + 1) r.id
    | some t ↦
        let rest = verify_from t (checked + 1) rs in
        if str_eq (chain_hash h r.canonical_repr) t && same r.prev_event_hash h
        then rest
        else broken (checked + 1) r.id
  ]

  unfoldable pub verify_chain : List Row → ChainVerification
  verify_chain rows = verify_from genesis_hash 0 rows
