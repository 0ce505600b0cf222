-- ===== src/AuditChain/Examples.antt =====
-- The chain with a hash that keeps the whole text of a row.
use payment_recovery_engine.Prelude.{
  ◌+◌, ◌≡◌, ◌≢◌, refl, String, none, some, List, [], ◌∷◌, ◌++◌, length,
}
use payment_recovery_engine.AuditChain.{
  Row, intact, last_hashed, stamp_unhashed_events, verify_from, verify_chain,
}
use payment_recovery_engine.AuditChain.Stamp.{stamp_unhashed_events-verify_chain}
use payment_recovery_engine.AuditChain.Tamper.{verify_chain_tamper}

abbrev keep_text : String → String → String
keep_text h t = t

abbrev opened : Row
opened = record {
  id = 1;
  canonical_repr = "opened";
  prev_event_hash = some "0";
  event_hash = some "opened";
}

abbrev contacted : Row
contacted = record {
  id = 2;
  canonical_repr = "contacted";
  prev_event_hash = none;
  event_hash = none;
}

abbrev closed : Row
closed = record {
  id = 3;
  canonical_repr = "closed";
  prev_event_hash = some "opened";
  event_hash = some "closed";
}

stamp_unhashed_events-verify_chain_example :
    let rows = stamp_unhashed_events keep_text "0" ((opened ∷ []) ++ contacted ∷ []) in
    (verify_chain keep_text "0" rows ≡ intact (1 + length (contacted ∷ [])))
    × ((new : List Row) × (rows ≡ (opened ∷ []) ++ new))
    × (stamp_unhashed_events keep_text "0" rows ≡ rows)
unfolding verify_chain verify_from
stamp_unhashed_events-verify_chain_example =
    stamp_unhashed_events-verify_chain keep_text "0" 1 (opened ∷ []) (contacted ∷ []) refl
      (refl, tt)

verify_chain_tamper_example :
    verify_chain keep_text "0" ((opened ∷ []) ++ record closed { canonical_repr = "refunded" } ∷ [])
    ≢ intact 2
unfolding verify_chain verify_from last_hashed
verify_chain_tamper_example =
    verify_chain_tamper keep_text "0" 2 2 (opened ∷ []) [] closed "refunded" refl (λ e. cc)
