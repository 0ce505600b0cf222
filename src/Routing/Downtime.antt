-- ===== src/Routing/Downtime.antt =====
-- `DowntimeSnapshot.is_down` of src/downtime.py. The feed itself is a network call; its parsed
-- entries are the snapshot's list.
use text.Mathlib.Text.{find?}
use payment_recovery_engine.Prelude.{
  String, Bool, true, false, ◌&&◌, not, Option, none, some, is_some, List, any, str_eq,
}
use payment_recovery_engine.Actions.{Host}

pub record Downtime : Type 0 where
  pub method : String
  pub issuer : Option String

module _ (host : Host) where
  open host use {lower}

  -- `issuer.lower() in bank.lower()`, for a bank that is there and not empty.
  bank_matches : String → Option String → Bool
  bank_matches issuer none = false
  bank_matches issuer (some bank) =
      not (str_eq bank "") && is_some (find? (lower bank) (lower issuer))

  -- An outage without an issuer is of the whole method.
  unfoldable pub issuer_matches : Option String → Option String → Bool
  unfolding bank_matches
  issuer_matches none bank = true
  issuer_matches (some issuer) bank = bank_matches issuer bank

  unfoldable pub is_down : List Downtime → Option String → Option String → Bool
  unfolding issuer_matches
  is_down downtimes none bank = false
  is_down downtimes (some method) bank =
      not (str_eq method "")
      && any (λ d. str_eq (lower d.method) (lower method) && issuer_matches d.issuer bank) downtimes
