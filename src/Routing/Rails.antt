-- ===== src/Routing/Rails.antt =====
-- The selection of a rail, src/executor/rail_selector.py.
use payment_recovery_engine.Prelude.{
  String, Bool, true, false, ◌||◌, not, Option, none, some, List, [], ◌∷◌, keep, any, str_eq,
  if◌then◌else◌,
}
use payment_recovery_engine.Actions.{Host, PaymentRail, upi, card, netbanking, wallet}
use payment_recovery_engine.Routing.Downtime.{Downtime, is_down}

abbrev pub rail_name : PaymentRail → String
rail_name upi = "upi"
rail_name card = "card"
rail_name netbanking = "netbanking"
rail_name wallet = "wallet"

abbrev pub all_rails : List PaymentRail
all_rails = upi ∷ card ∷ netbanking ∷ wallet ∷ []

unfoldable pub get_available_rails : String → List PaymentRail
get_available_rails current_method = keep (λ r. not (str_eq (rail_name r) current_method)) all_rails

abbrev pub is_upi : PaymentRail → Bool
is_upi upi = true
is_upi _ = false

abbrev pub is_card : PaymentRail → Bool
is_card card = true
is_card _ = false

-- `alternatives[0]`, of a list that the callers have found not empty.
abbrev pub first : List PaymentRail → Option PaymentRail
first [] = none
first (r ∷ rs) = some r

-- `"upi" if "upi" in alternatives else alternatives[0]`
unfoldable pub upi_or_first : List PaymentRail → Option PaymentRail
upi_or_first rails = if any is_upi rails then some upi else first rails

unfoldable pub card_or_first : List PaymentRail → Option PaymentRail
card_or_first rails = if any is_card rails then some card else first rails

unfoldable pub prefers_upi : String → Bool
prefers_upi failure_class =
    str_eq failure_class "3ds_dropoff"
    || str_eq failure_class "issuer_decline"
    || str_eq failure_class "card_limit_exceeded"
    || str_eq failure_class "risk_check_failed"

-- The heuristics, on the alternatives that are left.
unfoldable pub choose : String → String → List PaymentRail → Option PaymentRail
unfolding prefers_upi
choose current_method failure_class rails =
    if prefers_upi failure_class
    then upi_or_first rails
    else if str_eq failure_class "upi_collect_timeout"
    then card_or_first rails
    else if str_eq failure_class "bank_downtime"
    then (if str_eq current_method "netbanking" then upi_or_first rails else first rails)
    else if any is_upi rails
    then some upi
    else card_or_first rails

-- `healthy` where that leaves something, the alternatives where it does not.
abbrev pub or_all : List PaymentRail → List PaymentRail → List PaymentRail
or_all [] rails = rails
or_all (r ∷ rs) rails = r ∷ rs

module _ (host : Host) where
  unfoldable pub healthy_rails : List Downtime → Option String → List PaymentRail → List PaymentRail
  healthy_rails downtimes bank = keep (λ r. not (is_down host downtimes (some (rail_name r)) bank))

  -- Without a feed (`downtime is None`) every alternative stays.
  unfoldable pub usable_rails :
      Option (List Downtime) → Option String → List PaymentRail → List PaymentRail
  unfolding healthy_rails
  usable_rails none bank rails = rails
  usable_rails (some downtimes) bank rails = or_all (healthy_rails downtimes bank rails) rails

  unfoldable pub select_alternative_rail :
      String → String → Option (List Downtime) → Option String → Option PaymentRail
  select_alternative_rail current_method failure_class downtime bank =
      choose current_method failure_class
        (usable_rails downtime bank (get_available_rails current_method))

  unfoldable pub resolve_target_rail :
      String
      → Option PaymentRail
      → String
      → Option String
      → Option (List Downtime)
      → Option PaymentRail
  resolve_target_rail current_method none failure_class bank downtime =
      select_alternative_rail current_method failure_class downtime bank
  resolve_target_rail current_method (some proposed) failure_class bank downtime =
      if not (str_eq (rail_name proposed) current_method)
      then some proposed
      else select_alternative_rail current_method failure_class downtime bank
