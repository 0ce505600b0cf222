-- ===== src/Routing/Examples.antt =====
-- The selection of a rail at concrete payments.
use payment_recovery_engine.Prelude.{ℕ, ◌*◌, refl, none, some, List, [], ◌∷◌, leb, str_eq}
use payment_recovery_engine.Actions.{Host, card}
use payment_recovery_engine.Routing.Downtime.{Downtime}
use payment_recovery_engine.Routing.Rails.{resolve_target_rail}
use payment_recovery_engine.Routing.Choice.{IsChosen, IsOther, resolve_target_rail-IsOther}

-- Confidences in percent, and texts that are lower case already.
abbrev percent : Host
percent = record {
  Float = ℕ;
  in_unit_interval = λ c. leb c 100;
  product_le = λ c a k. leb (c * a) (k * 100);
  is_blank = λ t. str_eq t "";
  lower = λ t. t;
  is_blank_empty = refl;
}

abbrev upi_outage : List Downtime
upi_outage = record { method = "upi"; issuer = none } ∷ []

resolve_target_rail-IsOther_example :
    IsChosen
      (IsOther "card")
      (resolve_target_rail percent "card" (some card) "3ds_dropoff" none (some upi_outage))
resolve_target_rail-IsOther_example =
    resolve_target_rail-IsOther percent "card" (some card) "3ds_dropoff" none (some upi_outage)
