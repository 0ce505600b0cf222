-- ===== src/Routing/Choice.antt =====
-- A switch always finds a rail, never the one that failed, and a healthy one if there is one
-- (src/executor/rail_selector.py).
use payment_recovery_engine.Prelude.{
  String, Bool, true, false, not, Option, none, some, List, [], ◌∷◌, keep, any, All, str_eq, ◌≡◌,
  ◌≢◌, refl, arith, eq_iff, Bool-cases, inl, inr, keep-passes, keep-All, keep-ne-nil, All-imp,
  if◌then◌else◌,
}
use payment_recovery_engine.Actions.{Host, PaymentRail, upi, card}
use payment_recovery_engine.Routing.Downtime.{Downtime, is_down}
use payment_recovery_engine.Routing.Rails.{
  rail_name, all_rails, get_available_rails, is_upi, is_card, first, upi_or_first, card_or_first,
  choose, prefers_upi, or_all, healthy_rails, usable_rails, select_alternative_rail,
  resolve_target_rail,
}

not-true : (b : Bool) → not b ≡ true → b ≡ false
not-true b h = ground arith

-- What every rail of the list satisfies, the rail found by a test does.
upi-All :
    (P : PaymentRail → Type 0) (rails : List PaymentRail)
    → All P rails
    → any is_upi rails ≡ true
    → P upi
upi-All P [] ps h = cc
upi-All P (upi ∷ rs) ps h = ps.0
upi-All P (_ ∷ rs) ps h = upi-All P rs ps.1 h

card-All :
    (P : PaymentRail → Type 0) (rails : List PaymentRail)
    → All P rails
    → any is_card rails ≡ true
    → P card
card-All P [] ps h = cc
card-All P (card ∷ rs) ps h = ps.0
card-All P (_ ∷ rs) ps h = card-All P rs ps.1 h

-- An answer was found, and it has the property.
abbrev pub IsChosen : (PaymentRail → Type 0) → Option PaymentRail → Type 0
IsChosen P o = (r : PaymentRail) × (o ≡ some r) × P r

module _ (P : PaymentRail → Type 0) where
  upi_or_first-IsChosen :
      (rails : List PaymentRail) → rails ≢ [] → All P rails → IsChosen P (upi_or_first rails)
  unfolding upi_or_first
  upi_or_first-IsChosen [] ne ps = absurd (ne refl)
  upi_or_first-IsChosen (r ∷ rs) ne ps = elim (Bool-cases (any is_upi (r ∷ rs))) [
    | inl e ↦ (upi, rw e refl, upi-All P (r ∷ rs) ps e)
    | inr e ↦ (r, rw e refl, ps.0)
  ]

  card_or_first-IsChosen :
      (rails : List PaymentRail) → rails ≢ [] → All P rails → IsChosen P (card_or_first rails)
  unfolding card_or_first
  card_or_first-IsChosen [] ne ps = absurd (ne refl)
  card_or_first-IsChosen (r ∷ rs) ne ps = elim (Bool-cases (any is_card (r ∷ rs))) [
    | inl e ↦ (card, rw e refl, card-All P (r ∷ rs) ps e)
    | inr e ↦ (r, rw e refl, ps.0)
  ]

  first-IsChosen : (rails : List PaymentRail) → rails ≢ [] → All P rails → IsChosen P (first rails)
  first-IsChosen [] ne ps = absurd (ne refl)
  first-IsChosen (r ∷ rs) ne ps = (r, refl, ps.0)

  upi_or_card-IsChosen :
      (rails : List PaymentRail)
      → rails ≢ []
      → All P rails
      → IsChosen P (if any is_upi rails then some upi else card_or_first rails)
  upi_or_card-IsChosen rails ne ps = elim (Bool-cases (any is_upi rails)) [
    | inl e ↦ rw e (upi, refl, upi-All P rails ps e)
    | inr e ↦ rw e (card_or_first-IsChosen rails ne ps)
  ]

  if-IsChosen :
      (b : Bool) (x y : Option PaymentRail)
      → IsChosen P x
      → IsChosen P y
      → IsChosen P (if b then x else y)
  if-IsChosen true x y hx hy = hx
  if-IsChosen false x y hx hy = hy

  -- Every branch of the heuristics answers with one of the rails offered.
  choose-IsChosen :
      (c f : String) (rails : List PaymentRail)
      → rails ≢ []
      → All P rails
      → IsChosen P (choose c f rails)
  unfolding choose
  choose-IsChosen c f rails ne ps =
      let u = upi_or_first-IsChosen rails ne ps in
      let k = card_or_first-IsChosen rails ne ps in
      let h = first-IsChosen rails ne ps in
      if-IsChosen (prefers_upi f) _ _ u (
        if-IsChosen (str_eq f "upi_collect_timeout") _ _ k (
          if-IsChosen (str_eq f "bank_downtime") _ _ (if-IsChosen (str_eq c "netbanking") _ _ u h)
            (upi_or_card-IsChosen rails ne ps)))

or_all-ne-nil : (hs rails : List PaymentRail) → rails ≢ [] → or_all hs rails ≢ []
or_all-ne-nil [] rails ne = ne
or_all-ne-nil (h ∷ hs) rails ne = λ e. cc

or_all-All :
    (P : PaymentRail → Type 0) (hs rails : List PaymentRail)
    → All P hs
    → All P rails
    → All P (or_all hs rails)
or_all-All P [] rails ph pr = pr
or_all-All P (h ∷ hs) rails ph pr = ph

or_all-healthy : (hs rails : List PaymentRail) → hs ≢ [] → or_all hs rails ≡ hs
or_all-healthy [] rails ne = absurd (ne refl)
or_all-healthy (h ∷ hs) rails ne = refl

get_available_rails-ne-nil : (c : String) → get_available_rails c ≢ []
unfolding get_available_rails
get_available_rails-ne-nil c = ground (arith, eq_iff "upi" c, eq_iff "card" c, eq_iff "upi" "card")

-- The rail is not the payment's current method.
abbrev pub IsOther : String → PaymentRail → Type 0
IsOther c r = str_eq (rail_name r) c ≡ false

get_available_rails-IsOther : (c : String) → All (IsOther c) (get_available_rails c)
unfolding get_available_rails
get_available_rails-IsOther c =
    All-imp {P = λ r. not (str_eq (rail_name r) c) ≡ true} {Q = IsOther c}
      (λ r h. not-true (str_eq (rail_name r) c) h) _
      (keep-passes (λ r. not (str_eq (rail_name r) c)) all_rails)

module _ (host : Host) where
  usable-ne-nil :
      (d : Option (List Downtime)) (bank : Option String) (rails : List PaymentRail)
      → rails ≢ []
      → usable_rails host d bank rails ≢ []
  unfolding usable_rails
  usable-ne-nil none bank rails ne = ne
  usable-ne-nil (some d) bank rails ne = or_all-ne-nil (healthy_rails host d bank rails) rails ne

  usable-All :
      (P : PaymentRail → Type 0) (d : Option (List Downtime)) (bank : Option String)
      (rails : List PaymentRail)
      → All P rails
      → All P (usable_rails host d bank rails)
  unfolding usable_rails
  usable-All P none bank rails ps = ps
  usable-All P (some d) bank rails ps =
      or_all-All P (healthy_rails host d bank rails) rails (keep-All P _ rails ps) ps

  select-IsOther :
      (c f : String) (d : Option (List Downtime)) (bank : Option String)
      → IsChosen (IsOther c) (select_alternative_rail host c f d bank)
  unfolding select_alternative_rail
  select-IsOther c f d bank =
      choose-IsChosen (IsOther c) c f _ (usable-ne-nil d bank _ (get_available_rails-ne-nil c))
        (usable-All (IsOther c) d bank _ (get_available_rails-IsOther c))

  -- A switch always finds a rail, and never the one that just failed, whatever the agent
  -- proposes and whatever the health feed says.
  pub resolve_target_rail-IsOther :
      (c : String) (proposed : Option PaymentRail) (f : String) (bank : Option String)
      (d : Option (List Downtime))
      → IsChosen (IsOther c) (resolve_target_rail host c proposed f bank d)
  unfolding resolve_target_rail
  resolve_target_rail-IsOther c none f bank d = select-IsOther c f d bank
  resolve_target_rail-IsOther c (some r) f bank d = elim (Bool-cases (str_eq (rail_name r) c)) [
    | inl e ↦ rw e (select-IsOther c f d bank)
    | inr e ↦ rw e (r, refl, e)
  ]

  -- Where some other rail is up by the feed, the selection answers with a rail that is up.
  pub select_alternative_rail_healthy :
      (c f : String) (d : List Downtime) (bank : Option String)
      → any (λ r. not (is_down host d (some (rail_name r)) bank)) (get_available_rails c) ≡ true
      → IsChosen
          (λ r. is_down host d (some (rail_name r)) bank ≡ false)
          (select_alternative_rail host c f (some d) bank)
  unfolding select_alternative_rail usable_rails
  select_alternative_rail_healthy c f d bank h =
      let rails = get_available_rails c in
      let up = λ (r : PaymentRail). not (is_down host d (some (rail_name r)) bank) in
      rw (or_all-healthy (keep up rails) rails (keep-ne-nil up rails h)) (
        choose-IsChosen (λ r. is_down host d (some (rail_name r)) bank ≡ false) c f (keep up rails)
          (keep-ne-nil up rails h)
          (All-imp {P = λ r. up r ≡ true}
            {Q = λ r. is_down host d (some (rail_name r)) bank ≡ false}
            (λ r e. not-true (is_down host d (some (rail_name r)) bank) e) (keep up rails)
            (keep-passes up rails)))
