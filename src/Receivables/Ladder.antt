-- ===== src/Receivables/Ladder.antt =====
-- The staged dunning ladder (src/receivables/ladder.py).
use payment_recovery_engine.Prelude.{
  ℕ, zero, suc, ◌+◌, ◌-◌, ◌*◌, min, Bool, true, false, ◌&&◌, Option, none, some, List, [], ◌∷◌,
  length, get_elem?, leb, ltb, if◌then◌else◌,
}
use payment_recovery_engine.Prelude.Int.{ℤ, pos, negsuc}

pub data Role : Type 0 where
  ap_clerk finance_manager escalation : Role

pub data Tone : Type 0 where
  courtesy friendly firm urgent final : Tone

pub data Channel : Type 0 where
  email sms call_task : Channel

pub record LadderStage : Type 0 where
  pub level : ℕ
  pub days_past_due : ℕ
  pub tone : Tone
  pub addresses : List Role
  pub channels : List Channel
  pub spends_budget : Bool
  pub pre_due : Bool

abbrev pub courtesy_rung : LadderStage
courtesy_rung = record {
  level = 0;
  days_past_due = 0;
  tone = courtesy;
  addresses = ap_clerk ∷ [];
  channels = email ∷ [];
  spends_budget = false;
  pre_due = true;
}

abbrev pub friendly_rung : LadderStage
friendly_rung = record {
  level = 1;
  days_past_due = 1;
  tone = friendly;
  addresses = ap_clerk ∷ [];
  channels = email ∷ sms ∷ [];
  spends_budget = true;
  pre_due = false;
}

abbrev pub firm_rung : LadderStage
firm_rung = record {
  level = 2;
  days_past_due = 7;
  tone = firm;
  addresses = ap_clerk ∷ finance_manager ∷ [];
  channels = email ∷ sms ∷ [];
  spends_budget = true;
  pre_due = false;
}

abbrev pub urgent_rung : LadderStage
urgent_rung = record {
  level = 3;
  days_past_due = 14;
  tone = urgent;
  addresses = finance_manager ∷ [];
  channels = email ∷ sms ∷ call_task ∷ [];
  spends_budget = true;
  pre_due = false;
}

abbrev pub final_rung : LadderStage
final_rung = record {
  level = 4;
  days_past_due = 21;
  tone = final;
  addresses = finance_manager ∷ escalation ∷ [];
  channels = email ∷ sms ∷ [];
  spends_budget = true;
  pre_due = false;
}

abbrev pub invoice_ladder : List LadderStage
invoice_ladder = courtesy_rung ∷ friendly_rung ∷ firm_rung ∷ urgent_rung ∷ final_rung ∷ []

unfoldable pub stage_for_level : ℕ → Option LadderStage
stage_for_level level =
    if leb 1 level && ltb level (length invoice_ladder)
    then get_elem? invoice_ladder level
    else none

-- The loop over the stages: the last one whose threshold has been reached.
unfoldable pub reached : ℕ → Option LadderStage → List LadderStage → Option LadderStage
reached days best [] = best
reached days best (stage ∷ rest) =
    reached days (if leb stage.days_past_due days then some stage else best) rest

abbrev tail : List LadderStage → List LadderStage
tail [] = []
tail (x ∷ xs) = xs

-- `INVOICE_LADDER[0] if INVOICE_LADDER[0].pre_due else None`
pre_due_stage : List LadderStage → Option LadderStage
pre_due_stage [] = none
pre_due_stage (x ∷ xs) = if x.pre_due then some x else none

-- Days are negative before the due date.
unfoldable pub stage_for_aging : ℤ → Option LadderStage
unfolding reached pre_due_stage
stage_for_aging (negsuc n) = pre_due_stage invoice_ladder
stage_for_aging (pos zero) = pre_due_stage invoice_ladder
stage_for_aging (pos (suc d)) = reached (suc d) none (tail invoice_ladder)

unfoldable pub stage_after_break : ℕ → ℕ
stage_after_break current_level = min (current_level + 1) (length invoice_ladder - 1)

days_at : ℕ → ℕ
days_at level = elim (get_elem? invoice_ladder level) [ none ↦ 0 | some st ↦ st.days_past_due ]

-- Past the top of the ladder, the consent window of 30 days.
unfoldable pub next_stage_gap_hours : ℕ → ℕ
unfolding days_at
next_stage_gap_hours current_level =
    if leb (length invoice_ladder) (current_level + 1)
    then 30 * 24
    else (days_at (current_level + 1) - days_at current_level) * 24
