-- ===== src/Receivables/Ratchet.antt =====
-- The ladder's clock and its ratchet (src/receivables/ladder.py).
use payment_recovery_engine.Prelude.{
  ℕ, zero, suc, ◌+◌, ◌≤◌, ◌<◌, min, ◌≡◌, ◌↔◌, refl, Option, none, some, All, In, arith, dec_lt,
}
use payment_recovery_engine.Prelude.Int.{ℤ, pos, negsuc, ◌≤ℤ◌}
use payment_recovery_engine.Receivables.Ladder.{
  LadderStage, invoice_ladder, courtesy_rung, friendly_rung, firm_rung, urgent_rung, final_rung,
  stage_for_level, stage_for_aging, stage_after_break,
}

-- The stage is a rung of the ladder whose threshold the age has reached, and it is above every
-- other rung whose threshold the age has reached.
abbrev pub IsHighestReached : ℕ → LadderStage → Type 0
IsHighestReached d st =
    In st invoice_ladder
    × (st.days_past_due ≤ d)
    × All (λ q. q.days_past_due ≤ d → q.level ≤ st.level) invoice_ladder

-- For any age in days an invoice has a stage: before the first day past due the courtesy stage,
-- and from then on the highest rung whose threshold has been reached.
pub stage_for_aging_highest :
    (d : ℕ) → (st : LadderStage) × (stage_for_aging (pos d) ≡ some st) × IsHighestReached d st
unfolding stage_for_aging
stage_for_aging_highest zero = (courtesy_rung, refl, ground arith)
stage_for_aging_highest (suc d) = elim (dec_lt d 6) [
  | yes h ↦ (friendly_rung, ground arith, ground arith)
  | no h ↦ elim (dec_lt d 13) [
    | yes k ↦ (firm_rung, ground arith, ground arith)
    | no k ↦ elim (dec_lt d 20) [
      | yes l ↦ (urgent_rung, ground arith, ground arith)
      | no l ↦ (final_rung, ground arith, ground arith)
    ]
  ]
]

abbrev pub level_of : Option LadderStage → ℕ
level_of none = 0
level_of (some st) = st.level

-- Aging never moves a case back: an older invoice stands at the same rung or a higher one.
pub stage_for_aging_mono :
    (a b : ℤ) → a ≤ℤ b → level_of (stage_for_aging a) ≤ level_of (stage_for_aging b)
unfolding stage_for_aging
stage_for_aging_mono (pos zero) (pos zero) h = omega arith
stage_for_aging_mono (pos zero) _ h = omega arith
stage_for_aging_mono (negsuc n) _ h = omega arith
stage_for_aging_mono (pos (suc a)) (pos (suc b)) h = ground arith
stage_for_aging_mono (pos (suc a)) (pos zero) h = ground arith
stage_for_aging_mono (pos (suc a)) (negsuc b) h = ground arith

-- A broken promise moves a case to the next rung and never past the top one; from a level above
-- the ladder, which contacts can reach, it moves the case back down to the top rung.
pub stage_after_break_ratchet :
    (l : ℕ)
    → (st : LadderStage) × (stage_for_level (stage_after_break l) ≡ some st)
      × (st.level ≡ stage_after_break l)
      × ((l < 4) ↔ (stage_after_break l ≡ l + 1 × (l + 1 ≤ 4)))
      × ((4 < l) ↔ (stage_after_break l < l))
unfolding stage_for_level stage_after_break
stage_after_break_ratchet zero = (friendly_rung, refl, refl, ground arith, ground arith)
stage_after_break_ratchet (suc zero) = (firm_rung, refl, refl, ground arith, ground arith)
stage_after_break_ratchet (suc (suc zero)) = (urgent_rung, refl, refl, ground arith, ground arith)
stage_after_break_ratchet (suc (suc (suc zero))) =
    (final_rung, refl, refl, ground arith, ground arith)
stage_after_break_ratchet (suc (suc (suc (suc l)))) =
    let e : min (suc (suc (suc (suc l))) + 1) 4 ≡ 4 = omega arith in
    (final_rung, rw e refl, omega arith, ground arith, ground arith)
