-- ===== src/Cases/Replay.antt =====
-- A payment that a case has been credited with is not credited to it again (src/cases.py).
use payment_recovery_engine.Prelude.{
  ℕ, String, true, none, List, [], ◌∷◌, ◌++◌, any, str_eq, ◌≡◌, refl, ap, ◌∙◌, eq_refl, arith,
}
use payment_recovery_engine.Cases.Model.{Store}
use payment_recovery_engine.Cases.Lifecycle.{close_case}
use payment_recovery_engine.Cases.Capture.{Match, credited, is_replay, apply_match}
use payment_recovery_engine.Cases.Credit.{settled}

any-last : (ref : String) (refs : List String) → any (λ r. str_eq r ref) (refs ++ ref ∷ []) ≡ true
any-last ref [] = rw (eq_refl ref) refl
any-last ref (r ∷ refs) = rw (any-last ref refs) (ground arith)

settled-credited_refs :
    (now amount : ℕ) (ref : String) (m : Match)
    → (settled now amount ref m).credited_refs ≡ m.case.credited_refs ++ ref ∷ []
unfolding credited close_case
settled-credited_refs now amount ref m = ground arith

-- Once a payment is credited to a case, a capture with the same reference that is matched to the
-- case as the credit left it changes nothing and returns no case, whatever its amount and time.
pub apply_match_once :
    (now now' amount amount' : ℕ) (ref : String) (m m' : Match) (s : Store)
    → m'.case ≡ settled now amount ref m
    → apply_match now' amount' ref m' s ≡ (s, none)
unfolding apply_match is_replay
apply_match_once now now' amount amount' ref m m' s h = seen (
    ap (λ c. any (λ r. str_eq r ref) c.credited_refs) h
    ∙ ap (any (λ r. str_eq r ref)) (settled-credited_refs now amount ref m)
    ∙ any-last ref m.case.credited_refs)
  where
    seen :
        any (λ r. str_eq r ref) m'.case.credited_refs ≡ true
        → apply_match now' amount' ref m' s ≡ (s, none)
    seen e = rw e refl
