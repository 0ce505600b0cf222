-- ===== src/Orchestrator/MandateOnce.antt =====
-- `charge_promise_mandate` of src/orchestrator.py run by sweep after sweep, each cut off where its
-- process dies: what is committed outlives it, and the debits are counted.
use payment_recovery_engine.Prelude.{
  ℕ, zero, suc, ◌+◌, ◌≤◌, String, Bool, true, false, Option, none, some, List, [], ◌∷◌, ◌++◌, ◌≢◌,
  sym, take, All, ◌≡◌, refl, arith, str_eq, eq_refl, if◌then◌else◌, Bool-cases, inl, inr,
}
use payment_recovery_engine.Settings.{Settings}
use payment_recovery_engine.Actions.{Host}
use payment_recovery_engine.Guardrail.Gate.{GuardrailResult}
use payment_recovery_engine.Cases.Model.{RecoveryCase, RetryAttempt, PromiseToPay}
use payment_recovery_engine.Cases.Lifecycle.{StopReason}
use payment_recovery_engine.Orchestrator.Chase.{make_attempt}
use payment_recovery_engine.Orchestrator.Mandate.{
  persisted, Kept, save, charged_promise, skipped_guardrail, Act, saved, ordered, debited,
  ChargeOutcome, DebitInputs, attempt_exists, debit_row, debit, debit_judged, debit_checked,
  charge_promise_mandate,
}

abbrev pub debits : List Act → ℕ
debits [] = 0
debits (debited ∷ acts) = suc (debits acts)
debits (ordered ∷ acts) = debits acts
debits (saved k ∷ acts) = debits acts

-- One sweep: the rows that others have committed before it, what it reads, the case as it then
-- stands, and after how many acts its process dies.
pub record Try : Type 0 where
  pub others : List RetryAttempt
  pub inputs : DebitInputs
  pub case_now : RecoveryCase
  pub cut : ℕ

-- An exception has done nothing.
abbrev pub done_by : ℕ → Option (ChargeOutcome × List Act) → List Act
done_by n none = []
done_by n (some (o, acts)) = take n acts

module _ (host : Host) (cfg : Settings) (key : String) where
  abbrev pub try_done : Try → Kept → List Act
  try_done t k = done_by t.cut (charge_promise_mandate host cfg key t.inputs t.case_now k)

  abbrev pub with_others : Try → Kept → Kept
  with_others t k = record k { attempts = k.attempts ++ t.others }

  -- The debits of all the sweeps.
  abbrev pub sweep_debits : List Try → Kept → ℕ
  sweep_debits [] k = 0
  sweep_debits (t ∷ ts) k =
      let k1 = with_others t k in
      let acts = try_done t k1 in debits acts + sweep_debits ts (persisted k1 acts)

-- One debit is left as long as the key is free.
abbrev pub debits_left : String → Kept → ℕ
debits_left key k = if attempt_exists key k.attempts then 0 else 1

abbrev HoldsKey : String → Act → Type 0
HoldsKey key (saved k) = attempt_exists key k.attempts ≡ true
HoldsKey key ordered = Unit
HoldsKey key debited = Unit

key_kept :
    (key : String) (xs ys : List RetryAttempt)
    → attempt_exists key xs ≡ true
    → attempt_exists key (xs ++ ys) ≡ true
key_kept key [] ys h = cc
key_kept key (x ∷ xs) ys h = ground (arith, key_kept key xs ys)

key_added :
    (key : String) (xs : List RetryAttempt) (row : RetryAttempt)
    → str_eq row.idempotency_key key ≡ true
    → attempt_exists key (xs ++ row ∷ []) ≡ true
key_added key [] row h = rw h refl
key_added key (x ∷ xs) row h = ground (arith, key_added key xs row h)

debits-take : (n : ℕ) (acts : List Act) → debits (take n acts) ≤ debits acts
debits-take zero acts = omega arith
debits-take (suc n) [] = omega arith
debits-take (suc n) (saved k ∷ acts) = debits-take n acts
debits-take (suc n) (ordered ∷ acts) = debits-take n acts
debits-take (suc n) (debited ∷ acts) = omega (arith, debits-take n acts)

persisted-key :
    (key : String) (n : ℕ) (acts : List Act) (k : Kept)
    → All (HoldsKey key) acts
    → attempt_exists key k.attempts ≡ true
    → debits_left key (persisted k (take n acts)) ≡ 0
persisted-key key zero acts k h e = rw e refl
persisted-key key (suc n) [] k h e = rw e refl
persisted-key key (suc n) (saved k' ∷ acts) k h e = persisted-key key n acts k' h.1 h.0
persisted-key key (suc n) (ordered ∷ acts) k h e = persisted-key key n acts k h.1 e
persisted-key key (suc n) (debited ∷ acts) k h e = persisted-key key n acts k h.1 e

-- Nothing, or a commit of the key before all else, the key in each later commit, and one debit at
-- most.
abbrev IsOnce : String → List Act → Type 0
IsOnce key [] = Unit
IsOnce key (saved k ∷ acts) =
    (attempt_exists key k.attempts ≡ true) × All (HoldsKey key) acts × (debits acts ≤ 1)
IsOnce key (ordered ∷ acts) = ⊥
IsOnce key (debited ∷ acts) = ⊥

once-left :
    (key : String) (n : ℕ) (acts : List Act) (k : Kept)
    → IsOnce key acts
    → attempt_exists key k.attempts ≡ false
    → debits (take n acts) + debits_left key (persisted k (take n acts)) ≤ debits_left key k
once-left key zero acts k h e = omega arith
once-left key (suc n) [] k h e = omega arith
once-left key (suc n) (saved k' ∷ acts) k (held, later, once) e =
    rw (e, persisted-key key n acts k' later held) (omega (arith, debits-take n acts, once))
once-left key (suc n) (ordered ∷ acts) k h e = absurd h
once-left key (suc n) (debited ∷ acts) k h e = absurd h

-- The same of what is done, if it is no exception.
abbrev IsOnceDone : String → Option (ChargeOutcome × List Act) → Type 0
IsOnceDone key none = Unit
IsOnceDone key (some (o, acts)) = IsOnce key acts

module _ (key : String) (i : DebitInputs) (k : Kept) (row : RetryAttempt)
    (own : str_eq row.idempotency_key key ≡ true) where
  added : attempt_exists key (k.attempts ++ row ∷ []) ≡ true
  added = key_added key k.attempts row own

  ends-IsOnce :
      (ext : Option String) (b : RetryAttempt) (p : PromiseToPay)
      → b.idempotency_key ≡ row.idempotency_key
      → IsOnce key (
          save k row k.promise
          ∷ ordered
          ∷ save k (record row { external_ref = ext }) k.promise
          ∷ debited
          ∷ save k b p
          ∷ [])
  ends-IsOnce ext b p same = (
    added,
    (tt, (key_added key k.attempts _ own, (tt, (key_added key k.attempts b (rw same own), tt)))),
    omega arith,
  )

  debit-IsOnce : (order_id : Option String) → IsOnce key (debit i k row order_id).1
  unfolding debit
  debit-IsOnce none = (added, (key_added key k.attempts _ own, tt), omega arith)
  debit-IsOnce (some o) = elim (Bool-cases i.came_back) [
    | inl e ↦ rw e (ends-IsOnce (some o) _ (charged_promise i.now k.promise) refl)
    | inr e ↦ rw e (ends-IsOnce (some o) _ k.promise refl)
  ]

  judged-IsOnce : {F : Type 0} (g : GuardrailResult F) → IsOnceDone key (debit_judged i k row g)
  unfolding debit_judged
  judged-IsOnce g = elim (Bool-cases g.passed) [
    | inl p ↦ elim (Bool-cases i.raced) [
      | inl r ↦ rw (p, r) tt
      | inr r ↦ rw (p, r) (debit-IsOnce i.order_id)
    ]
    | inr p ↦ elim (Bool-cases i.raced) [
      | inl r ↦ rw (p, r) tt
      | inr r ↦ rw (p, r) (key_added key k.attempts _ own, tt, omega arith)
    ]
  ]

  done-left :
      (v : Option (ChargeOutcome × List Act)) (n : ℕ)
      → IsOnceDone key v
      → attempt_exists key k.attempts ≡ false
      → debits (done_by n v) + debits_left key (persisted k (done_by n v)) ≤ debits_left key k
  done-left none n h e = omega arith
  done-left (some (o, acts)) n h e = once-left key n acts k h e

  -- A sweep spends the debit that is left, at most, wherever it dies.
  checked-left :
      {F : Type 0} (r : Option StopReason) (taken : Bool) (v : Option (GuardrailResult F)) (n : ℕ)
      → attempt_exists key k.attempts ≡ taken
      → let acts = done_by n (debit_checked i k row r taken v) in
        debits acts + debits_left key (persisted k acts) ≤ debits_left key k
  unfolding debit_checked
  checked-left (some r) taken v zero e = omega arith
  checked-left (some r) taken v (suc n) e = omega arith
  checked-left none true v zero e = omega arith
  checked-left none true v (suc n) e = omega arith
  checked-left none false none n e = omega arith
  checked-left none false (some g) n e = done-left _ n (judged-IsOnce g) e

module _ (host : Host) (cfg : Settings) (key : String) where
  try-left :
      (t : Try) (k : Kept)
      → let acts = try_done host cfg key t k in
        debits acts + debits_left key (persisted k acts) ≤ debits_left key k
  unfolding charge_promise_mandate debit_row make_attempt
  try-left t k =
      checked-left key t.inputs k (debit_row key t.inputs t.case_now) (eq_refl key) _ _ _ t.cut refl

  others-left :
      (t : Try) (k : Kept) → debits_left key (with_others host cfg key t k) ≤ debits_left key k
  others-left t k = elim (Bool-cases (attempt_exists key k.attempts)) [
    | inl e ↦ rw (key_kept key k.attempts t.others e) (omega arith)
    | inr e ↦ rw e (ground arith)
  ]

  -- One promise, one debit: however many sweeps try to debit a promise, whatever each reads,
  -- whichever rows others commit in between, and after whichever of its commits and calls each
  -- process dies, all of them together ask the gateway for at most one debit, and for none where
  -- the key of the debit was taken before the first.
  pub sweeps_debit_once :
      (ts : List Try) (k : Kept)
      → sweep_debits host cfg key ts k ≤ (if attempt_exists key k.attempts then 0 else 1)
  sweeps_debit_once [] k = omega arith
  sweeps_debit_once (t ∷ ts) k =
      let k1 = with_others host cfg key t k in
      omega (
        arith,
        try-left t k1,
        others-left t k,
        sweeps_debit_once ts (persisted k1 (try_done host cfg key t k1)),
      )

acts_eq :
    (o o' : ChargeOutcome) (xs ys : List Act)
    → ◌≡◌ {A = Option (ChargeOutcome × List Act)} (some (o, xs)) (some (o', ys))
    → xs ≡ ys
acts_eq o o' xs ys e = cc

module _ (key : String) (i : DebitInputs) (k : Kept) (row : RetryAttempt)
    (own : str_eq row.idempotency_key key ≡ true) where
  debit-ne-refused :
      (order_id : Option String) (acts : List Act)
      → debit i k row order_id ≢ (skipped_guardrail, acts)
  unfolding debit
  debit-ne-refused none acts e = cc
  debit-ne-refused (some o) acts e = ground arith

  refused-claimed :
      {F : Type 0} (r : Option StopReason) (taken : Bool) (v : Option (GuardrailResult F))
      (acts : List Act)
      → debit_checked i k row r taken v ≡ some (skipped_guardrail, acts)
      → attempt_exists key (persisted k acts).attempts ≡ true
  unfolding debit_checked debit_judged
  refused-claimed (some r) taken v acts e = cc
  refused-claimed none true v acts e = cc
  refused-claimed none false none acts e = cc
  refused-claimed none false (some g) acts e = elim (Bool-cases g.passed) [
    | inl p ↦ elim (Bool-cases i.raced) [
      | inl r ↦ let e' = (rw (p, r) at e) in cc
      | inr r ↦ let e' = (rw (p, r) at e) in absurd (debit-ne-refused i.order_id acts (cc))
    ]
    | inr p ↦ elim (Bool-cases i.raced) [
      | inl r ↦ let e' = (rw (p, r) at e) in cc
      | inr r ↦
          let e' = (rw (p, r) at e) in
          rw (sym (acts_eq _ _ _ acts e')) (key_added key k.attempts _ own)
    ]
  ]

-- A debit that the guardrail once refuses is never made, whatever the reason of the refusal: the
-- refused attempt keeps the debit's key, so none of the sweeps after it, whenever they run and
-- whatever they read, asks the gateway for the money.
pub charge_refused_for_good :
    (host : Host) (cfg : Settings) (key : String) (i : DebitInputs) (c : RecoveryCase) (k : Kept)
    (acts : List Act) (ts : List Try)
    → charge_promise_mandate host cfg key i c k ≡ some (skipped_guardrail, acts)
    → sweep_debits host cfg key ts (persisted k acts) ≡ 0
unfolding charge_promise_mandate debit_row make_attempt
charge_refused_for_good host cfg key i c k acts ts e =
    let claimed = refused-claimed key i k (debit_row key i c) (eq_refl key) _ _ _ acts e in
    ground (arith, sweeps_debit_once host cfg key ts (persisted k acts))
