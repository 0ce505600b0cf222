-- ===== src/Cases/Deferral.antt =====
-- What a promise buys and when it ends (src/cases.py).
use payment_recovery_engine.Prelude.{
  ℕ, ◌+◌, ◌-◌, ◌≤◌, ◌<◌, String, Bool, true, false, ◌&&◌, not, Option, none, some, List, [], ◌∷◌,
  ◌++◌, keep, length, inl, inr, leb, ◌⊎◌, ◌==◌, Bool-cases, ◌≡◌, refl, ap, ◌∙◌, arith,
}
use payment_recovery_engine.Clock.{days}
use payment_recovery_engine.Settings.{Settings}
use payment_recovery_engine.Cases.Model.{
  RecoveryCase, PromiseToPay, Channel, EventType, Store, log_event, put_case, replace,
}
use payment_recovery_engine.Cases.Promises
use payment_recovery_engine.Cases.Capture.{Match, credit, credited, settle, supersede_all}
use payment_recovery_engine.Cases.Promises.{
  Resolution, is_pending, is_broken, is_plan, is_open_promise_of, prior_promises, cap_reached,
  beyond_horizon, new_promise, record_promise, resolve_one, resolve_rows, resolve_promises,
  log_each, status_of, event_of, later_of,
}

-- The promise's case waits for the promise's date, and for what was scheduled before if that is
-- later.
abbrev pub IsLater : Option ℕ → ℕ → ℕ → Type 0
IsLater none due t = t ≡ due
IsLater (some u) due t = (due ≤ t) × (u ≤ t) × ((t ≡ due) ⊎ (t ≡ u))

later_of-IsLater : (o : Option ℕ) (due : ℕ) → IsLater o due (later_of o due)
later_of-IsLater none due = refl
later_of-IsLater (some u) due = (omega arith, omega arith, ground arith)

-- A refusal leaves the rows of the cases and of the promises. A promise that is recorded is the
-- one row added, of the amount, date and channel asked for, and pending; its case waits; and unless it is an instalment of a plan, its date
-- is inside the horizon and its case had room for it.
abbrev pub IsRecorded :
    Settings
    → ℕ
    → RecoveryCase
    → ℕ
    → ℕ
    → Option Channel
    → Store
    → Store × Option PromiseToPay
    → Type 0
IsRecorded cfg now c amount due channel s (s', none) =
    (s'.cases ≡ s.cases) × (s'.promises ≡ s.promises) × (is_plan channel ≡ false)
IsRecorded cfg now c amount due channel s (s', some p) =
    (t : ℕ) × IsLater c.next_action_at due t
    × (s'.cases ≡ replace (record c { next_action_at = some t }) s.cases)
    × (s'.promises ≡ s.promises ++ p ∷ [])
    × (is_open_promise_of c.id p ≡ true)
    × (p.amount_promised ≡ amount)
    × (p.due_at ≡ due)
    × (p.channel ≡ channel)
    × ((is_plan channel ≡ true)
        ⊎ ((due ≤ now + days cfg.promise_max_horizon_days)
            × (length (prior_promises c.id s.promises) < cfg.max_promises_per_case)
            × (length (keep (λ q. is_broken q.status) (prior_promises c.id s.promises))
                < cfg.max_promises_per_case - 1)))

serial : (plan b : Bool) → not plan && b ≡ true → plan ≡ false
serial plan b h = ground arith

open-test : (plan b : Bool) → not plan && b ≡ false → plan ≡ false → b ≡ false
open-test plan b h e = ground arith

self : (i : ℕ) → (i == i) && true ≡ true
self i = ground arith

inside :
    (cfg : Settings) (now due : ℕ)
    → beyond_horizon cfg now due ≡ false
    → due ≤ now + days cfg.promise_max_horizon_days
unfolding beyond_horizon
inside cfg now due h = ground arith

room :
    (cfg : Settings) (prior : List PromiseToPay)
    → cap_reached cfg prior ≡ false
    → (length prior < cfg.max_promises_per_case)
      × (length (keep (λ q. is_broken q.status) prior) < cfg.max_promises_per_case - 1)
unfolding cap_reached
room cfg prior h = ground arith

-- Recording a promise either refuses it, and then the promise is no instalment of a plan and the
-- rows of the cases and the promises stay; or adds it as a pending row of the amount, date and
-- channel asked for, and makes its case wait for the later of its date and what was scheduled; and then, unless it is an instalment,
-- its date is inside the horizon and the case's counted promises were below both caps.
pub record_promise-IsRecorded :
    (cfg : Settings) (now fresh_id : ℕ) (c : RecoveryCase) (amount due : ℕ)
    (channel : Option Channel) (s : Store)
    → IsRecorded cfg now c amount due channel s
        (record_promise cfg now fresh_id c amount due channel s)
unfolding record_promise log_event put_case new_promise
record_promise-IsRecorded cfg now fresh_id c amount due channel s =
    elim (Bool-cases (not (is_plan channel) && beyond_horizon cfg now due)) [
      | inl e ↦ rw (e, record_promise) (refl, refl, serial (is_plan channel) _ e)
      | inr e ↦
          rw (e, record_promise)
            (elim (Bool-cases (not (is_plan channel) && capped)) [
              | inl e' ↦ rw e' (refl, refl, serial (is_plan channel) _ e')
              | inr e' ↦ rw e' (
                later_of c.next_action_at due,
                later_of-IsLater c.next_action_at due,
                refl,
                refl,
                self c.id,
                refl,
                refl,
                refl,
                serial_room (Bool-cases (is_plan channel)) e e',
              )
            ])
    ]
  where
    capped : Bool
    capped = cap_reached cfg (prior_promises c.id s.promises)

    serial_room :
        (is_plan channel ≡ true) ⊎ (is_plan channel ≡ false)
        → not (is_plan channel) && beyond_horizon cfg now due ≡ false
        → not (is_plan channel) && capped ≡ false
        → (is_plan channel ≡ true)
          ⊎ ((due ≤ now + days cfg.promise_max_horizon_days)
              × (length (prior_promises c.id s.promises) < cfg.max_promises_per_case)
              × (length (keep (λ q. is_broken q.status) (prior_promises c.id s.promises))
                  < cfg.max_promises_per_case - 1))
    serial_room (inl q) e e' = inl q
    serial_room (inr q) e e' =
        let (total, broken) = room cfg _ (open-test (is_plan channel) _ e' q) in
        inr (inside cfg now due (open-test (is_plan channel) _ e q), total, broken)

-- A list of promises that mentions no case's pending promise but others', and how a resolution
-- changes it.
pub resolve_rows-none :
    (how : Resolution) (ref : Option String) (now case_id : ℕ) (ps : List PromiseToPay)
    → keep (is_open_promise_of case_id) (resolve_rows how ref now case_id ps) ≡ []
unfolding resolve_one
resolve_rows-none how ref now case_id [] = refl
resolve_rows-none how ref now case_id (p ∷ ps) = elim (Bool-cases (is_open_promise_of case_id p)) [
  | inl e ↦ rw e (rw (closed how) (resolve_rows-none how ref now case_id ps))
  | inr e ↦ rw e (rw e (resolve_rows-none how ref now case_id ps))
]
  where
    closed : (h : Resolution) → (p.recovery_case_id == case_id && is_pending (status_of h)) ≡ false
    closed h = ground arith

elsewhere :
    (i case_id j : ℕ) (b b' : Bool)
    → (i == case_id) && b ≡ true
    → (j == case_id) ≡ false
    → (i == j) && b' ≡ false
elsewhere i case_id j b b' h h' = ground arith

resolve_rows-others :
    (how : Resolution) (ref : Option String) (now case_id j : ℕ) (ps : List PromiseToPay)
    → (j == case_id) ≡ false
    → keep (is_open_promise_of j) (resolve_rows how ref now case_id ps)
      ≡ keep (is_open_promise_of j) ps
unfolding resolve_one
resolve_rows-others how ref now case_id j [] h = refl
resolve_rows-others how ref now case_id j (p ∷ ps) h =
    elim (Bool-cases (is_open_promise_of case_id p)) [
      | inl e ↦ rw e (
          rw (elsewhere p.recovery_case_id case_id j _ (is_pending (status_of how)) e h) (
            rw (elsewhere p.recovery_case_id case_id j _ (is_pending p.status) e h)
              (resolve_rows-others how ref now case_id j ps h)))
      | inr e ↦ rw e (rw (resolve_rows-others how ref now case_id j ps h) refl)
    ]

log_each-promises :
    (case_id : ℕ) (event : ℕ → EventType) (ps : List PromiseToPay) (s : Store)
    → (log_each case_id event ps s).promises ≡ s.promises
unfolding log_each log_event
log_each-promises case_id event [] s = refl
log_each-promises case_id event (p ∷ ps) s = log_each-promises case_id event ps _

-- Resolving a case's promises leaves it no pending one, returns how many it had, and leaves the
-- pending promises of every other case.
pub resolve_promises_none_pending :
    (how : Resolution) (ref : Option String) (now case_id j : ℕ) (s : Store)
    → (j == case_id) ≡ false
    → (keep (is_open_promise_of case_id) (resolve_promises how ref now case_id s).0.promises ≡ [])
      × ((resolve_promises how ref now case_id s).1
          ≡ length (keep (is_open_promise_of case_id) s.promises))
      × (keep (is_open_promise_of j) (resolve_promises how ref now case_id s).0.promises
          ≡ keep (is_open_promise_of j) s.promises)
unfolding resolve_promises
resolve_promises_none_pending how ref now case_id j s h =
    let e =
      log_each-promises case_id (event_of how) (keep (is_open_promise_of case_id) s.promises)
        (record s { promises = resolve_rows how ref now case_id s.promises }) in
    (
      ap (keep (is_open_promise_of case_id)) e ∙ resolve_rows-none how ref now case_id s.promises,
      refl,
      ap (keep (is_open_promise_of j)) e ∙ resolve_rows-others how ref now case_id j s.promises h,
    )

later-ne : (i : ℕ) → (i + 1 == i) ≡ false
later-ne i = ground arith

-- After a credit to a case, in full or in part, the case has no pending promise.
pub credit-none_pending :
    (now amount : ℕ) (ref : String) (m : Match) (s : Store)
    → keep (is_open_promise_of m.case.id) (credit now amount ref m s).promises ≡ []
unfolding credit supersede_all settle put_case log_event credited
credit-none_pending now amount ref m s =
    elim (Bool-cases (leb m.case.amount_at_risk (m.case.amount_recovered + amount))) [
      | inl e ↦ rw e (kept _)
      | inr e ↦ rw e (kept _)
    ]
  where
    kept :
        (s : Store)
        → keep
            (is_open_promise_of m.case.id)
            (resolve_promises Promises.kept (some ref) now m.case.id s).0.promises
          ≡ []
    kept s =
        (resolve_promises_none_pending Promises.kept (some ref) now m.case.id (m.case.id + 1) s
          (later-ne m.case.id)).0
