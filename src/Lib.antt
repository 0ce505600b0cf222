-- ===== src/Lib.antt =====
-- The payment recovery engine: a webhook reports a failed payment, a classifier names the
-- failure, an agent proposes an action, a guardrail decides whether it may be taken, an executor
-- takes it, and a case keeps the account of attempts, promises and money until it closes. This
-- library models the decisions and the books; gateways, language models, telephony, pages and
-- the database driver are outside it.
--
-- The modules and the code they model:
-- - Prelude: the shared names, lists over the native numbers, Boolean tests and integers.
-- - Clock: times as microseconds from Python's datetime.min. An aware time is its UTC instant; a
--   naive one is kept apart where the code tells them apart. India is UTC+5:30.
-- - Settings: the thresholds of src/config.py that the rules read. Each theorem holds for every
--   value of them, unless it says otherwise.
-- - Actions: ActionType, PaymentRail, RetryAction and FailureContext of src/agent/actions.py.
--   The record Host stands for what Python itself supplies: floating-point numbers, with the
--   test of a product against a cost, and the Unicode text methods.
-- - Classifier: src/classifier/taxonomy.py (Taxonomy) and ClassifierMapper of
--   src/classifier/mapper.py (Mapper), over rules as YAML parsing gives them; Priority says
--   which rule answers.
-- - Guardrail: the rules of src/guardrail/rules.py (Rules, Blackout), the gate of
--   src/guardrail/gate.py with the schema check of src/guardrail/schemas.py (Gate), and the
--   texts of the refusals as src/merchant/console_data.py matches them (Reasons). A call that
--   raises is none. Meaning and Permission relate the gate to a policy that is stated without
--   it; Roster relates it to the roster that the console shows; SelfServe is about a customer's
--   own payment.
-- - Routing: select_alternative_rail and resolve_target_rail of src/executor/rail_selector.py
--   (Rails) and is_down of src/downtime.py (Downtime); Choice says what they choose.
-- - Chasers: policy_for of src/chasers/policy.py.
-- - Receivables: the ladder and the business hours of src/receivables/ladder.py (Ladder, Hours,
--   Ratchet), the law on a payment plan's shape of src/receivables/plans.py (Plans, PlanShape),
--   the life of a plan from create_plan to reconcile_plans (PlanLife, PlanVerdict, with
--   PlanInstalments, PlanOpening, PlanOnce and PlanJudged on what they do), payments outside the
--   gateway of src/receivables/external.py (External, ExternalOnce), the aging table of
--   src/receivables/aging.py (Aging), and the disputes of src/receivables/disputes.py (Disputes,
--   OneDispute). The scan of next_b2b_window runs for three days of minutes, as the code's loop
--   does; a weekend is shorter, so the end of the loop is never reached.
-- - Orchestrator: the chase of a case, src/orchestrator.py, and the firing of an attempt that
--   was put off, src/scheduler.py. Window keeps the customer's counters; Context makes what the
--   gate reads and changes the agent's action as chase_case does; Execution is the write-ahead
--   call of the gateway and the ladder after it; Chase composes them as chase_case does, Payment
--   as process_payment_failure does, and Fire and FirePayment as _fire_case_attempt and
--   _fire_one do. Mandate is charge_promise_mandate, the debit of a mandate on a promise's day,
--   with the list of its commits and calls, and charge_due_promises of src/scheduler.py for one
--   promise; MandateSafety, MandateOnce and MandateSweep say when it takes money, how often,
--   over sweeps that may die after any commit or call, and what it leaves. FirmStop is the test
--   of both a debit and a reminder on the text of a stop, which reads the close reason of a
--   closed case too. Reminder is send_promise_reminder, which may contact a customer before a
--   promise's day; ReminderSafety says when it does, and ReminderRefused what a refusal does to
--   the promise's silence. Claims has the claim of fire_due_retries and the sweep
--   reconcile_stale_attempts as steps of several processes at one row, which may die between any
--   two of them; ClaimSafety counts the calls of the gateway. The agent's decision, the
--   gateway's answer and what the database gives on a second reading are inputs of a step. An
--   Outcome lists the commits, the decision and the calls of the gateway in their order; an
--   exception is none. Guards, Safety, PaymentSafety and Freeze say when the gateway is called,
--   Progress and Budget what a chase does to its case, FireTime and FirePaymentTime what holds
--   at a firing.
-- - Ingestion: receive_razorpay_webhook of src/ingestion/router.py with the signature and the
--   deduplication beside it (Receive), and rearm with the sweep _reconcile_sweep of
--   src/scheduler.py (Sweep). The record Web stands for hmac, hashlib and json; the handling of
--   an event is a parameter, which may do its work, raise, or take the process with it, and
--   commits as it goes. Prune is prune_processed_events. Once says what a request may write,
--   Resent how often an event is stored while the table of the processed events is pruned;
--   Chances, Batch and Drain that the sweeps come to an end; Lost is about an event whose
--   handling dies. The sweeps of a theorem are a list, so no fuel is chosen for them.
-- - RateLimit: check of src/rate_limit.py where it counts in the process; the clock is a count
--   of a unit that is left open, and the window one for all calls. Window and Buckets have the
--   lemmas, Bound the limit. Where Redis counts, the limiter is Redis.
-- - RecoveryLink: src/recovery_link.py. A text is the list of its characters' codes; the record
--   Codec stands for base64, hmac, uuid, int and the range of datetime, and IsCodec says what
--   the code relies on, for ASCII texts and for times before the year 10000. The account's and
--   the customer's links are one pair of operations with the scope as an argument. Scope says
--   what a verification accepts.
-- - AuditChain: src/audit_chain.py. The keyed hash of a previous hash and a row's canonical text
--   is a parameter, as is the hash that starts a chain; a trail is the list of its rows in the
--   order of their ids.
-- - Cases: src/cases.py over the rows of src/models.py. Model has the rows and the store that
--   the database session stands for; Lifecycle opens, bounds and closes a case; Promises
--   records, resolves and expires promises; Capture is attribute_capture; OptOut is
--   record_opt_out, with the keys of the customer as an argument. Where the code changes an
--   object of the session, the model replaces the row with the same id. Found, Credit and
--   Withdrawal are lemmas; Audit, Replay, Stops, Silence, Deferral, NullChannel and Expiry say
--   what the operations guarantee.
--
-- The parts interact as in the code: attribute_capture closes cases and resolves promises,
-- expire_promises asks the ladder for the next rung, attach_attempt asks the chase policies for
-- a cart's window, the gate reads the taxonomy, and a chase asks the stopping rules, the gate
-- and the hours of business before it spends an attempt. The parameters of an operation that the
-- code takes from its environment are arguments: the clock is now, and the id of a new row is
-- fresh_id. Only recursion on lists and on the loop's own bound is used, so no fuel is chosen.
--
-- Not modelled: the race of two transactions that open one case, the columns that no modelled
-- operation reads, log messages, the executor, the orchestrator's agent, the sweep that picks
-- the promises to remind of, the scheduler's loop and its other sweeps, the ingestion of risk
-- events, the customer's and merchant's pages, messaging and voice, and of the receivables the
-- segments, the accounts, the tasks and the alerts.
pub mod Prelude
pub mod Clock
pub mod Settings
pub mod Classifier
pub mod Actions
pub mod Guardrail
pub mod Routing
pub mod Receivables
pub mod Chasers
pub mod Cases
pub mod AuditChain
pub mod Orchestrator
pub mod RecoveryLink
pub mod Ingestion
pub mod RateLimit
