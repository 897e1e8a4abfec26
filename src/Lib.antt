-- ===== src/Lib.antt =====
-- LLMMaxxing: the admission, fair-queue and routing core of a single-process gateway in front of
-- LiteLLM (src/llmmaxxing), as executable definitions with the theorems that make it correct.
--
-- Parts and files:
--   Base: Python's dict, list and result idioms over the native numbers, and their lemmas.
--   Core/Ids, Core/Reasons, Core/StateMachines, Core/Models/*: the pure types of
--     src/llmmaxxing/core (ids.py, reasons.py, state_machines.py, models.py). A typed id stands for the
--     number that its hexadecimal body spells, which carries the two things that the program does
--     with ids: `==` and the order of their texts.
--   Gateway/Queue: `WDRRQueue` of src/llmmaxxing/gateway/scheduler.py. `Queue/Entries` has the entries
--     and the fairness state, `Queue/Choice` the steps of `propose`, `Queue` the operations. A method
--     that mutates the queue returns the new queue; one that raises returns a `Result`.
--
--   Core/Models/Accounts: `QuotaDimension` and `ProviderAccount` with their validators.
--   Gateway/Runtime: `AccountRuntime` of src/llmmaxxing/gateway/runtime_state.py. `Runtime/State` has
--     its tables and upkeep, `Guards` and `Quotas` the tests of `try_reserve` in their order,
--     `Reserve`, `Leases` and `Recovery` the operations. An operation takes the clock's reading and a
--     `Journal`, the record of what the attempt journal answers to each call, and returns the state
--     that it leaves with what it returns or raises.
--
--   Gateway/Permits: `AttemptPermitPool` of src/llmmaxxing/gateway/streaming.py, its coroutines cut at
--     the points where they can be suspended, with the relation of all their interleavings.
--
--   Gateway/Budget: `AttemptBudget` of src/llmmaxxing/gateway/routing.py, with the candidates that it
--     is asked about.
--   Core/Models/{Keys, Routes, Ceilings, Bundles}: key records, route groups, policies, the ceiling of
--     an admitted request and the bundle, with their validators.
--   Gateway/Routing: the rest of that file but the circuits. `Routing` has the emergency windows and
--     the test of capabilities, `Classifier` the classification of a failure, `Engine` the tables of
--     `RouteEngine` and `authorize`, `Eligible` the choice of a leg, `Blocked` the cause for which the
--     primary leg is blocked. `Needs` and `Fit` say what an eligible leg is without the code's tests. The generation gate and the hashes are parameters.
--   Gateway/Breaker: `CircuitController`, over the account's runtime that it swaps circuits in. What
--     SHA-256 adds to the backoff and the fresh token of a probe are parameters. `Breaker/Follows` has
--     the steps that a circuit may take, as a relation.
--   Gateway/Auth: the recheck of a waiting request's identity, of src/llmmaxxing/gateway/auth.py.
--   Gateway/Admission: `AdmissionController` of src/llmmaxxing/gateway/scheduler.py, over the queue, the
--     route engine and the budget. `Admission` has its state, `acquire` up to the pump and the renewed
--     authorization, `Pump` the previews, one turn up to the reservation that it asks for and what a
--     denial does, `Grant` what a grant does. What the code reads from outside at one point (clock,
--     auth view, runtime view) is one `Moment`.
--   Gateway/Owner: the publication of a bundle's accounts by `RuntimeState` of
--     src/llmmaxxing/gateway/runtime_state.py. The digests of bindings and credentials, and what
--     restoring a dormant account does, are parameters. Owner/Operational is the view of all accounts
--     and the owner's `try_reserve`.
--   Gateway/Fixtures: concrete data for the tests and the witnesses.
--
-- An exception is a value of `Failure`, one constructor for each exception class. The sets that a
-- method only tests for membership are lists, and a loop over a collection is a recursion on it.
--
-- Not modelled: of `RuntimeState` the recovery of records, the journal's hash chain and its checks of
-- a payload (what an append raises is a value), shadow dispatch and the lease that the pump hands
-- out, the verification of a presented key, activation and the control plane; and, as I/O, HTTP, SQL,
-- files, threads and clocks (a clock's reading is an argument), message shapes, and the certified
-- third-party adapters.
pub mod Base
pub mod Core
pub mod Gateway
