-- ===== src/Lib.antt =====
-- Ticketguy, the concierge that reads a customer's email, researches tickets and answers by mail:
-- a verification library of its deterministic core.
--
-- The program and its model. An email becomes rows of a transactional outbox, which workers lease
-- and process; research compares offers, builds a historical benchmark and decides whether to buy
-- or wait; the answer becomes a send intent, which the dispatcher claims, puts through the send
-- gate and submits to the mail provider, whose reports come back out of order; watches alert on
-- later price drops.
-- - Outbox: lib/intake/outbox.ts with the table outbox_events of lib/db/schema.ts. A table is a
--   list of rows; enqueueOutbox, leaseDueOutbox, markDispatched, markFailed and replayDead are the
--   functions of the same names, from the table to the table and the answer; drop_removed is what
--   removeRequests of lib/admin/remove-requests.ts does to the table. Outbox/Lifecycle has
--   the step relation of the operations and what all reachable tables have, Outbox/Leases and
--   Outbox/Retries the single operations.
--   Outbox/Health has the counters.
-- - SendGate: evaluateGate of lib/email/send-gate.ts, its reasons in the order of the pushes;
--   SendGate/Switches has the rows of the kill switches.
-- - Suppression: lib/domain/suppression.ts; Suppression/Effects follows its rows into the gate.
-- - Reconcile: lib/email/reconcile.ts, the sweep for lost mail, a client of Outbox.
-- - Budget: lib/ai/budget.ts with the table usage_ledger.
-- - SendIntents: lib/email/send-intents.ts with the table send_intents.
-- - Dispatch: dispatchSend of lib/intake/pipeline.ts, the client of the two before. The input of the
--   gate is made of the intent; what the method reads from other tables (approvals, freshness,
--   policy, test mode) and the provider's reply are the record Facts, so that the theorems hold
--   whatever those reads and the provider answer.
-- - Money, Freshness, Watches, EventLifecycle: lib/domain/money.ts, lib/domain/freshness.ts,
--   lib/domain/watches.ts, lib/domain/event-lifecycle.ts.
-- - Comparison: lib/domain/comparison.ts with the types of lib/domain/types.ts.
-- - Benchmark: lib/advice/benchmark.ts; Benchmark/Compute is the loop of computeBenchmark.
-- - Policy: lib/advice/policy.ts; Policy/Decide is decide.
-- - Trend: lib/advice/trend.ts; Trend/Finish is finishTrend, and to_summary there is what the
--   policy reads of a trend.
-- - ServiceDepth: lib/domain/service-depth.ts; ServiceDepth/Policy is resolveServicePolicy,
--   ServiceDepth/Capability is evaluateOperationCapability, and ServiceDepth/Snapshot and
--   ServiceDepth/Gate are lib/intake/service-policy.ts, the clients of both.
-- - Sourcing: lib/sources/routing.ts; Sourcing/Plan is planSources.
-- - Images: lib/media/image-validation.ts, over the bytes of a file; Images/Inspect is inspectImage.
-- - Market: lib/market/series.ts; Market/Past has the past events, Market/Context is
--   computeMarketContext.
-- - Tracker: lib/market/tracker.ts; the allowance of paid calls with the table market_fetches,
--   Tracker/Day a day of its operations, and in Tracker/Rows the rows of tracked_events.
-- - Rollout: lib/intake/reconcile-service-depth.ts, a client of ServiceDepth and Tracker: the plan of
--   what enforcing the policy ends, and in Rollout/Apply its application.
--   (All paths stand under src/.)
-- - Prelude: the names, lists, signed integers, stable sorting, pushes and tables that they share.
--
-- Choices. Instants are milliseconds since the epoch and amounts whole cents, both natural
-- numbers; a difference that may be negative is an integer of Prelude/Int. One SQL statement is
-- one atomic function on the table; interleavings of workers are sequences of such steps. What the
-- database or the runtime chooses (new ids, lease and claim tokens, the rows that another
-- transaction has locked, the random part of a backoff, hashes, letter case, string collation) is
-- an argument. A byte is a natural number, and a read outside a file is none.
-- Every loop is structural recursion over a list, but for the walk over the segments of a JPEG,
-- which runs on fuel: as many rounds as the file has bytes and one more. A round moves on by two
-- bytes at least, and running out of fuel counts as an exception.
--
-- Not modelled: the language-model calls, the mail and market adapters, the web pages and admin,
-- authentication, template rendering, and the parts of the intake pipeline that only call these;
-- amounts shown to a customer are not formatted here (formatUsd, percentChange).
mod Prelude
pub mod Outbox
pub mod Reconcile
pub mod SendGate
pub mod SendIntents
pub mod Suppression
pub mod Dispatch
pub mod Money
pub mod EventLifecycle
pub mod Freshness
pub mod Watches
pub mod Comparison
pub mod Budget
pub mod Benchmark
pub mod Trend
pub mod Policy
pub mod ServiceDepth
pub mod Images
pub mod Rollout
pub mod Sourcing
pub mod Market
pub mod Tracker
