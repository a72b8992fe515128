-- ===== src/Lib.antt =====
-- Verification of WinBack AI: the campaign dispatch, the scoring of customers, the outbox, the ingest of
-- orders, the redactions and the client and backfill of Shopify.
--
-- Parts of the program, and how they interact
-- ------------------------------------------
-- The scheduler's sweep (apps/scheduler/src/handlers/dispatch-sweep.ts) finds drafts to send and
-- deferred targets, and enqueues dispatch jobs. The dispatch worker
-- (apps/drainer/src/workers/dispatch.worker.ts) runs each job: it claims the target, asks the gate
-- chain (apps/drainer/src/dispatch), and sends through the e-mail provider, by the transitions of
-- packages/db/src/repositories/campaign.repository.ts. The drainer (apps/drainer/src/drainer.ts)
-- claims events of the outbox (packages/db/src/repositories/outbox.repository.ts) and hands them to
-- handlers. Customers are scored by packages/db/src/services/scoring-math.ts, which
-- packages/db/src/services/customer-score.service.ts runs for one customer or for all of them; a
-- change of a customer's state is announced in the outbox. Its handler
-- (apps/drainer/src/handlers/customer-state-changed.ts) creates a generation and a draft and
-- enqueues a job, and apps/drainer/src/workers/ai-generate.worker.ts fills the draft in. Orders, customers,
-- uninstalls and redactions arrive as events of the outbox too: their handlers call
-- packages/db/src/repositories (order, customer, merchant) and packages/db/src/compliance. At an install,
-- packages/shopify/src/backfill reads all customers by pages with the client of packages/shopify/src/admin,
-- which waits for the rate limit of Shopify. Queries pass the hooks of packages/db/src/extensions.
--
-- Files
-- -----
-- Base       shared names: tests on numbers, lists, tables by key, sorting, counting
-- Store      the tables of one merchant that dispatch uses (packages/db/prisma/schema.prisma)
-- Campaign   claimTarget, resolveTerminal, startSending, revertToPending, deferTarget
-- Completion markSentWithQuota and getQuotaUsage, a transaction as a function on the tables
-- Gates      runGateChain, isWithinSendWindow, loadDispatchContext and the reads they make
-- Worker     processCampaignDispatchJob and handleSesError: one pass from a job and a state of the
--            tables to the next state, the e-mails accepted and how the pass ended
-- Sweep      findDispatchableDrafts, findDeferredTargets and the pass over one merchant
-- Scoring    every function of scoring-math.ts
-- Rescore    customer-score.service.ts with the cohort and the upsert of the score repository: the
--            passes over all customers by pages, and recompute for one
-- Generation customer-state-changed.ts, ai-generate.worker.ts, and what they use: the cost table, the
--            hourly counter in Redis, the generations, the drafts and the spend buckets
-- Outbox     every operation of outbox.repository.ts, with the tests of the tenant scope
-- Drainer    runDrainTick, dispatchEvent's routing, MARK_BEFORE_INVOKE_EVENTS, isRetryable
-- Operator   replayEvent and forceDeadLetter of apps/cli/src/commands
-- Tenancy    packages/db/src/extensions/hooks.ts with the sets of models of tenant-scope.ts: the queries that
--            a tenant scope changes or refuses
-- AiTone     packages/contracts/src/ai-tone.ts: the schema of a tone, which the hooks of Tenancy apply
-- Gid        packages/db/src/gid.ts
-- Customers  customer.repository.ts: the upsert of a webhook, the soft deletion and the lookup
-- Compliance packages/db/src/compliance/gdpr-processor.ts: the redaction of a customer and of a shop, on
--            the tables of all merchants
-- Money      packages/db/src/money.ts
-- Orders     upsertFromWebhook of order.repository.ts, for one merchant: the order and its line items
-- Merchants  merchant.repository.ts and the handler of merchant.uninstalled
-- Throttle   cost-tracker.ts and client.ts of packages/shopify/src/admin
-- Backfill   packages/shopify/src/backfill/runner.ts with backfill-job.repository.ts
-- Examples   concrete states and runs
--
-- Conventions
-- -----------
-- Ids and times are natural numbers, times in milliseconds. A table is a list of rows, and a
-- statement that reads and writes rows is a function on it; a transaction that fails leaves the
-- tables as they were. Statements of two workers do not overlap within a function. What lies
-- outside the repository is a parameter: the time zone database and calendar (Gates.Runtime), the
-- e-mail provider, database faults and crashes (Worker.PassEnv), the AI provider, the minting of
-- discounts and the other workers (Generation.Job.JobEnv), the handlers of events and the row
-- locks of other replicas (Drainer.Bound.TickEnv). Most loops are recursions on lists;
-- the retries of the completion count down from COMPLETION_TX_RETRIES, the attempts of the client from its
-- limit and the pages of a backfill from MAX_PAGES_HARD_LIMIT, as in the source. The loop over pages in
-- Rescore has fuel for one page more than there are customers, which is proved to be enough: each page but
-- the last takes at least one customer off those that are left. So has the loop over chunks in
-- Compliance.ShopRedact for the rows of its table. Subtractions of
-- times stop at 0, where the source goes below it only before the epoch. The churn risk is kept
-- in fifteenths. The levels of Throttle are exact, where the code rounds doubles.
--
-- Not modelled
-- ------------
-- Logging, the queue, the web application, the other calls of the Shopify API, cryptography and configuration,
-- which are input, output or glue; the other event handlers, the text of the prompts and its
-- discount tokens, the store of the tenant scope, the backfill command, the titles of recent purchases and
-- a crash between two chunks of a redaction.
mod Base
pub mod Store
pub mod Campaign
pub mod Completion
pub mod Gates
pub mod Worker
pub mod Sweep
pub mod Scoring
pub mod Rescore
pub mod Generation
pub mod Outbox
pub mod Tenancy
pub mod Gid
pub mod AiTone
pub mod Customers
pub mod Drainer
pub mod Operator
mod Examples
pub mod Compliance
pub mod Throttle
pub mod Backfill
pub mod Money
pub mod Orders
pub mod Merchants
