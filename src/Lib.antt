-- ===== src/Lib.antt =====
-- A verification library for planisfy: the parts of the map platform's server that keep state which
-- must not be lost, doubled or shared, each as a model that runs and the theorems about it.
--
-- The program's parts and how they interact. The public API (apps/api) answers tile, style and
-- routing requests. Every request passes `rateLimitMiddleware` (apps/api/src/middleware/rate-limit.ts),
-- which asks a request limiter, reserves the request's cost in the owner's month by a Redis script,
-- runs the handlers and gives back what was not charged; `usageLogMiddleware` around it logs the cost,
-- and the sum over the logs (apps/api/src/domains/usage/usage-quota.ts) is what the Redis counter is
-- lifted to when its key is lost. Billing events reach the API as webhooks, which the inbox
-- (apps/api/src/domains/billing/webhook-inbox.ts) stores once and applies with leases and retries. The
-- geodata worker (apps/worker-geodata) builds tilesets: it writes the life cycle of its processing job,
-- tileset and upload by apps/worker-geodata/src/domains/jobs/job-lifecycle.ts, and its success by
-- apps/worker-geodata/src/domains/tilesets/tileset-artifacts.ts. It takes its work from
-- the outbox, and imports source data into datasets, both by
-- apps/worker-geodata/src/domains/outbox/outbox-dispatcher.ts; the reconciliation
-- of packages/database/src/jobs/reconciliation.ts fails jobs whose worker is gone. Accounts are
-- suspended, banned and deactivated by packages/database/src/accounts/lifecycle.ts, which revokes what
-- gives them access. Who may do what is decided by packages/utils/src/roles.ts. Styles are edited,
-- restored and published by packages/database/src/styles/service.ts, which the routes and other
-- applications call. Objects are stored under the keys of packages/storage-paths/src/index.ts, and
-- packages/outbound/src/index.ts guards requests to URLs that come from outside.
--
-- The files, and the code that each models:
-- - Common and its children: Boolean tests on the native numbers, lists, parsed JSON, texts, and
--   database tables as lists of rows with their statements. Common/Unique has what a unique index
--   gives, Common/Blank what trimming does to white space, Common/Decimal numbers as digits and back.
-- - Roles: packages/utils/src/roles.ts. A role that arrives is a string or nothing, as in `canOrg`.
-- - Accounts: `setAccountLifecycle` and `deactivateAccount` over the ten tables that they write, the
--   record Directory. A result is an error, with the database as it was, or a value and a database.
-- - Webhook: `acceptDodoWebhookEvent` and `processDueDodoWebhookEvents` over the table
--   billing_webhook_events, a list of WebhookEvent; select_due, claim, finish_event and fail_event are
--   its four statements. Webhook/Claims and Webhook/Race are about several workers, Webhook/Retries
--   about the tries of one event as a step relation.
-- - Jobs: the tables of packages/database/src/schema/geodata.ts as the record Database. Jobs/Lifecycle
--   has the worker's writes under the source's names, Jobs/Finalize the success of a build
--   (`finalizeProcessedArtifact`) and the upload write of `source-worker.ts`, Jobs/Reconcile the
--   reconciliation, and Jobs/Runs sequences of them in any order.
-- - Quota: the evaluation, the durable sum, the warning, and the reservation and return around the two
--   Redis scripts; Redis is out of reach, or the value of one owner's key. Quota/Reservation has the
--   interleavings of reservations and returns as a step relation.
-- - RateLimit: `rateLimitMiddleware` with its headers, and the cost that `usageLogMiddleware` writes.
-- - Keys: the category of a path, what it costs and the scope that it needs, by
--   apps/api/src/domains/keys/api-key.ts; getRequestCost of the request limits charges these prices.
--   Keys/Policy has `evaluateApiKeyPolicy` of the same file; Keys/Policy/Scopes and Keys/Policy/Names
--   describe scopes and named texts without the code's table and tests.
-- - Styles: the revisions and publications of packages/database/src/styles/service.ts over its three
--   tables, the record StyleStore. Styles/History is the abstract view, a list of contents with the
--   newest first; Styles/Revisions and Styles/Restore refine it, Styles/Publishing adds concurrent
--   edits. Styles/Handles and Styles/Creation have the handles and the loop that allocates one.
-- - Paths: `StoragePaths`, `safeSegment` and `parseStoragePath`. A path is a value of StoragePath, its
--   template a list of parts; the patterns read the segments between slashes.
-- - Outbound: Outbound/Allowlist has `parsePrivateAllowlist`, Outbound/Target `resolveOutboundTarget`,
--   Outbound/Redirects `requestWithRedirects` with a log of the requests that are sent, Outbound/Body
--   `readResponseBody`. The other three are about them.
-- - Outbox: the claim, the batch, completion and retries of `startOutboxDispatcher`, over the table
--   event_outbox. Outbox/Claims is about several dispatchers, Outbox/Life about one event as a step
--   relation, with the retry and the archiving of apps/admin/features/operations/ops-actions.ts. Outbox/Builds is `dispatchTilesetBuildRequested`, over a queue that is an interface.
-- - Imports: `dispatchSourceImportRequested` up to its success, over the tables and the storage's keys,
--   the record ImportStore; Surroundings has what a run meets, with what others commit before each of
--   its steps. Imports/Marks and Imports/Artifacts have its transactions, and
--   Imports/Cleanup is `dispatchArtifactCleanupRequested`. Imports/AutoBuild is the build that follows a
--   success, over the columns that it reads.
-- Each component's Tests module runs it on concrete inputs.
--
-- How the code is read. Ids are naturals in place of UUIDs, and times are milliseconds since 1970. A
-- statement reads the clock once, where the source may call `new Date()` for each column. Columns that
-- a statement does not name keep their values, except those with `$onUpdate`, which are written out.
-- Columns that are texts with a few values (the status of a webhook event) are data types. A query that
-- leaves the order open gives rows in the order of the table. Each statement or transaction is atomic;
-- what others do between two of them is an argument (`meanwhile`), or a sequence of statements. The
-- exceptions are `accept_dodo_webhook_event` and `process_due_dodo_webhook_events`, which run without
-- other writers between their statements; Webhook/Claims and Webhook/Race have late workers. JSON
-- numbers are naturals. Costs and limits are naturals, and a limit may be Infinity; a quotient of them
-- is exact before it is rounded.
--
-- Parameters, since they are not this code or are left to it: what applying a billing event returns or
-- throws (`apply`), the answers of the library rate-limiter-flexible (Limiters), JavaScript's `Date`
-- (Calendar), the queue's answer about a job and the worker heartbeat, the id that a string in a job's
-- input identifies (`read_id`), the handlers behind the middleware (`handle`), and for the policy of API keys
-- `JSON.parse`, the hostname of `new URL` and `toLowerCase`. The record Platform of Outbound has what
-- it takes of Node (`URL`, `isIP`, `BlockList`, `Number`), the record Network the lookups and responses
-- of each round, which may differ from round to round. The handler of an outbox event, the extraction
-- of an import and the storage's answer are arguments, and so are the parsing of a job's input and the queue BullMQ, by its
-- operations and two laws.
--
-- Every loop but one runs over a list that a query returned or a text, and is recursion on it; the
-- loop over the attempts at a handle counts down its 101 rounds. Redirects run on fuel, one round more
-- than the limit allows, and the theorem on them says that this is enough. The batch sizes are the
-- code's: 25 events and 50 jobs where no limit is given.
--
-- The build's worker makes its ids into texts by an argument (`id_text`).
--
-- Not modelled: route handlers and their parsing of requests, the application of billing events, the
-- geodata pipeline's external tools, the supervisors, and the user interfaces. Of the modelled files, `parseDodoEventTimestamp`,
-- `logToolchainCapabilities`, `getRequestCost`, `uniqueStyleHandle` and the operational limiters are left out: they parse a
-- date, compose a text, compute the cost that is an argument here, query for a free handle, and wrap one call of a library.
pub mod Common
pub mod Roles
pub mod Accounts
pub mod Webhook
pub mod Jobs
pub mod Quota
pub mod RateLimit
pub mod Keys
pub mod Styles
pub mod Paths
pub mod Outbound
pub mod Imports
pub mod Outbox
