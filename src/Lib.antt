-- ===== src/Lib.antt =====
-- Optra, a service that compares purchase orders, invoices and goods receipts, and bills workspaces
-- for it. This library models the core of the API (apps/api) over the tables of packages/db, with the
-- crawler and the meter of packages/ai.
--
-- The parts and their files
--   Billing (apps/api/src/billing): `Billing/Plans` (plans.ts), `Billing/Calendar` (the billing
--   month), `Billing/Ledger` (usage-ledger.service.ts), `Billing/Entitlement`
--   (entitlement.service.ts), `Billing/Gate` (billing-gate.service.ts), `Billing/Signature`
--   (webhook-signature.ts), `Billing/Upsert` and `Billing/Webhook` (billing-webhook.service.ts). The
--   webhook writes the subscription that the entitlement reads; the gate asks the entitlement for the
--   quota and writes the ledger under it.
--   Procurement (apps/api/src/procurement/comparison.service.ts): `Procurement/Lines` (match keys),
--   `Procurement/Group` and `Procurement/Ladder` (the query COMPARISON_SQL), `Procurement/Wording`,
--   `Procurement/Reason` and `Procurement/Flags` (what a finding says), `Procurement/PriceGroups` and
--   `Procurement/Contract` (agreed prices),
--   `Procurement/Compare` (one comparison, through the billing gate), `Procurement/Decisions`
--   (dismissals, decisions, runs).
--   Intake (apps/api/src/procurement): `Procurement/Columns` (column-mapping.ts: from the cells of a
--   row to a line), `Procurement/Documents` (heads and lines of documents),
--   `Procurement/Review` (procurement-review.service.ts), `Procurement/Queue`
--   (procurement-compare.service.ts) and `Procurement/Queue/Worker`
--   (procurement-compare.processor.ts). A review asks the queue for comparisons; the worker runs
--   those whose documents have changed since the last run.
--   Accounts (apps/api/src/auth): `Auth/Store`, `Auth/Limits`, `Auth/Sessions`, `Auth/Accounts`.
--   Workspaces (apps/api/src/workspaces/workspaces.service.ts): `Workspaces`. Pages of lists
--   (packages/db/src/pagination.ts): `Pagination`, and `Pagination/Cursor` with `listForUser`.
--   Limits (apps/api/src/limits): `Limits/Rate` (rate-limit.service.ts) and `Limits/Usage`
--   (usage.service.ts), which asks the billing gate and charges the ledger for a model call;
--   `Limits/Usage/InFlight` has the calls that overlap.
--   AI package (packages/ai/src): `Ai/Limit` (web/limit.ts), `Ai/Ssrf` (web/ssrf.ts), `Ai/Crawl`
--   (web/crawl.ts), `Ai/Pricing` (pricing.ts) and `Ai/Tokens` (tokens.ts), whose meter
--   `Limits/Usage` charges.
--   `Prelude`, `Numbers`, `Http` and `Json` are shared; `Tests` runs the theorems at concrete inputs.
--
-- How the code is modelled
--   A table is the list of its rows in the order of insertion, and a query is a function on it. A
--   service is a function from the tables to its answer and the tables after it; a thrown
--   exception is an answer `fail`, and what was written before it outside a transaction stays
--   written. A transaction under an advisory lock is one step, so concurrent requests are some
--   order of steps; other requests are served one after the other, but for the race of two
--   refreshes (`Auth/Sessions/Race`), for model calls, which others overlap between their check
--   and their charge (`Limits/Usage/InFlight`), and for the tasks of a limiter (`Ai/Limit`).
--   Instants are epoch milliseconds. SQL's NULL is `none`.
--   Parameters stand for code outside the repository: doubles (`Numbers`, `Engine`), the HMAC,
--   bcrypt, SHA-256, JWT signing, Redis, lower-casing, the network, the parsers of HTML, URLs and
--   addresses, and what a request draws at random. No law of them is assumed, but for cursors, whose
--   decoding inverts their encoding, for the order of ids, which is total, and for the doubles of
--   a price (`Ai/Pricing/Laws`): on numbers from zero on, their literals, products, sums and
--   roundings up keep the order, and zero times a literal is zero.
--   Recursion is structural on the rows, except for the search for a month, whose fuel is the number
--   of days since 1970, for the loop of a crawl, for which a fuel of 2001 to the power of 5 is
--   enough, as is proved, and for a client that follows cursors, whose fuel is the number of rows
--   and one.
--   The pages of a crawl's frontier are worked on one after the other, as with a concurrency of 1.
--
-- Not modelled: most queries of lists and exports, the files and the DuckDB process of a comparison,
-- the uploads and the parse worker, the calls to Lemon Squeezy, database errors, the other services
-- of the API, the web application, the prompts and model clients of the package ai, and the package
-- ui.
pub mod Prelude
pub mod Numbers
pub mod Http
pub mod Json
pub mod Ai
pub mod Billing
pub mod Procurement
pub mod Auth
pub mod Workspaces
pub mod Limits
pub mod Pagination
mod Tests
