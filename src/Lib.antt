-- ===== src/Lib.antt =====
-- A model of the stock core, the transfers, the order stages and the outbound commands of the kitchen
-- back end, with the theorems that make them correct.
--
-- The program is a server over PostgreSQL. Every movement of lots goes through one service,
-- src/modules/stock/posting-service.ts: a module (transfers, production, customer orders,
-- returns, QA releases) registers a policy for its documents and posts a list of movements under an
-- idempotency key. A posting is one transaction that checks the request, the actor, the feature
-- flags, the topology and the document, claims the key, locks and checks the warehouses, items,
-- conversions and lots, plans the ledger lines, and updates the balances, the document and the
-- posting under conditions. An answered key is replayed. Channel orders keep to an older pool of
-- stock by warehouse and ingredient: an order deducts its recipes when it goes to PREPARING, logs
-- what it took, and a cancellation puts the logged amounts back. Commands to the aggregators wait in a
-- queue, from which workers claim them under leases and send them with bounded retries.
--
-- Which file models what:
--   Prelude: shared types and lemmas. Int has signed integers over the native numbers, Texts has
--     strings as lists of code units, Results has thrown errors as values, Queries and Tables have
--     the queries on a table, which is a list of rows.
--   Auth/Roles: src/modules/auth/roles.ts.
--   Stock/Decimal: src/modules/stock/decimal.ts (parse_fixed is parseFixed, and so on).
--   Stock/Types: src/modules/stock/types.ts, errors.ts, and the rows of src/db/schema.ts and
--     src/db/enterprise-schema.ts that the service reads.
--   Stock/Canonical: src/modules/stock/canonical.ts.
--   Stock/Route, Stock/Locks, Stock/Guards, Stock/Ledger, Stock/Posting, Stock/Retry:
--     src/modules/stock/posting-service.ts (validate_route is validateRoute, lock_movement_keys is
--     lockMovementKeys, execute_posting is executePosting, post is the retry loop).
--   CustomerOrders/Allocation: src/modules/customer-orders/allocation.ts and
--     allocateAgainstItemAtOutlet of service.ts, which reserve lots for an order line, first expired
--     first out, outside the posting service.
--   Orders: src/modules/orders/service.ts, the stages of a channel order (advance_order is
--     advanceOrder, cancel_order is cancelOrder), with postLedger of src/modules/inventory/ledger.ts.
--     Quantities, Distinct, Cancellation and Races prove what they do together.
--   Transfers: src/modules/transfers. Types has the rows of src/db/transfer-orders-schema.ts, Guards
--     and Lines the shared helpers (authorize_transfer_actor is authorizeActor,
--     resolve_and_validate_lines is resolveAndValidateLines), Updates the conditional updates, Lifecycle
--     create to cancel, Reads get and list, Fefo selectFefoLot, Dispatch dispatchTransferOrder, Receipt
--     and Receive receiveTransferOrder. History has the steps that the transactions make and Spec
--     the life cycle that they refine; Phases and the children of the others prove the rest.
--   Outbound: src/modules/outbound, the commands to the aggregators. Types has the rows of
--     src/db/outbound-schema.ts, Policies policies.ts, Worker worker.ts (claim_one is claimOne, send_one
--     is sendOne, process_commands is processCommands), Payloads, Enqueue, Disputes and Reads
--     service.ts (enqueue_command is enqueueCommand, create_dispute is createDispute). History has the
--     steps of requests and workers; the children of Worker, Enqueue and History prove the rest.
--   Units/Catalog: the exact decimals of src/modules/units/catalog.ts (scale_quantity is
--     scaleQuantity, and so on). Units/Service: its catalogue of units, and toStockQuantity of
--     service.ts.
--   Stock/Sample, and the Examples of Stock, CustomerOrders, Orders, Transfers, Outbound and Units: runs on
--     concrete tables.
--
-- The state is a record of tables. db.transaction commits the tables that the body returns, and on
-- a thrown error keeps the ones that it began with, so a posting is a function from tables to an
-- error or a result with new tables. Row locks make concurrent postings run one after the other.
-- An id is 0 where it is empty and else one more than the UUID's value; a quantity is an integer
-- number of millionths; a date is a number of days.
--
-- A dispatch and a receipt of a transfer are two transactions with a call of the posting service
-- between them, and other transactions may come between; so each phase is a function of its own,
-- and the whole operation is their composition with nothing between. The service, the JSON text of a
-- movement's metadata, and the database's collation and ILIKE are parameters.
--
-- An enqueue checks the tables before its transaction, so its insertion takes the tables that it saw
-- apart from those that it meets; so does the insertion of a dispute. Outbound/History has a step for
-- both, parted from their checks by other transactions. The adapter of an aggregator and the clock of a worker are
-- parameters.
--
-- The retry loop runs on fuel 4: at most 3 retries follow the first attempt. The digits of a number
-- are printed on fuel that is the number itself, which its number of digits never exceeds.
--
-- The order service computes with JavaScript numbers. Their operations, and what the database makes
-- of their texts, are a parameter, Doubles; a theorem that needs them exact says so of the amounts of
-- the run. advanceOrder and cancelOrder read the order before their transaction, so they take the
-- tables that were read apart from the tables that the transaction finds.
--
-- Not modelled: SHA-256, which is a parameter; the events that an order's advance returns; the
-- comparison of the inserted ledger lines with the planned ones, since an insert returns what it
-- inserted; names and times in the audit rows; the
-- range of numeric columns; HTTP.
pub mod Prelude
pub mod Auth
pub mod Stock
pub mod CustomerOrders
pub mod Orders
pub mod Outbound
pub mod Units
pub mod Transfers
