-- ===== src/Lib.antt =====
-- The payment platform of src/payment_quality_lab: what its services do to the database, and why
-- money, replays and events stay right.
--
-- The parts and how they interact. domain/payment.py has the pure rules of a payment's life.
-- services/payments.py runs the commands of a merchant (authorize, capture, cancel, refund) in one
-- transaction each: a claimed idempotency key, the payment, a ledger entry, an outbox event and the
-- copy for replays. services/confirmations.py does the same for confirmations of delayed payments,
-- with a durable receipt first, and expires the requests that nobody paid;
-- services/coordination.py has the reservation of the writer and the predicate of the receipts
-- that protect a payment. services/webhooks.py delivers the outbox events under leases, and has
-- the consumer with its inbox and projection. services/reconciliation.py compares settlements,
-- ledger and projections, and services/confirmation_reporting.py saves what is known about the
-- confirmations of a batch. The rows and their constraints stand in persistence/models.py.
-- api/routes.py calls the services, and main.py turns their exceptions into answers.
--
-- Which module models which part:
--   Domain          domain/payment.py: Types the enumerations and records, Operations `authorize`,
--                   `capture`, `capture_confirmation`, `expire`, `cancel`, `refund` and the checked
--                   constructor `payment_state`; Coherence, Graph and Refunds prove
--   Failure         the exceptions as values, with the result of code that raises
--   Database        persistence/models.py: Types and Rows the rows, Checks the constraints, Tables
--                   and Store the queries and statements, Inversion what an accepted one has found
--   Coordination    services/coordination.py
--   Payments        services/payments.py: Commands, Claims (`_claim_idempotency_key`), Commit
--                   (`_commit_payment_outcome`), Authorize, Lifecycle, Snapshot (`serialize` and
--                   `deserialize`); the rest proves
--   Confirmations   services/confirmations.py: Commands, Dispositions (`_classify`,
--                   `_apply_disposition`), Accept, Complete, Expire; the rest proves
--   Webhooks        services/webhooks.py: Outbox, Columns (an UPDATE writes the columns
--                   that were reassigned), Delivery (`_claim_delivery`,
--                   `_finalize_delivery`, `dispatch_webhook`), Signature (`sign_webhook`,
--                   `verify_webhook_signature`), Parse (`parse_webhook_payload`), Body
--                   (`_payment_payload`), Consumer (`consume_webhook` of a parsed event), Endpoint
--                   (all of `consume_webhook`, `deliver_webhook_event` of api/routes.py); Valid
--                   says what an event has to satisfy; the rest proves
--   Reconciliation  services/reconciliation.py: Totals, Sources, Batches, Report; Matching,
--                   Outcome and Import prove
--   Reporting       services/confirmation_reporting.py: Counters, Section
--                   (`confirmation_section`); Told, Buckets and Anomalies count again
--                   without the counters, Accounted and Frozen prove
--   Api             Errors the exception handlers of main.py, Queries the reads and Payments the
--                   payment endpoints of api/routes.py with the requests of api/schemas.py;
--                   Webhooks and Retries prove
--   Json, Texts     JSON values, the standard library's conversions, and splitting of texts
--   Ledger          the invariant of payments and ledger (Sound) and that every operation keeps it
--   Prelude         shared helpers; Tests the theorems at concrete inputs
--
-- How the code is read. The state is a `Db` of one list of rows per table. A transaction is
-- computed on the staged database and installed by its commit; an exception gives the database
-- that the rollback leaves. `others` is what other sessions commit before the transaction takes
-- the write lock of SQLite; `loaded` is the identity map of the session, so that a stale object
-- can be written back, which the version column of a payment refuses; a delivery has it for the
-- event that it loaded after its lease. Statements that a constraint refuses
-- raise `integrity_error`, an integer beyond 64 bits `overflow_error` where a body of a webhook can
-- bring one, a version that is no longer stored raises `stale_data`. `digest` stands
-- for SHA-256 over canonical JSON, `Hmac` for HMAC-SHA256, `Builtins` for the conversions of times
-- and numbers to texts, and `Wire` for the JSON library; what is relied on of them is in the
-- records `Documented` and `DocumentedHmac` and in `ReadsBack`. Bodies are JSON values, a
-- dictionary the list of its keys in order; signature headers are texts. What `uuid4` and the
-- clock give are the fields of `Fresh`. Amounts are integers, versions and counts natural numbers,
-- times microseconds of UTC; a column with JSON text holds the record that it encodes, and one
-- with the text of an enumeration's member holds the member. There is no fuel: every loop of the modelled
-- code runs over a list.
--
-- Not modelled: the text of JSON with the limits that the interpreter puts on the length of its
-- numbers and on its nesting, how FastAPI reads a request and writes an answer, the endpoints for
-- confirmations and settlements, the migrations, the performance harness, the scripts and the
-- checkout page. Network and database are met only through what the code tests of their answers.

pub mod Prelude
pub mod Texts
pub mod Json
pub mod Domain
pub mod Failure
pub mod Database
pub mod Coordination
pub mod Webhooks
pub mod Payments
pub mod Confirmations
pub mod Ledger
pub mod Reconciliation
pub mod Reporting
pub mod Api
pub mod Tests
