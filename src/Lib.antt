-- ===== src/Lib.antt =====
-- Pactix: a transactional outbox and inbox for Python services, on PostgreSQL and MySQL
-- (src/pactix/).
--
-- An application appends messages to the `outbox_message` table in its own transaction. A worker
-- claims ready rows under a lease, hands them to publishers, and records each outcome; rows of one
-- event type and ordering key (a stream) are handed out one after the other.
--
-- The files, and the code they model:
--   Prelude        shared tests, lists, texts, dictionaries, and exceptions as results (errors.py)
--   Dialect        _dialect.py, _executor.py: datetimes, and the two databases as `Executor`
--   Config         config.py
--   Message        message.py: metadata, `validate`, the envelope
--   Retry          _retry.py: `next_retry_at`, `handle_retryable_failure` over any `RetryStore`
--   Queue          the SQL that outbox/store.py and inbox/store.py share, over any table: the claim
--                  (`claim_returning` for PostgreSQL, `claim_selected` for MySQL), the FIFO gate, the
--                  reclaim, and updates. Its children prove what these statements do.
--   Outbox         outbox/model.py (Model), the table of db/tables.py (Table), outbox/store.py (Store),
--                  outbox/publisher.py (Publisher), outbox/runner.py (Runner), outbox/wakeup.py
--                  (Wakeup; its listener in Listener, its endless loop in Run); Lifecycle is the
--                  interleaving of many workers' transactions
--   Inbox          inbox/model.py (Model), the table (Table), inbox/store.py (Store), the hooks of
--                  handler.py, idempotency.py and stale.py (Hooks), inbox/runner.py (Runner); Lifecycle is
--                  the interleaving of transactions
--   Transport      transport/http and transport/kafka: a row as a request or a message (Http/Publisher,
--                  Kafka/Publisher), and a request or a record as a row of the inbox (Http/Inbox,
--                  Kafka/Consumer). Names and Written are about header names; RoundTrip and Delivery
--                  put both sides together, Endpoint is about the answers of the handler, Commit and
--                  Redelivery about offsets, Worker joins Outbox/Runner with Http/Publisher
--   Schema         db/tables.py (Tables) and the three revisions of db/migrations/versions (Migrations)
--   Samples        concrete databases, floats and rows
--   Examples       the theorems at concrete inputs
--
-- A consumer stores each message that it receives in the `inbox_message` table, once for each source and
-- message id (`save_received`), whatever transport it came by; a worker claims the rows, in order per
-- stream or unordered, asks the hooks of the application about each, and records what they decide.
--
-- State is passed explicitly: an operation of a store takes the table and gives the new one, and an
-- exception is an error of `Result`. A transaction is one function of the table, since the database
-- runs it as a whole; the statements of SQL that the code issues are functions of the table or of the
-- schema. A table is a list of rows; times in rows are microseconds of UTC. The loops of
-- the code run over lists, the drain of wakeup.py over its 100 passes, and the endless loop of
-- wakeup.py over the list of what its cycles meet: all are structural recursion, so no fuel is added.
--
-- What is not under src/ is a parameter: the driver (`Executor.bind` and `fetch`, with the laws
-- `IsPostgres` and `IsMysql`), the database's choice of order (`Planner`), the rows that others lock
-- (`Executor.locked`), the collation in which the unique constraints compare texts (`weight`), what a
-- VARCHAR(255) or a TEXT of MySQL keeps of a text (`keep`, `keep_text`: INSERT IGNORE cuts off, INSERT
-- raises), what a JSON column makes of a value (`json`, `json_object`), how a transaction ends
-- (`ending`: committed, rolled back, or committed with its answer lost), floats (`Float`, with `IsFloat`), the publishers, UUIDs and the clock; for the
-- transports also the clients of httpx and aiokafka, `str.lower` (`IsLower`), what a server or a broker
-- hands on (`Delivers`, `IsDelivery`), and JSON and UTF-8 (`Codec`).
--
-- Not modelled: how alembic connects and records revisions (db/migrations/env.py); the sketch of a
-- service and the measurements (examples/, benchmarks/); how long a wait takes; the
-- collation in the FIFO gate, which compares event types and ordering keys exactly; exceptions of single
-- statements of a store, other than by the end of their transaction; the range of a datetime; the glue of the
-- transports that only calls httpx, Starlette and aiokafka; and what INSERT IGNORE does with other
-- errors than a conflict of keys and too long a text.
pub mod Prelude
pub mod Dialect
pub mod Config
pub mod Message
pub mod Retry
pub mod Queue
pub mod Outbox
pub mod Inbox
pub mod Transport
pub mod Schema
pub mod Samples
pub mod Examples
