-- ===== src/Outbox/Store.antt =====
-- src/pactix/outbox/store.py: `OutboxStore`. Each method takes the table and gives the new one.
-- The fresh UUID of `append` and the answers of `_now` are arguments. A method that raises leaves the
-- table as it was, since its transaction is rolled back.
pub mod Records
pub mod Claims
pub mod Batch
pub mod Updates
pub mod Append
pub mod Agreement
pub mod Published
use mathlib.Core.Option
use pactix.Prelude.{
  ℕ, ◌+◌, Option, none, some, String, List, [], ◌∷◌, map, str_eq, ◌==◌, if◌then◌else◌, select,
  Result, ok, err, ◌>>=◌, traverse, Bool,
}
use pactix.Prelude.Dict.{sorted_items}
use pactix.Dialect.{DateTime, Executor, later, is_mysql, naive_utc, aware_utc, column}
use pactix.Config.{PactixConfig}
use pactix.Message.{MessageEnvelope}
use pactix.Retry.{RetryStore}
use pactix.Queue.{Planner, update_rows, ready_fifo, claim_returning, claim_selected, reclaim}
use pactix.Outbox.Model.{
  OutboxStatus, pending, processing, as_str, from_str, OutboxMessageRecord, new_pending,
}
use pactix.Outbox.Table.{OutboxRow, OutboxTable, outbox_columns, insert_row}

-- `_record_values`: on MySQL the datetimes are stripped to naive UTC. The row
-- holds the JSON as it is read back.
unfoldable pub record_values : Executor → OutboxMessageRecord → OutboxRow
unfolding sorted_items
record_values executor r = record {
  id = r.id;
  message_id = r.message_id;
  event_type = r.event_type;
  message_key = r.message_key;
  ordering_key = r.ordering_key;
  correlation_id = r.correlation_id;
  payload = executor.json r.payload;
  headers = executor.json_object (sorted_items r.headers);
  status = as_str r.status;
  attempts = r.attempts;
  max_attempts = r.max_attempts;
  available_at = column executor r.available_at;
  lease_until = Option.map (column executor) r.lease_until;
  last_error = r.last_error;
  created_at = column executor r.created_at;
  updated_at = column executor r.updated_at;
  published_at = Option.map (column executor) r.published_at;
}

-- `aware_utc(row[...])`
abbrev pub read : Executor → ℕ → DateTime
read executor n = aware_utc (executor.fetch n)

abbrev pub record_of : (ℕ → DateTime) → OutboxRow → OutboxStatus → OutboxMessageRecord
record_of time row status = record {
  id = row.id;
  message_id = row.message_id;
  event_type = row.event_type;
  message_key = row.message_key;
  ordering_key = row.ordering_key;
  correlation_id = row.correlation_id;
  payload = row.payload;
  headers = row.headers;
  status = status;
  attempts = row.attempts;
  max_attempts = row.max_attempts;
  available_at = time row.available_at;
  lease_until = Option.map time row.lease_until;
  last_error = row.last_error;
  created_at = time row.created_at;
  updated_at = time row.updated_at;
  published_at = Option.map time row.published_at;
}

-- `_map_record`
unfoldable pub map_record : Executor → OutboxRow → Result OutboxMessageRecord
map_record executor row =
    from_str row.status >>= λ status. ok (record_of (read executor) row status)

module _ {F : Type 0} (config : PactixConfig F) (executor : Executor) where
  unfoldable pub append :
      ℕ → DateTime → MessageEnvelope → OutboxTable → Result (OutboxTable × OutboxMessageRecord)
  append id now envelope table = do
    made ← new_pending envelope.metadata envelope.payload config.retry_policy id now
    table' ← insert_row executor (record_values executor made) table
    if is_mysql executor
        then ok (table', made)
        else (do stored ← map_record executor (record_values executor made); ok (table', stored))

  -- The lease, as the two claims bind it.
  abbrev pub lease_end : DateTime → DateTime
  lease_end now = later now config.lease_duration

  -- Mirrors the UPDATE in the records that MySQL returns.
  abbrev pub mirror : DateTime → OutboxMessageRecord → OutboxMessageRecord
  mirror now r = record r {
    status = processing;
    lease_until = some (lease_end now);
    updated_at = now;
  }

  unfoldable pub claim_ready_mysql :
      Planner OutboxRow → DateTime → OutboxTable → Result (OutboxTable × List OutboxMessageRecord)
  claim_ready_mysql planner now table =
      let db_now = executor.bind (naive_utc executor now) in
      let lease = executor.bind (naive_utc executor (lease_end now)) in
      let (table', rows) =
        claim_selected outbox_columns planner executor.locked config.outbox_batch_size lease db_now
          (ready_fifo outbox_columns db_now table) table in
      do records ← traverse (map_record executor) rows; ok (table', map (mirror now) records)

  unfoldable pub claim_ready_postgresql :
      Planner OutboxRow → DateTime → OutboxTable → Result (OutboxTable × List OutboxMessageRecord)
  claim_ready_postgresql planner now table =
      let db_now = executor.bind now in
      let lease = executor.bind (lease_end now) in
      let (table', rows) =
        claim_returning outbox_columns planner executor.locked config.outbox_batch_size lease db_now
          (ready_fifo outbox_columns db_now table) table in
      do records ← traverse (map_record executor) rows; ok (table', records)

  unfoldable pub claim_ready :
      Planner OutboxRow → DateTime → OutboxTable → Result (OutboxTable × List OutboxMessageRecord)
  claim_ready planner now table =
      if is_mysql executor
      then claim_ready_mysql planner now table
      else claim_ready_postgresql planner now table

module _ (executor : Executor) where
  -- WHERE status = ... ORDER BY created_at ASC
  unfoldable pub list_by_status :
      Planner OutboxRow → OutboxStatus → OutboxTable → Result (List OutboxMessageRecord)
  unfolding map_record
  list_by_status planner status table =
      traverse (map_record executor)
        (planner.order_by (λ r. r.created_at) (select (λ r. str_eq r.status (as_str status)) table))

  unfoldable pub reclaim_expired : DateTime → OutboxTable → OutboxTable × ℕ
  unfolding reclaim
  reclaim_expired now table = reclaim outbox_columns (column executor now) table

  -- What the three updates by id set.
  abbrev pub set_published : DateTime → OutboxRow → OutboxRow
  set_published published_at r = record r {
    status = "published";
    lease_until = none;
    published_at = some (column executor published_at);
    updated_at = column executor published_at;
  }

  abbrev pub set_retry : DateTime → String → DateTime → OutboxRow → OutboxRow
  set_retry now error available_at r = record r {
    status = "pending";
    attempts = r.attempts + 1;
    available_at = column executor available_at;
    lease_until = none;
    last_error = some error;
    updated_at = column executor now;
  }

  abbrev pub set_failed : DateTime → String → OutboxRow → OutboxRow
  set_failed now error r = record r {
    status = "failed";
    attempts = r.attempts + 1;
    lease_until = none;
    last_error = some error;
    updated_at = column executor now;
  }

  -- UPDATE ... WHERE id = :id
  unfoldable pub mark_published : ℕ → DateTime → OutboxTable → OutboxTable
  mark_published id published_at = update_rows (λ r. r.id == id) (set_published published_at)

  unfoldable pub mark_retry : DateTime → ℕ → String → DateTime → OutboxTable → OutboxTable
  mark_retry now id error available_at =
      update_rows (λ r. r.id == id) (set_retry now error available_at)

  unfoldable pub mark_failed : DateTime → ℕ → String → OutboxTable → OutboxTable
  mark_failed now id error = update_rows (λ r. r.id == id) (set_failed now error)

-- `OutboxStore` as the store of `handle_retryable_failure`; `now` is what `_now` answers.
abbrev pub outbox_retry_store :
    {F : Type 0} → PactixConfig F → Executor → DateTime → RetryStore F OutboxTable
outbox_retry_store config executor now = record {
  retry_policy = config.retry_policy;
  mark_retry = mark_retry executor now;
  mark_failed = mark_failed executor now;
}
