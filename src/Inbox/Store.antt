-- ===== src/Inbox/Store.antt =====
-- src/pactix/inbox/store.py: `InboxStore`. Each method takes the table and gives the new one.
-- The fresh UUID of `save_received` and the answers of `_now` are arguments. A method that raises leaves the
-- table as it was, since its transaction is rolled back.
pub mod Records
pub mod Claims
pub mod Batch
pub mod Updates
pub mod Processed
pub mod Receipt
pub mod Dedup
pub mod Constraint
pub mod Inserted
pub mod Abstract
use mathlib.Core.Option
use pactix.Prelude.{
  true, false, ℕ, ◌+◌, Option, none, some, String, List, [], ◌∷◌, map, str_eq, ◌==◌, if◌then◌else◌,
  select, Result, ok, err, ◌>>=◌, traverse, Bool,
}
use pactix.Prelude.Dict.{sorted_items}
use pactix.Dialect.{DateTime, Executor, later, is_mysql, naive_utc, aware_utc, column}
use pactix.Config.{PactixConfig}
use pactix.Message.{MessageEnvelope}
use pactix.Retry.{RetryStore}
use pactix.Queue.{
  is_ready, Planner, update_rows, ready_fifo, claim_returning, claim_selected, reclaim,
}
use pactix.Inbox.Model.{
  InboxStatus, pending, processing, as_str, from_str, InboxMessageRecord, new_pending,
}
use pactix.Inbox.Table.{
  InboxRow, InboxTable, inbox_columns, insert_ignore, upsert_row, one, same_receipt,
}

-- `_record_values`: on MySQL the datetimes are stripped to naive UTC. The row
-- holds the JSON as it is read back.
unfoldable pub record_values : Executor → InboxMessageRecord → InboxRow
unfolding sorted_items
record_values executor r = record {
  id = r.id;
  source = r.source;
  message_id = r.message_id;
  event_type = r.event_type;
  message_key = r.message_key;
  ordering_key = r.ordering_key;
  correlation_id = r.correlation_id;
  payload = executor.json r.payload;
  headers = executor.json_object (sorted_items r.headers);
  status = as_str r.status;
  attempts = r.attempts;
  max_attempts = r.max_attempts;
  available_at = column executor r.available_at;
  lease_until = Option.map (column executor) r.lease_until;
  last_error = r.last_error;
  received_at = column executor r.received_at;
  updated_at = column executor r.updated_at;
  processed_at = Option.map (column executor) r.processed_at;
}

-- `aware_utc(row[...])`
abbrev pub read : Executor → ℕ → DateTime
read executor n = aware_utc (executor.fetch n)

abbrev pub record_of : (ℕ → DateTime) → InboxRow → InboxStatus → InboxMessageRecord
record_of time row status = record {
  id = row.id;
  source = row.source;
  message_id = row.message_id;
  event_type = row.event_type;
  message_key = row.message_key;
  ordering_key = row.ordering_key;
  correlation_id = row.correlation_id;
  payload = row.payload;
  headers = row.headers;
  status = status;
  attempts = row.attempts;
  max_attempts = row.max_attempts;
  available_at = time row.available_at;
  lease_until = Option.map time row.lease_until;
  last_error = row.last_error;
  received_at = time row.received_at;
  updated_at = time row.updated_at;
  processed_at = Option.map time row.processed_at;
}

-- `_map_record`
unfoldable pub map_record : Executor → InboxRow → Result InboxMessageRecord
map_record executor row =
    from_str row.status >>= λ status. ok (record_of (read executor) row status)

-- The WHERE of a claim statement: of the time and the table.
abbrev pub Query : Type 0
Query = ℕ → InboxTable → InboxRow → Bool

abbrev pub fifo_query : Query
fifo_query = ready_fifo inbox_columns

abbrev pub unordered_query : Query
unordered_query now table = is_ready inbox_columns now

pub record ReceiveOutcome : Type 0 where
  pub record_ : InboxMessageRecord
  pub inserted : Bool

abbrev pub outcome : InboxMessageRecord → Bool → ReceiveOutcome
outcome r inserted = record { record_ = r; inserted = inserted }

unfoldable pub save_received_mysql :
    Executor → InboxMessageRecord → InboxRow → InboxTable → Result (InboxTable × ReceiveOutcome)
unfolding insert_ignore one map_record
save_received_mysql executor made values table =
    let (table', rowcount) = insert_ignore executor values table in
    if rowcount == 1 then ok (table', outcome made true) else (do
      row ← one (select (same_receipt executor.weight values) table')
      existing ← map_record executor row
      ok (table', outcome existing false))

unfoldable pub save_received_postgresql :
    Executor → InboxRow → InboxTable → Result (InboxTable × ReceiveOutcome)
unfolding upsert_row one map_record
save_received_postgresql executor values table = do
  upserted ← upsert_row executor.weight values table
  row ← one upserted.1
  stored ← map_record executor row.0
  ok (upserted.0, outcome stored row.1)

module _ {F : Type 0} (config : PactixConfig F) (executor : Executor) where
  unfoldable pub save_received :
      ℕ → DateTime → String → MessageEnvelope → InboxTable → Result (InboxTable × ReceiveOutcome)
  save_received id now source envelope table = do
    made ← new_pending envelope.metadata envelope.payload config.retry_policy id now source
    if is_mysql executor
        then save_received_mysql executor made (record_values executor made) table
        else save_received_postgresql executor (record_values executor made) table

  -- The lease, as the two claims bind it.
  abbrev pub lease_end : DateTime → DateTime
  lease_end now = later now config.lease_duration

  -- Mirrors the UPDATE in the records that MySQL returns.
  abbrev pub mirror : DateTime → InboxMessageRecord → InboxMessageRecord
  mirror now r = record r {
    status = processing;
    lease_until = some (lease_end now);
    updated_at = now;
  }

  -- `_claim_mysql`
  unfoldable pub claim_mysql :
      Planner InboxRow
      → Query
      → DateTime
      → InboxTable
      → Result (InboxTable × List InboxMessageRecord)
  claim_mysql planner query now table =
      let db_now = executor.bind (naive_utc executor now) in
      let lease = executor.bind (naive_utc executor (lease_end now)) in
      let (table', rows) =
        claim_selected inbox_columns planner executor.locked config.inbox_batch_size lease db_now
          (query db_now table) table in
      do records ← traverse (map_record executor) rows; ok (table', map (mirror now) records)

  -- `_claim`
  unfoldable pub claim_postgresql :
      Planner InboxRow
      → Query
      → DateTime
      → InboxTable
      → Result (InboxTable × List InboxMessageRecord)
  claim_postgresql planner query now table =
      let db_now = executor.bind now in
      let lease = executor.bind (lease_end now) in
      let (table', rows) =
        claim_returning inbox_columns planner executor.locked config.inbox_batch_size lease db_now
          (query db_now table) table in
      do records ← traverse (map_record executor) rows; ok (table', records)

  unfoldable pub claim_ready :
      Planner InboxRow → DateTime → InboxTable → Result (InboxTable × List InboxMessageRecord)
  claim_ready planner now table =
      if is_mysql executor
      then claim_mysql planner fifo_query now table
      else claim_postgresql planner fifo_query now table

  unfoldable pub claim_ready_unordered :
      Planner InboxRow → DateTime → InboxTable → Result (InboxTable × List InboxMessageRecord)
  claim_ready_unordered planner now table =
      if is_mysql executor
      then claim_mysql planner unordered_query now table
      else claim_postgresql planner unordered_query now table

module _ (executor : Executor) where
  -- WHERE status = ... ORDER BY received_at ASC
  unfoldable pub list_by_status :
      Planner InboxRow → InboxStatus → InboxTable → Result (List InboxMessageRecord)
  unfolding map_record
  list_by_status planner status table =
      traverse (map_record executor) (
        planner.order_by (λ r. r.received_at) (select (λ r. str_eq r.status (as_str status)) table))

  unfoldable pub reclaim_expired : DateTime → InboxTable → InboxTable × ℕ
  unfolding reclaim
  reclaim_expired now table = reclaim inbox_columns (column executor now) table

  -- What the three updates by id set.
  abbrev pub set_processed : DateTime → InboxRow → InboxRow
  set_processed processed_at r = record r {
    status = "processed";
    lease_until = none;
    processed_at = some (column executor processed_at);
    updated_at = column executor processed_at;
  }

  abbrev pub set_retry : DateTime → String → DateTime → InboxRow → InboxRow
  set_retry now error available_at r = record r {
    status = "pending";
    attempts = r.attempts + 1;
    available_at = column executor available_at;
    lease_until = none;
    last_error = some error;
    updated_at = column executor now;
  }

  abbrev pub set_failed : DateTime → String → InboxRow → InboxRow
  set_failed now error r = record r {
    status = "failed";
    attempts = r.attempts + 1;
    lease_until = none;
    last_error = some error;
    updated_at = column executor now;
  }

  -- UPDATE ... WHERE id = :id
  unfoldable pub mark_processed : ℕ → DateTime → InboxTable → InboxTable
  mark_processed id processed_at = update_rows (λ r. r.id == id) (set_processed processed_at)

  unfoldable pub mark_retry : DateTime → ℕ → String → DateTime → InboxTable → InboxTable
  mark_retry now id error available_at =
      update_rows (λ r. r.id == id) (set_retry now error available_at)

  unfoldable pub mark_failed : DateTime → ℕ → String → InboxTable → InboxTable
  mark_failed now id error = update_rows (λ r. r.id == id) (set_failed now error)

-- `InboxStore` as the store of `handle_retryable_failure`; `now` is what `_now` answers.
abbrev pub inbox_retry_store :
    {F : Type 0} → PactixConfig F → Executor → DateTime → RetryStore F InboxTable
inbox_retry_store config executor now = record {
  retry_policy = config.retry_policy;
  mark_retry = mark_retry executor now;
  mark_failed = mark_failed executor now;
}
