-- ===== src/Outbox/Store/Agreement.antt =====
-- The updates of the store and the methods of the record (src/pactix/outbox/model.py) do the same.
use pactix.Prelude.{ℕ, ◌≡◌, some, ok}
use pactix.Dialect.{Executor}
use pactix.Queue.{find}
use pactix.Outbox.Model.{
  OutboxStatus, OutboxMessageRecord, mark_published as published_record,
  mark_retry as retried_record, mark_failed as failed_record,
}
use pactix.Outbox.Table.{OutboxRow, OutboxTable, outbox_columns}
use pactix.Outbox.Store.{map_record, mark_published, mark_retry, mark_failed}

module _ (e : Executor) (k : ℕ) (table : OutboxTable) (row : OutboxRow) (s : OutboxStatus) where
  -- The record of the row of the id in a table.
  abbrev pub IsRecord : OutboxTable → OutboxMessageRecord → Type 0
  IsRecord t r =
      (row' : OutboxRow) × (find outbox_columns k t ≡ some row') × (map_record e row' ≡ ok r)
