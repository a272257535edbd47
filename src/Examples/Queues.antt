-- ===== src/Examples/Queues.antt =====
-- Examples for the statements of Queue, on an outbox table.
use pactix.Prelude.{◌≢◌, refl, List, Memᴰ, select}
use pactix.Queue.{is_ready, claim_returning, pick}
use pactix.Queue.Lease.{no_double_claim}
use pactix.Queue.Fifo.{is_ready-pending}
use pactix.Outbox.Table.{outbox_columns, outbox_laws, OutboxRow}
use pactix.Samples.Sorting.{sorting, sorting-IsPlanner}
use pactix.Samples.{outbox, outbox-UniqueIds, blocked_row, free_row, no_locks}

abbrev after : List OutboxRow × List OutboxRow
after =
    claim_returning outbox_columns sorting no_locks 1 5000 1000 (is_ready outbox_columns 1000)
      outbox

first_claimed : Memᴰ (outbox_columns.set_claimed 5000 1000 blocked_row) after.1
unfolding claim_returning is_ready
first_claimed = Memᴰ.head refl

second_picked :
    Memᴰ free_row
      (pick outbox_columns sorting no_locks 1 (select (is_ready outbox_columns 1000) after.0))
unfolding claim_returning pick is_ready
second_picked = Memᴰ.head refl

no_double_claim_example : free_row.id ≢ blocked_row.id
no_double_claim_example =
    no_double_claim outbox_columns outbox_laws sorting sorting sorting-IsPlanner sorting-IsPlanner
      no_locks no_locks 1 1 5000 1000 (is_ready outbox_columns 1000) (is_ready outbox_columns 1000)
      outbox {r = free_row} {s = outbox_columns.set_claimed 5000 1000 blocked_row} outbox-UniqueIds
      (is_ready-pending outbox_columns 1000) first_claimed second_picked
