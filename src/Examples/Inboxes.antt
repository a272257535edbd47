-- ===== src/Examples/Inboxes.antt =====
-- Examples for the inbox: its store and its worker.
use pactix.Prelude.{
  ℕ, ◌+◌, ◌≤◌, ◌≡◌, ◌≢◌, ◌⊎◌, refl, true, false, List, [], ◌∷◌, Memᴰ, ok, All, exists,
  if◌then◌else◌, traverse,
}
use pactix.Dialect.{aware, utc, is_mysql, column}
use pactix.Queue.{find, claim_returning, is_ready}
use pactix.Prelude.Text.{is_blank}
use pactix.Inbox.Model.{InboxMessageRecord, pending, from_str, new_pending}
use pactix.Inbox.Table.{InboxRow, InboxTable, inbox_columns, collides, insert_ignore}
use pactix.Inbox.Store.{
  claim_ready, claim_ready_unordered, claim_postgresql, reclaim_expired, map_record, record_values,
  record_of, mark_processed, save_received, save_received_mysql, outcome,
}
use pactix.Inbox.Store.Records.{stored_form, in_utc}
use pactix.Inbox.Store.Dedup.{Fits, received, received_row, save_received_twice}
use pactix.Inbox.Store.Abstract.{receipts, receive, save_received_refines}
use pactix.Inbox.Store.Batch.{IsOrdered, IsUnordered, claim_modes_records}
use pactix.Inbox.Runner.{RunSummary, run_once, claim_in, process_rows, decide, record_verdict}
use pactix.Inbox.Runner.Accounting.{run_once_counts}
use pactix.Inbox.Store.Processed.{IsProcessed}
use pactix.Inbox.Runner.Processed.{IsDecided, run_once_processes}
use pactix.Inbox.Runner.Effects.{NotProcessing, run_once_closes}
use pactix.Samples.Sorting.{sorting, sorting-IsPlanner}
use pactix.Samples.{
  whole, config, pg, my, pg-IsBackend, my-IsBackend, noon, noon-IsAware, envelope, clock,
  metadata-IsValid,
}
use pactix.Samples.Inboxes.{inbox, inbox-UniqueIds, inbox-UniqueReceipts, unordered_runner}

kafka_named : is_blank "kafka" ≡ false
unfolding is_blank
kafka_named = refl

abbrev arrived : InboxRow
arrived = received_row config pg 7 noon "kafka" envelope

no_collision : exists (collides pg.weight arrived) inbox ≡ false
unfolding record_values
no_collision = refl

envelope-Fits : Fits pg "kafka" envelope.metadata
envelope-Fits = record {
  source_fits = refl;
  message_id_fits = refl;
  event_type_fits = refl;
  message_key_fits = refl;
  ordering_key_fits = refl;
  correlation_id_fits = refl;
}

Fits-on_mysql : Fits my "kafka" envelope.metadata
Fits-on_mysql = record {
  source_fits = refl;
  message_id_fits = refl;
  event_type_fits = refl;
  message_key_fits = refl;
  ordering_key_fits = refl;
  correlation_id_fits = refl;
}

save_received_twice_example :
    (save_received config pg 7 noon "kafka" envelope inbox
      ≡ ok (
        arrived ∷ inbox,
        outcome
            (if is_mysql pg
              then received config pg 7 noon "kafka" envelope
              else stored_form pg (received config pg 7 noon "kafka" envelope))
            true,
      ))
    × (save_received config pg 8 (clock 5) "kafka" envelope (arrived ∷ inbox)
        ≡ ok (arrived ∷ inbox, outcome (record_of in_utc arrived pending) false))
save_received_twice_example =
    save_received_twice config pg 7 8 noon (clock 5) "kafka" envelope inbox pg-IsBackend
      noon-IsAware kafka_named metadata-IsValid envelope-Fits inbox-UniqueReceipts no_collision

abbrev new_row : InboxRow
new_row = received_row config my 7 noon "kafka" envelope

receipt_of_first :
    save_received config my 7 noon "kafka" envelope []
    ≡ ok (new_row ∷ [], outcome (received config my 7 noon "kafka" envelope) true)
unfolding save_received new_pending is_blank save_received_mysql insert_ignore is_mysql
    record_values
receipt_of_first = refl

claim_modes_records_example :
    ((out : InboxTable × List InboxMessageRecord) × (claim_ready config my sorting
          (aware 1_000_000 utc)
          inbox
        ≡ ok out)
      × All (IsOrdered (1_000_000 + config.lease_duration) 1_000_000 my inbox) out.1)
    × ((out : InboxTable × List InboxMessageRecord) × (claim_ready_unordered config my sorting
            (aware 1_000_000 utc)
            inbox
          ≡ ok out)
        × All (IsUnordered (1_000_000 + config.lease_duration) 1_000_000 my inbox) out.1)
claim_modes_records_example =
    claim_modes_records config sorting sorting-IsPlanner 1_000_000 inbox inbox-UniqueIds my
      my-IsBackend

-- An unordered pass in which every event is stale.
abbrev pass_summary : RunSummary
pass_summary = record {
  reclaimed = 1;
  claimed = 3;
  processed = 3;
  stale_skipped = 3;
  retry_scheduled = 0;
  failed = 0;
}

abbrev pass_table : InboxTable
pass_table = (run_once whole config pg clock sorting unordered_runner inbox).0

pass : run_once whole config pg clock sorting unordered_runner inbox ≡ (pass_table, ok pass_summary)
unfolding run_once claim_ready_unordered is_mysql claim_postgresql traverse claim_returning
    reclaim_expired is_ready column map_record from_str process_rows decide record_verdict
pass = refl

run_once_counts_example :
    (pass_summary.claimed
      ≡ pass_summary.processed + pass_summary.retry_scheduled + pass_summary.failed)
    × (pass_summary.stale_skipped ≤ pass_summary.processed)
run_once_counts_example =
    run_once_counts whole config pg clock unordered_runner sorting inbox pass_table pass_summary
      pass

run_once_closes_example :
    (out : InboxTable × List InboxMessageRecord) × (claim_in whole config pg clock
        unordered_runner.mode sorting
        (clock 0)
        (reclaim_expired pg (clock 0) inbox).0
      ≡ ok out)
    × ((r : InboxMessageRecord) → Memᴰ r out.1 → NotProcessing (find inbox_columns r.id pass_table))
    × ((k : ℕ)
        → ((r : InboxMessageRecord) → Memᴰ r out.1 → k ≢ r.id)
        → find inbox_columns k pass_table ≡ find inbox_columns k out.0)
run_once_closes_example =
    run_once_closes whole config pg clock unordered_runner sorting inbox pass_table pass_summary
      pass

stale_row : IsProcessed 1 pass_table
unfolding run_once claim_ready_unordered is_mysql claim_postgresql traverse claim_returning
    reclaim_expired is_ready column map_record from_str process_rows decide record_verdict find
    mark_processed
stale_row = refl

run_once_processes_example :
    IsProcessed 1 inbox
    ⊎ (out : InboxTable × List InboxMessageRecord) × (r : InboxMessageRecord) × (claim_in whole
          config pg clock unordered_runner.mode sorting
          (clock 0)
          (reclaim_expired pg (clock 0) inbox).0
        ≡ ok out)
      × Memᴰ r out.1
      × (1 ≡ r.id)
      × IsDecided unordered_runner r
run_once_processes_example =
    run_once_processes whole config pg clock unordered_runner sorting inbox pass_table pass_summary
      1 pass stale_row

save_received_refines_example :
    (receipts my.weight (new_row ∷ []), true) ≡ receive "kafka" "m-1" (receipts my.weight [])
save_received_refines_example =
    save_received_refines config my 7 noon "kafka" envelope []
      (new_row ∷ [], outcome (received config my 7 noon "kafka" envelope) true) Fits-on_mysql
      receipt_of_first
