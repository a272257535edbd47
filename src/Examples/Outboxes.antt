-- ===== src/Examples/Outboxes.antt =====
-- Examples for the outbox: its store, its worker and its publishers.
use mathlib.Core.List.Memᴰ
use pactix.Prelude.{
  ℕ, ◌+◌, ◌<◌, ◌≤◌, ◌≡◌, ◌≢◌, refl, true, false, List, [], ◌∷◌, ◌++◌, Memᴰ, ok, err, arith, All,
  exists, some, none, Option, String, str_eq, &&-true, if◌then◌else◌, length, traverse,
  foreign_error,
}
use pactix.Dialect.{aware, utc, is_mysql, column}
use pactix.Prelude.Dict.{get}
use pactix.Queue.{find, claim_returning, ready_fifo, is_pending, is_open, same_stream, same_key}
use pactix.Outbox.Model.{
  from_str, new_pending, OutboxMessageRecord, mark_published as published_record,
  mark_retry as retried_record, mark_failed as failed_record,
}
use pactix.Outbox.Table.{OutboxRow, OutboxTable, outbox_columns, collides, fits, insert_row}
use pactix.Prelude.Text.{is_blank}
use pactix.Outbox.Store.{
  append, claim_ready, claim_ready_postgresql, reclaim_expired, map_record, record_values,
  mark_retry, mark_published, mark_failed,
}
use pactix.Outbox.Store.Records.{stored_form, HasAwareTimes, map_record-record_values}
use pactix.Outbox.Store.Batch.{IsClaimed, claim_ready_records, claim_ready_progress}
use pactix.Outbox.Store.Append.{appended, appended_row, IsNew, append_stores}
use pactix.Queue.Fifo.{SameStream}
use pactix.Outbox.Publisher.{resolve, publish}
use pactix.Outbox.Runner.{
  process_rows, record_outcome, RunSummary, RunState, run_once, start_summary,
}
use pactix.Outbox.Runner.Accounting.{loop, Stops, run_once_accounts, process_rows_raises}
use pactix.Outbox.Runner.Effects.{NotProcessing, run_once_settles}
use pactix.Outbox.Lifecycle.{Step, Reach, Sound, Reach-Sound}
use pactix.Samples.Sorting.{sorting, sorting-IsPlanner}
use pactix.Samples.{
  whole, config, pg, my, pg-IsBackend, my-IsBackend, noon, noon-IsAware, envelope, clock, outbox,
  outbox-UniqueIds, free_row, accepts, raises, metadata-IsValid,
}

claim_ready_records_example :
    (out : OutboxTable × List OutboxMessageRecord) × (claim_ready config my sorting
        (aware 1_000_000 utc)
        outbox
      ≡ ok out)
    × All (IsClaimed 31_000_000 1_000_000 my outbox) out.1
claim_ready_records_example =
    claim_ready_records config sorting sorting-IsPlanner 1_000_000 outbox outbox-UniqueIds my
      my-IsBackend

free_pending : is_pending outbox_columns free_row ≡ true
unfolding is_pending
free_pending = refl

-- The row has no stream.
nothing_older :
    (older : OutboxRow)
    → Memᴰ older outbox
    → SameStream outbox_columns older free_row
    → older.created_at < free_row.created_at
    → is_open outbox_columns older ≡ false
unfolding same_stream
nothing_older older m stream before = absurd (
    no_key older.ordering_key
      (&&-true (str_eq older.event_type "order.paid") (same_key older.ordering_key none) stream).1)
  where
    no_key : (o : Option String) → same_key o none ≢ true
    no_key none h = cc
    no_key (some j) h = cc

claim_ready_progress_example :
    (out : OutboxTable × List OutboxMessageRecord) × (claim_ready config pg sorting
        (aware 1_000_000 utc)
        outbox
      ≡ ok out)
    × (0 < length out.1)
claim_ready_progress_example =
    claim_ready_progress config sorting sorting-IsPlanner 1_000_000 outbox outbox-UniqueIds pg
      free_row pg-IsBackend (omega arith) (Memᴰ.tail (Memᴰ.tail (Memᴰ.head refl))) free_pending
      (omega arith) nothing_older refl

abbrev made : OutboxMessageRecord
made = appended config pg 7 noon envelope

made-HasAwareTimes : HasAwareTimes made
made-HasAwareTimes = record {
  available_at = noon-IsAware;
  lease_until = tt;
  created_at = noon-IsAware;
  updated_at = noon-IsAware;
  published_at = tt;
}

map_record-record_values_example : map_record my (record_values my made) ≡ ok (stored_form my made)
map_record-record_values_example = map_record-record_values my my-IsBackend made made-HasAwareTimes

no_collision : exists (collides pg.weight (appended_row config pg 7 noon envelope)) outbox ≡ false
unfolding record_values
no_collision = refl

envelope-fits : fits pg (appended_row config pg 7 noon envelope) ≡ true
unfolding record_values fits
envelope-fits = refl

append_stores_example :
    (append config pg 7 noon envelope outbox
      ≡ ok (
        appended_row config pg 7 noon envelope ∷ outbox,
        if is_mysql pg then made else stored_form pg made,
      ))
    × IsNew config pg 7 noon envelope (appended_row config pg 7 noon envelope)
append_stores_example =
    append_stores config pg 7 noon envelope outbox pg-IsBackend noon-IsAware metadata-IsValid
      envelope-fits no_collision

-- A pass: row 1 is reclaimed and, as the first of its stream, published again; so is row 3.
abbrev pass_summary : RunSummary
pass_summary = record { reclaimed = 1; claimed = 2; published = 2; retry_scheduled = 0; failed = 0 }

abbrev pass_table : OutboxTable
pass_table = (run_once whole config pg clock sorting accepts outbox).0

pass : run_once whole config pg clock sorting accepts outbox ≡ (pass_table, ok pass_summary)
unfolding run_once claim_ready is_mysql claim_ready_postgresql traverse claim_returning
    reclaim_expired ready_fifo column map_record from_str process_rows publish get record_outcome
pass = refl

run_once_accounts_example :
    pass_summary.claimed
    ≡ pass_summary.published + pass_summary.retry_scheduled + pass_summary.failed
run_once_accounts_example =
    run_once_accounts whole config pg clock accepts sorting outbox pass_table pass_summary pass

run_once_settles_example :
    (out : OutboxTable × List OutboxMessageRecord) × (claim_ready config pg sorting
        (clock 0)
        (reclaim_expired pg (clock 0) outbox).0
      ≡ ok out)
    × ((r : OutboxMessageRecord)
        → Memᴰ r out.1
        → NotProcessing (find outbox_columns r.id pass_table))
    × ((k : ℕ)
        → ((r : OutboxMessageRecord) → Memᴰ r out.1 → k ≢ r.id)
        → find outbox_columns k pass_table ≡ find outbox_columns k out.0)
run_once_settles_example =
    run_once_settles whole config pg clock accepts sorting outbox pass_table pass_summary pass

-- The loop on one row, whose publisher raises.
abbrev start : RunState
start = record { table = outbox; summary = start_summary 0 1; ticks = 1 }

broken :
    loop whole config pg clock raises (made ∷ []) start
    ≡ (start, err (foreign_error "no connection"))
unfolding process_rows publish resolve get
broken = refl

process_rows_raises_example :
    (before : List OutboxMessageRecord) × (row : OutboxMessageRecord) × (after : List
      OutboxMessageRecord)
    × (m : RunState) × (made ∷ [] ≡ before ++ row ∷ after)
    × (loop whole config pg clock raises before start ≡ (m, ok tt))
    × Stops whole config pg clock raises row m start (foreign_error "no connection")
process_rows_raises_example =
    process_rows_raises whole config pg clock raises (made ∷ []) start start
      (foreign_error "no connection") broken

-- A claim on the empty table, after an append.
abbrev first_row : OutboxRow
first_row = appended_row config my 7 noon envelope

abbrev first_table : OutboxTable
first_table = first_row ∷ []

first_append :
    append config my 7 noon envelope [] ≡ ok (first_table, appended config my 7 noon envelope)
unfolding append new_pending is_blank insert_row fits is_mysql record_values
first_append = refl

nothing_newer : (r : OutboxRow) → Memᴰ r [] → r.created_at ≤ column my noon
nothing_newer r m = absurd (Memᴰ.not-nil m)

reached : Reach config [] (mark_published my 7 noon first_table)
reached =
    Reach.next
      (Reach.next Reach.here
        (Step.appends my 7 noon envelope (first_table, _) first_append nothing_newer))
      (Step.publishes my 7 noon)

empty-Sound : Sound []
empty-Sound = record { unique = tt; in_order = λ r s m. absurd (Memᴰ.not-nil m) }

Reach-Sound_example : Sound (mark_published my 7 noon first_table)
Reach-Sound_example =
    Reach-Sound config [] (mark_published my 7 noon first_table) reached empty-Sound
