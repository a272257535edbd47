-- ===== src/Examples/Workers.antt =====
-- Examples of passes that publish: with a publisher that accepts every row, and over HTTP.
use pactix.Prelude.{◌≡◌, ◌⊎◌, refl, List, Memᴰ, ok, traverse}
use pactix.Prelude.Dict.{get}
use pactix.Dialect.{is_mysql, column}
use pactix.Queue.{find, claim_returning, ready_fifo}
use pactix.Outbox.Model.{from_str, OutboxMessageRecord}
use pactix.Outbox.Table.{OutboxTable}
use pactix.Outbox.Store.{
  claim_ready, claim_ready_postgresql, reclaim_expired, map_record, mark_published,
}
use pactix.Outbox.Publisher.{PublisherRegistry, publish, resolve, register_all}
use pactix.Outbox.Runner.{process_rows, record_outcome, RunSummary, run_once}
use pactix.Outbox.Store.Published.{IsPublished}
use pactix.Outbox.Runner.Published.{IsAcknowledged, run_once_publishes}
use pactix.Transport.Http.Publisher.{
  build_request, classify_response, publish as send_row, resolve as resolve_endpoint,
}
use pactix.Transport.Http.Worker.{http_registry, IsDelivered, run_once_delivers}
use pactix.Samples.Sorting.{sorting}
use pactix.Samples.Transports.{http_router, answers, str}
use pactix.Samples.{whole, config, pg, clock, outbox, accepts}

-- Row 1 is reclaimed and, as the first of its stream, published again; so is row 3.
abbrev both_published : RunSummary
both_published = record {
  reclaimed = 1;
  claimed = 2;
  published = 2;
  retry_scheduled = 0;
  failed = 0;
}

abbrev accepted_table : OutboxTable
accepted_table = (run_once whole config pg clock sorting accepts outbox).0

accepted_pass :
    run_once whole config pg clock sorting accepts outbox ≡ (accepted_table, ok both_published)
unfolding run_once claim_ready is_mysql claim_ready_postgresql traverse claim_returning
    reclaim_expired ready_fifo column map_record from_str process_rows publish get record_outcome
accepted_pass = refl

accepted_row : IsPublished 3 accepted_table
unfolding run_once claim_ready is_mysql claim_ready_postgresql traverse claim_returning
    reclaim_expired ready_fifo column map_record from_str process_rows publish get record_outcome
    find mark_published
accepted_row = refl

run_once_publishes_example :
    IsPublished 3 outbox
    ⊎ (out : OutboxTable × List OutboxMessageRecord) × (r : OutboxMessageRecord) × (claim_ready
          config pg sorting
          (clock 0)
          (reclaim_expired pg (clock 0) outbox).0
        ≡ ok out)
      × Memᴰ r out.1
      × (3 ≡ r.id)
      × IsAcknowledged accepts r
run_once_publishes_example =
    run_once_publishes whole config pg clock accepts sorting outbox accepted_table both_published 3
      accepted_pass accepted_row

abbrev over_http : PublisherRegistry
over_http = http_registry str answers http_router

abbrev sent_table : OutboxTable
sent_table = (run_once whole config pg clock sorting over_http outbox).0

sent_pass :
    run_once whole config pg clock sorting over_http outbox ≡ (sent_table, ok both_published)
unfolding run_once claim_ready is_mysql claim_ready_postgresql traverse claim_returning
    reclaim_expired ready_fifo column map_record from_str process_rows publish get record_outcome
    resolve register_all send_row build_request resolve_endpoint classify_response
sent_pass = refl

sent-IsPublished : IsPublished 3 sent_table
unfolding run_once claim_ready is_mysql claim_ready_postgresql traverse claim_returning
    reclaim_expired ready_fifo column map_record from_str process_rows publish get record_outcome
    resolve register_all send_row build_request resolve_endpoint classify_response find
    mark_published
sent-IsPublished = refl

run_once_delivers_example :
    IsPublished 3 outbox
    ⊎ (out : OutboxTable × List OutboxMessageRecord) × (r : OutboxMessageRecord) × (claim_ready
          config pg sorting
          (clock 0)
          (reclaim_expired pg (clock 0) outbox).0
        ≡ ok out)
      × Memᴰ r out.1
      × (3 ≡ r.id)
      × IsDelivered str answers http_router r
run_once_delivers_example =
    run_once_delivers str answers http_router whole config pg clock sorting outbox sent_table
      both_published 3 sent_pass sent-IsPublished
