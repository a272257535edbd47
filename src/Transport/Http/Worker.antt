-- ===== src/Transport/Http/Worker.antt =====
-- The worker of the outbox with the HTTP publisher for every event type.
use pactix.Prelude.{ℕ, ◌≡◌, refl, ◌⊎◌, inl, inr, String, List, Memᴰ, Error, Result, ok}
use pactix.Prelude.Dict.{get}
use pactix.Dialect.{DateTime, Executor}
use pactix.Config.{Float, PactixConfig}
use pactix.Queue.{Planner}
use pactix.Outbox.Model.{OutboxMessageRecord}
use pactix.Outbox.Table.{OutboxRow, OutboxTable}
use pactix.Outbox.Store.{claim_ready, reclaim_expired}
use pactix.Outbox.Publisher.{PublisherRegistry, empty_registry, register_all, publish, resolve}
use pactix.Outbox.Runner.{RunSummary, run_once}
use pactix.Outbox.Store.Published.{IsPublished}
use pactix.Outbox.Runner.Published.{run_once_publishes}
use pactix.Transport.Http.Publisher.{
  HttpEndpointRouter, HttpOutboundRequest, HttpResponse, build_request, publish as send_row,
}
use pactix.Transport.Http.Outcomes.{IsSuccess, publish-published}

module _ (str : Error → String) (send : HttpOutboundRequest → Result HttpResponse)
    (router : HttpEndpointRouter) where
  abbrev pub http_registry : PublisherRegistry
  http_registry = register_all empty_registry (send_row str send router)

  publish-http_registry :
      (r : OutboxMessageRecord) → publish http_registry r ≡ send_row str send router r
  unfolding publish resolve register_all get
  publish-http_registry r = refl

  -- The client has answered the request of a record with a status from 200 to 299.
  pub record IsDelivered (r : OutboxMessageRecord) : Type 0 where
    pub request : HttpOutboundRequest
    pub response : HttpResponse
    pub built : build_request router r ≡ ok request
    pub answered : send request ≡ ok response
    pub success : IsSuccess response.status

  -- Where the worker publishes over HTTP, after a pass that returns, a row that is published was so
  -- before the pass, or it is the row of a record that the pass claimed, and the client has answered
  -- the request of that record with a status from 200 to 299: no other answer, and no exception of
  -- the client, lets a pass mark a row as published.
  pub run_once_delivers :
      {F : Type 0} (float : Float F) (config : PactixConfig F) (executor : Executor)
      (clock : ℕ → DateTime) (planner : Planner OutboxRow) (table table' : OutboxTable)
      (summary : RunSummary) (k : ℕ)
      → run_once float config executor clock planner http_registry table ≡ (table', ok summary)
      → IsPublished k table'
      → IsPublished k table
        ⊎ (out : OutboxTable × List OutboxMessageRecord) × (r : OutboxMessageRecord) × (claim_ready
              config executor planner
              (clock 0)
              (reclaim_expired executor (clock 0) table).0
            ≡ ok out)
          × Memᴰ r out.1
          × (k ≡ r.id)
          × IsDelivered r
  run_once_delivers float config executor clock planner table table' summary k h p =
      elim (run_once_publishes float config executor clock http_registry planner table table'
        summary k h p) [
          | inl before ↦ inl before
          | inr (out, r, claimed, m, same, (outcome, answer, kind)) ↦
              let (request, response, built, answered, success) =
                publish-published str send router r outcome (rw (publish-http_registry r) at answer)
                  kind in
              let delivered : IsDelivered r = record {
                request = request;
                response = response;
                built = built;
                answered = answered;
                success = success;
              } in
              inr (out, r, claimed, m, same, delivered)
        ]
