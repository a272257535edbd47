-- ===== src/Transport/Http/Outcomes.antt =====
-- What the worker is told about a request.
use pactix.Prelude.{
  ℕ, ◌≡◌, ◌≤◌, ◌<◌, ◌↔◌, ◌⊎◌, refl, inl, inr, none, String, Error, Result, ok, err, arith,
  Option-cases, sym, ap, >>=-eq-ok, ok-eq, err-eq, Result-cases,
}
use pactix.Prelude.Dict.{get}
use pactix.Outbox.Model.{OutboxMessageRecord}
use pactix.Outbox.Publisher.{published, retryable, PublishOutcome, retryable_outcome}
use pactix.Transport.Http.Publisher.{
  HttpEndpointRouter, HttpOutboundRequest, HttpResponse, no_endpoint, resolve, classify_response,
  build_request, publish,
}

-- The classes of a status.
abbrev pub IsSuccess : ℕ → Type 0
IsSuccess status = (200 ≤ status) × (status < 300)

abbrev pub IsTransient : ℕ → Type 0
IsTransient status = (status ≡ 408) ⊎ (status ≡ 429) ⊎ (500 ≤ status)

-- A response is published, retryable or terminal by its status alone: published exactly for 200 to
-- 299, retryable exactly for 408, 429 and from 500 on, and so terminal for every other status. The
-- text of an error is there exactly where it is not published.
pub classify_response_lem :
    (response : HttpResponse)
    → (((classify_response response).kind ≡ published) ↔ IsSuccess response.status)
      × (((classify_response response).kind ≡ retryable) ↔ IsTransient response.status)
      × (((classify_response response).message ≡ none) ↔ IsSuccess response.status)
unfolding classify_response
classify_response_lem response = (ground arith, ground arith, ground arith)

-- Where `publish` says that a row is published, the request of the row was sent, and the answer was a
-- status from 200 to 299: no exception of the client and no other answer counts as published.
pub publish-published :
    (str : Error → String) (send : HttpOutboundRequest → Result HttpResponse)
    (router : HttpEndpointRouter) (r : OutboxMessageRecord) (outcome : PublishOutcome)
    → publish str send router r ≡ ok outcome
    → outcome.kind ≡ published
    → (request : HttpOutboundRequest) × (response : HttpResponse) × (build_request router r
        ≡ ok request)
      × (send request ≡ ok response)
      × IsSuccess response.status
unfolding publish
publish-published str send router r outcome h k =
    let (request, built, rest) = >>=-eq-ok (build_request router r) _ h in
    elim (Result-cases (send request)) [
      | inl (response, answered) ↦
          let same : classify_response response ≡ outcome = ok-eq (rw answered at rest) in
          (request, response, built, answered, (classify_response_lem response).0.0 (rw same k))
      | inr (error, raised) ↦
          let same : retryable_outcome (str error) ≡ outcome = ok-eq (rw raised at rest) in cc
    ]

-- `publish` raises exactly when no endpoint is registered for the row's event type, whatever the
-- client does, and then a `RoutingError`.
publish_raises :
    (str : Error → String) (send : HttpOutboundRequest → Result HttpResponse)
    (router : HttpEndpointRouter) (r : OutboxMessageRecord) (error : Error)
    → (publish str send router r ≡ err error)
      ↔ ((get router.endpoints r.event_type ≡ none) × (error ≡ no_endpoint r.event_type))
unfolding publish build_request resolve
publish_raises str send router r error = elim (Option-cases (get router.endpoints r.event_type)) [
  | inl absent ↦ rw absent (λ h. (refl, err-eq (sym h)), λ (_, e). ap err (sym e))
  | inr (endpoint, found) ↦ rw found (λ h. cc, λ (h, _). cc)
]
