-- ===== src/Transport/Http/Publisher.antt =====
-- src/pactix/transport/http/publisher.py: `HttpOutboxPublisher`.
-- The client is a parameter: what it answers to a request, or the exception that it raises; `str` is
-- the text of an exception. The lock of the router makes each of its methods one step.
use pactix.Prelude.{
  ℕ, Option, String, ◌||◌, ◌&&◌, leb, ltb, ◌==◌, if◌then◌else◌, Error, routing_error, Result, ok,
  err, ◌>>=◌,
}
use Prim.Native.String.{◌++◌}
use pactix.Prelude.Dict.{Dict, get, put, update}
use pactix.Prelude.Text.{strip, is_empty}
use pactix.Prelude.Decimal.{decimal}
use pactix.Message.{JsonValue}
use pactix.Outbox.Model.{OutboxMessageRecord}
use pactix.Outbox.Publisher.{
  PublishOutcome, published_outcome, retryable_outcome, terminal_outcome, message_or_empty,
  or_raise,
}
use pactix.Transport.{put_some}
use pactix.Transport.Http.Headers.{
  event_type_header, message_id_header, message_key_header, ordering_key_header,
  correlation_id_header,
}

pub record HttpEndpoint : Type 0 where
  pub method : String
  pub url : String
  pub headers : Dict String

unfoldable pub with_header : HttpEndpoint → String → String → HttpEndpoint
with_header endpoint name value = record endpoint { headers = put endpoint.headers name value }

pub record HttpOutboundRequest : Type 0 where
  pub method : String
  pub url : String
  pub payload : JsonValue
  pub headers : Dict String

pub record HttpResponse : Type 0 where
  pub status : ℕ
  pub body : Option String

-- `HttpEndpointRouter`: its endpoints by event type.
pub record HttpEndpointRouter : Type 0 where
  pub endpoints : Dict HttpEndpoint

unfoldable pub register : HttpEndpointRouter → String → HttpEndpoint → HttpEndpointRouter
register router event_type endpoint = record {
  endpoints = put router.endpoints event_type endpoint;
}

abbrev pub no_endpoint : String → Error
no_endpoint event_type = routing_error ("no HTTP endpoint registered for '" ++ event_type ++ "'")

unfoldable pub resolve : HttpEndpointRouter → String → Result HttpEndpoint
resolve router event_type = or_raise (no_endpoint event_type) (get router.endpoints event_type)

-- The headers of the request to an endpoint.
unfoldable pub request_headers : HttpEndpoint → OutboxMessageRecord → Dict String
request_headers endpoint r =
    let headers = update endpoint.headers r.headers in
    let headers = put headers "content-type" "application/json" in
    let headers = put headers message_id_header r.message_id in
    let headers = put headers event_type_header r.event_type in
    let headers = put_some headers message_key_header r.message_key in
    let headers = put_some headers ordering_key_header r.ordering_key in
    put_some headers correlation_id_header r.correlation_id

unfoldable pub build_request : HttpEndpointRouter → OutboxMessageRecord → Result HttpOutboundRequest
build_request router r = do
  endpoint ← resolve router r.event_type
  ok (record {
    method = endpoint.method;
    url = endpoint.url;
    payload = r.payload;
    headers = request_headers endpoint r;
  })

-- `f': {body}' if body else ''`
abbrev pub suffix : String → String
suffix body = if is_empty body then "" else ": " ++ body

unfoldable pub response_error : HttpResponse → String
response_error response =
    "HTTP transport returned "
    ++ decimal response.status
    ++ suffix (strip (message_or_empty response.body))

unfoldable pub classify_response : HttpResponse → PublishOutcome
classify_response response =
    if leb 200 response.status && ltb response.status 300
    then published_outcome
    else if (response.status == 408 || response.status == 429) || leb 500 response.status
    then retryable_outcome (response_error response)
    else terminal_outcome (response_error response)

-- After the client has answered or raised.
abbrev pub after_send : (Error → String) → Result HttpResponse → PublishOutcome
after_send str (err error) = retryable_outcome (str error)
after_send str (ok response) = classify_response response

unfoldable pub publish :
    (Error → String)
    → (HttpOutboundRequest → Result HttpResponse)
    → HttpEndpointRouter
    → OutboxMessageRecord
    → Result PublishOutcome
publish str send router r = build_request router r >>= λ request. ok (after_send str (send request))
