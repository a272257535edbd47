-- ===== src/Transport/Http/RoundTrip.antt =====
-- From a row of the outbox to the envelope that the receiver makes of the request.
use pactix.Prelude.{◌≡◌, refl, sym, ap, subst, ◌∙◌, true, some, String, ok, ◌>>=◌}
use pactix.Prelude.Text.{is_lower_ascii}
use pactix.Prelude.Dict.{Dict, get, UniqueKeys}
use pactix.Prelude.Dict.Laws.{or_before-none}
use pactix.Dialect.{DateTime}
use pactix.Message.{new_envelope}
use pactix.Message.Validation.{IsValid, IsValid-validate}
use pactix.Outbox.Model.{OutboxMessageRecord}
use pactix.Transport.Metadata.{received_metadata, with_keys-new_metadata}
use pactix.Transport.Http.Headers.{
  event_type_header, message_id_header, message_key_header, ordering_key_header,
  correlation_id_header,
}
use pactix.Transport.Http.Written.{
  request_headers-UniqueKeys, request_headers-Spelled, get-request_headers,
}
use pactix.Transport.Http.Publisher.{
  HttpEndpoint, HttpEndpointRouter, HttpOutboundRequest, resolve, request_headers, build_request,
}
use pactix.Transport.Http.Inbox.{
  HttpInboundMessage, normalized, of_normalized, from_headers, to_envelope,
}
use pactix.Transport.Http.Names.{IsLower, is_reserved, is_free, Delivers, get-normalized}

-- The message of a row, as a receiver reads it from headers.
abbrev inbound : OutboxMessageRecord → Dict String → HttpInboundMessage
inbound r headers = record {
  message_id = r.message_id;
  event_type = r.event_type;
  message_key = r.message_key;
  ordering_key = r.ordering_key;
  correlation_id = r.correlation_id;
  headers = headers;
  payload = r.payload;
}

of_normalized-inbound :
    (r : OutboxMessageRecord) (headers : Dict String)
    → get headers message_id_header ≡ some r.message_id
    → get headers event_type_header ≡ some r.event_type
    → get headers message_key_header ≡ r.message_key
    → get headers ordering_key_header ≡ r.ordering_key
    → get headers correlation_id_header ≡ r.correlation_id
    → of_normalized headers r.payload ≡ ok (inbound r headers)
unfolding of_normalized
of_normalized-inbound r headers id type key ordering correlation =
    rw (id, type, key, ordering, correlation) refl

to_envelope-inbound :
    (occurred_at : DateTime) (r : OutboxMessageRecord) (headers : Dict String)
    → to_envelope occurred_at (inbound r headers)
      ≡ new_envelope (received_metadata occurred_at headers r) r.payload
unfolding to_envelope
to_envelope-inbound occurred_at r headers =
    ap (λ m. new_envelope m r.payload)
      (with_keys-new_metadata occurred_at r.message_id r.event_type r.message_key r.ordering_key
        r.correlation_id headers)

module _ (lower : String → String) (lowers : IsLower lower) (endpoint : HttpEndpoint)
    (r : OutboxMessageRecord) (u : UniqueKeys endpoint.headers)
    (endpoint_free : is_free lower endpoint.headers ≡ true)
    (record_free : is_free lower r.headers ≡ true) where
  -- Whatever else the receiver finds: what it reads under a reserved name is what was written.
  module _ (arrived : Dict String)
      (delivers : Delivers lower (request_headers endpoint r) arrived) where
    seen :
        (name : String)
        → is_reserved name ≡ true
        → is_lower_ascii name ≡ true
        → get (normalized lower arrived) name ≡ get (request_headers endpoint r) name
    seen name n a =
        delivers name n
        ∙ get-normalized lower name (request_headers endpoint r)
            (request_headers-UniqueKeys lower lowers endpoint r u endpoint_free record_free)
            (request_headers-Spelled lower lowers endpoint r u endpoint_free record_free name n)
            (lowers name a)

    from_headers-request :
        from_headers lower arrived r.payload ≡ ok (inbound r (normalized lower arrived))
    unfolding from_headers is_lower_ascii is_reserved
    from_headers-request =
        of_normalized-inbound r (normalized lower arrived)
          (seen message_id_header refl refl
            ∙ get-request_headers lower lowers endpoint r u endpoint_free record_free
                message_id_header refl (lowers message_id_header refl))
          (seen event_type_header refl refl
            ∙ get-request_headers lower lowers endpoint r u endpoint_free record_free
                event_type_header refl (lowers event_type_header refl))
          (seen message_key_header refl refl
            ∙ get-request_headers lower lowers endpoint r u endpoint_free record_free
                message_key_header refl (lowers message_key_header refl)
            ∙ or_before-none r.message_key)
          (seen ordering_key_header refl refl
            ∙ get-request_headers lower lowers endpoint r u endpoint_free record_free
                ordering_key_header refl (lowers ordering_key_header refl)
            ∙ or_before-none r.ordering_key)
          (seen correlation_id_header refl refl
            ∙ get-request_headers lower lowers endpoint r u endpoint_free record_free
                correlation_id_header refl (lowers correlation_id_header refl)
            ∙ or_before-none r.correlation_id)

    -- Where the row's metadata is valid, the envelope of the receiver has it, and the row's payload.
    envelope-request :
        (occurred_at : DateTime)
        → let m = received_metadata occurred_at (normalized lower arrived) r in
          IsValid m
          → (from_headers lower arrived r.payload >>= to_envelope occurred_at)
            ≡ ok (record { metadata = m; payload = r.payload })
    unfolding new_envelope
    envelope-request occurred_at v =
        rw
          (
            from_headers-request,
            to_envelope-inbound occurred_at r (normalized lower arrived),
            IsValid-validate _ v,
          )
          refl

-- A row that is sent over HTTP arrives as it was: the receiver, which may find other headers beside
-- those of the request, makes an envelope with the row's message id, event type, keys and payload.
-- This holds where the metadata is valid, the headers of the endpoint are a dict, and neither its
-- headers nor the row's are called like a Pactix header in any case; `lower` keeps texts of ASCII
-- characters without capitals.
pub http_round_trip :
    (lower : String → String) (router : HttpEndpointRouter) (endpoint : HttpEndpoint)
    (r : OutboxMessageRecord) (request : HttpOutboundRequest) (arrived : Dict String)
    (occurred_at : DateTime)
    → IsLower lower
    → resolve router r.event_type ≡ ok endpoint
    → UniqueKeys endpoint.headers
    → is_free lower endpoint.headers ≡ true
    → is_free lower r.headers ≡ true
    → build_request router r ≡ ok request
    → Delivers lower request.headers arrived
    → IsValid (received_metadata occurred_at (normalized lower arrived) r)
    → (from_headers lower arrived request.payload >>= to_envelope occurred_at)
      ≡ ok (record {
        metadata = received_metadata occurred_at (normalized lower arrived) r;
        payload = r.payload;
      })
unfolding build_request
http_round_trip lower router endpoint r request arrived now lowers at u fe fr built delivers v =
    let made : record {
      method = endpoint.method;
      url = endpoint.url;
      payload = r.payload;
      headers = request_headers endpoint r;
    }
        ≡ request =
      cc (rw (build_request, at) at built) in
    rw (← made) (
      envelope-request lower lowers endpoint r u fe fr arrived
        (subst (λ (q : HttpOutboundRequest). Delivers lower q.headers arrived) (sym made) delivers)
        now v)
