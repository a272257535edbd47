-- ===== src/Transport/Http/Delivery.antt =====
-- From the outbox of one service to the inbox of another over HTTP, with a repeated delivery.
use pactix.Prelude.{ℕ, ◌≡◌, refl, true, false, String, ◌∷◌, Memᴰ, Result, ok, exists, str_eq_refl}
use pactix.Prelude.Text.{is_blank}
use pactix.Prelude.Dict.{Dict, UniqueKeys}
use pactix.Dialect.{committed, DateTime, Executor, IsAware}
use pactix.Dialect.RoundTrip.{IsBackend}
use pactix.Config.{PactixConfig}
use pactix.Message.{MessageEnvelope}
use pactix.Message.Validation.{IsValid}
use pactix.Outbox.Model.{OutboxMessageRecord}
use pactix.Inbox.Model.{pending, from_str-as_str}
use pactix.Inbox.Table.{InboxRow, InboxTable, same_receipt, collides}
use pactix.Inbox.Store.{record_values}
use pactix.Inbox.Store.Receipt.{UniqueReceipts, collides-false}
use pactix.Inbox.Store.Dedup.{Fits, received_row, save_received_new, save_received_duplicate}
use pactix.Transport.Metadata.{received_metadata}
use pactix.Transport.Http.Publisher.{
  HttpEndpoint, HttpEndpointRouter, HttpOutboundRequest, resolve, build_request,
}
use pactix.Transport.Http.Inbox.{normalized, Response, accepted, handler}
use pactix.Transport.Http.Names.{IsLower, is_free, Delivers}
use pactix.Transport.Http.RoundTrip.{http_round_trip}
use pactix.Transport.Http.Endpoint.{handler-saved}

-- The envelope and the row that a receiver makes of a row of the outbox.
abbrev pub received_envelope : DateTime → Dict String → OutboxMessageRecord → MessageEnvelope
received_envelope occurred_at headers r = record {
  metadata = received_metadata occurred_at headers r;
  payload = r.payload;
}

same_receipt-posted :
    {F : Type 0} (source : String) (r : OutboxMessageRecord) (id id' : ℕ) (config : PactixConfig F)
    (e : Executor) (now now' occ occ' : DateTime) (h h' : Dict String)
    → same_receipt e.weight
        (received_row config e id' now' source (received_envelope occ' h' r))
        (received_row config e id now source (received_envelope occ h r))
      ≡ true
unfolding record_values
same_receipt-posted source r id id' config e now now' occ occ' h h' =
    rw (str_eq_refl (e.weight source), str_eq_refl (e.weight r.message_id))

-- Whether metadata is valid does not depend on its headers and its time.
anywhere :
    (r : OutboxMessageRecord) (t : DateTime) (h : Dict String)
    → IsValid (received_metadata t h r)
    → (t' : DateTime) (h' : Dict String) → IsValid (received_metadata t' h' r)
anywhere r t h v t' h' = record {
  has_message_id = v.has_message_id;
  has_event_type = v.has_event_type;
  key_not_blank = v.key_not_blank;
}

-- Nor do its headers and its time take part in whether it fits.
Fits-anywhere :
    (e : Executor) (source : String) (r : OutboxMessageRecord) (t : DateTime) (h : Dict String)
    → Fits e source (received_metadata t h r)
    → (t' : DateTime) (h' : Dict String) → Fits e source (received_metadata t' h' r)
Fits-anywhere e source r t h f t' h' = record {
  source_fits = f.source_fits;
  message_id_fits = f.message_id_fits;
  event_type_fits = f.event_type_fits;
  message_key_fits = f.message_key_fits;
  ordering_key_fits = f.ordering_key_fits;
  correlation_id_fits = f.correlation_id_fits;
}

module _ {F : Type 0} (lower : String → String) (config : PactixConfig F) (e : Executor)
    (source : String) (router : HttpEndpointRouter) (endpoint : HttpEndpoint)
    (r : OutboxMessageRecord) (request : HttpOutboundRequest) where
  -- The receiver of the request, at its clock and with a fresh id.
  abbrev pub post :
      ℕ → DateTime → DateTime → Dict String → InboxTable → InboxTable × Result Response
  post id occurred_at now arrived table =
      handler lower config e source id occurred_at now arrived (ok request.payload) table

  abbrev pub posted_row : ℕ → DateTime → DateTime → Dict String → InboxRow
  posted_row id occurred_at now arrived =
      received_row config e id now source
        (received_envelope occurred_at (normalized lower arrived) r)

  -- A row of the outbox that is sent twice over HTTP is stored once. The first request adds a pending
  -- row, the second, at any later time and with whatever other headers, changes nothing, and both are
  -- answered with 202. This holds on either database, where the transactions are committed, the row's metadata is valid, fits into the columns of the receiver and arrives
  -- under header names that nothing else uses, the source is not blank, the time is aware, and the
  -- inbox keeps its unique constraint and holds neither the id nor the message.
  pub http_redelivery :
      (id id' : ℕ) (occurred_at occurred_at' now now' : DateTime) (arrived arrived' : Dict String)
      (table : InboxTable)
      → IsLower lower
      → resolve router r.event_type ≡ ok endpoint
      → UniqueKeys endpoint.headers
      → is_free lower endpoint.headers ≡ true
      → is_free lower r.headers ≡ true
      → build_request router r ≡ ok request
      → Delivers lower request.headers arrived
      → Delivers lower request.headers arrived'
      → IsValid (received_metadata occurred_at r.headers r)
      → Fits e source (received_metadata occurred_at r.headers r)
      → IsBackend e
      → e.ending 0 ≡ committed
      → IsAware now
      → is_blank source ≡ false
      → UniqueReceipts e.weight table
      → exists (collides e.weight (posted_row id occurred_at now arrived)) table ≡ false
      → let row = posted_row id occurred_at now arrived in
        (post id occurred_at now arrived table ≡ (row ∷ table, ok accepted))
        × (post id' occurred_at' now' arrived' (row ∷ table) ≡ (row ∷ table, ok accepted))
  unfolding record_values
  http_redelivery id id' occ occ' now now' arrived arrived' table lowers at u fe fr built d d' v
        fits backend ended aware named unique new =
      let row = posted_row id occ now arrived in
      let first_fits = Fits-anywhere e source r occ r.headers fits occ (normalized lower arrived) in
      let second_fits =
        Fits-anywhere e source r occ r.headers fits occ' (normalized lower arrived') in
      let first = anywhere r occ r.headers v occ (normalized lower arrived) in
      let second = anywhere r occ r.headers v occ' (normalized lower arrived') in
      (
        handler-saved lower config e source id occ now arrived table request.payload
            (received_envelope occ (normalized lower arrived) r) _
            (http_round_trip lower router endpoint r request arrived occ lowers at u fe fr built d
              first)
            (save_received_new config e id now source
              (received_envelope occ (normalized lower arrived) r) table backend aware named first
              first_fits new)
            ended,
        handler-saved lower config e source id' occ' now' arrived' (row ∷ table) request.payload
            (received_envelope occ' (normalized lower arrived') r) _
            (http_round_trip lower router endpoint r request arrived' occ' lowers at u fe fr built
              d' second)
            (save_received_duplicate config e id' now' source
              (received_envelope occ' (normalized lower arrived') r) (row ∷ table) row pending
              backend named second second_fits ((collides-false e.weight row table new).0, unique)
              (Memᴰ.head refl)
              (same_receipt-posted source r id id' config e now now' occ occ'
                (normalized lower arrived) (normalized lower arrived'))
              (from_str-as_str pending))
            ended,
      )
