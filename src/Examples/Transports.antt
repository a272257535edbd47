-- ===== src/Examples/Transports.antt =====
-- Examples for the transports.
use pactix.Prelude.{arith, ◌≡◌, refl, true, false, [], ◌∷◌, ok, ◌>>=◌, exists}
use pactix.Prelude.Text.{is_blank}
use pactix.Prelude.Dict.{get, put, update, UniqueKeys}
use pactix.Dialect.{utc, committed}
use pactix.Inbox.Store.Dedup.{Fits}
use pactix.Message.{MessageMetadata, null, validate}
use pactix.Message.Validation.{IsValid, validate_iff}
use pactix.Inbox.Table.{collides}
use pactix.Inbox.Store.{record_values}
use pactix.Transport.{put_some}
use pactix.Transport.Metadata.{received_metadata}
use pactix.Transport.Http.Publisher.{build_request, resolve, request_headers}
use pactix.Transport.Http.Inbox.{normalized, from_headers, to_envelope, accepted, handler}
use pactix.Transport.Http.Names.{is_free, is_reserved}
use pactix.Transport.Http.RoundTrip.{http_round_trip}
use pactix.Transport.Http.Endpoint.{IsAnswered, attempted, handler_lem}
use pactix.Transport.Http.Delivery.{post, posted_row, http_redelivery}
use pactix.Samples.{config, pg, my, pg-IsBackend, noon, clock}
use pactix.Samples.Inboxes.{inbox, inbox-UniqueReceipts}
use pactix.Samples.Transports.{
  ascii_lower, ascii_lower-IsLower, sent_row, endpoint, http_router, request, arrived,
  arrived-Delivers,
}

abbrev sent : MessageMetadata
sent = received_metadata noon (normalized ascii_lower arrived) sent_row

sent-IsValid : IsValid sent
sent-IsValid = unfold validate is_blank in (validate_iff sent).0 refl

request_built : build_request http_router sent_row ≡ ok request
unfolding build_request resolve request_headers get put update put_some
request_built = refl

endpoint_found : resolve http_router "order.paid" ≡ ok endpoint
unfolding resolve get
endpoint_found = refl

endpoint_unique : UniqueKeys endpoint.headers
unfolding get
endpoint_unique = (refl, tt)

endpoint_free : is_free ascii_lower endpoint.headers ≡ true
unfolding is_free is_reserved ascii_lower
endpoint_free = refl

row_free : is_free ascii_lower sent_row.headers ≡ true
unfolding is_free is_reserved ascii_lower
row_free = refl

http_round_trip_example :
    (from_headers ascii_lower arrived null >>= to_envelope noon)
    ≡ ok (record { metadata = sent; payload = null })
http_round_trip_example =
    http_round_trip ascii_lower http_router endpoint sent_row request arrived noon
      ascii_lower-IsLower endpoint_found endpoint_unique endpoint_free row_free request_built
      arrived-Delivers sent-IsValid

-- A request without the header of the message id.
handler_lem_example :
    let out =
      handler ascii_lower config my "shop" 7 noon
        (clock 3)
        (("Host", "shop") ∷ [])
        (ok null)
        inbox in
    IsAnswered
      (ok null)
      (attempted ascii_lower config my "shop" 7 noon
        (clock 3)
        (("Host", "shop") ∷ [])
        inbox
        (ok null))
      committed
      inbox
      out.0
      out.1
handler_lem_example =
    handler_lem ascii_lower config my "shop" 7 noon (clock 3) (("Host", "shop") ∷ []) inbox
      (ok null)

shop_named : is_blank "shop" ≡ false
unfolding is_blank
shop_named = refl

row-IsValid : IsValid (received_metadata noon sent_row.headers sent_row)
row-IsValid = unfold validate is_blank in (validate_iff _).0 refl

first_delivery :
    exists
      (collides pg.weight (
        posted_row ascii_lower config pg "shop" http_router endpoint sent_row request 7 noon
          (clock 3)
          arrived))
      inbox
    ≡ false
unfolding record_values
first_delivery = refl

row-Fits : Fits pg "shop" (received_metadata noon sent_row.headers sent_row)
row-Fits = record {
  source_fits = refl;
  message_id_fits = refl;
  event_type_fits = refl;
  message_key_fits = refl;
  ordering_key_fits = refl;
  correlation_id_fits = refl;
}

http_redelivery_example :
    let row =
      posted_row ascii_lower config pg "shop" http_router endpoint sent_row request 7 noon
        (clock 3)
        arrived in
    (post ascii_lower config pg "shop" http_router endpoint sent_row request 7 noon
        (clock 3)
        arrived
        inbox
      ≡ (row ∷ inbox, ok accepted))
    × (post ascii_lower config pg "shop" http_router endpoint sent_row request 8
          (clock 5)
          (clock 6)
          request.headers
          (row ∷ inbox)
        ≡ (row ∷ inbox, ok accepted))
http_redelivery_example =
    http_redelivery ascii_lower config pg "shop" http_router endpoint sent_row request 7 8 noon
      (clock 5) (clock 3) (clock 6) arrived request.headers inbox ascii_lower-IsLower endpoint_found
      endpoint_unique endpoint_free row_free request_built arrived-Delivers (λ name r. refl)
      row-IsValid row-Fits pg-IsBackend refl
      (record { offset = utc; zoned = refl; in_range = omega arith }) shop_named
      inbox-UniqueReceipts first_delivery
