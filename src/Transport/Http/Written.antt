-- ===== src/Transport/Http/Written.antt =====
-- What the headers of a request hold.
use pactix.Prelude.{◌≡◌, refl, sym, ◌∙◌, true, none, some, String, str_eq, if◌then◌else◌}
use pactix.Prelude.Text.{is_lower_ascii}
use pactix.Prelude.Dict.{get, update, UniqueKeys, get-put}
use pactix.Prelude.Dict.Laws.{get-update, or_before, put-UniqueKeys, update-UniqueKeys}
use pactix.Outbox.Model.{OutboxMessageRecord}
use pactix.Transport.Metadata.{get-put_some, put_some-UniqueKeys}
use pactix.Transport.Http.Headers.{
  event_type_header, message_id_header, message_key_header, ordering_key_header,
  correlation_id_header,
}
use pactix.Transport.Http.Publisher.{HttpEndpoint, request_headers}
use pactix.Transport.Http.Names.{
  IsLower, is_reserved, is_free, Spelled, put-Spelled, put_some-Spelled, update-Spelled,
  free-Spelled, get-free, last-free,
}

module _ (lower : String → String) (lowers : IsLower lower) (endpoint : HttpEndpoint)
    (r : OutboxMessageRecord) (u : UniqueKeys endpoint.headers)
    (endpoint_free : is_free lower endpoint.headers ≡ true)
    (record_free : is_free lower r.headers ≡ true) where
  base-none :
      (name : String)
      → is_reserved name ≡ true
      → lower name ≡ name
      → get (update endpoint.headers r.headers) name ≡ none
  base-none name n l =
      get-update endpoint.headers r.headers name
      ∙ last-free lower name r.headers (get endpoint.headers name) n l record_free
      ∙ get-free lower name endpoint.headers n l endpoint_free

  pub request_headers-UniqueKeys : UniqueKeys (request_headers endpoint r)
  unfolding request_headers
  request_headers-UniqueKeys = put_some-UniqueKeys _ _ r.correlation_id (
      put_some-UniqueKeys _ _ r.ordering_key (
        put_some-UniqueKeys _ _ r.message_key (
          put-UniqueKeys _ _ _ (
            put-UniqueKeys _ _ _
              (put-UniqueKeys _ _ _ (update-UniqueKeys endpoint.headers r.headers u))))))

  pub request_headers-Spelled :
      (name : String) → is_reserved name ≡ true → Spelled lower name (request_headers endpoint r)
  unfolding request_headers is_lower_ascii
  request_headers-Spelled name n =
      put_some-Spelled lower name _ _ r.correlation_id (own correlation_id_header refl) (
        put_some-Spelled lower name _ _ r.ordering_key (own ordering_key_header refl) (
          put_some-Spelled lower name _ _ r.message_key (own message_key_header refl) (
            put-Spelled lower name _ _ _ (own event_type_header refl) (
              put-Spelled lower name _ _ _ (own message_id_header refl) (
                put-Spelled lower name _ _ _ (own "content-type" refl) (
                  update-Spelled lower name endpoint.headers r.headers
                    (free-Spelled lower name endpoint.headers n endpoint_free)
                    (free-Spelled lower name r.headers n record_free)))))))
    where
      own : (k : String) → is_lower_ascii k ≡ true → lower k ≡ name → k ≡ name
      own k a e = sym (lowers k a) ∙ e

  -- What stands under a reserved name in the headers of a request.
  pub get-request_headers :
      (name : String)
      → is_reserved name ≡ true
      → lower name ≡ name
      → get (request_headers endpoint r) name ≡ (
          let base = if str_eq "content-type" name then some "application/json" else none in
          let base = if str_eq message_id_header name then some r.message_id else base in
          let base = if str_eq event_type_header name then some r.event_type else base in
          let base =
            if str_eq message_key_header name then or_before r.message_key base else base in
          let base =
            if str_eq ordering_key_header name then or_before r.ordering_key base else base in
          if str_eq correlation_id_header name then or_before r.correlation_id base else base)
  unfolding request_headers
  get-request_headers name n l =
      rw
        (
          get-put_some _ _ r.correlation_id name,
          get-put_some _ _ r.ordering_key name,
          get-put_some _ _ r.message_key name,
          get-put _ event_type_header name r.event_type,
          get-put _ message_id_header name r.message_id,
          get-put {V = String} _ "content-type" name "application/json",
          base-none name n l,
        )
        refl
