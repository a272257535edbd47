-- ===== src/Samples/Transports.antt =====
-- A row of an outbox, an endpoint, a topic, and a codec for the transports.
use pactix.Prelude.{
  ◌-◌, ◌≡◌, refl, true, ◌&&◌, none, some, String, [], ◌∷◌, Error, foreign_error, Result, ok, err,
  if◌then◌else◌, leb, str_eq, str_eq→eq, arith, Bool-cases, inl, inr,
}
use Prim.Native.Char.{Char, code}
use Prim.Native.String.{◌++◌, slice}
use pactix.Prelude.Text.{is_lower_ascii}
use pactix.Prelude.Dict.{Dict, get, put, update}
use pactix.Message.{null}
use pactix.Outbox.Model.{OutboxMessageRecord, processing}
use pactix.Transport.Http.Headers.{
  event_type_header, message_id_header, message_key_header, ordering_key_header,
  correlation_id_header,
}
use pactix.Transport.Http.Publisher.{
  HttpEndpoint, HttpEndpointRouter, HttpOutboundRequest, HttpResponse,
}
use pactix.Transport.Http.Inbox.{normalized}
use pactix.Transport.Http.Names.{IsLower, is_reserved, Delivers}
use pactix.Transport.Kafka.{Codec}
use pactix.Transport.Kafka.Publisher.{KafkaTopicRouter}
use pactix.Samples.{noon}

-- `str.lower` on ASCII texts.
abbrev pub lower_char : Char → String → String
lower_char c rest =
    if leb 65 (code c) && leb (code c) 90
    then slice "abcdefghijklmnopqrstuvwxyz" (code c - 65) (code c - 64) ++ rest
    else String.◌∷◌ c rest

unfoldable pub ascii_lower : String → String
ascii_lower String.[] = String.[]
ascii_lower (String.◌∷◌ c s) = lower_char c (ascii_lower s)

pub ascii_lower-IsLower : IsLower ascii_lower
unfolding ascii_lower is_lower_ascii
ascii_lower-IsLower String.[] h = refl
ascii_lower-IsLower (String.◌∷◌ c s) h = ground (arith, ascii_lower-IsLower s)

abbrev pub sent_row : OutboxMessageRecord
sent_row = record {
  id = 1;
  message_id = "m-1";
  event_type = "order.paid";
  message_key = none;
  ordering_key = some "customer-7";
  correlation_id = some "c-9";
  payload = null;
  headers = ("X-Tenant", "acme") ∷ [];
  status = processing;
  attempts = 0;
  max_attempts = 10;
  available_at = noon;
  lease_until = some noon;
  last_error = none;
  created_at = noon;
  updated_at = noon;
  published_at = none;
}

abbrev pub endpoint : HttpEndpoint
endpoint = record {
  method = "POST";
  url = "https://shop/inbox";
  headers = ("Authorization", "token") ∷ [];
}

abbrev pub http_router : HttpEndpointRouter
http_router = record { endpoints = ("order.paid", endpoint) ∷ [] }

abbrev pub request : HttpOutboundRequest
request = record {
  method = "POST";
  url = "https://shop/inbox";
  payload = null;
  headers =
      ("Authorization", "token")
      ∷ ("X-Tenant", "acme")
      ∷ ("content-type", "application/json")
      ∷ (message_id_header, "m-1")
      ∷ (event_type_header, "order.paid")
      ∷ (ordering_key_header, "customer-7")
      ∷ (correlation_id_header, "c-9")
      ∷ [];
}

-- The same headers as a proxy may hand them on.
abbrev pub arrived : Dict String
arrived =
    ("Host", "shop")
    ∷ ("X-Pactix-Message-Id", "m-1")
    ∷ ("X-Pactix-Event-Type", "order.paid")
    ∷ ("X-Pactix-Ordering-Key", "customer-7")
    ∷ ("X-Pactix-Correlation-Id", "c-9")
    ∷ []

same_under :
    (h h' : Dict String)
    → get h message_id_header ≡ get h' message_id_header
    → get h event_type_header ≡ get h' event_type_header
    → get h message_key_header ≡ get h' message_key_header
    → get h ordering_key_header ≡ get h' ordering_key_header
    → get h correlation_id_header ≡ get h' correlation_id_header
    → (name : String) → is_reserved name ≡ true
    → get h name ≡ get h' name
unfolding is_reserved
same_under h h' a b c d e name r = elim (Bool-cases (str_eq name message_id_header)) [
  | inl t ↦ rw (str_eq→eq name message_id_header t) a
  | inr f ↦ elim (Bool-cases (str_eq name event_type_header)) [
    | inl t ↦ rw (str_eq→eq name event_type_header t) b
    | inr g ↦ elim (Bool-cases (str_eq name message_key_header)) [
      | inl t ↦ rw (str_eq→eq name message_key_header t) c
      | inr i ↦ elim (Bool-cases (str_eq name ordering_key_header)) [
        | inl t ↦ rw (str_eq→eq name ordering_key_header t) d
        | inr j ↦ rw (str_eq→eq name correlation_id_header (rw (f, g, i, j) at r)) e
      ]
    ]
  ]
]

pub arrived-Delivers : Delivers ascii_lower request.headers arrived
unfolding normalized get ascii_lower update put
arrived-Delivers =
    same_under (normalized ascii_lower arrived) (normalized ascii_lower request.headers) refl refl
      refl refl refl

-- A client that answers, and one that raises.
abbrev pub answers : HttpOutboundRequest → Result HttpResponse
answers q = ok (record { status = 204; body = none })

abbrev pub str : Error → String
str error = "no connection"

abbrev pub topic_router : KafkaTopicRouter
topic_router = record { topics = ("order.paid", "orders") ∷ [] }

-- A codec whose bytes are texts, for JSON `null` alone.
abbrev pub codec : Codec String
codec = record {
  dumps = λ p. "null";
  loads = λ bytes. if str_eq bytes "null" then ok null else err (foreign_error "JSONDecodeError");
  encode = λ s. s;
  decode = λ s. ok s;
}
