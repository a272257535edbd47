-- ===== src/Transport/Http/Inbox.antt =====
-- src/pactix/transport/http/inbox.py: requests as messages of the inbox, and the endpoint.
-- `lower` is `str.lower`. A request is its headers, and the JSON of its body or the exception of
-- reading it. The time of the metadata (`occurred_at`) and the one of the store are two readings of
-- the clock.
use pactix.Prelude.{
  ℕ, Option, none, some, String, [], map, Result, ok, err, ◌>>=◌, Error, validation_error,
  persistence_error, routing_error,
}
use Prim.Native.String.{◌++◌}
use pactix.Prelude.Dict.{Dict, get, update}
use pactix.Dialect.{DateTime, Executor}
use pactix.Config.{PactixConfig}
use pactix.Message.{JsonValue, MessageEnvelope, new_metadata, with_headers, new_envelope}
use pactix.Outbox.Publisher.{or_raise}
use pactix.Inbox.Table.{InboxTable}
use pactix.Inbox.Store.{ReceiveOutcome, save_received}
use pactix.Transport.{with_keys, transaction}
use pactix.Transport.Http.Headers.{
  event_type_header, message_id_header, message_key_header, ordering_key_header,
  correlation_id_header,
}

pub record HttpInboundMessage : Type 0 where
  pub message_id : String
  pub event_type : String
  pub message_key : Option String
  pub ordering_key : Option String
  pub correlation_id : Option String
  pub headers : Dict String
  pub payload : JsonValue

-- `{key.lower(): value for key, value in headers.items()}`
unfoldable pub normalized : (String → String) → Dict String → Dict String
normalized lower headers = update [] (map (λ (k, v). (lower k, v)) headers)

abbrev pub header_required : String → Error
header_required name = validation_error (name ++ " header is required")

-- The message of headers that are normalized.
unfoldable pub of_normalized : Dict String → JsonValue → Result HttpInboundMessage
of_normalized headers payload = do
  message_id ← or_raise (header_required message_id_header) (get headers message_id_header)
  event_type ← or_raise (header_required event_type_header) (get headers event_type_header)
  ok (record {
    message_id = message_id;
    event_type = event_type;
    message_key = get headers message_key_header;
    ordering_key = get headers ordering_key_header;
    correlation_id = get headers correlation_id_header;
    headers = headers;
    payload = payload;
  })

unfoldable pub from_headers :
    (String → String) → Dict String → JsonValue → Result HttpInboundMessage
from_headers lower headers payload = of_normalized (normalized lower headers) payload

unfoldable pub to_envelope : DateTime → HttpInboundMessage → Result MessageEnvelope
to_envelope occurred_at message =
    new_envelope
      (with_headers
        (with_keys message.message_key message.ordering_key message.correlation_id
          (new_metadata occurred_at message.message_id message.event_type))
        message.headers)
      message.payload

-- A response: its status and, for a `PlainTextResponse`, its text.
pub record Response : Type 0 where
  pub status : ℕ
  pub text : Option String

abbrev pub accepted : Response
accepted = record { status = 202; text = none }

abbrev pub plain_text : String → ℕ → Response
plain_text text status = record { status = status; text = some text }

-- The `except` clauses of the handler; an exception of another kind is raised on.
unfoldable pub respond : InboxTable × Result ReceiveOutcome → InboxTable × Result Response
respond (table, ok outcome) = (table, ok accepted)
respond (table, err (validation_error text)) = (table, ok (plain_text text 400))
respond (table, err (persistence_error text)) = (table, ok (plain_text text 500))
respond (table, err (routing_error text)) = (table, ok (plain_text text 500))
respond (table, err error) = (table, err error)

-- Reading the headers may raise before the store is called.
abbrev pub after_message :
    (HttpInboundMessage → InboxTable → InboxTable × Result ReceiveOutcome)
    → Result HttpInboundMessage
    → InboxTable
    → InboxTable × Result ReceiveOutcome
after_message store (err error) table = (table, err error)
after_message store (ok message) table = store message table

module _ {F : Type 0} (lower : String → String) (config : PactixConfig F) (executor : Executor)
    (source : String) where
  -- `save_message`; the fresh id and the two times are arguments.
  unfoldable pub save_message :
      ℕ → DateTime → DateTime → HttpInboundMessage → InboxTable → InboxTable × Result ReceiveOutcome
  save_message id occurred_at now message table = transaction (executor.ending 0) table (
      to_envelope occurred_at message >>= λ envelope.
      save_received config executor id now source envelope table)

  -- `save`
  unfoldable pub save :
      ℕ
      → DateTime
      → DateTime
      → Dict String
      → JsonValue
      → InboxTable
      → InboxTable × Result ReceiveOutcome
  save id occurred_at now headers payload table =
      after_message (save_message id occurred_at now) (from_headers lower headers payload) table

  -- The handler of `make_inbox_endpoint`.
  unfoldable pub handler :
      ℕ
      → DateTime
      → DateTime
      → Dict String
      → Result JsonValue
      → InboxTable
      → InboxTable × Result Response
  handler id occurred_at now headers (err error) table = (table, err error)
  handler id occurred_at now headers (ok payload) table =
      respond (save id occurred_at now headers payload table)
