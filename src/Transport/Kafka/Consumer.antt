-- ===== src/Transport/Kafka/Consumer.antt =====
-- src/pactix/transport/kafka/consumer.py: records as messages of the inbox, and the consumer, which
-- stores a message before it commits its offset.
-- A committer is a parameter: whether it commits a position, or the exception that it raises. The time
-- of the metadata (`occurred_at`) and the one of the store are two readings of the clock.
use pactix.Prelude.{
  ℕ, ◌+◌, Option, none, some, String, List, [], ◌∷◌, if◌then◌else◌, Result, ok, err, ◌>>=◌, Error,
  validation_error,
}
use Prim.Native.String.{◌++◌}
use pactix.Prelude.Text.{is_empty}
use pactix.Prelude.Decimal.{decimal}
use pactix.Prelude.Dict.{Dict, get, put}
use pactix.Dialect.{DateTime, Executor}
use pactix.Config.{PactixConfig}
use pactix.Message.{JsonValue, MessageEnvelope, new_metadata, with_headers, new_envelope}
use pactix.Outbox.Publisher.{or_raise}
use pactix.Inbox.Table.{InboxTable}
use pactix.Inbox.Store.{ReceiveOutcome, save_received}
use pactix.Transport.{with_keys, transaction}
use pactix.Transport.Kafka.{Codec}

pub record KafkaInboundMessage : Type 0 where
  pub topic : String
  pub partition : ℕ
  pub offset : ℕ
  pub key : Option String
  pub payload : JsonValue
  pub headers : Dict String

unfoldable pub fallback_message_id : KafkaInboundMessage → String
fallback_message_id message =
    message.topic ++ ":" ++ decimal message.partition ++ ":" ++ decimal message.offset

-- `text or other`: no text, and the empty one, count as false.
abbrev pub text_or : Option String → String → String
text_or none other = other
text_or (some text) other = if is_empty text then other else text

abbrev pub event_type_required : Error
event_type_required = validation_error "event_type header is required"

unfoldable pub to_envelope : DateTime → KafkaInboundMessage → Result MessageEnvelope
to_envelope occurred_at message = do
  event_type ← or_raise event_type_required (get message.headers "event_type")
  let message_id = text_or (get message.headers "message_id") (fallback_message_id message)
  new_envelope
      (with_headers
        (with_keys message.key (get message.headers "ordering_key")
          (get message.headers "correlation_id") (new_metadata occurred_at message_id event_type))
        message.headers)
      message.payload

-- The parts of a `ConsumerRecord` of `aiokafka` that are read.
pub record ConsumerRecord (Bytes : Type 0) : Type 0 where
  pub topic : String
  pub partition : ℕ
  pub offset : ℕ
  pub key : Option Bytes
  pub value : Option Bytes
  pub headers : List (String × Option Bytes)

abbrev pub payload_required : Error
payload_required = validation_error "Kafka payload is required"

module _ {Bytes : Type 0} (codec : Codec Bytes) where
  -- The loop over the headers.
  unfoldable pub read_headers : Dict String → List (String × Option Bytes) → Result (Dict String)
  read_headers headers [] = ok headers
  read_headers headers ((key, none) ∷ rest) = read_headers (put headers key "") rest
  read_headers headers ((key, some value) ∷ rest) =
      codec.decode value >>= λ text. read_headers (put headers key text) rest

  unfoldable pub read_key : Option Bytes → Result (Option String)
  read_key none = ok none
  read_key (some key) = codec.decode key >>= λ text. ok (some text)

  unfoldable pub from_record : ConsumerRecord Bytes → Result KafkaInboundMessage
  from_record r = do
    value ← or_raise payload_required r.value
    payload ← codec.loads value
    headers ← read_headers [] r.headers
    key ← read_key r.key
    ok (record {
      topic = r.topic;
      partition = r.partition;
      offset = r.offset;
      key = key;
      payload = payload;
      headers = headers;
    })

-- The inbox, and the positions that were committed, the newest first.
pub record ConsumerState : Type 0 where
  pub table : InboxTable
  pub commits : List (String × ℕ × ℕ)

abbrev pub Committer : Type 0
Committer = String → ℕ → ℕ → Result (Unit {0})

-- `AIOKafkaOffsetCommitter.commit`: the consumer commits the next offset of the partition.
unfoldable pub aio_commit : (String × ℕ → ℕ → Result (Unit {0})) → Committer
aio_commit consumer_commit topic partition offset = consumer_commit (topic, partition) (offset + 1)

-- After the transaction has ended: an exception of it, or of the committer, is raised.
abbrev pub after_commit :
    String × ℕ × ℕ
    → ReceiveOutcome
    → Result (Unit {0})
    → ConsumerState
    → ConsumerState × Result ReceiveOutcome
after_commit position outcome (err error) s = (s, err error)
after_commit position outcome (ok _) s = (record s { commits = position ∷ s.commits }, ok outcome)

abbrev pub after_store :
    Committer
    → KafkaInboundMessage
    → InboxTable × Result ReceiveOutcome
    → ConsumerState
    → ConsumerState × Result ReceiveOutcome
after_store commit message (table', err error) s = (record s { table = table' }, err error)
after_store commit message (table', ok outcome) s =
    after_commit (message.topic, message.partition, message.offset) outcome
      (commit message.topic message.partition message.offset) (record s { table = table' })

module _ {F : Type 0} (config : PactixConfig F) (executor : Executor) (source : String) where
  -- `save_and_commit`; the fresh id and the two times are arguments.
  unfoldable pub save_and_commit :
      ℕ
      → DateTime
      → DateTime
      → KafkaInboundMessage
      → Committer
      → ConsumerState
      → ConsumerState × Result ReceiveOutcome
  save_and_commit id occurred_at now message commit s =
      after_store commit message
        (transaction (executor.ending 0) s.table (
          to_envelope occurred_at message >>= λ envelope.
          save_received config executor id now source envelope s.table))
        s
