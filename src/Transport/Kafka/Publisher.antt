-- ===== src/Transport/Kafka/Publisher.antt =====
-- src/pactix/transport/kafka/publisher.py: `KafkaOutboxPublisher`, and the client over `aiokafka`.
-- A client is a parameter: whether it sends a message, or the exception that it raises; `str` is the
-- text of an exception. The lock of the router makes each of its methods one step.
use pactix.Prelude.{Option, String, List, map, Error, routing_error, Result, ok, err, ◌>>=◌}
use Prim.Native.String.{◌++◌}
use mathlib.Core.Option
use pactix.Prelude.Dict.{Dict, get, put}
use pactix.Outbox.Model.{OutboxMessageRecord}
use pactix.Outbox.Publisher.{PublishOutcome, published_outcome, retryable_outcome, or_raise}
use pactix.Transport.{put_some}
use pactix.Transport.Kafka.{Codec}

pub record KafkaProducedMessage : Type 0 where
  pub topic : String
  pub key : Option String
  pub payload : String
  pub headers : Dict String

-- `KafkaTopicRouter`: its topics by event type.
pub record KafkaTopicRouter : Type 0 where
  pub topics : Dict String

unfoldable pub register : KafkaTopicRouter → String → String → KafkaTopicRouter
register router event_type topic = record { topics = put router.topics event_type topic }

abbrev pub no_topic : String → Error
no_topic event_type = routing_error ("no Kafka topic registered for '" ++ event_type ++ "'")

unfoldable pub resolve : KafkaTopicRouter → String → Result String
resolve router event_type = or_raise (no_topic event_type) (get router.topics event_type)

-- The headers of the message of a row.
unfoldable pub message_headers : OutboxMessageRecord → Dict String
message_headers r =
    let headers = put r.headers "message_id" r.message_id in
    let headers = put headers "event_type" r.event_type in
    let headers = put_some headers "ordering_key" r.ordering_key in
    put_some headers "correlation_id" r.correlation_id

-- What `send_and_wait` of the producer is called with.
pub record ProducerRecord (Bytes : Type 0) : Type 0 where
  pub topic : String
  pub value : Bytes
  pub key : Option Bytes
  pub headers : List (String × Bytes)

module _ {Bytes : Type 0} (codec : Codec Bytes) where
  unfoldable pub build_message :
      KafkaTopicRouter → OutboxMessageRecord → Result KafkaProducedMessage
  build_message router r = do
    topic ← resolve router r.event_type
    ok (record {
      topic = topic;
      key = r.message_key;
      payload = codec.dumps r.payload;
      headers = message_headers r;
    })

  -- After the client has sent the message or raised.
  abbrev pub after_send : (Error → String) → Result (Unit {0}) → PublishOutcome
  after_send str (err error) = retryable_outcome (str error)
  after_send str (ok _) = published_outcome

  unfoldable pub publish :
      (Error → String)
      → (KafkaProducedMessage → Result (Unit {0}))
      → KafkaTopicRouter
      → OutboxMessageRecord
      → Result PublishOutcome
  publish str send router r =
      build_message router r >>= λ message. ok (after_send str (send message))

  -- `AIOKafkaProducerClient.send`, up to the call of the producer.
  unfoldable pub produced : KafkaProducedMessage → ProducerRecord Bytes
  produced message = record {
    topic = message.topic;
    value = codec.encode message.payload;
    key = Option.map codec.encode message.key;
    headers = map (λ (k, v). (k, codec.encode v)) message.headers;
  }
