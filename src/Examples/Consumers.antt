-- ===== src/Examples/Consumers.antt =====
-- Examples for Kafka.
use pactix.Prelude.{
  ◌≡◌, refl, false, none, some, String, [], ◌∷◌, ok, err, foreign_error, ◌>>=◌, exists, arith, ◌==◌,
  if◌then◌else◌,
}
use pactix.Prelude.Text.{is_blank}
use pactix.Prelude.Dict.{get, put, UniqueKeys}
use pactix.Prelude.Decimal.{decimal}
use pactix.Dialect.{committed, utc}
use pactix.Message.{MessageMetadata, MessageEnvelope, null, validate, new_envelope, with_headers}
use pactix.Message.Validation.{IsValid, validate_iff}
use pactix.Inbox.Table.{collides}
use pactix.Inbox.Store.{ReceiveOutcome, record_values}
use pactix.Inbox.Store.Dedup.{Fits, received_row}
use pactix.Transport.{put_some, with_keys}
use pactix.Transport.Metadata.{received_metadata}
use pactix.Transport.Kafka.Publisher.{
  KafkaProducedMessage, build_message, resolve, message_headers, produced,
}
use pactix.Transport.Kafka.Consumer.{
  KafkaInboundMessage, fallback_message_id, ConsumerRecord, ConsumerState, Committer, to_envelope,
  from_record, save_and_commit, aio_commit,
}
use pactix.Transport.Kafka.RoundTrip.{IsDelivery, kafka_round_trip}
use pactix.Transport.Kafka.Commit.{IsConsumed, attempted, save_and_commit_lem}
use pactix.Transport.Kafka.Redelivery.{kafka_redelivery}
use pactix.Samples.{config, my, my-IsBackend, noon, clock}
use pactix.Samples.Inboxes.{inbox, inbox-UniqueReceipts}
use pactix.Samples.Transports.{sent_row, topic_router, codec}

abbrev message : KafkaProducedMessage
message = record {
  topic = "orders";
  key = none;
  payload = "null";
  headers =
      ("X-Tenant", "acme")
      ∷ ("message_id", "m-1")
      ∷ ("event_type", "order.paid")
      ∷ ("ordering_key", "customer-7")
      ∷ ("correlation_id", "c-9")
      ∷ [];
}

message_built : build_message codec topic_router sent_row ≡ ok message
unfolding build_message resolve message_headers get put put_some
message_built = refl

-- The record that a broker hands on, at a position of its own.
abbrev consumer_record : ConsumerRecord String
consumer_record = record {
  topic = "orders";
  partition = 3;
  offset = 41;
  key = none;
  value = some "null";
  headers =
      ("X-Tenant", some "acme")
      ∷ ("message_id", some "m-1")
      ∷ ("event_type", some "order.paid")
      ∷ ("ordering_key", some "customer-7")
      ∷ ("correlation_id", some "c-9")
      ∷ [];
}

consumer_record-IsDelivery : IsDelivery (produced codec message) consumer_record
unfolding produced
consumer_record-IsDelivery = record { same_key = refl; same_value = refl; same_headers = refl }

headers_unique : UniqueKeys sent_row.headers
unfolding get
headers_unique = (refl, tt)

abbrev consumed_metadata : MessageMetadata
consumed_metadata = received_metadata noon message.headers sent_row

consumed-IsValid : IsValid consumed_metadata
consumed-IsValid = unfold validate is_blank in (validate_iff _).0 refl

kafka_round_trip_example :
    (from_record codec consumer_record >>= to_envelope noon)
    ≡ ok (record { metadata = consumed_metadata; payload = null })
kafka_round_trip_example =
    kafka_round_trip codec topic_router sent_row message consumer_record noon (λ s. refl) refl
      message_built consumer_record-IsDelivery headers_unique (λ h. cc) (λ h. cc) consumed-IsValid

-- A message without an id, at the position that names it.
abbrev inbound : KafkaInboundMessage
inbound = record {
  topic = "orders";
  partition = 3;
  offset = 41;
  key = some "k";
  payload = null;
  headers = ("event_type", "order.paid") ∷ [];
}

abbrev envelope : MessageEnvelope
envelope = record {
  metadata = record {
    message_id = "orders:3:41";
    event_type = "order.paid";
    message_key = some "k";
    ordering_key = none;
    correlation_id = none;
    headers = ("event_type", "order.paid") ∷ [];
    occurred_at = noon;
  };
  payload = null;
}

read : to_envelope noon inbound ≡ ok envelope
unfolding to_envelope get new_envelope validate is_blank with_keys with_headers fallback_message_id
    decimal
read = refl

-- A commit of position 42 of the partition, and one whose connection is lost.
abbrev commits : Committer
commits = aio_commit (λ partition next. if next == 42 then ok tt else err (foreign_error "stale"))

commits_at : commits "orders" 3 41 ≡ ok tt
unfolding aio_commit
commits_at = refl

abbrev loses : Committer
loses topic partition offset = err (foreign_error "no connection")

abbrev consumer : ConsumerState
consumer = record { table = inbox; commits = [] }

save_and_commit_lem_example :
    let out = save_and_commit config my "kafka" 7 noon (clock 3) inbound commits consumer in
    IsConsumed
      ("orders", 3, 41)
      (attempted config my "kafka" 7 noon (clock 3) inbound commits consumer)
      committed
      (commits "orders" 3 41)
      consumer
      out.0
      out.1
save_and_commit_lem_example =
    save_and_commit_lem config my "kafka" 7 noon (clock 3) inbound commits consumer

kafka_named : is_blank "kafka" ≡ false
unfolding is_blank
kafka_named = refl

first_time :
    exists (collides my.weight (received_row config my 7 (clock 3) "kafka" envelope)) inbox ≡ false
unfolding record_values
first_time = refl

envelope-Fits : Fits my "kafka" envelope.metadata
envelope-Fits = record {
  source_fits = refl;
  message_id_fits = refl;
  event_type_fits = refl;
  message_key_fits = refl;
  ordering_key_fits = refl;
  correlation_id_fits = refl;
}

kafka_redelivery_example :
    let row = received_row config my 7 (clock 3) "kafka" envelope in
    let kept : ConsumerState = record { table = row ∷ inbox; commits = [] } in
    (save_and_commit config my "kafka" 7 noon (clock 3) inbound loses consumer
      ≡ (kept, err (foreign_error "no connection")))
    × (outcome : ReceiveOutcome) × (outcome.inserted ≡ false)
    × (save_and_commit config my "kafka" 8 (clock 5) (clock 6) inbound commits kept
        ≡ (record { table = row ∷ inbox; commits = ("orders", 3, 41) ∷ [] }, ok outcome))
kafka_redelivery_example =
    kafka_redelivery config my "kafka" inbound 7 8 noon (clock 5) (clock 3) (clock 6) loses commits
      consumer envelope (foreign_error "no connection") read refl commits_at my-IsBackend refl
      (record { offset = utc; zoned = refl; in_range = omega arith }) kafka_named envelope-Fits
      inbox-UniqueReceipts first_time
