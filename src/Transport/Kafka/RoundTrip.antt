-- ===== src/Transport/Kafka/RoundTrip.antt =====
-- From a row of the outbox to the envelope that the consumer makes of the record.
use pactix.Prelude.{
  ◌≡◌, refl, sym, subst, false, Option, none, some, String, [], ◌∷◌, map, str_eq, if◌then◌else◌, ok,
  ◌>>=◌, >>=-eq-ok, ok-eq,
}
use mathlib.Core.Option
use pactix.Prelude.Text.{is_blank}
use pactix.Prelude.Dict.{Dict, get, put, update, UniqueKeys, get-put}
use pactix.Prelude.Dict.Laws.{or_before, put-UniqueKeys, update-items}
use pactix.Dialect.{DateTime}
use pactix.Message.{new_envelope}
use pactix.Message.Validation.{IsValid, IsValid-validate}
use pactix.Outbox.Model.{OutboxMessageRecord}
use pactix.Transport.Metadata.{
  received_metadata, with_keys-new_metadata, get-put_some, put_some-UniqueKeys,
}
use pactix.Transport.Kafka.{Codec}
use pactix.Transport.Kafka.Publisher.{
  KafkaProducedMessage, KafkaTopicRouter, ProducerRecord, message_headers, build_message, produced,
  resolve,
}
use pactix.Transport.Kafka.Consumer.{
  KafkaInboundMessage, ConsumerRecord, text_or, fallback_message_id, to_envelope, read_headers,
  read_key, from_record,
}

-- A broker keeps the key, the value and the headers of a record.
pub record IsDelivery {Bytes : Type 0} (sent : ProducerRecord Bytes)
    (received : ConsumerRecord Bytes) : Type 0 where
  pub same_key : received.key ≡ sent.key
  pub same_value : received.value ≡ some sent.value
  pub same_headers : received.headers ≡ map (λ (k, v). (k, some v)) sent.headers

message_headers-UniqueKeys :
    (r : OutboxMessageRecord) → UniqueKeys r.headers → UniqueKeys (message_headers r)
unfolding message_headers
message_headers-UniqueKeys r u =
    put_some-UniqueKeys _ _ r.correlation_id
      (put_some-UniqueKeys _ _ r.ordering_key (put-UniqueKeys _ _ _ (put-UniqueKeys _ _ _ u)))

-- What stands under a name in the headers of a message.
get-message_headers :
    (r : OutboxMessageRecord) (name : String)
    → get (message_headers r) name ≡ (
        let base = get r.headers name in
        let base = if str_eq "message_id" name then some r.message_id else base in
        let base = if str_eq "event_type" name then some r.event_type else base in
        let base = if str_eq "ordering_key" name then or_before r.ordering_key base else base in
        if str_eq "correlation_id" name then or_before r.correlation_id base else base)
unfolding message_headers
get-message_headers r name =
    rw
      (
        get-put_some _ _ r.correlation_id name,
        get-put_some _ _ r.ordering_key name,
        get-put _ "event_type" name r.event_type,
        get-put _ "message_id" name r.message_id,
      )
      refl

-- A key of the row counts, and where it has none, none of its headers takes the name.
or_before-absent : (o before : Option String) → (o ≡ none → before ≡ none) → or_before o before ≡ o
or_before-absent none before h = h refl
or_before-absent (some a) before h = refl

module _ {Bytes : Type 0} (codec : Codec Bytes)
    (decodes : (s : String) → codec.decode (codec.encode s) ≡ ok s) where
  read_key-encoded : (o : Option String) → read_key codec (Option.map codec.encode o) ≡ ok o
  unfolding read_key
  read_key-encoded none = refl
  read_key-encoded (some s) = rw (decodes s) refl

  read_headers-encoded :
      (d e : Dict String)
      → read_headers codec d (map (λ (k, v). (k, some v)) (map (λ (k, v). (k, codec.encode v)) e))
        ≡ ok (update d e)
  unfolding read_headers update
  read_headers-encoded d [] = refl
  read_headers-encoded d ((k, v) ∷ e) =
      rw (read_headers, decodes v) (read_headers-encoded (put d k v) e)

text_or-not_blank : (s other : String) → is_blank s ≡ false → text_or (some s) other ≡ s
unfolding is_blank
text_or-not_blank String.[] other h = cc
text_or-not_blank (String.◌∷◌ c s) other h = refl

-- The message of a row, as a consumer reads it from a record.
abbrev pub consumed :
    {Bytes : Type 0} → ConsumerRecord Bytes → OutboxMessageRecord → KafkaInboundMessage
consumed received r = record {
  topic = received.topic;
  partition = received.partition;
  offset = received.offset;
  key = r.message_key;
  payload = r.payload;
  headers = message_headers r;
}

to_envelope-consumed :
    {Bytes : Type 0} (received : ConsumerRecord Bytes) (r : OutboxMessageRecord)
    (occurred_at : DateTime)
    → IsValid (received_metadata occurred_at (message_headers r) r)
    → (r.ordering_key ≡ none → get r.headers "ordering_key" ≡ none)
    → (r.correlation_id ≡ none → get r.headers "correlation_id" ≡ none)
    → to_envelope occurred_at (consumed received r)
      ≡ ok (record {
        metadata = received_metadata occurred_at (message_headers r) r;
        payload = r.payload;
      })
unfolding to_envelope new_envelope
to_envelope-consumed received r now v ordering correlation =
    rw
      (
        get-message_headers r "event_type",
        get-message_headers r "message_id",
        get-message_headers r "ordering_key",
        get-message_headers r "correlation_id",
        or_before-absent r.ordering_key (get r.headers "ordering_key") ordering,
        or_before-absent r.correlation_id (get r.headers "correlation_id") correlation,
        text_or-not_blank r.message_id (fallback_message_id (consumed received r)) v.has_message_id,
        with_keys-new_metadata now r.message_id r.event_type r.message_key r.ordering_key
            r.correlation_id (message_headers r),
        IsValid-validate _ v,
      )
      refl

-- The message that `build_message` makes of a row.
abbrev message_of :
    {Bytes : Type 0} → Codec Bytes → String → OutboxMessageRecord → KafkaProducedMessage
message_of codec topic r = record {
  topic = topic;
  key = r.message_key;
  payload = codec.dumps r.payload;
  headers = message_headers r;
}

from_record-consumed :
    {Bytes : Type 0} (codec : Codec Bytes) (topic : String) (r : OutboxMessageRecord)
    (received : ConsumerRecord Bytes)
    → ((s : String) → codec.decode (codec.encode s) ≡ ok s)
    → codec.loads (codec.encode (codec.dumps r.payload)) ≡ ok r.payload
    → IsDelivery (produced codec (message_of codec topic r)) received
    → UniqueKeys r.headers
    → from_record codec received ≡ ok (consumed received r)
unfolding from_record produced
from_record-consumed codec topic r received decodes loads d u =
    rw
      (
        d.same_value,
        loads,
        d.same_headers,
        read_headers-encoded codec decodes [] (message_headers r),
        update-items (message_headers r) (message_headers-UniqueKeys r u),
        d.same_key,
        read_key-encoded codec decodes r.message_key,
      )
      refl

-- A row that is sent to Kafka arrives as it was: from a record with the key, the value and the headers
-- that the producer was given, at whatever position, the consumer makes an envelope with the row's
-- message id, event type, keys and payload, and with the headers of the message. This holds where the
-- metadata is valid, the row's headers are a dict and have no `ordering_key` or `correlation_id` where
-- the row has none, UTF-8 is read back, and so is the JSON of the payload.
pub kafka_round_trip :
    {Bytes : Type 0} (codec : Codec Bytes) (router : KafkaTopicRouter) (r : OutboxMessageRecord)
    (message : KafkaProducedMessage) (received : ConsumerRecord Bytes) (occurred_at : DateTime)
    → ((s : String) → codec.decode (codec.encode s) ≡ ok s)
    → codec.loads (codec.encode (codec.dumps r.payload)) ≡ ok r.payload
    → build_message codec router r ≡ ok message
    → IsDelivery (produced codec message) received
    → UniqueKeys r.headers
    → (r.ordering_key ≡ none → get r.headers "ordering_key" ≡ none)
    → (r.correlation_id ≡ none → get r.headers "correlation_id" ≡ none)
    → IsValid (received_metadata occurred_at message.headers r)
    → (from_record codec received >>= to_envelope occurred_at)
      ≡ ok (record {
        metadata = received_metadata occurred_at message.headers r;
        payload = r.payload;
      })
unfolding build_message
kafka_round_trip codec router r message received now decodes loads built d u ordering correlation
      v =
    let (topic, _, made) = >>=-eq-ok (resolve router r.event_type) _ built in
    let shape : message_of codec topic r ≡ message = ok-eq made in
    let delivered = subst (λ m. IsDelivery (produced codec m) received) (sym shape) d in
    let valid =
      subst (λ (m : KafkaProducedMessage). IsValid (received_metadata now m.headers r)) (sym shape)
        v in
    rw (← shape, from_record-consumed codec topic r received decodes loads delivered u)
      (to_envelope-consumed received r now valid ordering correlation)
