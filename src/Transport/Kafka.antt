-- ===== src/Transport/Kafka.antt =====
-- src/pactix/transport/kafka: outbox rows as Kafka messages, and Kafka records as inbox rows.
pub mod Publisher
pub mod Consumer
pub mod RoundTrip
pub mod Commit
pub mod Redelivery
use pactix.Prelude.{String, Result}
use pactix.Message.{JsonValue}

-- The encodings of the standard library that both sides call: `json.dumps`, `json.loads`, and UTF-8.
pub record Codec (Bytes : Type 0) : Type 0 where
  pub dumps : JsonValue → String
  pub loads : Bytes → Result JsonValue
  pub encode : String → Bytes
  pub decode : Bytes → Result String
