-- ===== src/Message.antt =====
-- src/pactix/message.py: delivery metadata, its validation, and the envelope.
pub mod Validation
use pactix.Prelude.{
  Bool, true, false, not, ◌&&◌, Option, none, some, String, if◌then◌else◌, Result, ok, err, Error,
  validation_error, ◌>>=◌, ◌>>◌, [],
}
use pactix.Prelude.Dict.{Dict}
use pactix.Prelude.Text.{is_blank}
use pactix.Dialect.{DateTime}
pub use pactix.Prelude.Json.{JsonValue, null}

pub record MessageMetadata : Type 0 where
  pub message_id : String
  pub event_type : String
  pub message_key : Option String
  pub ordering_key : Option String
  pub correlation_id : Option String
  pub headers : Dict String
  pub occurred_at : DateTime

-- `MessageMetadata(message_id=..., event_type=...)`, made at `now`.
abbrev pub new_metadata : DateTime → String → String → MessageMetadata
new_metadata now message_id event_type = record {
  message_id = message_id;
  event_type = event_type;
  message_key = none;
  ordering_key = none;
  correlation_id = none;
  headers = [];
  occurred_at = now;
}

-- `for_event_type`; the text of the fresh UUID is an argument.
unfoldable pub for_event_type : DateTime → String → String → MessageMetadata
for_event_type now uuid event_type = new_metadata now uuid event_type

unfoldable pub with_message_key : MessageMetadata → String → MessageMetadata
with_message_key m message_key = record m { message_key = some message_key }

unfoldable pub with_ordering_key : MessageMetadata → String → MessageMetadata
with_ordering_key m ordering_key = record m { ordering_key = some ordering_key }

unfoldable pub with_correlation_id : MessageMetadata → String → MessageMetadata
with_correlation_id m correlation_id = record m { correlation_id = some correlation_id }

unfoldable pub with_headers : MessageMetadata → Dict String → MessageMetadata
with_headers m headers = record m { headers = headers }

-- `key is not None and bool(key.strip())`
abbrev pub has_key : Option String → Bool
has_key none = false
has_key (some key) = not (is_blank key)

-- `key is not None and not key.strip()`
abbrev pub blank_key : Option String → Bool
blank_key none = false
blank_key (some key) = is_blank key

abbrev pub message_id_error : Error
message_id_error = validation_error "message_id must not be empty"

abbrev pub event_type_error : Error
event_type_error = validation_error "event_type must not be empty"

abbrev pub ordering_key_required : Error
ordering_key_required = validation_error "ordering_key is required for ordered event types"

abbrev pub ordering_key_error : Error
ordering_key_error = validation_error "ordering_key must not be empty when provided"

unfoldable pub validate : MessageMetadata → Bool → Result (Unit {0})
validate m requires_ordering_key =
    if is_blank m.message_id
    then err message_id_error
    else if is_blank m.event_type
    then err event_type_error
    else if requires_ordering_key && not (has_key m.ordering_key)
    then err ordering_key_required
    else if blank_key m.ordering_key
    then err ordering_key_error
    else ok tt

pub record MessageEnvelope : Type 0 where
  pub metadata : MessageMetadata
  pub payload : JsonValue

-- The constructor, whose `__post_init__` validates the metadata.
unfoldable pub new_envelope : MessageMetadata → JsonValue → Result MessageEnvelope
unfolding validate
new_envelope metadata payload =
    validate metadata false >> ok (record { metadata = metadata; payload = payload })
