-- ===== src/Outbox/Model.antt =====
-- src/pactix/outbox/model.py: the status of a row and the record in memory.
use pactix.Prelude.{
  ℕ, ◌+◌, ◌≡◌, refl, Option, none, some, String, str_eq, if◌then◌else◌, persistence_error, Result,
  ok, err, ◌>>=◌, arith, eq_iff,
}
use Prim.Native.String.{◌++◌}
use pactix.Prelude.Dict.{Dict}
use pactix.Dialect.{DateTime}
use pactix.Config.{RetryPolicy}
use pactix.Message.{JsonValue, MessageMetadata, MessageEnvelope, new_envelope}

pub data OutboxStatus : Type 0 where
  pending processing published failed : OutboxStatus

unfoldable pub as_str : OutboxStatus → String
as_str pending = "pending"
as_str processing = "processing"
as_str published = "published"
as_str failed = "failed"

unfoldable pub from_str : String → Result OutboxStatus
from_str value =
    if str_eq value "pending"
    then ok pending
    else if str_eq value "processing"
    then ok processing
    else if str_eq value "published"
    then ok published
    else if str_eq value "failed"
    then ok failed
    else err (persistence_error ("unknown outbox status '" ++ value ++ "'"))

pub record OutboxMessageRecord : Type 0 where
  pub id : ℕ
  pub message_id : String
  pub event_type : String
  pub message_key : Option String
  pub ordering_key : Option String
  pub correlation_id : Option String
  pub payload : JsonValue
  pub headers : Dict String
  pub status : OutboxStatus
  pub attempts : ℕ
  pub max_attempts : ℕ
  pub available_at : DateTime
  pub lease_until : Option DateTime
  pub last_error : Option String
  pub created_at : DateTime
  pub updated_at : DateTime
  pub published_at : Option DateTime

abbrev pub pending_record :
    {F : Type 0} → RetryPolicy F → ℕ → DateTime → MessageEnvelope → OutboxMessageRecord
pending_record policy id now envelope = record {
  id = id;
  message_id = envelope.metadata.message_id;
  event_type = envelope.metadata.event_type;
  message_key = envelope.metadata.message_key;
  ordering_key = envelope.metadata.ordering_key;
  correlation_id = envelope.metadata.correlation_id;
  payload = envelope.payload;
  headers = envelope.metadata.headers;
  status = pending;
  attempts = 0;
  max_attempts = policy.max_attempts;
  available_at = now;
  lease_until = none;
  last_error = none;
  created_at = now;
  updated_at = now;
  published_at = none;
}

-- `OutboxMessageRecord.pending`; the fresh UUID and the time are arguments.
unfoldable pub new_pending :
    {F : Type 0}
    → MessageMetadata
    → JsonValue
    → RetryPolicy F
    → ℕ
    → DateTime
    → Result OutboxMessageRecord
unfolding new_envelope
new_pending metadata payload policy id now =
    new_envelope metadata payload >>= λ envelope. ok (pending_record policy id now envelope)

-- The methods of a record; `now` is what `_utcnow` answers.
unfoldable pub mark_processing : DateTime → DateTime → OutboxMessageRecord → OutboxMessageRecord
mark_processing now lease_until r = record r {
  status = processing;
  lease_until = some lease_until;
  updated_at = now;
}

unfoldable pub mark_retry : DateTime → String → DateTime → OutboxMessageRecord → OutboxMessageRecord
mark_retry now error available_at r = record r {
  status = pending;
  attempts = r.attempts + 1;
  available_at = available_at;
  lease_until = none;
  last_error = some error;
  updated_at = now;
}

unfoldable pub mark_failed : DateTime → String → OutboxMessageRecord → OutboxMessageRecord
mark_failed now error r = record r {
  status = failed;
  attempts = r.attempts + 1;
  lease_until = none;
  last_error = some error;
  updated_at = now;
}

unfoldable pub mark_published : DateTime → DateTime → OutboxMessageRecord → OutboxMessageRecord
mark_published now published_at r = record r {
  status = published;
  lease_until = none;
  published_at = some published_at;
  updated_at = now;
}

-- Every status is read back from its text.
pub from_str-as_str : (s : OutboxStatus) → from_str (as_str s) ≡ ok s
unfolding from_str as_str
from_str-as_str pending = refl
from_str-as_str processing = refl
from_str-as_str published = refl
from_str-as_str failed = refl

-- A text that is read as a status is the text of that status.
as_str-from_str : (text : String) (s : OutboxStatus) → from_str text ≡ ok s → as_str s ≡ text
unfolding from_str as_str
as_str-from_str text s h = ground (
  arith,
  eq_iff text "pending",
  eq_iff text "processing",
  eq_iff text "published",
  eq_iff text "failed",
)
