-- ===== src/Inbox/Model.antt =====
-- src/pactix/inbox/model.py: the status of a row and the record in memory.
use pactix.Prelude.{
  ℕ, ◌+◌, ◌≡◌, refl, Option, none, some, String, str_eq, if◌then◌else◌, persistence_error, Error,
  validation_error, Result, ok, err, ◌>>=◌, arith, eq_iff,
}
use Prim.Native.String.{◌++◌}
use pactix.Prelude.Dict.{Dict}
use pactix.Prelude.Text.{is_blank}
use pactix.Dialect.{DateTime}
use pactix.Config.{RetryPolicy}
use pactix.Message.{JsonValue, MessageMetadata, MessageEnvelope, new_envelope}

pub data InboxStatus : Type 0 where
  pending processing processed failed : InboxStatus

unfoldable pub as_str : InboxStatus → String
as_str pending = "pending"
as_str processing = "processing"
as_str processed = "processed"
as_str failed = "failed"

unfoldable pub from_str : String → Result InboxStatus
from_str value =
    if str_eq value "pending"
    then ok pending
    else if str_eq value "processing"
    then ok processing
    else if str_eq value "processed"
    then ok processed
    else if str_eq value "failed"
    then ok failed
    else err (persistence_error ("unknown inbox status '" ++ value ++ "'"))

pub record InboxMessageRecord : Type 0 where
  pub id : ℕ
  pub source : String
  pub message_id : String
  pub event_type : String
  pub message_key : Option String
  pub ordering_key : Option String
  pub correlation_id : Option String
  pub payload : JsonValue
  pub headers : Dict String
  pub status : InboxStatus
  pub attempts : ℕ
  pub max_attempts : ℕ
  pub available_at : DateTime
  pub lease_until : Option DateTime
  pub last_error : Option String
  pub received_at : DateTime
  pub updated_at : DateTime
  pub processed_at : Option DateTime

abbrev pub pending_record :
    {F : Type 0} → RetryPolicy F → ℕ → DateTime → String → MessageEnvelope → InboxMessageRecord
pending_record policy id now source envelope = record {
  id = id;
  source = source;
  message_id = envelope.metadata.message_id;
  event_type = envelope.metadata.event_type;
  message_key = envelope.metadata.message_key;
  ordering_key = envelope.metadata.ordering_key;
  correlation_id = envelope.metadata.correlation_id;
  payload = envelope.payload;
  headers = envelope.metadata.headers;
  status = pending;
  attempts = 0;
  max_attempts = policy.max_attempts;
  available_at = now;
  lease_until = none;
  last_error = none;
  received_at = now;
  updated_at = now;
  processed_at = none;
}

abbrev pub source_error : Error
source_error = validation_error "source must not be empty"

-- `InboxMessageRecord.pending`; the fresh UUID and the time are arguments.
unfoldable pub new_pending :
    {F : Type 0}
    → MessageMetadata
    → JsonValue
    → RetryPolicy F
    → ℕ
    → DateTime
    → String
    → Result InboxMessageRecord
unfolding new_envelope is_blank
new_pending metadata payload policy id now source =
    if is_blank source
    then err source_error
    else new_envelope metadata payload >>= λ envelope.
        ok (pending_record policy id now source envelope)

-- The methods of a record; `now` is what `_utcnow` answers.
unfoldable pub mark_processing : DateTime → DateTime → InboxMessageRecord → InboxMessageRecord
mark_processing now lease_until r = record r {
  status = processing;
  lease_until = some lease_until;
  updated_at = now;
}

unfoldable pub mark_retry : DateTime → String → DateTime → InboxMessageRecord → InboxMessageRecord
mark_retry now error available_at r = record r {
  status = pending;
  attempts = r.attempts + 1;
  available_at = available_at;
  lease_until = none;
  last_error = some error;
  updated_at = now;
}

unfoldable pub mark_failed : DateTime → String → InboxMessageRecord → InboxMessageRecord
mark_failed now error r = record r {
  status = failed;
  attempts = r.attempts + 1;
  lease_until = none;
  last_error = some error;
  updated_at = now;
}

unfoldable pub mark_processed : DateTime → DateTime → InboxMessageRecord → InboxMessageRecord
mark_processed now processed_at r = record r {
  status = processed;
  lease_until = none;
  processed_at = some processed_at;
  updated_at = now;
}

-- Every status is read back from its text.
pub from_str-as_str : (s : InboxStatus) → from_str (as_str s) ≡ ok s
unfolding from_str as_str
from_str-as_str pending = refl
from_str-as_str processing = refl
from_str-as_str processed = refl
from_str-as_str failed = refl

-- A text that is read as a status is the text of that status.
as_str-from_str : (text : String) (s : InboxStatus) → from_str text ≡ ok s → as_str s ≡ text
unfolding from_str as_str
as_str-from_str text s h = ground (
  arith,
  eq_iff text "pending",
  eq_iff text "processing",
  eq_iff text "processed",
  eq_iff text "failed",
)
