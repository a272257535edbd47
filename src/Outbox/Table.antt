-- ===== src/Outbox/Table.antt =====
-- The `outbox_message` table of src/pactix/db/tables.py, and the columns that the shared statements of
-- Queue use. A row's times are microseconds of UTC; a status is its text.
use pactix.Prelude.{
  ℕ, refl, Bool, Option, none, some, String, List, ◌∷◌, ◌||◌, str_eq, ◌==◌, if◌then◌else◌, exists,
  Result, ok, err, integrity_error, Error, foreign_error, true, not, ◌&&◌,
}
use pactix.Prelude.Dict.{Dict}
use pactix.Message.{JsonValue}
use pactix.Dialect.{Executor}
use pactix.Queue.{Columns, ColumnLaws}

pub record OutboxRow : Type 0 where
  pub id : ℕ
  pub message_id : String
  pub event_type : String
  pub message_key : Option String
  pub ordering_key : Option String
  pub correlation_id : Option String
  pub payload : JsonValue
  pub headers : Dict String
  pub status : String
  pub attempts : ℕ
  pub max_attempts : ℕ
  pub available_at : ℕ
  pub lease_until : Option ℕ
  pub last_error : Option String
  pub created_at : ℕ
  pub updated_at : ℕ
  pub published_at : Option ℕ

abbrev pub OutboxTable : Type 0
OutboxTable = List OutboxRow

abbrev pub outbox_columns : Columns OutboxRow
outbox_columns = record {
  id = λ r. r.id;
  status = λ r. r.status;
  available_at = λ r. r.available_at;
  lease_until = λ r. r.lease_until;
  event_type = λ r. r.event_type;
  ordering_key = λ r. r.ordering_key;
  arrived_at = λ r. r.created_at;
  set_claimed =
      λ lease now r. record r { status = "processing"; lease_until = some lease; updated_at = now };
  set_reclaimed = λ now r. record r { status = "pending"; lease_until = none; updated_at = now };
}

pub outbox_laws : ColumnLaws outbox_columns
outbox_laws = record {
  claimed_id = λ l n r. refl;
  claimed_status = λ l n r. refl;
  claimed_lease = λ l n r. refl;
  claimed_event_type = λ l n r. refl;
  claimed_ordering_key = λ l n r. refl;
  claimed_arrived_at = λ l n r. refl;
  reclaimed_id = λ n r. refl;
  reclaimed_status = λ n r. refl;
  reclaimed_lease = λ n r. refl;
  reclaimed_event_type = λ n r. refl;
  reclaimed_ordering_key = λ n r. refl;
  reclaimed_arrived_at = λ n r. refl;
}

-- The primary key, and `unique=True` of `message_id`, in a collation.
abbrev pub collides : (String → String) → OutboxRow → OutboxRow → Bool
collides weight new old = old.id == new.id || str_eq (weight old.message_id) (weight new.message_id)

abbrev pub unchanged : (String → String) → String → Bool
unchanged keep text = str_eq (keep text) text

abbrev pub unchanged_option : (String → String) → Option String → Bool
unchanged_option keep none = true
unchanged_option keep (some text) = unchanged keep text

-- The texts of a new row fit into their columns.
unfoldable pub fits : Executor → OutboxRow → Bool
fits e row =
    unchanged e.keep row.message_id
    && unchanged e.keep row.event_type
    && unchanged_option e.keep_text row.message_key
    && unchanged_option e.keep row.ordering_key
    && unchanged_option e.keep row.correlation_id

abbrev pub data_error : Error
data_error = foreign_error "DataError"

-- INSERT: in the strict mode of MySQL, its default, too long a text is an error.
unfoldable pub insert_row : Executor → OutboxRow → OutboxTable → Result OutboxTable
insert_row e row table =
    if not (fits e row)
    then err data_error
    else if exists (collides e.weight row) table
    then err integrity_error
    else ok (row ∷ table)
