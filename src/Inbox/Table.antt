-- ===== src/Inbox/Table.antt =====
-- The `inbox_message` table of src/pactix/db/tables.py, and the columns that the shared statements of
-- Queue use. A row's times are microseconds of UTC; a status is its text.
use pactix.Prelude.{
  ℕ, refl, Bool, Option, none, some, String, List, ◌∷◌, ◌||◌, str_eq, ◌==◌, if◌then◌else◌, exists,
  Result, ok, err, integrity_error, no_result_found, multiple_results_found, true, false, [], map,
  ◌&&◌, select,
}
use mathlib.Core.Option
use pactix.Dialect.{Executor}
use pactix.Prelude.Dict.{Dict}
use pactix.Message.{JsonValue}
use pactix.Queue.{update_rows, Columns, ColumnLaws}

pub record InboxRow : Type 0 where
  pub id : ℕ
  pub source : String
  pub message_id : String
  pub event_type : String
  pub message_key : Option String
  pub ordering_key : Option String
  pub correlation_id : Option String
  pub payload : JsonValue
  pub headers : Dict String
  pub status : String
  pub attempts : ℕ
  pub max_attempts : ℕ
  pub available_at : ℕ
  pub lease_until : Option ℕ
  pub last_error : Option String
  pub received_at : ℕ
  pub updated_at : ℕ
  pub processed_at : Option ℕ

abbrev pub InboxTable : Type 0
InboxTable = List InboxRow

abbrev pub inbox_columns : Columns InboxRow
inbox_columns = record {
  id = λ r. r.id;
  status = λ r. r.status;
  available_at = λ r. r.available_at;
  lease_until = λ r. r.lease_until;
  event_type = λ r. r.event_type;
  ordering_key = λ r. r.ordering_key;
  arrived_at = λ r. r.received_at;
  set_claimed =
      λ lease now r. record r { status = "processing"; lease_until = some lease; updated_at = now };
  set_reclaimed = λ now r. record r { status = "pending"; lease_until = none; updated_at = now };
}

pub inbox_laws : ColumnLaws inbox_columns
inbox_laws = record {
  claimed_id = λ l n r. refl;
  claimed_status = λ l n r. refl;
  claimed_lease = λ l n r. refl;
  claimed_event_type = λ l n r. refl;
  claimed_ordering_key = λ l n r. refl;
  claimed_arrived_at = λ l n r. refl;
  reclaimed_id = λ n r. refl;
  reclaimed_status = λ n r. refl;
  reclaimed_lease = λ n r. refl;
  reclaimed_event_type = λ n r. refl;
  reclaimed_ordering_key = λ n r. refl;
  reclaimed_arrived_at = λ n r. refl;
}

-- The unique constraint on `source` and `message_id`, in a collation.
abbrev pub same_receipt : (String → String) → InboxRow → InboxRow → Bool
same_receipt weight new old =
    str_eq (weight old.source) (weight new.source)
    && str_eq (weight old.message_id) (weight new.message_id)

-- That constraint, or the primary key.
abbrev pub collides : (String → String) → InboxRow → InboxRow → Bool
collides weight new old = old.id == new.id || same_receipt weight new old

-- INSERT ... ON CONFLICT (source, message_id) DO UPDATE SET source = inbox_message.source
-- RETURNING *, (xmax = 0) AS inserted
unfoldable pub upsert_row :
    (String → String) → InboxRow → InboxTable → Result (InboxTable × List (InboxRow × Bool))
unfolding update_rows
upsert_row weight row table =
    if exists (same_receipt weight row) table
    then (let kept =
          update_rows (same_receipt weight row) (λ r. record r { source = r.source }) table in
        ok (kept, map (λ r. (r, false)) (select (same_receipt weight row) kept)))
    else if exists (λ old. old.id == row.id) table
    then err integrity_error
    else ok (row ∷ table, (row, true) ∷ [])

-- What INSERT IGNORE makes of the texts of a new row: too long a text is cut off.
abbrev pub truncated : Executor → InboxRow → InboxRow
truncated executor row = record row {
  source = executor.keep row.source;
  message_id = executor.keep row.message_id;
  event_type = executor.keep row.event_type;
  message_key = Option.map executor.keep_text row.message_key;
  ordering_key = Option.map executor.keep row.ordering_key;
  correlation_id = Option.map executor.keep row.correlation_id;
}

-- INSERT IGNORE, and its row count.
unfoldable pub insert_ignore : Executor → InboxRow → InboxTable → InboxTable × ℕ
insert_ignore executor row table =
    if exists (collides executor.weight (truncated executor row)) table
    then (table, 0)
    else (truncated executor row ∷ table, 1)

-- `.one()`
unfoldable pub one : {A : Type 0} → List A → Result A
one [] = err no_result_found
one (a ∷ []) = ok a
one (a ∷ b ∷ rest) = err multiple_results_found
