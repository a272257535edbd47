-- ===== src/Schema/Tables.antt =====
-- src/pactix/db/tables.py: the metadata of the two tables, with a type for each dialect.
use pactix.Prelude.{Bool, true, false, Option, none, some, String, [], ◌∷◌, if◌then◌else◌}
use pactix.Schema.{
  SqlType, uuid, text, jsonb, json, integer, timestamptz, char, varchar, datetime, check,
  unique_key, index, Table, plain_column, key_column, unique_column, default_column,
}

-- `type.with_variant(..., 'mysql')`, and `_JsonEmptyObject`, which each dialect renders; `mysql` says
-- that the dialect is MySQL's.
abbrev pub variant : {A : Type 0} → Bool → A → A → A
variant mysql reference on_mysql = if mysql then on_mysql else reference

module _ (mysql : Bool) where
  -- SQLAlchemy's `Uuid` without a native type is CHAR(32).
  abbrev pub uuid_type : SqlType
  uuid_type = variant mysql uuid (char 32)

  abbrev pub jsonb_type : SqlType
  jsonb_type = variant mysql jsonb json

  abbrev pub timestamptz_type : SqlType
  timestamptz_type = variant mysql timestamptz (datetime 6)

  abbrev pub text_type : SqlType
  text_type = text

  abbrev pub indexed_text : SqlType
  indexed_text = variant mysql text (varchar 255)

  abbrev pub json_default : String
  json_default = variant mysql "'{}'::jsonb" "(JSON_OBJECT())"

  -- `postgresql_where`, which other dialects leave out.
  abbrev pub postgresql_where : String → Option String
  postgresql_where condition = variant mysql (some condition) none

  unfoldable pub outbox_message : Table
  outbox_message = record {
    name = "outbox_message";
    columns =
        key_column "id" uuid_type
        ∷ unique_column "message_id" indexed_text
        ∷ plain_column "event_type" indexed_text false
        ∷ plain_column "message_key" text_type true
        ∷ plain_column "ordering_key" indexed_text true
        ∷ plain_column "correlation_id" indexed_text true
        ∷ plain_column "payload" jsonb_type false
        ∷ default_column "headers" jsonb_type json_default
        ∷ plain_column "status" indexed_text false
        ∷ default_column "attempts" integer "0"
        ∷ plain_column "max_attempts" integer false
        ∷ plain_column "available_at" timestamptz_type false
        ∷ plain_column "lease_until" timestamptz_type true
        ∷ plain_column "last_error" text_type true
        ∷ plain_column "created_at" timestamptz_type false
        ∷ plain_column "updated_at" timestamptz_type false
        ∷ plain_column "published_at" timestamptz_type true
        ∷ [];
    constraints =
        check "status IN ('pending', 'processing', 'published', 'failed')"
          "outbox_message_status_check"
        ∷ [];
    indexes =
        index "idx_outbox_message_ready" ("status" ∷ "available_at" ∷ [])
          (postgresql_where "status = 'pending'")
        ∷ index "idx_outbox_message_fifo" ("event_type" ∷ "ordering_key" ∷ "created_at" ∷ [])
            (postgresql_where "ordering_key IS NOT NULL")
        ∷ index "idx_outbox_message_lease" ("lease_until" ∷ [])
            (postgresql_where "status = 'processing'")
        ∷ index "idx_outbox_message_correlation" ("correlation_id" ∷ [])
            (postgresql_where "correlation_id IS NOT NULL")
        ∷ [];
  }

  unfoldable pub inbox_message : Table
  inbox_message = record {
    name = "inbox_message";
    columns =
        key_column "id" uuid_type
        ∷ plain_column "source" indexed_text false
        ∷ plain_column "message_id" indexed_text false
        ∷ plain_column "event_type" indexed_text false
        ∷ plain_column "message_key" text_type true
        ∷ plain_column "ordering_key" indexed_text true
        ∷ plain_column "correlation_id" indexed_text true
        ∷ plain_column "payload" jsonb_type false
        ∷ default_column "headers" jsonb_type json_default
        ∷ plain_column "status" indexed_text false
        ∷ default_column "attempts" integer "0"
        ∷ plain_column "max_attempts" integer false
        ∷ plain_column "available_at" timestamptz_type false
        ∷ plain_column "lease_until" timestamptz_type true
        ∷ plain_column "last_error" text_type true
        ∷ plain_column "received_at" timestamptz_type false
        ∷ plain_column "updated_at" timestamptz_type false
        ∷ plain_column "processed_at" timestamptz_type true
        ∷ [];
    constraints =
        check "status IN ('pending', 'processing', 'processed', 'failed')"
          "inbox_message_status_check"
        ∷ unique_key ("source" ∷ "message_id" ∷ []) "inbox_message_source_message_id_key"
        ∷ [];
    indexes =
        index "idx_inbox_message_ready" ("status" ∷ "available_at" ∷ [])
          (postgresql_where "status = 'pending'")
        ∷ index "idx_inbox_message_fifo" ("event_type" ∷ "ordering_key" ∷ "received_at" ∷ [])
            (postgresql_where "ordering_key IS NOT NULL")
        ∷ index "idx_inbox_message_lease" ("lease_until" ∷ [])
            (postgresql_where "status = 'processing'")
        ∷ index "idx_inbox_message_correlation" ("correlation_id" ∷ [])
            (postgresql_where "correlation_id IS NOT NULL")
        ∷ [];
  }
