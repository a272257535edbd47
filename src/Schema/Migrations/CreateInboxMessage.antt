-- ===== src/Schema/Migrations/CreateInboxMessage.antt =====
-- src/pactix/db/migrations/versions/0002_create_inbox_message.py
use pactix.Prelude.{Bool, true, false, Option, none, some, [], ◌∷◌}
use pactix.Schema.{
  Schema, uuid, text, jsonb, json, integer, timestamptz, char, varchar, datetime, check, unique_key,
  plain_column, key_column, default_column, create_table, create_index, drop_table, ◌>=>◌,
}
use pactix.Schema.Migrations.{on_dialect}

unfoldable pub upgrade_postgresql : Schema → Option Schema
upgrade_postgresql =
    create_table "inbox_message"
      (key_column "id" uuid
        ∷ plain_column "source" text false
        ∷ plain_column "message_id" text false
        ∷ plain_column "event_type" text false
        ∷ plain_column "message_key" text true
        ∷ plain_column "ordering_key" text true
        ∷ plain_column "correlation_id" text true
        ∷ plain_column "payload" jsonb false
        ∷ default_column "headers" jsonb "'{}'::jsonb"
        ∷ plain_column "status" text false
        ∷ default_column "attempts" integer "0"
        ∷ plain_column "max_attempts" integer false
        ∷ plain_column "available_at" timestamptz false
        ∷ plain_column "lease_until" timestamptz true
        ∷ plain_column "last_error" text true
        ∷ plain_column "received_at" timestamptz false
        ∷ plain_column "updated_at" timestamptz false
        ∷ plain_column "processed_at" timestamptz true
        ∷ [])
      (check "status IN ('pending', 'processing', 'processed', 'failed')"
          "inbox_message_status_check"
        ∷ unique_key ("source" ∷ "message_id" ∷ []) "inbox_message_source_message_id_key"
        ∷ [])
    >=> create_index "idx_inbox_message_ready" "inbox_message" ("status" ∷ "available_at" ∷ [])
        (some "status = 'pending'")
    >=> create_index "idx_inbox_message_fifo" "inbox_message"
        ("event_type" ∷ "ordering_key" ∷ "received_at" ∷ []) (some "ordering_key IS NOT NULL")
    >=> create_index "idx_inbox_message_lease" "inbox_message" ("lease_until" ∷ [])
        (some "status = 'processing'")
    >=> create_index "idx_inbox_message_correlation" "inbox_message" ("correlation_id" ∷ [])
        (some "correlation_id IS NOT NULL")

unfoldable pub upgrade_mysql : Schema → Option Schema
upgrade_mysql =
    create_table "inbox_message"
      (key_column "id" (char 32)
        ∷ plain_column "source" (varchar 255) false
        ∷ plain_column "message_id" (varchar 255) false
        ∷ plain_column "event_type" (varchar 255) false
        ∷ plain_column "message_key" text true
        ∷ plain_column "ordering_key" (varchar 255) true
        ∷ plain_column "correlation_id" (varchar 255) true
        ∷ plain_column "payload" json false
        ∷ default_column "headers" json "(JSON_OBJECT())"
        ∷ plain_column "status" (varchar 255) false
        ∷ default_column "attempts" integer "0"
        ∷ plain_column "max_attempts" integer false
        ∷ plain_column "available_at" (datetime 6) false
        ∷ plain_column "lease_until" (datetime 6) true
        ∷ plain_column "last_error" text true
        ∷ plain_column "received_at" (datetime 6) false
        ∷ plain_column "updated_at" (datetime 6) false
        ∷ plain_column "processed_at" (datetime 6) true
        ∷ [])
      (check "status IN ('pending', 'processing', 'processed', 'failed')"
          "inbox_message_status_check"
        ∷ unique_key ("source" ∷ "message_id" ∷ []) "inbox_message_source_message_id_key"
        ∷ [])
    >=> create_index "idx_inbox_message_ready" "inbox_message" ("status" ∷ "available_at" ∷ []) none
    >=> create_index "idx_inbox_message_fifo" "inbox_message"
        ("event_type" ∷ "ordering_key" ∷ "received_at" ∷ []) none
    >=> create_index "idx_inbox_message_lease" "inbox_message" ("lease_until" ∷ []) none
    >=> create_index "idx_inbox_message_correlation" "inbox_message" ("correlation_id" ∷ []) none

unfoldable pub upgrade : Bool → Schema → Option Schema
unfolding upgrade_postgresql upgrade_mysql
upgrade mysql = on_dialect mysql upgrade_mysql upgrade_postgresql

unfoldable pub downgrade : Schema → Option Schema
downgrade = drop_table "inbox_message"
