-- ===== src/Schema/Migrations/AddOutboxWakeTrigger.antt =====
-- src/pactix/db/migrations/versions/0003_add_outbox_wake_trigger.py
use pactix.Prelude.{Bool, Option, some}
use pactix.Schema.{
  Schema, Function, Trigger, create_or_replace_function, create_trigger, drop_trigger_if_exists,
  drop_function_if_exists,
}
use pactix.Schema.Migrations.{on_dialect}

abbrev pub outbox_wake : Function
outbox_wake = record { name = "outbox_wake"; notifies = "outbox_wake" }

abbrev pub outbox_message_wake : Trigger
outbox_message_wake = record {
  name = "outbox_message_wake";
  table = "outbox_message";
  function = "outbox_wake";
}

unfoldable pub upgrade : Bool → Schema → Option Schema
upgrade mysql =
    on_dialect mysql (λ s. some s)
      (λ s. create_trigger outbox_message_wake (create_or_replace_function outbox_wake s))

unfoldable pub downgrade : Bool → Schema → Option Schema
downgrade mysql =
    on_dialect mysql (λ s. some s)
      (λ s.
        some
          (drop_function_if_exists "outbox_wake" (drop_trigger_if_exists "outbox_message_wake" s)))
