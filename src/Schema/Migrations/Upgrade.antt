-- ===== src/Schema/Migrations/Upgrade.antt =====
-- What the revisions make together, and that they are undone.
use pactix.Prelude.{
  ◌≡◌, refl, Bool, true, false, Option, some, List, [], ◌∷◌, exists, if◌then◌else◌, arith,
}
use pactix.Schema.{
  Schema, table_named, function_named, create_table, create_index, drop_table, drop_first,
  create_or_replace_function, create_trigger, drop_trigger_if_exists, drop_function_if_exists,
  ◌>=>◌,
}
use pactix.Schema.Tables.{outbox_message, inbox_message}
use pactix.Schema.Migrations.CreateOutboxMessage.{
  upgrade_postgresql as outbox_postgresql, upgrade_mysql as outbox_mysql, upgrade as upgrade_outbox,
  downgrade as downgrade_outbox,
}
use pactix.Schema.Migrations.CreateInboxMessage.{
  upgrade_postgresql as inbox_postgresql, upgrade_mysql as inbox_mysql, upgrade as upgrade_inbox,
  downgrade as downgrade_inbox,
}
use pactix.Schema.Migrations.AddOutboxWakeTrigger.{
  upgrade as upgrade_trigger, downgrade as downgrade_trigger, outbox_wake, outbox_message_wake,
}

-- `alembic upgrade head` and `alembic downgrade base`: the revisions in the order of `down_revision`.
unfoldable pub upgrade_head : Bool → Schema → Option Schema
unfolding upgrade_outbox upgrade_inbox upgrade_trigger
upgrade_head mysql = upgrade_outbox mysql >=> upgrade_inbox mysql >=> upgrade_trigger mysql

unfoldable pub downgrade_base : Bool → Schema → Option Schema
unfolding downgrade_outbox downgrade_inbox downgrade_trigger
downgrade_base mysql = downgrade_trigger mysql >=> downgrade_inbox >=> downgrade_outbox

drop_first-absent :
    {A : Type 0} (p : A → Bool) (xs : List A) → exists p xs ≡ false → drop_first p xs ≡ xs
drop_first-absent p [] h = refl
drop_first-absent p (x ∷ xs) h = ground (arith, drop_first-absent p xs)

-- The schema with the two tables of tables.py and, on PostgreSQL, the wake trigger.
abbrev pub with_outbox : Bool → Schema → Schema
with_outbox mysql s = record s { tables = outbox_message mysql ∷ s.tables }

abbrev pub with_inbox : Bool → Schema → Schema
with_inbox mysql s = record s { tables = inbox_message mysql ∷ s.tables }

abbrev pub with_trigger : Bool → Schema → Schema
with_trigger mysql s = if mysql then s else record s {
  functions = outbox_wake ∷ s.functions;
  triggers = outbox_message_wake ∷ s.triggers;
}

upgrade_outbox-declared :
    (mysql : Bool) (s : Schema)
    → exists (table_named "outbox_message") s.tables ≡ false
    → upgrade_outbox mysql s ≡ some (with_outbox mysql s)
unfolding upgrade_outbox outbox_postgresql outbox_mysql create_table create_index outbox_message
upgrade_outbox-declared true s o = rw o refl
upgrade_outbox-declared false s o = rw o refl

upgrade_inbox-declared :
    (mysql : Bool) (s : Schema)
    → exists (table_named "inbox_message") s.tables ≡ false
    → upgrade_inbox mysql s ≡ some (with_inbox mysql s)
unfolding upgrade_inbox inbox_postgresql inbox_mysql create_table create_index inbox_message
upgrade_inbox-declared true s i = rw i refl
upgrade_inbox-declared false s i = rw i refl

-- A schema with the two tables as tables.py declares them and, on PostgreSQL, the wake trigger.
abbrev pub declared : Bool → Schema → Schema
declared mysql s = with_trigger mysql (with_inbox mysql (with_outbox mysql s))

upgrade_trigger-declared :
    (mysql : Bool) (s : Schema)
    → exists (table_named "outbox_message") s.tables ≡ true
    → exists (function_named "outbox_wake") s.functions ≡ false
    → upgrade_trigger mysql s ≡ some (with_trigger mysql s)
unfolding upgrade_trigger create_trigger create_or_replace_function
upgrade_trigger-declared true s o f = refl
upgrade_trigger-declared false s o f =
    rw (o, drop_first-absent (function_named "outbox_wake") s.functions f) refl

downgrade-declared : (mysql : Bool) (s : Schema) → downgrade_base mysql (declared mysql s) ≡ some s
unfolding downgrade_base downgrade_outbox downgrade_inbox downgrade_trigger drop_table
    drop_trigger_if_exists drop_function_if_exists outbox_message inbox_message
downgrade-declared true s = refl
downgrade-declared false s = refl

-- The migrations and the metadata agree: on either dialect, upgrading to the head a schema that has
-- neither of the tables nor the function succeeds, and adds the two tables with the columns, types,
-- constraints and indexes that tables.py declares for the dialect, on PostgreSQL the wake trigger, and
-- nothing else; and downgrading to the base then gives the schema back.
pub migrations_agree :
    (mysql : Bool) (s : Schema)
    → exists (table_named "outbox_message") s.tables ≡ false
    → exists (table_named "inbox_message") s.tables ≡ false
    → exists (function_named "outbox_wake") s.functions ≡ false
    → (upgrade_head mysql s ≡ some (declared mysql s))
      × (downgrade_base mysql (declared mysql s) ≡ some s)
unfolding upgrade_head outbox_message inbox_message
migrations_agree mysql s o i f = (
  rw
      (
        upgrade_outbox-declared mysql s o,
        upgrade_inbox-declared mysql (with_outbox mysql s) i,
        upgrade_trigger-declared mysql (with_inbox mysql (with_outbox mysql s)) refl f,
      )
      refl,
  downgrade-declared mysql s,
)
