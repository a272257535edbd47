-- ===== src/Schema/Migrations.antt =====
-- src/pactix/db/migrations/versions: the three revisions, and running all of them.
pub mod CreateOutboxMessage
pub mod CreateInboxMessage
pub mod AddOutboxWakeTrigger
pub mod Upgrade
use pactix.Prelude.{Bool, if◌then◌else◌, Option}
use pactix.Schema.{Schema}

-- `if op.get_bind().dialect.name == 'mysql'`; `mysql` says that it is.
abbrev pub on_dialect :
    Bool → (Schema → Option Schema) → (Schema → Option Schema) → Schema → Option Schema
on_dialect mysql on_mysql otherwise s = if mysql then on_mysql s else otherwise s
