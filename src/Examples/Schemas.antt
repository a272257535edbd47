-- ===== src/Examples/Schemas.antt =====
-- An example for the migrations: a PostgreSQL database with a table of the application.
use pactix.Prelude.{◌≡◌, refl, false, some, [], ◌∷◌}
use pactix.Schema.{Schema, uuid, key_column}
use pactix.Schema.Migrations.Upgrade.{declared, upgrade_head, downgrade_base, migrations_agree}

abbrev shop : Schema
shop = record {
  tables =
      record {
        name = "orders";
        columns = key_column "id" uuid ∷ [];
        constraints = [];
        indexes = [];
      }
      ∷ [];
  functions = [];
  triggers = [];
}

migrations_agree_example :
    (upgrade_head false shop ≡ some (declared false shop))
    × (downgrade_base false (declared false shop) ≡ some shop)
migrations_agree_example = migrations_agree false shop refl refl refl
