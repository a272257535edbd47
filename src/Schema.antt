-- ===== src/Schema.antt =====
-- src/pactix/db: the schema of the database, as data.
-- A schema is what the statements of the migrations make: tables with their columns, constraints and
-- indexes, functions and triggers. The constraints and the conditions of partial indexes are their SQL.
pub mod Tables
pub mod Migrations
use pactix.Prelude.{
  ℕ, Bool, true, false, Option, none, some, String, List, [], ◌∷◌, ◌++◌, str_eq, if◌then◌else◌,
  exists,
}

pub data SqlType : Type 0 where
  uuid text jsonb json integer timestamptz : SqlType
  char varchar datetime : ℕ → SqlType

pub record Column : Type 0 where
  pub name : String
  pub type : SqlType
  pub nullable : Bool
  pub primary_key : Bool
  pub unique : Bool
  pub server_default : Option String

pub data Constraint : Type 0 where
  check : String → String → Constraint
  unique_key : List String → String → Constraint

pub record Index : Type 0 where
  pub name : String
  pub columns : List String
  pub where_ : Option String

pub record Table : Type 0 where
  pub name : String
  pub columns : List Column
  pub constraints : List Constraint
  pub indexes : List Index

-- A function that a trigger calls: the channel that it notifies.
pub record Function : Type 0 where
  pub name : String
  pub notifies : String

pub record Trigger : Type 0 where
  pub name : String
  pub table : String
  pub function : String

pub record Schema : Type 0 where
  pub tables : List Table
  pub functions : List Function
  pub triggers : List Trigger

-- `Column(...)`, and those with a key, a unique key or a default.
abbrev pub plain_column : String → SqlType → Bool → Column
plain_column name type nullable = record {
  name = name;
  type = type;
  nullable = nullable;
  primary_key = false;
  unique = false;
  server_default = none;
}

abbrev pub key_column : String → SqlType → Column
key_column name type = record (plain_column name type false) { primary_key = true }

abbrev pub unique_column : String → SqlType → Column
unique_column name type = record (plain_column name type false) { unique = true }

abbrev pub default_column : String → SqlType → String → Column
default_column name type value = record (plain_column name type false) {
  server_default = some value;
}

abbrev pub index : String → List String → Option String → Index
index name columns where_ = record { name = name; columns = columns; where_ = where_ }

abbrev pub table_named : String → Table → Bool
table_named name t = str_eq t.name name

-- CREATE TABLE, which is refused where the table is there.
unfoldable pub create_table : String → List Column → List Constraint → Schema → Option Schema
create_table name columns constraints s =
    if exists (table_named name) s.tables
    then none
    else some (record s {
      tables =
          record { name = name; columns = columns; constraints = constraints; indexes = [] }
          ∷ s.tables;
    })

abbrev pub add_index : Index → Table → Table
add_index i t = record t { indexes = t.indexes ++ i ∷ [] }

abbrev pub on_table : String → (Table → Table) → List Table → List Table
on_table name f [] = []
on_table name f (t ∷ ts) =
    let rest = on_table name f ts in if str_eq t.name name then f t ∷ ts else t ∷ rest

-- CREATE INDEX, which is refused where the table is not there.
unfoldable pub create_index : String → String → List String → Option String → Schema → Option Schema
create_index name table columns where_ s =
    if exists (table_named table) s.tables
    then some
        (record s { tables = on_table table (add_index (index name columns where_)) s.tables })
    else none

abbrev pub drop_first : {A : Type 0} → (A → Bool) → List A → List A
drop_first p [] = []
drop_first p (x ∷ xs) = let rest = drop_first p xs in if p x then xs else x ∷ rest

-- DROP TABLE, which is refused where the table is not there.
unfoldable pub drop_table : String → Schema → Option Schema
drop_table name s =
    if exists (table_named name) s.tables
    then some (record s { tables = drop_first (table_named name) s.tables })
    else none

abbrev pub function_named : String → Function → Bool
function_named name f = str_eq f.name name

abbrev pub trigger_named : String → Trigger → Bool
trigger_named name t = str_eq t.name name

-- CREATE OR REPLACE FUNCTION
unfoldable pub create_or_replace_function : Function → Schema → Schema
create_or_replace_function f s = record s {
  functions = f ∷ drop_first (function_named f.name) s.functions;
}

-- CREATE TRIGGER, which is refused where the table or the function is not there.
unfoldable pub create_trigger : Trigger → Schema → Option Schema
create_trigger t s =
    if exists (table_named t.table) s.tables
    then if exists (function_named t.function) s.functions
      then some (record s { triggers = t ∷ s.triggers })
      else none
    else none

-- DROP ... IF EXISTS
unfoldable pub drop_trigger_if_exists : String → Schema → Schema
drop_trigger_if_exists name s = record s { triggers = drop_first (trigger_named name) s.triggers }

unfoldable pub drop_function_if_exists : String → Schema → Schema
drop_function_if_exists name s = record s {
  functions = drop_first (function_named name) s.functions;
}

-- The next statement, unless one was refused.
abbrev pub and_then : Option Schema → (Schema → Option Schema) → Option Schema
and_then none next = none
and_then (some s) next = next s

infixl 5 ◌>=>◌
abbrev pub ◌>=>◌ : (Schema → Option Schema) → (Schema → Option Schema) → Schema → Option Schema
(f >=> g) s = and_then (f s) g
