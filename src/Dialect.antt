-- ===== src/Dialect.antt =====
-- src/pactix/_dialect.py and _executor.py: datetimes with and without a time zone, the executor that
-- a store is handed, and the normalisation of datetimes for the two databases.
-- A datetime is its wall clock in microseconds and the offset of its zone, if it has one.
-- What the code cannot see is a field of `Executor`: how the driver binds and fetches a datetime, the
-- local time zone, the rows that other transactions hold locked, how texts compare, and how long they
-- may be. The laws of the drivers are `IsPostgres` and `IsMysql`.
pub mod RoundTrip
use pactix.Prelude.Json.{JsonValue}
use pactix.Prelude.Dict.{Dict}
use pactix.Prelude.{
  ℕ, ◌+◌, ◌-◌, ◌≤◌, ◌≡◌, Bool, Option, none, some, String, refl, inl, inr, ◌⊎◌, str_eq,
  if◌then◌else◌,
}

-- A zone's offset from UTC, east (`ahead`) or west (`behind`), in microseconds.
pub record Offset : Type 0 where
  pub ahead : ℕ
  pub behind : ℕ

abbrev pub utc : Offset
utc = record { ahead = 0; behind = 0 }

pub record DateTime : Type 0 where
  pub wall : ℕ
  pub tzinfo : Option Offset

abbrev pub aware : ℕ → Offset → DateTime
aware w o = record { wall = w; tzinfo = some o }

abbrev pub naive : ℕ → DateTime
naive w = record { wall = w; tzinfo = none }

-- `d + timedelta`
abbrev pub later : DateTime → ℕ → DateTime
later d delta = record d { wall = d.wall + delta }

-- The wall clock in UTC; of a naive datetime, that of the local zone.
abbrev pub utc_wall : (ℕ → ℕ) → ℕ → Option Offset → ℕ
utc_wall local_utc w none = local_utc w
utc_wall local_utc w (some o) = w + o.behind - o.ahead

-- How a transaction ends: committed; rolled back, with the exception of a statement or of COMMIT, whose
-- text is given; or committed, but the connection is lost before the answer, and an exception is raised.
pub data Ending : Type 0 where
  committed : Ending
  rolled_back answer_lost : String → Ending

pub Ending-cases :
    (ending : Ending)
    → (ending ≡ committed)
      ⊎ ((text : String) × (ending ≡ rolled_back text))
      ⊎ ((text : String) × (ending ≡ answer_lost text))
Ending-cases committed = inl refl
Ending-cases (rolled_back text) = inr (inl (text, refl))
Ending-cases (answer_lost text) = inr (inr (text, refl))

pub record Executor : Type 0 where
  pub dialect : String
  pub bind : DateTime → ℕ
  pub fetch : ℕ → DateTime
  pub local_utc : ℕ → ℕ
  pub locked : ℕ → Bool
  -- Two texts are equal to the database where their weights in its collation are.
  pub weight : String → String
  -- What a column of MySQL holds of a text: VARCHAR(255), and TEXT.
  pub keep : String → String
  pub keep_text : String → String
  -- What is read back of a value in a column of JSON or JSONB, and of an object of texts: the database
  -- may order the keys anew, and round numbers.
  pub json : JsonValue → JsonValue
  pub json_object : Dict String → Dict String
  -- How the database ends its transactions, by their numbers, where the code raises nothing in them.
  pub ending : ℕ → Ending

abbrev pub postgresql : String
postgresql = "postgresql"

abbrev pub mysql : String
mysql = "mysql"

-- Both an `AsyncSession` and an `AsyncConnection` know their dialect.
unfoldable pub dialect_name : Executor → String
dialect_name executor = executor.dialect

unfoldable pub is_mysql : Executor → Bool
unfolding dialect_name
is_mysql executor = str_eq (dialect_name executor) mysql

-- `value.astimezone(UTC).replace(tzinfo=None)`
unfoldable pub naive_utc : Executor → DateTime → DateTime
naive_utc executor value = naive (utc_wall executor.local_utc value.wall value.tzinfo)

abbrev pub attach_utc : ℕ → Option Offset → DateTime
attach_utc w none = aware w utc
attach_utc w (some o) = aware w o

unfoldable pub aware_utc : DateTime → DateTime
aware_utc value = attach_utc value.wall value.tzinfo

-- What a store binds for a datetime: on MySQL it is first stripped to naive UTC.
unfoldable pub column : Executor → DateTime → ℕ
unfolding naive_utc
column executor value =
    executor.bind (if is_mysql executor then naive_utc executor value else value)

-- asyncpg: a `TIMESTAMPTZ` holds the instant and comes back aware, in UTC.
pub record IsPostgres (executor : Executor) : Type 0 where
  pub named : executor.dialect ≡ postgresql
  pub binds : (w : ℕ) (o : Offset) → executor.bind (aware w o) ≡ w + o.behind - o.ahead
  pub fetches : (n : ℕ) → executor.fetch n ≡ aware n utc

-- asyncmy: a `DATETIME(6)` holds the wall clock and comes back naive.
pub record IsMysql (executor : Executor) : Type 0 where
  pub named : executor.dialect ≡ mysql
  pub binds : (w : ℕ) → executor.bind (naive w) ≡ w
  pub fetches : (n : ℕ) → executor.fetch n ≡ naive n

-- An aware datetime of year 1 or later in UTC.
pub record IsAware (value : DateTime) : Type 0 where
  pub offset : Offset
  pub zoned : value.tzinfo ≡ some offset
  pub in_range : offset.ahead ≤ value.wall + offset.behind

-- The instant that a datetime stands for, in microseconds of UTC; a naive one is read as UTC.
abbrev pub instant : DateTime → ℕ
instant value = utc_wall (λ w. w) value.wall value.tzinfo
