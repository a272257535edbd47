-- ===== src/Samples.antt =====
-- Concrete databases, floats, configurations and messages, on which the examples run the code.
pub mod Sorting
pub mod Inboxes
pub mod Transports
use pactix.Prelude.{
  ℕ, suc, zero, ◌*◌, ◌+◌, ◌-◌, ◌≡◌, refl, Option, none, some, String, [], ◌∷◌, ok, err,
  foreign_error, arith, if◌then◌else◌, leb, ltb, inl, inr, Bool, false,
}
use Prim.Native.String.{slice}
use pactix.Dialect.{
  committed, DateTime, Offset, Executor, IsPostgres, IsMysql, IsAware, aware, naive, utc, utc_wall,
  postgresql, mysql,
}
use pactix.Dialect.RoundTrip.{IsBackend}
use pactix.Config.{positive, Float, IsFloat, PactixConfig, default_config}
use pactix.Message.{MessageMetadata, MessageEnvelope, null, new_metadata, validate}
use pactix.Message.Validation.{IsValid, validate_iff}
use pactix.Prelude.Text.{is_blank}
use pactix.Queue.{find}
use pactix.Queue.Rows.{UniqueIds}
use pactix.Outbox.Table.{OutboxRow, OutboxTable, outbox_columns}
use pactix.Outbox.Publisher.{Publisher, PublisherRegistry, published_outcome, retryable_outcome}

-- The largest duration that the sample's floats keep exactly.
abbrev pub top : ℕ
top = 9007199254740992

abbrev pub power : ℕ → ℕ → ℕ
power x zero = 1
power x (suc n) = x * power x n

-- Whole numbers of microseconds as floats; a power above the 64th overflows.
abbrev pub whole : Float ℕ
whole = record {
  total_seconds = λ d. if leb d top then d else top;
  from_seconds = positive;
  mul = λ x y. x * y;
  pow = λ x n. if leb n 64 then some (power x n) else none;
  inf = suc top;
  lt = ltb;
}

pub whole-IsFloat : IsFloat whole
whole-IsFloat = record {
  round_trip = λ d h. ground arith;
  monotone = λ x y h. ground arith;
  asymmetric = λ x y h. ground arith;
  below_inf = λ d. ground arith;
  seconds-nonnegative = λ d. ground arith;
  mul-nonnegative = λ x y h k. ground arith;
  pow-nonnegative = λ x y n h k. ground arith;
}

abbrev pub config : PactixConfig ℕ
config = default_config 2 0

abbrev pub no_locks : ℕ → Bool
no_locks n = false

abbrev pub pg : Executor
pg = record {
  dialect = postgresql;
  weight = λ s. s;
  keep = λ s. s;
  keep_text = λ s. s;
  json = λ v. v;
  json_object = λ d. d;
  ending = λ n. committed;
  bind = λ d. utc_wall (λ w. w) d.wall d.tzinfo;
  fetch = λ n. aware n utc;
  local_utc = λ w. w;
  locked = no_locks;
}

abbrev pub my : Executor
my = record {
  dialect = mysql;
  weight = λ s. s;
  keep = λ s. slice s 0 255;
  keep_text = λ s. slice s 0 65535;
  json = λ v. v;
  json_object = λ d. d;
  ending = λ n. committed;
  bind = λ d. d.wall;
  fetch = naive;
  local_utc = λ w. w;
  locked = no_locks;
}

pub pg-IsPostgres : IsPostgres pg
pg-IsPostgres = record { named = refl; binds = λ w o. refl; fetches = λ n. refl }

pub my-IsMysql : IsMysql my
my-IsMysql = record { named = refl; binds = λ w. refl; fetches = λ n. refl }

pub pg-IsBackend : IsBackend pg
pg-IsBackend = inl pg-IsPostgres

pub my-IsBackend : IsBackend my
my-IsBackend = inr my-IsMysql

-- Noon, two hours east of UTC.
abbrev pub noon : DateTime
noon = aware 43_200_000_000 (record { ahead = 7_200_000_000; behind = 0 })

pub noon-IsAware : IsAware noon
noon-IsAware = record {
  offset = record { ahead = 7_200_000_000; behind = 0 };
  zoned = refl;
  in_range = omega arith;
}

abbrev pub metadata : MessageMetadata
metadata = record (new_metadata noon "m-1" "order.paid") { ordering_key = some "customer-7" }

abbrev pub envelope : MessageEnvelope
envelope = record { metadata = metadata; payload = null }

-- A clock that starts at second one and moves by a microsecond at each reading.
abbrev pub clock : ℕ → DateTime
clock n = aware (1_000_000 + n) utc

abbrev pub outbox_row : ℕ → String → Option String → String → ℕ → Option ℕ → OutboxRow
outbox_row id message_id ordering_key status created_at lease_until = record {
  id = id;
  message_id = message_id;
  event_type = "order.paid";
  message_key = none;
  ordering_key = ordering_key;
  correlation_id = none;
  payload = null;
  headers = [];
  status = status;
  attempts = 0;
  max_attempts = 10;
  available_at = created_at;
  lease_until = lease_until;
  last_error = none;
  created_at = created_at;
  updated_at = created_at;
  published_at = none;
}

-- A row whose lease has expired at second one, a younger row of its stream, and a row of no stream.
abbrev pub leased_row : OutboxRow
leased_row = outbox_row 1 "a" (some "customer-7") "processing" 100 (some 500)

abbrev pub blocked_row : OutboxRow
blocked_row = outbox_row 2 "b" (some "customer-7") "pending" 200 none

abbrev pub free_row : OutboxRow
free_row = outbox_row 3 "c" none "pending" 300 none

abbrev pub outbox : OutboxTable
outbox = leased_row ∷ blocked_row ∷ free_row ∷ []

pub outbox-UniqueIds : UniqueIds outbox_columns outbox
unfolding find
outbox-UniqueIds = (refl, (refl, (refl, tt)))

-- Publishers: one that succeeds, one that asks for a retry, and one that raises.
abbrev pub accepting : Publisher
accepting r = ok published_outcome

abbrev pub refusing : Publisher
refusing r = ok (retryable_outcome "busy")

abbrev pub raising : Publisher
raising r = err (foreign_error "no connection")

abbrev pub accepts : PublisherRegistry
accepts = record { publishers = ("order.paid", accepting) ∷ []; catch_all = none }

abbrev pub raises : PublisherRegistry
raises = record { publishers = []; catch_all = some raising }

metadata-passes : validate metadata false ≡ ok tt
unfolding validate is_blank
metadata-passes = refl

pub metadata-IsValid : IsValid metadata
metadata-IsValid = (validate_iff metadata).0 metadata-passes
