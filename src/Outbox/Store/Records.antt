-- ===== src/Outbox/Store/Records.antt =====
-- A record through the table: what is read back of what was written.
use mathlib.Core.Option
use pactix.Prelude.{ℕ, ◌≡◌, refl, ap, ◌∙◌, fun_ext, Option, none, some, ok}
use pactix.Prelude.Dict.{sorted_items}
use pactix.Dialect.{DateTime, Executor, IsAware, aware, utc, column, instant}
use pactix.Dialect.RoundTrip.{IsBackend, aware_utc-fetch, column-eq-instant}
use pactix.Outbox.Model.{OutboxStatus, OutboxMessageRecord, from_str, from_str-as_str}
use pactix.Outbox.Table.{OutboxRow}
use pactix.Outbox.Store.{record_values, record_of, read, map_record}

-- The datetime of an instant, in UTC.
abbrev pub in_utc : ℕ → DateTime
in_utc n = aware n utc

-- The same instant, in UTC.
abbrev pub to_utc : DateTime → DateTime
to_utc d = in_utc (instant d)

pub read-IsBackend : (e : Executor) → IsBackend e → read e ≡ in_utc
read-IsBackend e b = fun_ext λ n. aware_utc-fetch e n b

abbrev AwareOption : Option DateTime → Type 0
AwareOption none = Unit
AwareOption (some d) = IsAware d

-- A record whose datetimes are aware, as the library makes them.
pub record HasAwareTimes (r : OutboxMessageRecord) : Type 0 where
  pub available_at : IsAware r.available_at
  pub lease_until : AwareOption r.lease_until
  pub created_at : IsAware r.created_at
  pub updated_at : IsAware r.updated_at
  pub published_at : AwareOption r.published_at

-- The record as the table holds it: the payload, and the headers in key order, as the database reads
-- them back from their JSON, and times in UTC.
abbrev pub stored_form : Executor → OutboxMessageRecord → OutboxMessageRecord
stored_form e r = record r {
  payload = e.json r.payload;
  headers = e.json_object (sorted_items r.headers);
  available_at = to_utc r.available_at;
  lease_until = Option.map to_utc r.lease_until;
  created_at = to_utc r.created_at;
  updated_at = to_utc r.updated_at;
  published_at = Option.map to_utc r.published_at;
}

module _ (e : Executor) (backend : IsBackend e) where
  time_round_trip : (d : DateTime) → IsAware d → in_utc (column e d) ≡ to_utc d
  time_round_trip d a = ap in_utc (column-eq-instant e d backend a)

  option_round_trip :
      (o : Option DateTime)
      → AwareOption o
      → Option.map in_utc (Option.map (column e) o) ≡ Option.map to_utc o
  option_round_trip none a = refl
  option_round_trip (some d) a = ap some (time_round_trip d a)

  -- Reading a row whose status is known.
  pub map_record_lem :
      (row : OutboxRow) (s : OutboxStatus)
      → from_str row.status ≡ ok s
      → map_record e row ≡ ok (record_of in_utc row s)
  unfolding map_record
  map_record_lem row s known =
      rw known (ap (λ (time : ℕ → DateTime). ok (record_of time row s)) (read-IsBackend e backend))

  columns_round_trip :
      (r : OutboxMessageRecord)
      → HasAwareTimes r
      → record_of in_utc (record_values e r) r.status ≡ stored_form e r
  unfolding record_values
  columns_round_trip r times = cc (
    time_round_trip r.available_at times.available_at,
    option_round_trip r.lease_until times.lease_until,
    time_round_trip r.created_at times.created_at,
    time_round_trip r.updated_at times.updated_at,
    option_round_trip r.published_at times.published_at,
  )

  -- On either database, a record whose datetimes are aware, written and read back, is the record
  -- with its times in UTC, and with its payload and its headers, written in key order, as a JSON
  -- column of the database holds them.
  pub map_record-record_values :
      (r : OutboxMessageRecord)
      → HasAwareTimes r
      → map_record e (record_values e r) ≡ ok (stored_form e r)
  map_record-record_values r times =
      map_record_lem (record_values e r) r.status (unfold record_values in from_str-as_str r.status)
      ∙ ap ok (columns_round_trip r times)
