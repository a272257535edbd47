-- ===== src/Outbox/Store/Append.antt =====
-- `append`: what it stores and returns, and when it raises.
use pactix.Prelude.{
  ◌>>=◌, ℕ, ◌≡◌, refl, none, ap, ◌∙◌, Bool, true, false, ◌∷◌, ok, err, Result, arith, exists,
  >>=-eq-ok, if◌then◌else◌,
}
use pactix.Dialect.{DateTime, Executor, IsAware, is_mysql, instant}
use pactix.Dialect.RoundTrip.{IsBackend, column-eq-instant}
use pactix.Config.{PactixConfig}
use pactix.Message.{MessageEnvelope, new_envelope}
use pactix.Message.Validation.{IsValid, IsValid-validate, new_envelope_lem}
use pactix.Outbox.Model.{OutboxMessageRecord, new_pending, pending_record, as_str}
use pactix.Outbox.Table.{OutboxRow, OutboxTable, collides, fits, insert_row}
use pactix.Outbox.Store.{append, record_values, map_record}
use pactix.Outbox.Store.Records.{HasAwareTimes, stored_form, map_record-record_values}
use pactix.Outbox.Store.Updates.{insert_row-ok}

-- Both dialects give back the table of the insert.
same_table :
    (b : Bool) (made : OutboxMessageRecord) (r : Result OutboxMessageRecord) (table : OutboxTable)
    (out : OutboxTable × OutboxMessageRecord)
    → (if b then ok (table, made) else (r >>= λ stored. ok (table, stored))) ≡ ok out
    → table ≡ out.0
same_table true made r table out h = cc
same_table false made (ok x) table out h = cc
same_table false made (err x) table out h = cc

module _ {F : Type 0} (config : PactixConfig F) (e : Executor) (id : ℕ) (now : DateTime)
    (envelope : MessageEnvelope) where
  -- The record that `append` makes of an envelope.
  abbrev pub appended : OutboxMessageRecord
  appended = pending_record config.retry_policy id now envelope

  abbrev pub appended_row : OutboxRow
  appended_row = record_values e appended

  new_pending-IsValid :
      IsValid envelope.metadata
      → new_pending envelope.metadata envelope.payload config.retry_policy id now ≡ ok appended
  unfolding new_pending
  new_pending-IsValid v = rw (IsValid-validate envelope.metadata v)

  appended-HasAwareTimes : IsAware now → HasAwareTimes appended
  appended-HasAwareTimes a = record {
    available_at = a;
    lease_until = tt;
    created_at = a;
    updated_at = a;
    published_at = tt;
  }

  -- A new row: pending, available at once, without an attempt or a lease.
  pub record IsNew (row : OutboxRow) : Type 0 where
    pub message_id : row.message_id ≡ envelope.metadata.message_id
    pub event_type : row.event_type ≡ envelope.metadata.event_type
    pub ordering_key : row.ordering_key ≡ envelope.metadata.ordering_key
    pub payload : row.payload ≡ e.json envelope.payload
    pub status : row.status ≡ "pending"
    pub attempts : row.attempts ≡ 0
    pub max_attempts : row.max_attempts ≡ config.retry_policy.max_attempts
    pub available_at : row.available_at ≡ instant now
    pub created_at : row.created_at ≡ instant now
    pub lease_until : row.lease_until ≡ none
    pub published_at : row.published_at ≡ none

  appended_row-IsNew : IsBackend e → IsAware now → IsNew appended_row
  unfolding record_values as_str
  appended_row-IsNew backend a = record {
    message_id = refl;
    event_type = refl;
    ordering_key = refl;
    payload = refl;
    status = refl;
    attempts = refl;
    max_attempts = refl;
    available_at = column-eq-instant e now backend a;
    created_at = column-eq-instant e now backend a;
    lease_until = refl;
    published_at = refl;
  }

  -- On either database, where the time is aware, the metadata is valid, its texts fit into the columns,
  -- and neither the id nor the message id is taken: `append` adds one row and returns it, as it was
  -- made on MySQL, and as the table holds it on PostgreSQL. The row is pending and available at once,
  -- without an attempt or a lease.
  pub append_stores :
      (table : OutboxTable)
      → IsBackend e
      → IsAware now
      → IsValid envelope.metadata
      → fits e appended_row ≡ true
      → exists (collides e.weight appended_row) table ≡ false
      → (append config e id now envelope table
          ≡ ok (appended_row ∷ table, if is_mysql e then appended else stored_form e appended))
        × IsNew appended_row
  unfolding append insert_row
  append_stores table backend a v f new = (
    ground (
      arith,
      f,
      new_pending-IsValid v,
      map_record-record_values e backend appended (appended-HasAwareTimes a),
    ),
    appended_row-IsNew backend a,
  )

  new_pending-ok :
      (made : OutboxMessageRecord)
      → new_pending envelope.metadata envelope.payload config.retry_policy id now ≡ ok made
      → (made ≡ appended) × IsValid envelope.metadata
  unfolding new_pending
  new_pending-ok made h =
      let (env, valid, same) = >>=-eq-ok (new_envelope envelope.metadata envelope.payload) _ h in
      let (shape, v) = new_envelope_lem envelope.metadata envelope.payload env valid in (cc, v)

  -- Whatever `append` stored was valid and new, and it stored nothing else.
  pub append-ok :
      (table : OutboxTable) (out : OutboxTable × OutboxMessageRecord)
      → append config e id now envelope table ≡ ok out
      → IsValid envelope.metadata
        × (exists (collides e.weight appended_row) table ≡ false)
        × (fits e appended_row ≡ true)
        × (insert_row e appended_row table ≡ ok out.0)
  unfolding append
  append-ok table out h =
      let (made, fresh, rest) =
        >>=-eq-ok (new_pending envelope.metadata envelope.payload config.retry_policy id now) _ h in
      let (is_made, v) = new_pending-ok made fresh in
      let (table', inserted, last) = >>=-eq-ok (insert_row e (record_values e made) table) _ rest in
      let (added, new, whole) = insert_row-ok e (record_values e made) table table' inserted in
      let same =
        same_table (is_mysql e) made (map_record e (record_values e made)) table' out last in
      (v, rw is_made at new, rw is_made at whole, rw is_made at (inserted ∙ ap ok same))
