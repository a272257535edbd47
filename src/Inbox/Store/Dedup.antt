-- ===== src/Inbox/Store/Dedup.antt =====
-- `save_received` on both databases: the first receipt is stored, and any later one is a duplicate.
use mathlib.Core.Option
use pactix.Prelude.{
  ℕ, ◌≡◌, refl, true, false, String, ◌∷◌, Memᴰ, ok, err, exists, if◌then◌else◌, inl, inr,
  str_eq_refl,
}
use pactix.Prelude.Text.{is_blank}
use pactix.Dialect.{DateTime, Executor, IsAware, is_mysql}
use pactix.Dialect.RoundTrip.{IsBackend, is_mysql-IsMysql, is_mysql-IsPostgres}
use pactix.Config.{PactixConfig}
use pactix.Message.{MessageEnvelope, MessageMetadata}
use pactix.Message.Validation.{IsValid, IsValid-validate}
use pactix.Inbox.Model.{
  InboxStatus, pending, from_str, from_str-as_str, InboxMessageRecord, new_pending, pending_record,
  source_error,
}
use pactix.Inbox.Table.{InboxRow, InboxTable, same_receipt, collides, truncated, insert_ignore, one}
use pactix.Inbox.Store.{
  record_values, record_of, outcome, save_received, save_received_mysql, save_received_postgresql,
}
use pactix.Inbox.Store.Records.{
  in_utc, map_record_lem, HasAwareTimes, stored_form, map_record-record_values,
}
use pactix.Inbox.Store.Receipt.{
  UniqueReceipts, collides-false, select-one, exists-of_mem, collides-receipt, upsert_row_new,
  upsert_row_duplicate,
}

-- The texts of a message fit into their columns.
pub record Fits (e : Executor) (source : String) (m : MessageMetadata) : Type 0 where
  pub source_fits : e.keep source ≡ source
  pub message_id_fits : e.keep m.message_id ≡ m.message_id
  pub event_type_fits : e.keep m.event_type ≡ m.event_type
  pub message_key_fits : Option.map e.keep_text m.message_key ≡ m.message_key
  pub ordering_key_fits : Option.map e.keep m.ordering_key ≡ m.ordering_key
  pub correlation_id_fits : Option.map e.keep m.correlation_id ≡ m.correlation_id

module _ {F : Type 0} (config : PactixConfig F) (e : Executor) (id : ℕ) (now : DateTime)
    (source : String) (envelope : MessageEnvelope) where
  -- The record that `save_received` makes of a message, and its row.
  abbrev pub received : InboxMessageRecord
  received = pending_record config.retry_policy id now source envelope

  abbrev pub received_row : InboxRow
  received_row = record_values e received

  new_pending-valid :
      is_blank source ≡ false
      → IsValid envelope.metadata
      → new_pending envelope.metadata envelope.payload config.retry_policy id now source
        ≡ ok received
  unfolding new_pending
  new_pending-valid named v = rw (new_pending, named, IsValid-validate envelope.metadata v)

  -- INSERT IGNORE cuts off nothing of texts that fit.
  pub truncated-Fits : Fits e source envelope.metadata → truncated e received_row ≡ received_row
  unfolding record_values
  truncated-Fits f = cc (
    f.source_fits, f.message_id_fits, f.event_type_fits, f.message_key_fits, f.ordering_key_fits,
    f.correlation_id_fits,
  )

  received-HasAwareTimes : IsAware now → HasAwareTimes received
  received-HasAwareTimes a = record {
    available_at = a;
    lease_until = tt;
    received_at = a;
    updated_at = a;
    processed_at = tt;
  }

  -- A blank source is refused before anything else is looked at, and nothing is stored.
  pub save_received_blank :
      (table : InboxTable)
      → is_blank source ≡ true
      → save_received config e id now source envelope table ≡ err source_error
  unfolding save_received new_pending
  save_received_blank table blank = rw (save_received, new_pending, blank)

  -- On either database, where the time is aware, the source is not blank, the metadata is valid, its
  -- texts fit into the columns, and neither the id nor the source with the message id is taken: `save_received` adds one pending row,
  -- says that it was inserted, and returns it.
  pub save_received_new :
      (table : InboxTable)
      → IsBackend e
      → IsAware now
      → is_blank source ≡ false
      → IsValid envelope.metadata
      → Fits e source envelope.metadata
      → exists (collides e.weight received_row) table ≡ false
      → save_received config e id now source envelope table
        ≡ ok (
          received_row ∷ table,
          outcome (if is_mysql e then received else stored_form e received) true,
        )
  unfolding save_received save_received_mysql save_received_postgresql insert_ignore one
  save_received_new table (inl p) a named v f new = rw (
    save_received,
    new_pending-valid named v,
    is_mysql-IsPostgres e p,
    save_received_postgresql,
    upsert_row_new e.weight received_row table new,
    map_record-record_values e (inl p) received (received-HasAwareTimes a),
  )
  save_received_new table (inr m) a named v f new = rw (
    save_received,
    new_pending-valid named v,
    is_mysql-IsMysql e m,
    save_received_mysql,
    insert_ignore,
    truncated-Fits f,
    new,
  )

  -- On either database, where the source is not blank, the metadata is valid and fits into the columns,
  -- and the table holds a row of the same source and message id (one row at most, by the unique constraint) whose status can be
  -- read: `save_received` leaves the table as it is, says that nothing was inserted, and returns that
  -- row.
  pub save_received_duplicate :
      (table : InboxTable) (old : InboxRow) (s : InboxStatus)
      → IsBackend e
      → is_blank source ≡ false
      → IsValid envelope.metadata
      → Fits e source envelope.metadata
      → UniqueReceipts e.weight table
      → Memᴰ old table
      → same_receipt e.weight received_row old ≡ true
      → from_str old.status ≡ ok s
      → save_received config e id now source envelope table
        ≡ ok (table, outcome (record_of in_utc old s) false)
  unfolding save_received save_received_mysql save_received_postgresql insert_ignore one
  save_received_duplicate table old s (inl p) named v f u m same known = rw (
    save_received,
    new_pending-valid named v,
    is_mysql-IsPostgres e p,
    save_received_postgresql,
    upsert_row_duplicate e.weight received_row old table u m same,
    map_record_lem e (inl p) old s known,
  )
  save_received_duplicate table old s (inr b) named v f u m same known = rw (
    save_received,
    new_pending-valid named v,
    is_mysql-IsMysql e b,
    save_received_mysql,
    insert_ignore,
    truncated-Fits f,
    collides-receipt e.weight received_row table
        (exists-of_mem (same_receipt e.weight received_row) table m same),
    select-one e.weight received_row old table u m same,
    map_record_lem e (inr b) old s known,
  )

same_message :
    {F : Type 0} (config : PactixConfig F) (e : Executor) (id id' : ℕ) (now now' : DateTime)
    (source : String) (envelope : MessageEnvelope)
    → same_receipt e.weight
        (received_row config e id' now' source envelope)
        (received_row config e id now source envelope)
      ≡ true
unfolding record_values
same_message config e id id' now now' source envelope =
    rw (str_eq_refl (e.weight source), str_eq_refl (e.weight envelope.metadata.message_id))

received_status :
    {F : Type 0} (config : PactixConfig F) (e : Executor) (id : ℕ) (now : DateTime)
    (source : String) (envelope : MessageEnvelope)
    → from_str (received_row config e id now source envelope).status ≡ ok pending
unfolding record_values
received_status config e id now source envelope = from_str-as_str pending

-- On either database, a message that is received twice is stored once. Where the first receipt is
-- valid and new, its texts fit into the columns, and the table keeps the unique constraint, it adds a row and says that it was
-- inserted; the second, at any time and with any fresh id, leaves the table as it is, says that nothing
-- was inserted, and returns the pending row of the first.
pub save_received_twice :
    {F : Type 0} (config : PactixConfig F) (e : Executor) (id id' : ℕ) (now now' : DateTime)
    (source : String) (envelope : MessageEnvelope) (table : InboxTable)
    → IsBackend e
    → IsAware now
    → is_blank source ≡ false
    → IsValid envelope.metadata
    → Fits e source envelope.metadata
    → UniqueReceipts e.weight table
    → exists (collides e.weight (received_row config e id now source envelope)) table ≡ false
    → let row = received_row config e id now source envelope in
      let once =
        if is_mysql e
        then received config e id now source envelope
        else stored_form e (received config e id now source envelope) in
      (save_received config e id now source envelope table ≡ ok (row ∷ table, outcome once true))
      × (save_received config e id' now' source envelope (row ∷ table)
          ≡ ok (row ∷ table, outcome (record_of in_utc row pending) false))
save_received_twice config e id id' now now' source envelope table backend a named v f u new =
    let row = received_row config e id now source envelope in
    (
      save_received_new config e id now source envelope table backend a named v f new,
      save_received_duplicate config e id' now' source envelope (row ∷ table) row pending backend
          named v f ((collides-false e.weight row table new).0, u) (Memᴰ.head refl)
          (same_message config e id id' now now' source envelope)
          (received_status config e id now source envelope),
    )
