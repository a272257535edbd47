-- ===== src/Inbox/Store/Constraint.antt =====
-- The unique constraint on the source and the message id, through every call of `save_received`.
use pactix.Prelude.{
  ℕ, ◌≡◌, Bool, String, List, ◌∷◌, ok, select, exists, inl, inr, >>=-eq-ok, Bool-cases, ◌==◌, subst,
}
use pactix.Dialect.{DateTime, Executor, is_mysql}
use pactix.Config.{PactixConfig}
use pactix.Message.{MessageEnvelope}
use pactix.Inbox.Model.{InboxMessageRecord, new_pending}
use pactix.Inbox.Table.{
  InboxRow, InboxTable, same_receipt, collides, truncated, upsert_row, insert_ignore, one,
}
use pactix.Inbox.Store.{
  record_values, map_record, save_received, save_received_mysql, save_received_postgresql,
  ReceiveOutcome,
}
use pactix.Inbox.Store.Receipt.{UniqueReceipts, kept, collides-false}

insert_ignore-table :
    (e : Executor) (row : InboxRow) (table : InboxTable)
    → UniqueReceipts e.weight table
    → UniqueReceipts e.weight (insert_ignore e row table).0
unfolding insert_ignore
insert_ignore-table e row table u =
    elim (Bool-cases (exists (collides e.weight (truncated e row)) table)) [
      | inl t ↦ rw t u
      | inr f ↦ rw f ((collides-false e.weight (truncated e row) table f).0, u)
    ]

upsert_row-table :
    (e : Executor) (row : InboxRow) (table : InboxTable) (out : InboxTable × List (InboxRow × Bool))
    → upsert_row e.weight row table ≡ ok out
    → UniqueReceipts e.weight table
    → UniqueReceipts e.weight out.0
unfolding upsert_row
upsert_row-table e row table out h u =
    elim (Bool-cases (exists (same_receipt e.weight row) table)) [
      | inl t ↦
          let same : table ≡ out.0 = cc (rw (t, kept (same_receipt e.weight row) table) at h) in
          subst (UniqueReceipts e.weight) same u
      | inr f ↦ elim (Bool-cases (exists (λ (old : InboxRow). old.id == row.id) table)) [
        | inl t ↦ cc (rw (f, t) at h)
        | inr g ↦
            let same : row ∷ table ≡ out.0 = cc (rw (f, g) at h) in
            subst (UniqueReceipts e.weight) same (f, u)
      ]
    ]

pub mysql_table :
    (e : Executor) (made : InboxMessageRecord) (row : InboxRow) (table : InboxTable)
    (out : InboxTable × ReceiveOutcome)
    → save_received_mysql e made row table ≡ ok out
    → (insert_ignore e row table).0 ≡ out.0
unfolding save_received_mysql
mysql_table e made row table out h = elim (Bool-cases ((insert_ignore e row table).1 == 1)) [
  | inl t ↦ cc (rw t at h)
  | inr f ↦
      let (r, _, rest) =
        >>=-eq-ok (one (select (same_receipt e.weight row) (insert_ignore e row table).0)) _
          (rw f at h) in
      let (existing, _, last) = >>=-eq-ok (map_record e r) _ rest in cc
]

pub postgresql_table :
    (e : Executor) (row : InboxRow) (table : InboxTable) (out : InboxTable × ReceiveOutcome)
    → save_received_postgresql e row table ≡ ok out
    → (rows : List (InboxRow × Bool)) × (upsert_row e.weight row table ≡ ok (out.0, rows))
unfolding save_received_postgresql
postgresql_table e row table out h =
    let (upserted, put, rest) = >>=-eq-ok (upsert_row e.weight row table) _ h in
    let (r, _, rest') = >>=-eq-ok (one upserted.1) _ rest in
    let (stored, _, last) = >>=-eq-ok (map_record e r.0) _ rest' in (upserted.1, cc)

-- Whatever `save_received` is called with, on either dialect, the table that it leaves keeps the unique
-- constraint on the source and the message id.
pub save_received-UniqueReceipts :
    {F : Type 0} (config : PactixConfig F) (e : Executor) (id : ℕ) (now : DateTime)
    (source : String) (envelope : MessageEnvelope) (table : InboxTable)
    (out : InboxTable × ReceiveOutcome)
    → save_received config e id now source envelope table ≡ ok out
    → UniqueReceipts e.weight table
    → UniqueReceipts e.weight out.0
unfolding save_received
save_received-UniqueReceipts config e id now source envelope table out h u =
    let (made, _, rest) =
      >>=-eq-ok (new_pending envelope.metadata envelope.payload config.retry_policy id now source) _
        h in
    elim (Bool-cases (is_mysql e)) [
      | inl t ↦
          subst (UniqueReceipts e.weight)
            (mysql_table e made (record_values e made) table out (rw t at rest))
            (insert_ignore-table e (record_values e made) table u)
      | inr f ↦
          let (rows, put) = postgresql_table e (record_values e made) table out (rw f at rest) in
          upsert_row-table e (record_values e made) table (out.0, rows) put u
    ]
