-- ===== src/Inbox/Store/Inserted.antt =====
-- What `save_received` does to the table, whatever it is called with.
use pactix.Prelude.{
  ℕ, ◌≡◌, refl, Bool, false, none, String, List, [], ◌∷◌, ok, arith, exists, inl, inr, ◌⊎◌,
  >>=-eq-ok, Bool-cases, ◌==◌,
}
use pactix.Prelude.Text.{is_blank}
use pactix.Dialect.{DateTime, Executor, is_mysql}
use pactix.Config.{PactixConfig}
use pactix.Message.{MessageEnvelope, new_envelope}
use pactix.Message.Validation.{new_envelope_lem}
use pactix.Queue.{find}
use pactix.Inbox.Model.{InboxMessageRecord, new_pending}
use pactix.Inbox.Table.{
  InboxRow, InboxTable, inbox_columns, same_receipt, collides, truncated, upsert_row, insert_ignore,
}
use pactix.Inbox.Store.{record_values, save_received, ReceiveOutcome}
use pactix.Inbox.Store.Receipt.{kept, collides-false}
use pactix.Inbox.Store.Dedup.{received, received_row}
use pactix.Inbox.Store.Constraint.{mysql_table, postgresql_table}

-- A table is left as it is, or gets a row whose id is new: the given one, or what INSERT IGNORE makes of
-- it.
abbrev pub Inserted : Executor → InboxRow → InboxTable → InboxTable → Type 0
Inserted e row table table' =
    (table' ≡ table)
    ⊎ (r : InboxRow) × ((r ≡ row) ⊎ (r ≡ truncated e row))
      × (table' ≡ r ∷ table)
      × (find inbox_columns row.id table ≡ none)

not-find-of_new :
    (id : ℕ) (table : InboxTable)
    → exists (λ (old : InboxRow). old.id == id) table ≡ false
    → find inbox_columns id table ≡ none
unfolding find
not-find-of_new id [] h = refl
not-find-of_new id (r ∷ rows) h = ground (arith, not-find-of_new id rows)

insert_ignore-Inserted :
    (e : Executor) (row : InboxRow) (table : InboxTable)
    → Inserted e row table (insert_ignore e row table).0
unfolding insert_ignore
insert_ignore-Inserted e row table =
    elim (Bool-cases (exists (collides e.weight (truncated e row)) table)) [
      | inl t ↦ inl (rw t)
      | inr f ↦ inr (
        truncated e row,
        inr refl,
        rw f,
        not-find-of_new row.id table (collides-false e.weight (truncated e row) table f).1,
      )
    ]

upsert_row-Inserted :
    (e : Executor) (row : InboxRow) (table : InboxTable) (out : InboxTable × List (InboxRow × Bool))
    → upsert_row e.weight row table ≡ ok out
    → Inserted e row table out.0
unfolding upsert_row
upsert_row-Inserted e row table out h =
    elim (Bool-cases (exists (same_receipt e.weight row) table)) [
      | inl t ↦ inl (cc (rw (t, kept (same_receipt e.weight row) table) at h))
      | inr f ↦ elim (Bool-cases (exists (λ (old : InboxRow). old.id == row.id) table)) [
        | inl t ↦ cc (rw (f, t) at h)
        | inr g ↦ inr (row, inl refl, cc (rw (f, g) at h), not-find-of_new row.id table g)
      ]
    ]

module _ {F : Type 0} (config : PactixConfig F) (e : Executor) (id : ℕ) (now : DateTime)
    (source : String) (envelope : MessageEnvelope) where
  pub new_pending-ok :
      (made : InboxMessageRecord)
      → new_pending envelope.metadata envelope.payload config.retry_policy id now source ≡ ok made
      → made ≡ received config e id now source envelope
  unfolding new_pending
  new_pending-ok made h = elim (Bool-cases (is_blank source)) [
    | inl t ↦ cc (rw t at h)
    | inr f ↦
        let (env, valid, same) =
          >>=-eq-ok (new_envelope envelope.metadata envelope.payload) _ (rw f at h) in
        let (shape, _) = new_envelope_lem envelope.metadata envelope.payload env valid in cc
  ]

  pub save_received-Inserted :
      (table : InboxTable) (out : InboxTable × ReceiveOutcome)
      → save_received config e id now source envelope table ≡ ok out
      → Inserted e (received_row config e id now source envelope) table out.0
  unfolding save_received
  save_received-Inserted table out h =
      let (made, fresh, rest) =
        >>=-eq-ok (new_pending envelope.metadata envelope.payload config.retry_policy id now source)
          _ h in
      let is_made = new_pending-ok made fresh in
      rw (← is_made) (elim (Bool-cases (is_mysql e)) [
        | inl t ↦
            rw (← mysql_table e made (record_values e made) table out (rw t at rest))
              (insert_ignore-Inserted e (record_values e made) table)
        | inr f ↦
            let (rows, put) = postgresql_table e (record_values e made) table out (rw f at rest) in
            upsert_row-Inserted e (record_values e made) table (out.0, rows) put
      ])
