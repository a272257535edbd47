-- ===== src/Outbox/Store/Updates.antt =====
-- What each update of `OutboxStore` does to the row of its id, and that it does nothing else; and
-- `append`.
use mathlib.Core.Option
use pactix.Prelude.{
  ℕ, ◌≡◌, ◌⊎◌, refl, ◌∙◌, inl, inr, none, some, String, true, false, [], ◌∷◌, ok, arith, ◌==◌,
  if◌then◌else◌, exists, Option-cases,
}
use pactix.Dialect.{DateTime, Executor}
use pactix.Queue.{find, update_rows}
use pactix.Queue.Rows.{UniqueIds, find-update_rows, find-mem}
use pactix.Outbox.Table.{OutboxRow, OutboxTable, outbox_columns, insert_row, collides, fits}
use pactix.Outbox.Store.{
  mark_published, mark_retry, mark_failed, set_published, set_retry, set_failed,
}

-- An update of one id changes the row of that id, and no other.
find-update_id :
    (id k : ℕ) (f : OutboxRow → OutboxRow) (table : OutboxTable)
    → ((r : OutboxRow) → (f r).id ≡ r.id)
    → find outbox_columns k (update_rows (λ r. r.id == id) f table) ≡ (
        if k == id then Option.map f (find outbox_columns k table) else find outbox_columns k table)
find-update_id id k f table keeps =
    find-update_rows outbox_columns (λ r. r.id == id) f k table keeps
    ∙ chosen (Option-cases (find outbox_columns k table))
  where
    chosen :
        (find outbox_columns k table ≡ none)
          ⊎ ((r : OutboxRow) × (find outbox_columns k table ≡ some r))
        → Option.map
            (λ (r : OutboxRow). if r.id == id then f r else r)
            (find outbox_columns k table)
          ≡ (if k == id
              then Option.map f (find outbox_columns k table)
              else find outbox_columns k table)
    chosen (inl h) = ground arith
    chosen (inr (r, h)) = ground (arith, find-mem outbox_columns k table h)

module _ (e : Executor) (id k : ℕ) (table : OutboxTable) where
  -- `mark_published` makes the row of the id published at that time, without a lease, and changes no
  -- other row.
  pub find-mark_published :
      (at : DateTime)
      → find outbox_columns k (mark_published e id at table) ≡ (
          if k == id
          then Option.map (set_published e at) (find outbox_columns k table)
          else find outbox_columns k table)
  unfolding mark_published
  find-mark_published at = find-update_id id k (set_published e at) table (λ r. refl)

  -- `mark_retry` makes the row of the id pending from that time, with one attempt more, whatever its
  -- status was, and changes no other row.
  pub find-mark_retry :
      (now : DateTime) (error : String) (at : DateTime)
      → find outbox_columns k (mark_retry e now id error at table) ≡ (
          if k == id
          then Option.map (set_retry e now error at) (find outbox_columns k table)
          else find outbox_columns k table)
  unfolding mark_retry
  find-mark_retry now error at = find-update_id id k (set_retry e now error at) table (λ r. refl)

  -- `mark_failed` makes the row of the id failed, with one attempt more, and changes no other row.
  pub find-mark_failed :
      (now : DateTime) (error : String)
      → find outbox_columns k (mark_failed e now id error table) ≡ (
          if k == id
          then Option.map (set_failed e now error) (find outbox_columns k table)
          else find outbox_columns k table)
  unfolding mark_failed
  find-mark_failed now error = find-update_id id k (set_failed e now error) table (λ r. refl)

-- An insert that succeeds adds the row, whose texts fit, and whose id and message id are new.
pub insert_row-ok :
    (e : Executor) (row : OutboxRow) (table table' : OutboxTable)
    → insert_row e row table ≡ ok table'
    → (table' ≡ row ∷ table) × (exists (collides e.weight row) table ≡ false) × (fits e row ≡ true)
unfolding insert_row
insert_row-ok e row table table' h = ground arith

pub not-find-of_new :
    (weight : String → String) (row : OutboxRow) (table : OutboxTable)
    → exists (collides weight row) table ≡ false
    → find outbox_columns row.id table ≡ none
unfolding find
not-find-of_new weight row [] h = refl
not-find-of_new weight row (r ∷ rows) h = ground (arith, not-find-of_new weight row rows)

pub UniqueIds-insert_row :
    (e : Executor) (row : OutboxRow) (table table' : OutboxTable)
    → insert_row e row table ≡ ok table'
    → UniqueIds outbox_columns table
    → UniqueIds outbox_columns table'
UniqueIds-insert_row e row table table' h u =
    let (added, new, _) = insert_row-ok e row table table' h in
    rw added (not-find-of_new e.weight row table new, u)
