-- ===== src/Inbox/Store/Updates.antt =====
-- What each update of `InboxStore` does to the row of its id, and that it does nothing else.
use mathlib.Core.Option
use pactix.Prelude.{
  ℕ, ◌≡◌, ◌⊎◌, refl, ◌∙◌, inl, inr, none, some, String, arith, ◌==◌, if◌then◌else◌, Option-cases,
}
use pactix.Dialect.{DateTime, Executor}
use pactix.Queue.{find, update_rows}
use pactix.Queue.Rows.{find-update_rows, find-mem}
use pactix.Inbox.Table.{InboxRow, InboxTable, inbox_columns}
use pactix.Inbox.Store.{
  mark_processed, mark_retry, mark_failed, set_processed, set_retry, set_failed,
}

-- An update of one id changes the row of that id, and no other.
find-update_id :
    (id k : ℕ) (f : InboxRow → InboxRow) (table : InboxTable)
    → ((r : InboxRow) → (f r).id ≡ r.id)
    → find inbox_columns k (update_rows (λ r. r.id == id) f table)
      ≡ (if k == id then Option.map f (find inbox_columns k table) else find inbox_columns k table)
find-update_id id k f table keeps =
    find-update_rows inbox_columns (λ r. r.id == id) f k table keeps
    ∙ chosen (Option-cases (find inbox_columns k table))
  where
    chosen :
        (find inbox_columns k table ≡ none)
          ⊎ ((r : InboxRow) × (find inbox_columns k table ≡ some r))
        → Option.map (λ (r : InboxRow). if r.id == id then f r else r) (find inbox_columns k table)
          ≡ (if k == id
              then Option.map f (find inbox_columns k table)
              else find inbox_columns k table)
    chosen (inl h) = ground arith
    chosen (inr (r, h)) = ground (arith, find-mem inbox_columns k table h)

module _ (e : Executor) (id k : ℕ) (table : InboxTable) where
  -- `mark_processed` makes the row of the id processed at that time, without a lease, and changes
  -- no other row.
  pub find-mark_processed :
      (at : DateTime)
      → find inbox_columns k (mark_processed e id at table) ≡ (
          if k == id
          then Option.map (set_processed e at) (find inbox_columns k table)
          else find inbox_columns k table)
  unfolding mark_processed
  find-mark_processed at = find-update_id id k (set_processed e at) table (λ r. refl)

  -- `mark_retry` makes the row of the id pending from that time, with one attempt more, whatever its
  -- status was, and changes no other row.
  pub find-mark_retry :
      (now : DateTime) (error : String) (at : DateTime)
      → find inbox_columns k (mark_retry e now id error at table) ≡ (
          if k == id
          then Option.map (set_retry e now error at) (find inbox_columns k table)
          else find inbox_columns k table)
  unfolding mark_retry
  find-mark_retry now error at = find-update_id id k (set_retry e now error at) table (λ r. refl)

  -- `mark_failed` makes the row of the id failed, with one attempt more, and changes no other row.
  pub find-mark_failed :
      (now : DateTime) (error : String)
      → find inbox_columns k (mark_failed e now id error table) ≡ (
          if k == id
          then Option.map (set_failed e now error) (find inbox_columns k table)
          else find inbox_columns k table)
  unfolding mark_failed
  find-mark_failed now error = find-update_id id k (set_failed e now error) table (λ r. refl)
