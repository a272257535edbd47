-- ===== src/Outbox/Store/Claims.antt =====
-- What `claim_ready` returns, on both databases, and that the two agree.
use pactix.Prelude.{
  ℕ, ◌+◌, ◌-◌, ◌≡◌, refl, ◌∙◌, ◌⊎◌, inl, inr, List, [], ◌∷◌, map, Memᴰ, ok, arith, traverse,
  traverse-eq-map, Bool, true, str_eq→eq, select,
}
use pactix.Dialect.{DateTime, Executor, IsPostgres, IsMysql, aware, utc, naive_utc}
use pactix.Dialect.RoundTrip.{is_mysql-IsMysql, is_mysql-IsPostgres}
use pactix.Config.{PactixConfig}
use pactix.Queue.{Planner, IsPlanner, ready_fifo, claim_returning, claim_selected, pick, is_pending}
use pactix.Queue.Rows.{UniqueIds}
use pactix.Queue.Claim.{mem-batch, mem-claim_returning, claim_selected-table}
use pactix.Queue.Fifo.{ready_fifo-pending}
use pactix.Outbox.Model.{pending, processing, OutboxMessageRecord, from_str}
use pactix.Outbox.Table.{OutboxRow, OutboxTable, outbox_columns, outbox_laws}
use pactix.Outbox.Store.{
  record_of, map_record, claim_ready, claim_ready_mysql, claim_ready_postgresql, mirror,
}
use pactix.Outbox.Store.Records.{in_utc, map_record_lem}

map-map :
    {A B C : Type 0} (g : B → C) (f : A → B) (xs : List A)
    → map g (map f xs) ≡ map (λ x. g (f x)) xs
map-map g f [] = refl
map-map g f (x ∷ xs) = cc (map-map g f xs)

pending_text :
    (row : OutboxRow) → is_pending outbox_columns row ≡ true → from_str row.status ≡ ok pending
unfolding is_pending from_str
pending_text row h = rw (str_eq→eq row.status "pending" h)

-- The record of a row that is claimed at `n` until `l`.
abbrev pub claimed_record : ℕ → ℕ → OutboxRow → OutboxMessageRecord
claimed_record l n row = record_of in_utc (outbox_columns.set_claimed l n row) processing

module _ {F : Type 0} (config : PactixConfig F) (planner : Planner OutboxRow)
    (lawful : IsPlanner planner) (w : ℕ) (table : OutboxTable)
    (u : UniqueIds outbox_columns table) where
  -- The times of the two statements, for `now` at `w` in UTC.
  abbrev pub now_utc : DateTime
  now_utc = aware w utc

  abbrev pub until : ℕ
  until = w + config.lease_duration

  abbrev pub eligible : List OutboxRow
  eligible = select (ready_fifo outbox_columns w table) table

  -- The rows that a claim takes, before the update.
  abbrev pub taken : (ℕ → Bool) → List OutboxRow
  taken locked = pick outbox_columns planner locked config.outbox_batch_size eligible

  abbrev pub claimed_table : (ℕ → Bool) → OutboxTable
  claimed_table locked =
      (claim_returning outbox_columns planner locked config.outbox_batch_size until w
        (ready_fifo outbox_columns w table) table).0

  pub taken-pending :
      (locked : ℕ → Bool) (row : OutboxRow)
      → Memᴰ row (taken locked)
      → from_str row.status ≡ ok pending
  taken-pending locked row m = pending_text row (
      ready_fifo-pending outbox_columns w table row
        (mem-batch outbox_columns outbox_laws planner lawful locked config.outbox_batch_size until w
          (ready_fifo outbox_columns w table) table m).1)

  module _ (e : Executor) (m : IsMysql e) where
    naive_bind : (n : ℕ) → e.bind (naive_utc e (aware n utc)) ≡ n
    unfolding naive_utc
    naive_bind n = m.binds (n + 0 - 0) ∙ omega arith

    mirrored :
        (row : OutboxRow)
        → mirror config e now_utc (record_of in_utc row pending) ≡ claimed_record until w row
    mirrored row = refl

    traversed :
        traverse (map_record e) (taken e.locked)
        ≡ ok (map (λ row. record_of in_utc row pending) (taken e.locked))
    traversed =
        traverse-eq-map (map_record e) _ (taken e.locked)
          (λ row h. map_record_lem e (inr m) row pending (taken-pending e.locked row h))

    -- On MySQL: the records are those of the taken rows, in their order.
    pub claim_ready-IsMysql :
        claim_ready config e planner now_utc table
        ≡ ok (claimed_table e.locked, map (claimed_record until w) (taken e.locked))
    unfolding claim_ready claim_ready_mysql claim_selected
    claim_ready-IsMysql =
        rw
          (
            claim_ready,
            is_mysql-IsMysql e m,
            claim_ready_mysql,
            naive_bind w,
            naive_bind until,
            traversed,
          )
          (cc (
            map-map (mirror config e now_utc) (λ row. record_of in_utc row pending)
                (taken e.locked),
            claim_selected-table outbox_columns outbox_laws planner lawful e.locked
                config.outbox_batch_size until w (ready_fifo outbox_columns w table) table,
          ))

  module _ (e : Executor) (p : IsPostgres e) where
    aware_bind : (n : ℕ) → e.bind (aware n utc) ≡ n
    aware_bind n = p.binds n utc ∙ omega arith

    abbrev pub returned : List OutboxRow
    returned =
        (claim_returning outbox_columns planner e.locked config.outbox_batch_size until w
          (ready_fifo outbox_columns w table) table).1

    pub returned_row :
        (s : OutboxRow)
        → Memᴰ s returned
        → (row : OutboxRow) × Memᴰ row (taken e.locked)
          × (s ≡ outbox_columns.set_claimed until w row)
    returned_row s m =
        mem-claim_returning outbox_columns outbox_laws planner lawful e.locked
          config.outbox_batch_size until w (ready_fifo outbox_columns w table) table u m

    processing_text : (s : OutboxRow) → Memᴰ s returned → from_str s.status ≡ ok processing
    unfolding from_str
    processing_text s m = let (row, _, same) = returned_row s m in rw same

    -- On PostgreSQL: the records are those of the returned rows, in the order of the database.
    pub claim_ready-IsPostgres :
        claim_ready config e planner now_utc table
        ≡ ok (claimed_table e.locked, map (λ s. record_of in_utc s processing) returned)
    unfolding claim_ready claim_ready_postgresql claim_returning
    claim_ready-IsPostgres =
        rw
          (
            claim_ready,
            is_mysql-IsPostgres e p,
            claim_ready_postgresql,
            aware_bind w,
            aware_bind until,
          )
          (rw (
            traverse-eq-map (map_record e) (λ s. record_of in_utc s processing) returned
              (λ s h. map_record_lem e (inl p) s processing (processing_text s h))))

  -- The table after a claim that succeeds.
  pub claim_ready-table :
      (e : Executor)
      → IsPostgres e ⊎ IsMysql e
      → (out : OutboxTable × List OutboxMessageRecord)
      → claim_ready config e planner now_utc table ≡ ok out
      → out.0 ≡ claimed_table e.locked
  claim_ready-table e (inl p) out h = cc (claim_ready-IsPostgres e p)
  claim_ready-table e (inr m) out h = cc (claim_ready-IsMysql e m)
