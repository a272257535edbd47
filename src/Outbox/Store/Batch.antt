-- ===== src/Outbox/Store/Batch.antt =====
-- The promises of `claim_ready`: what each claimed record is, that the two databases agree, and that
-- there is progress.
use mathlib.Core.List.Memᴰ
use pactix.Prelude.{
  ℕ, ◌≡◌, ◌<◌, ◌≤◌, ◌↔◌, inl, inr, false, true, List, map, Memᴰ, ok, length, mem-map, All,
  All-of_mem, mem-select_of_mem, mem_of_length-pos, length-pos_of_mem,
}
use pactix.Dialect.{Executor, IsPostgres, aware, utc}
use pactix.Dialect.RoundTrip.{IsBackend}
use pactix.Config.{PactixConfig}
use pactix.Queue.{Planner, IsPlanner, ready_fifo, is_pending, is_open}
use pactix.Queue.Rows.{UniqueIds}
use pactix.Queue.Pick.{pick_nonempty}
use pactix.Queue.Claim.{mem-batch, claim_returning-mem}
use pactix.Queue.Fifo.{
  SameStream, fifo_gate-closed, ready_fifo-pending, ready_fifo-available, ready_fifo-gate,
  ready_fifo-first,
}
use pactix.Outbox.Model.{processing, OutboxMessageRecord}
use pactix.Outbox.Table.{OutboxRow, OutboxTable, outbox_columns, outbox_laws}
use pactix.Outbox.Store.{record_of, claim_ready}
use pactix.Outbox.Store.Records.{in_utc}
use pactix.Outbox.Store.Claims.{
  claimed_record, until, taken, returned, returned_row, claim_ready-IsMysql, claim_ready-IsPostgres,
}

-- A record that a claim at `w` may return: it is that of a row which was pending, available and free,
-- and which no older pending or processing row of its stream stood before.
pub record IsClaimed (until w : ℕ) (e : Executor) (table : OutboxTable) (r : OutboxMessageRecord)
    : Type 0 where
  pub row : OutboxRow
  pub stored : Memᴰ row table
  pub was_pending : is_pending outbox_columns row ≡ true
  pub was_available : row.available_at ≤ w
  pub was_free : e.locked row.id ≡ false
  pub first_of_stream :
      (older : OutboxRow)
      → Memᴰ older table
      → SameStream outbox_columns older row
      → older.created_at < row.created_at
      → is_open outbox_columns older ≡ false
  pub leased : r ≡ claimed_record until w row

module _ {F : Type 0} (config : PactixConfig F) (planner : Planner OutboxRow)
    (lawful : IsPlanner planner) (w : ℕ) (table : OutboxTable)
    (u : UniqueIds outbox_columns table) where
  abbrev pub lease : ℕ
  lease = until config planner lawful w table u

  taken-IsClaimed :
      (e : Executor) (r : OutboxMessageRecord) (row : OutboxRow)
      → Memᴰ row (taken config planner lawful w table u e.locked)
      → r ≡ claimed_record lease w row
      → IsClaimed lease w e table r
  taken-IsClaimed e r row m same =
      let (stored, ready, free) =
        mem-batch outbox_columns outbox_laws planner lawful e.locked config.outbox_batch_size lease
          w (ready_fifo outbox_columns w table) table m in
      record {
        row = row;
        stored = stored;
        was_pending = ready_fifo-pending outbox_columns w table row ready;
        was_available = ready_fifo-available outbox_columns w table row ready;
        was_free = free;
        first_of_stream = λ older h stream before.
            fifo_gate-closed outbox_columns table (ready_fifo-gate outbox_columns w table row ready)
              h stream before;
        leased = same;
      }

  -- The records of the taken rows are those that either database returns.
  returned-taken :
      (e : Executor) (p : IsPostgres e) (r : OutboxMessageRecord)
      → Memᴰ r
          (map (λ s. record_of in_utc s processing) (returned config planner lawful w table u e p))
        ↔ Memᴰ r (map (claimed_record lease w) (taken config planner lawful w table u e.locked))
  returned-taken e p r = (to, from)
    where
      to :
          Memᴰ r (
            map (λ s. record_of in_utc s processing) (returned config planner lawful w table u e p))
          → Memᴰ r (map (claimed_record lease w) (taken config planner lawful w table u e.locked))
      to m =
          let (s, ms, es) = mem-map (λ s. record_of in_utc s processing) _ m in
          let (row, mrow, erow) = returned_row config planner lawful w table u e p s ms in
          rw (es, erow) (Memᴰ.map (claimed_record lease w) mrow)

      from :
          Memᴰ r (map (claimed_record lease w) (taken config planner lawful w table u e.locked))
          → Memᴰ r (
              map
                (λ s. record_of in_utc s processing)
                (returned config planner lawful w table u e p))
      from m =
          let (row, mrow, erow) = mem-map (claimed_record lease w) _ m in
          rw erow (
            Memᴰ.map (λ s. record_of in_utc s processing)
              (claim_returning-mem outbox_columns outbox_laws planner lawful e.locked
                config.outbox_batch_size lease w (ready_fifo outbox_columns w table) table mrow))

  -- In a table whose ids are unique, a claim at a time in UTC succeeds on either database, and each
  -- record that it returns is that of a row which was pending, available and locked by no other
  -- transaction, and of which no older row of its stream was pending or processing; the record is
  -- processing, with a lease of `lease_duration`.
  pub claim_ready_records :
      (e : Executor)
      → IsBackend e
      → (out : OutboxTable × List OutboxMessageRecord) × (claim_ready config e planner
            (aware w utc)
            table
          ≡ ok out)
        × All (IsClaimed lease w e table) out.1
  claim_ready_records e (inr m) = (
    _,
    claim_ready-IsMysql config planner lawful w table u e m,
    All-of_mem (IsClaimed lease w e table) _ (λ r h.
        let (row, mrow, same) = mem-map (claimed_record lease w) _ h in
        taken-IsClaimed e r row mrow same),
  )
  claim_ready_records e (inl p) = (
    _,
    claim_ready-IsPostgres config planner lawful w table u e p,
    All-of_mem (IsClaimed lease w e table) _ (λ r h.
        let (row, mrow, same) = mem-map (claimed_record lease w) _ ((returned-taken e p r).0 h) in
        taken-IsClaimed e r row mrow same),
  )

  -- There is progress: in a table whose ids are unique, with room in the batch, a claim at a time
  -- in UTC succeeds and returns a record whenever some row is pending and available, no older row of
  -- its stream is pending or processing, and no other transaction has locked it.
  pub claim_ready_progress :
      (e : Executor) (row : OutboxRow)
      → IsBackend e
      → 0 < config.outbox_batch_size
      → Memᴰ row table
      → is_pending outbox_columns row ≡ true
      → row.available_at ≤ w
      → ((older : OutboxRow)
          → Memᴰ older table
          → SameStream outbox_columns older row
          → older.created_at < row.created_at
          → is_open outbox_columns older ≡ false)
      → e.locked row.id ≡ false
      → (out : OutboxTable × List OutboxMessageRecord) × (claim_ready config e planner
            (aware w utc)
            table
          ≡ ok out)
        × (0 < length out.1)
  claim_ready_progress e row backend room stored waiting available first free = elim backend [
    | inr m ↦ (
      _,
      claim_ready-IsMysql config planner lawful w table u e m,
      length-pos_of_mem _ (Memᴰ.map (claimed_record lease w) taken_row.1),
    )
    | inl p ↦ (
      _,
      claim_ready-IsPostgres config planner lawful w table u e p,
      length-pos_of_mem _
          ((returned-taken e p _).1 (Memᴰ.map (claimed_record lease w) taken_row.1)),
    )
  ]
    where
      taken_row : (x : OutboxRow) × Memᴰ x (taken config planner lawful w table u e.locked)
      taken_row = mem_of_length-pos _ (
          pick_nonempty outbox_columns planner lawful e.locked config.outbox_batch_size _
            (mem-select_of_mem (ready_fifo outbox_columns w table) table stored
              (ready_fifo-first outbox_columns w table row waiting available first))
            free room)
