-- ===== src/Inbox/Store/Batch.antt =====
-- The promises of the claims: what each claimed record is, that the two databases agree.
use mathlib.Core.List.Memᴰ
use pactix.Prelude.{
  ◌+◌, ℕ, ◌≡◌, ◌<◌, ◌≤◌, refl, ◌↔◌, inl, inr, false, true, List, map, Memᴰ, ok, mem-map, All,
  All-of_mem, All-mem,
}
use pactix.Dialect.{Executor, IsPostgres, IsMysql, aware, utc}
use pactix.Dialect.RoundTrip.{IsBackend}
use pactix.Config.{PactixConfig}
use pactix.Queue.{Planner, IsPlanner, is_pending, is_open}
use pactix.Queue.Rows.{UniqueIds}
use pactix.Queue.Claim.{mem-batch, claim_returning-mem}
use pactix.Queue.Fifo.{
  SameStream, fifo_gate-closed, ready_fifo-pending, ready_fifo-available, ready_fifo-gate,
  is_ready-pending, is_ready-available,
}
use pactix.Inbox.Model.{processing, InboxMessageRecord}
use pactix.Inbox.Table.{InboxRow, InboxTable, inbox_columns, inbox_laws}
use pactix.Inbox.Store.{
  record_of, Query, claim_ready, claim_ready_unordered, fifo_query, unordered_query,
}
use pactix.Inbox.Store.Records.{in_utc}
use pactix.Inbox.Store.Claims.{
  claimed_record, claim_query, until, taken, returned, returned_row, claim_query-IsMysql,
  claim_query-IsPostgres,
}

-- A record that a claim at `w` may return: it is that of a row that passed the
-- statement's WHERE and was free.
pub record IsClaimed (query : Query) (until w : ℕ) (e : Executor) (table : InboxTable)
    (r : InboxMessageRecord) : Type 0 where
  pub row : InboxRow
  pub stored : Memᴰ row table
  pub ready : query w table row ≡ true
  pub was_free : e.locked row.id ≡ false
  pub leased : r ≡ claimed_record until w row

module _ {F : Type 0} (config : PactixConfig F) (planner : Planner InboxRow)
    (lawful : IsPlanner planner) (w : ℕ) (table : InboxTable) (u : UniqueIds inbox_columns table)
    (query : Query)
    (takes : (r : InboxRow) → query w table r ≡ true → is_pending inbox_columns r ≡ true) where
  abbrev pub lease : ℕ
  lease = until config planner lawful w table u query takes

  taken-IsClaimed :
      (e : Executor) (r : InboxMessageRecord) (row : InboxRow)
      → Memᴰ row (taken config planner lawful w table u query takes e.locked)
      → r ≡ claimed_record lease w row
      → IsClaimed query lease w e table r
  taken-IsClaimed e r row m same =
      let (stored, ready, free) =
        mem-batch inbox_columns inbox_laws planner lawful e.locked config.inbox_batch_size lease w
          (query w table) table m in
      record { row = row; stored = stored; ready = ready; was_free = free; leased = same }

  -- The records of the taken rows are those that either database returns.
  returned-taken :
      (e : Executor) (p : IsPostgres e) (r : InboxMessageRecord)
      → Memᴰ r (
          map
            (λ s. record_of in_utc s processing)
            (returned config planner lawful w table u query takes e p))
        ↔ Memᴰ r (
            map
              (claimed_record lease w)
              (taken config planner lawful w table u query takes e.locked))
  returned-taken e p r = (to, from)
    where
      to :
          Memᴰ r (
            map
              (λ s. record_of in_utc s processing)
              (returned config planner lawful w table u query takes e p))
          → Memᴰ r (
              map
                (claimed_record lease w)
                (taken config planner lawful w table u query takes e.locked))
      to m =
          let (s, ms, es) = mem-map (λ s. record_of in_utc s processing) _ m in
          let (row, mrow, erow) =
            returned_row config planner lawful w table u query takes e p s ms in
          rw (es, erow) (Memᴰ.map (claimed_record lease w) mrow)

      from :
          Memᴰ r (
            map
              (claimed_record lease w)
              (taken config planner lawful w table u query takes e.locked))
          → Memᴰ r (
              map
                (λ s. record_of in_utc s processing)
                (returned config planner lawful w table u query takes e p))
      from m =
          let (row, mrow, erow) = mem-map (claimed_record lease w) _ m in
          rw erow (
            Memᴰ.map (λ s. record_of in_utc s processing)
              (claim_returning-mem inbox_columns inbox_laws planner lawful e.locked
                config.inbox_batch_size lease w (query w table) table mrow))

  -- In a table whose ids are unique, a claim at a time in UTC succeeds on either database, and each
  -- record that it returns is that of a row which was pending, available and locked by no other
  -- transaction, and of which no older row of its stream was pending or processing; the record is
  -- processing, with a lease of `lease_duration`.
  pub claim_query_records :
      (e : Executor)
      → IsBackend e
      → (out : InboxTable × List InboxMessageRecord) × (claim_query config planner lawful w table u
            query takes e
          ≡ ok out)
        × All (IsClaimed query lease w e table) out.1
  claim_query_records e (inr m) = (
    _,
    claim_query-IsMysql config planner lawful w table u query takes e m,
    All-of_mem (IsClaimed query lease w e table) _ (λ r h.
        let (row, mrow, same) = mem-map (claimed_record lease w) _ h in
        taken-IsClaimed e r row mrow same),
  )
  claim_query_records e (inl p) = (
    _,
    claim_query-IsPostgres config planner lawful w table u query takes e p,
    All-of_mem (IsClaimed query lease w e table) _ (λ r h.
        let (row, mrow, same) = mem-map (claimed_record lease w) _ ((returned-taken e p r).0 h) in
        taken-IsClaimed e r row mrow same),
  )

  -- PostgreSQL and MySQL agree: in a table whose ids are unique and with the same rows locked, a
  -- claim at a time in UTC leaves the same table on both, and returns the same records, if not in
  -- the same order.
  pub claim_query_dialects :
      (p m : Executor)
      → IsPostgres p
      → IsMysql m
      → p.locked ≡ m.locked
      → (a b : InboxTable × List InboxMessageRecord) × (claim_query config planner lawful w table u
            query takes p
          ≡ ok a)
        × (claim_query config planner lawful w table u query takes m ≡ ok b)
        × (a.0 ≡ b.0)
        × ((r : InboxMessageRecord) → Memᴰ r a.1 ↔ Memᴰ r b.1)
  claim_query_dialects p m is_p is_m locks = (
    _,
    _,
    claim_query-IsPostgres config planner lawful w table u query takes p is_p,
    claim_query-IsMysql config planner lawful w table u query takes m is_m,
    rw locks refl,
    λ r. rw (← locks) (returned-taken p is_p r),
  )

-- A record that an unordered claim at `w` may return: it is that of a row which was pending, available
-- and free.
pub record IsUnordered (until w : ℕ) (e : Executor) (table : InboxTable) (r : InboxMessageRecord)
    : Type 0 where
  pub row : InboxRow
  pub stored : Memᴰ row table
  pub was_pending : is_pending inbox_columns row ≡ true
  pub was_available : row.available_at ≤ w
  pub was_free : e.locked row.id ≡ false
  pub leased : r ≡ claimed_record until w row

-- For an ordered claim, no older row of its stream was pending or processing.
pub record IsOrdered (until w : ℕ) (e : Executor) (table : InboxTable) (r : InboxMessageRecord)
    : Type 0 where
  pub taken : IsUnordered until w e table r
  pub first_of_stream :
      (older : InboxRow)
      → Memᴰ older table
      → SameStream inbox_columns older taken.row
      → older.received_at < taken.row.received_at
      → is_open inbox_columns older ≡ false

module _ (until w : ℕ) (e : Executor) (table : InboxTable) (r : InboxMessageRecord) where
  IsClaimed-IsOrdered : IsClaimed fifo_query until w e table r → IsOrdered until w e table r
  IsClaimed-IsOrdered claimed = record {
    taken = record {
      row = claimed.row;
      stored = claimed.stored;
      was_pending = ready_fifo-pending inbox_columns w table claimed.row claimed.ready;
      was_available = ready_fifo-available inbox_columns w table claimed.row claimed.ready;
      was_free = claimed.was_free;
      leased = claimed.leased;
    };
    first_of_stream = λ older h stream before.
        fifo_gate-closed inbox_columns table
          (ready_fifo-gate inbox_columns w table claimed.row claimed.ready) h stream before;
  }

  IsClaimed-IsUnordered :
      IsClaimed unordered_query until w e table r → IsUnordered until w e table r
  IsClaimed-IsUnordered claimed = record {
    row = claimed.row;
    stored = claimed.stored;
    was_pending = is_ready-pending inbox_columns w claimed.row claimed.ready;
    was_available = is_ready-available inbox_columns w claimed.row claimed.ready;
    was_free = claimed.was_free;
    leased = claimed.leased;
  }

module _ {F : Type 0} (config : PactixConfig F) (planner : Planner InboxRow)
    (lawful : IsPlanner planner) (w : ℕ) (table : InboxTable)
    (u : UniqueIds inbox_columns table) where
  -- In a table whose ids are unique, an ordered and an unordered claim at a time in UTC succeed on
  -- either database, and each record that they return is that of a row which was pending, available and
  -- locked by no other transaction, and of which, in the ordered claim, no older row of its stream was
  -- pending or processing; the record is processing, with a lease of `lease_duration`.
  pub claim_modes_records :
      (e : Executor)
      → IsBackend e
      → ((out : InboxTable × List InboxMessageRecord) × (claim_ready config e planner
              (aware w utc)
              table
            ≡ ok out)
          × All (IsOrdered (w + config.lease_duration) w e table) out.1)
        × ((out : InboxTable × List InboxMessageRecord) × (claim_ready_unordered config e planner
                (aware w utc)
                table
              ≡ ok out)
            × All (IsUnordered (w + config.lease_duration) w e table) out.1)
  unfolding claim_ready claim_ready_unordered
  claim_modes_records e backend =
      let until = w + config.lease_duration in
      let (first, ordered, each) =
        claim_query_records config planner lawful w table u fifo_query
          (ready_fifo-pending inbox_columns w table) e backend in
      let (second, unordered, any) =
        claim_query_records config planner lawful w table u unordered_query
          (is_ready-pending inbox_columns w) e backend in
      (
        (
          first,
          ordered,
          All-of_mem (IsOrdered until w e table) first.1 (λ r m.
              IsClaimed-IsOrdered until w e table r
                (All-mem (IsClaimed fifo_query until w e table) first.1 each m)),
        ),
        (
          second,
          unordered,
          All-of_mem (IsUnordered until w e table) second.1 (λ r m.
              IsClaimed-IsUnordered until w e table r
                (All-mem (IsClaimed unordered_query until w e table) second.1 any m)),
        ),
      )
