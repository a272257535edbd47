-- ===== src/Inbox/Store/Processed.antt =====
-- Which updates process a row: neither a claim nor a reclaim does.
use pactix.Prelude.{
  ℕ, ◌≡◌, refl, sym, subst, inl, inr, List, map, ok, Bool-cases, if◌then◌else◌, traverse,
  >>=-paired,
}
use pactix.Dialect.{DateTime, Executor, is_mysql, column, naive_utc}
use pactix.Config.{PactixConfig}
use pactix.Queue.{Planner, claim_returning, claim_selected}
use pactix.Queue.Status.{
  HasStatus, reclaim-HasStatus, claim_rows-HasStatus, update_selected-HasStatus,
}
use pactix.Inbox.Model.{InboxMessageRecord}
use pactix.Inbox.Table.{InboxRow, InboxTable, inbox_columns, inbox_laws}
use pactix.Inbox.Store.{
  Query, map_record, lease_end, mirror, fifo_query, unordered_query, claim_ready,
  claim_ready_unordered, claim_mysql, claim_postgresql, reclaim_expired,
}

-- The row of an id is there, and it is processed.
abbrev pub IsProcessed : ℕ → InboxTable → Type 0
IsProcessed k table = HasStatus inbox_columns "processed" k table

pub reclaim-IsProcessed :
    (k : ℕ) (e : Executor) (now : DateTime) (table : InboxTable)
    → IsProcessed k (reclaim_expired e now table).0
    → IsProcessed k table
unfolding reclaim_expired
reclaim-IsProcessed k e now table =
    reclaim-HasStatus inbox_columns "processed" inbox_laws (column e now) k table refl

module _ {F : Type 0} (config : PactixConfig F) (e : Executor) (planner : Planner InboxRow)
    (now : DateTime) (table : InboxTable) (out : InboxTable × List InboxMessageRecord) (k : ℕ)
    (query : Query) where
  -- The statements of the two databases, which bind the two times in their own way.
  abbrev selects : ℕ → ℕ → InboxTable × List InboxRow
  selects l n =
      claim_selected inbox_columns planner e.locked config.inbox_batch_size l n (query n table)
        table

  abbrev returns : ℕ → ℕ → InboxTable × List InboxRow
  returns l n =
      claim_returning inbox_columns planner e.locked config.inbox_batch_size l n (query n table)
        table

  mysql-IsProcessed :
      claim_mysql config e planner query now table ≡ ok out
      → IsProcessed k out.0
      → IsProcessed k table
  unfolding claim_mysql claim_selected
  mysql-IsProcessed h p =
      let n = e.bind (naive_utc e now) in
      let l = e.bind (naive_utc e (lease_end config e now)) in
      let (after, rows) = selects l n in
      let kept = >>=-paired (traverse (map_record e) rows) after (map (mirror config e now)) h in
      update_selected-HasStatus inbox_columns "processed" inbox_laws l n k rows table refl
        (subst (IsProcessed k) (sym kept) p)

  postgresql-IsProcessed :
      claim_postgresql config e planner query now table ≡ ok out
      → IsProcessed k out.0
      → IsProcessed k table
  unfolding claim_postgresql claim_returning
  postgresql-IsProcessed h p =
      let n = e.bind now in
      let l = e.bind (lease_end config e now) in
      let (after, rows) = returns l n in
      let kept = >>=-paired (traverse (map_record e) rows) after (λ records. records) h in
      claim_rows-HasStatus inbox_columns "processed" inbox_laws _ l n k table refl
        (subst (IsProcessed k) (sym kept) p)

  -- A claim processes nothing, on either database, whatever the time, the plan and the query.
  either-IsProcessed :
      (if is_mysql e
          then claim_mysql config e planner query now table
          else claim_postgresql config e planner query now table)
        ≡ ok out
      → IsProcessed k out.0
      → IsProcessed k table
  either-IsProcessed h = elim (Bool-cases (is_mysql e)) [
    | inl t ↦ mysql-IsProcessed (rw t at h)
    | inr t ↦ postgresql-IsProcessed (rw t at h)
  ]

module _ {F : Type 0} (config : PactixConfig F) (e : Executor) (planner : Planner InboxRow)
    (now : DateTime) (table : InboxTable) (out : InboxTable × List InboxMessageRecord) (k : ℕ) where
  pub claim_ready-IsProcessed :
      claim_ready config e planner now table ≡ ok out → IsProcessed k out.0 → IsProcessed k table
  unfolding claim_ready
  claim_ready-IsProcessed = either-IsProcessed config e planner now table out k fifo_query

  pub claim_ready_unordered-IsProcessed :
      claim_ready_unordered config e planner now table ≡ ok out
      → IsProcessed k out.0
      → IsProcessed k table
  unfolding claim_ready_unordered
  claim_ready_unordered-IsProcessed =
      either-IsProcessed config e planner now table out k unordered_query
