-- ===== src/Outbox/Store/Published.antt =====
-- Which updates publish a row: neither a claim nor a reclaim does.
use pactix.Prelude.{
  ℕ, ◌≡◌, refl, sym, subst, inl, inr, List, map, ok, Bool-cases, traverse, >>=-paired,
}
use pactix.Dialect.{DateTime, Executor, is_mysql, column, naive_utc}
use pactix.Config.{PactixConfig}
use pactix.Queue.{Planner, claim_returning, claim_selected, ready_fifo}
use pactix.Queue.Status.{
  HasStatus, reclaim-HasStatus, claim_rows-HasStatus, update_selected-HasStatus,
}
use pactix.Outbox.Model.{OutboxMessageRecord}
use pactix.Outbox.Table.{OutboxRow, OutboxTable, outbox_columns, outbox_laws}
use pactix.Outbox.Store.{
  map_record, lease_end, mirror, claim_ready, claim_ready_mysql, claim_ready_postgresql,
  reclaim_expired,
}

-- The row of an id is there, and it is published.
abbrev pub IsPublished : ℕ → OutboxTable → Type 0
IsPublished k table = HasStatus outbox_columns "published" k table

pub reclaim-IsPublished :
    (k : ℕ) (e : Executor) (now : DateTime) (table : OutboxTable)
    → IsPublished k (reclaim_expired e now table).0
    → IsPublished k table
unfolding reclaim_expired
reclaim-IsPublished k e now table =
    reclaim-HasStatus outbox_columns "published" outbox_laws (column e now) k table refl

module _ {F : Type 0} (config : PactixConfig F) (e : Executor) (planner : Planner OutboxRow)
    (now : DateTime) (table : OutboxTable) (out : OutboxTable × List OutboxMessageRecord)
    (k : ℕ) where
  -- The statements of the two databases, which bind the two times in their own way.
  abbrev selects : ℕ → ℕ → OutboxTable × List OutboxRow
  selects l n =
      claim_selected outbox_columns planner e.locked config.outbox_batch_size l n
        (ready_fifo outbox_columns n table) table

  abbrev returns : ℕ → ℕ → OutboxTable × List OutboxRow
  returns l n =
      claim_returning outbox_columns planner e.locked config.outbox_batch_size l n
        (ready_fifo outbox_columns n table) table

  mysql-IsPublished :
      claim_ready_mysql config e planner now table ≡ ok out
      → IsPublished k out.0
      → IsPublished k table
  unfolding claim_ready_mysql claim_selected
  mysql-IsPublished h p =
      let n = e.bind (naive_utc e now) in
      let l = e.bind (naive_utc e (lease_end config e now)) in
      let (after, rows) = selects l n in
      let kept = >>=-paired (traverse (map_record e) rows) after (map (mirror config e now)) h in
      update_selected-HasStatus outbox_columns "published" outbox_laws l n k rows table refl
        (subst (IsPublished k) (sym kept) p)

  postgresql-IsPublished :
      claim_ready_postgresql config e planner now table ≡ ok out
      → IsPublished k out.0
      → IsPublished k table
  unfolding claim_ready_postgresql claim_returning
  postgresql-IsPublished h p =
      let n = e.bind now in
      let l = e.bind (lease_end config e now) in
      let (after, rows) = returns l n in
      let kept = >>=-paired (traverse (map_record e) rows) after (λ records. records) h in
      claim_rows-HasStatus outbox_columns "published" outbox_laws _ l n k table refl
        (subst (IsPublished k) (sym kept) p)

  -- A claim publishes nothing, on either database, whatever the time and the plan.
  pub claim_ready-IsPublished :
      claim_ready config e planner now table ≡ ok out → IsPublished k out.0 → IsPublished k table
  unfolding claim_ready
  claim_ready-IsPublished h = elim (Bool-cases (is_mysql e)) [
    | inl t ↦ mysql-IsPublished (rw t at h)
    | inr t ↦ postgresql-IsPublished (rw t at h)
  ]
