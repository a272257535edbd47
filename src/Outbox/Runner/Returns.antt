-- ===== src/Outbox/Runner/Returns.antt =====
-- When a pass returns.
use pactix.Prelude.{subst, length, ℕ, ◌≡◌, sym, ◌∙◌, List, [], ◌∷◌, ok}
use pactix.Dialect.{committed, DateTime, Executor, aware, utc, column}
use pactix.Dialect.RoundTrip.{IsBackend}
use pactix.Config.{Float, PactixConfig}
use pactix.Queue.{Planner, IsPlanner}
use pactix.Queue.Rows.{UniqueIds}
use pactix.Queue.Lease.{UniqueIds-reclaim}
use pactix.Outbox.Model.{OutboxMessageRecord}
use pactix.Outbox.Table.{OutboxRow, OutboxTable, outbox_columns, outbox_laws}
use pactix.Outbox.Store.{reclaim_expired, claim_ready}
use pactix.Outbox.Store.Batch.{claim_ready_records}
use pactix.Outbox.Publisher.{PublishOutcome, PublisherRegistry, publish, message_or_empty}
use pactix.Outbox.Runner.{RunSummary, RunState, run_once, start_summary}
use pactix.Outbox.Runner.Accounting.{loop, step, process_rows-cons_ok, process_rows-nil}

-- A registry that routes every record to a publisher which does not raise.
abbrev pub NeverRaises : PublisherRegistry → Type 0
NeverRaises registry =
    (row : OutboxMessageRecord) → (outcome : PublishOutcome) × (publish registry row ≡ ok outcome)

module _ {F : Type 0} (float : Float F) (config : PactixConfig F) (executor : Executor)
    (clock : ℕ → DateTime) (registry : PublisherRegistry) (answers : NeverRaises registry)
    (commits : (n : ℕ) → executor.ending n ≡ committed) where
  process_rows_returns :
      (rows : List OutboxMessageRecord) (s : RunState)
      → (s' : RunState) × (loop float config executor clock registry rows s ≡ (s', ok tt))
  process_rows_returns [] s = (s, process_rows-nil float config executor clock registry s)
  process_rows_returns (row ∷ rows) s =
      let (outcome, e) = answers row in
      let after =
        step float config executor clock row outcome.kind (message_or_empty outcome.message) s in
      let (s', done) = process_rows_returns rows after in
      (
        s',
        process_rows-cons_ok float config executor clock registry row rows s outcome e
              (commits s.ticks)
            ∙ done,
      )

  UniqueIds-reclaim_expired :
      (now : DateTime) (table : OutboxTable)
      → UniqueIds outbox_columns table
      → UniqueIds outbox_columns (reclaim_expired executor now table).0
  unfolding reclaim_expired
  UniqueIds-reclaim_expired now table u =
      UniqueIds-reclaim outbox_columns outbox_laws (column executor now) table u

  -- On either database, in a table whose ids are unique, a pass at a time in UTC returns its summary
  -- whenever no publisher raises, every event type is routed, and the database
  -- commits every transaction.
  pub run_once_returns :
      (planner : Planner OutboxRow) (w : ℕ) (table : OutboxTable)
      → IsPlanner planner
      → IsBackend executor
      → clock 0 ≡ aware w utc
      → UniqueIds outbox_columns table
      → (table' : OutboxTable) × (summary : RunSummary) × (run_once float config executor clock
            planner registry table
          ≡ (table', ok summary))
  unfolding run_once
  run_once_returns planner w table lawful backend at u =
      let start = (reclaim_expired executor (clock 0) table).0 in
      let (out, claimed, _) =
        claim_ready_records config planner lawful w start
          (UniqueIds-reclaim_expired (clock 0) table u) executor backend in
      let claimed' : claim_ready config executor planner (clock 0) start ≡ ok out =
        subst (λ now. claim_ready config executor planner now start ≡ ok out) (sym at) claimed in
      let (s', done) = process_rows_returns out.1 (record {
        table = out.0;
        summary = start_summary (reclaim_expired executor (clock 0) table).1 (length out.1);
        ticks = 1;
      }) in
      (s'.table, s'.summary, rw (run_once, claimed', commits 0, done))
