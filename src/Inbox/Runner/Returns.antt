-- ===== src/Inbox/Runner/Returns.antt =====
-- When a pass returns.
use pactix.Prelude.{subst, length, ℕ, ◌≡◌, sym, ◌∙◌, List, [], ◌∷◌, ok}
use pactix.Dialect.{committed, DateTime, Executor, aware, utc, column}
use pactix.Dialect.RoundTrip.{IsBackend}
use pactix.Config.{Float, PactixConfig}
use pactix.Queue.{Planner, IsPlanner}
use pactix.Queue.Rows.{UniqueIds}
use pactix.Queue.Lease.{UniqueIds-reclaim}
use pactix.Inbox.Model.{InboxMessageRecord}
use pactix.Inbox.Table.{InboxRow, InboxTable, inbox_columns, inbox_laws}
use pactix.Inbox.Store.{reclaim_expired}
use pactix.Inbox.Store.Batch.{claim_modes_records}
use pactix.Inbox.Runner.{
  InboxRunner, Verdict, decide, Mode, unordered, fifo_per_ordering_key, claim_in, RunSummary,
  RunState, run_once, start_summary,
}
use pactix.Inbox.Runner.Accounting.{loop, step, process_rows-cons_ok, process_rows-nil}

-- A runner whose hooks and handler answer about every record.
abbrev pub NeverRaises : InboxRunner → Type 0
NeverRaises runner =
    (row : InboxMessageRecord) → (verdict : Verdict) × (decide runner row ≡ ok verdict)

module _ {F : Type 0} (float : Float F) (config : PactixConfig F) (executor : Executor)
    (clock : ℕ → DateTime) (runner : InboxRunner) (answers : NeverRaises runner)
    (commits : (n : ℕ) → executor.ending n ≡ committed) where
  process_rows_returns :
      (rows : List InboxMessageRecord) (s : RunState)
      → (s' : RunState) × (loop float config executor clock runner rows s ≡ (s', ok tt))
  process_rows_returns [] s = (s, process_rows-nil float config executor clock runner s)
  process_rows_returns (row ∷ rows) s =
      let (verdict, e) = answers row in
      let after = step float config executor clock row verdict s in
      let (s', done) = process_rows_returns rows after in
      (
        s',
        process_rows-cons_ok float config executor clock runner row rows s verdict e
              (commits s.ticks)
            ∙ done,
      )

  UniqueIds-reclaim_expired :
      (now : DateTime) (table : InboxTable)
      → UniqueIds inbox_columns table
      → UniqueIds inbox_columns (reclaim_expired executor now table).0
  unfolding reclaim_expired
  UniqueIds-reclaim_expired now table u =
      UniqueIds-reclaim inbox_columns inbox_laws (column executor now) table u

  claim_in_returns :
      (mode : Mode) (planner : Planner InboxRow) (w : ℕ) (start : InboxTable)
      → IsPlanner planner
      → IsBackend executor
      → UniqueIds inbox_columns start
      → (out : InboxTable × List InboxMessageRecord) × (claim_in float config executor clock mode
            planner
            (aware w utc)
            start
          ≡ ok out)
  claim_in_returns unordered planner w start lawful backend u =
      let (_, (out, claimed, _)) =
        claim_modes_records config planner lawful w start u executor backend in
      (out, claimed)
  claim_in_returns fifo_per_ordering_key planner w start lawful backend u =
      let ((out, claimed, _), _) =
        claim_modes_records config planner lawful w start u executor backend in
      (out, claimed)

  -- On either database and in either mode, in a table whose ids are unique, a pass at a time in UTC
  -- returns its summary whenever no hook and no handler raises, and the database commits every
  -- transaction.
  pub run_once_finishes :
      (planner : Planner InboxRow) (w : ℕ) (table : InboxTable)
      → IsPlanner planner
      → IsBackend executor
      → clock 0 ≡ aware w utc
      → UniqueIds inbox_columns table
      → (table' : InboxTable) × (summary : RunSummary) × (run_once float config executor clock
            planner runner table
          ≡ (table', ok summary))
  unfolding run_once
  run_once_finishes planner w table lawful backend at u =
      let start = (reclaim_expired executor (clock 0) table).0 in
      let (out, claimed) =
        claim_in_returns runner.mode planner w start lawful backend
          (UniqueIds-reclaim_expired (clock 0) table u) in
      let claimed' : claim_in float config executor clock runner.mode planner (clock 0) start
          ≡ ok out =
        subst (λ now. claim_in float config executor clock runner.mode planner now start ≡ ok out)
          (sym at) claimed in
      let (s', done) = process_rows_returns out.1 (record {
        table = out.0;
        summary = start_summary (reclaim_expired executor (clock 0) table).1 (length out.1);
        ticks = 1;
      }) in
      (s'.table, s'.summary, rw (run_once, claimed', commits 0, done))
