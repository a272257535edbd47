-- ===== src/Outbox/Runner.antt =====
-- src/pactix/outbox/runner.py: `OutboxRunner.run_once`, one pass of the worker.
-- The readings of the clock come from a stream, in the order in which the code takes them. Each update
-- runs in a transaction of its own, so what was written before an exception stays written; only the
-- claim is rolled back as a whole.
pub mod Accounting
pub mod Effects
pub mod Published
pub mod Returns
use pactix.Prelude.{
  ℕ, ◌+◌, suc, Option, none, some, String, List, [], ◌∷◌, Result, ok, err, foreign_error, Error,
  length, map,
}
use pactix.Dialect.{DateTime, Executor, Ending, committed, rolled_back, answer_lost}
use pactix.Config.{Float, PactixConfig}
use pactix.Retry.{RetryAction, retry_scheduled, failed, handle_retryable_failure}
use pactix.Queue.{Planner}
use pactix.Outbox.Model.{OutboxMessageRecord}
use pactix.Outbox.Table.{OutboxRow, OutboxTable}
use pactix.Outbox.Store.{
  claim_ready, reclaim_expired, mark_published, mark_failed, outbox_retry_store,
}
use pactix.Outbox.Publisher.{
  Kind, published, retryable, terminal, PublishOutcome, message_or_empty, PublisherRegistry,
  publish,
}

pub record RunSummary : Type 0 where
  pub reclaimed : ℕ
  pub claimed : ℕ
  pub published : ℕ
  pub retry_scheduled : ℕ
  pub failed : ℕ

-- The table, the counters, and how often the clock was read.
pub record RunState : Type 0 where
  pub table : OutboxTable
  pub summary : RunSummary
  pub ticks : ℕ

abbrev pub count_action : RetryAction → RunSummary → RunSummary
count_action retry_scheduled s = record s { retry_scheduled = s.retry_scheduled + 1 }
count_action failed s = record s { failed = s.failed + 1 }

-- An exception ends the loop.
abbrev pub and_then :
    RunState × Result (Unit {0})
    → (RunState → RunState × Result (Unit {0}))
    → RunState × Result (Unit {0})
and_then (s, ok _) rest = rest s
and_then (s, err error) rest = (s, err error)

-- The transaction that records an outcome, from the state before it and the one that it makes: an exception
-- of the database is raised before the counters change.
abbrev pub ended : Ending → RunState → RunState → RunState × Result (Unit {0})
ended committed before after = (after, ok tt)
ended (rolled_back text) before after = (before, err (foreign_error text))
ended (answer_lost text) before after =
    (record before { table = after.table }, err (foreign_error text))

abbrev pub ended_claim :
    Ending
    → OutboxTable
    → OutboxTable
    → OutboxTable × Result RunSummary
    → OutboxTable × Result RunSummary
ended_claim committed before claimed rest = rest
ended_claim (rolled_back text) before claimed rest = (before, err (foreign_error text))
ended_claim (answer_lost text) before claimed rest = (claimed, err (foreign_error text))

abbrev pub start_summary : ℕ → ℕ → RunSummary
start_summary reclaimed claimed = record {
  reclaimed = reclaimed;
  claimed = claimed;
  published = 0;
  retry_scheduled = 0;
  failed = 0;
}

abbrev pub with_summary : RunState × Result (Unit {0}) → OutboxTable × Result RunSummary
with_summary (s, ok _) = (s.table, ok s.summary)
with_summary (s, err error) = (s.table, err error)

module _ {F : Type 0} (float : Float F) (config : PactixConfig F) (executor : Executor)
    (clock : ℕ → DateTime) where
  -- The three branches on the outcome of a publish.
  unfoldable pub record_outcome : OutboxMessageRecord → Kind → String → RunState → RunState
  record_outcome row Kind.published message s = record s {
    table = mark_published executor row.id (clock s.ticks) s.table;
    summary = record s.summary { published = s.summary.published + 1 };
    ticks = s.ticks + 1;
  }
  record_outcome row Kind.retryable message s =
      let (table', action) =
        handle_retryable_failure float (outbox_retry_store config executor (clock (s.ticks + 1)))
          row.id row.attempts row.max_attempts message (clock s.ticks) s.table in
      record s { table = table'; summary = count_action action s.summary; ticks = s.ticks + 2 }
  record_outcome row Kind.terminal message s = record s {
    table = mark_failed executor (clock s.ticks) row.id message s.table;
    summary = record s.summary { failed = s.summary.failed + 1 };
    ticks = s.ticks + 1;
  }

  -- The body of the loop, after the publisher has answered or raised.
  abbrev pub after_publish :
      OutboxMessageRecord → Result PublishOutcome → RunState → RunState × Result (Unit {0})
  after_publish row (err error) s = (s, err error)
  after_publish row (ok outcome) s =
      ended (executor.ending s.ticks) s
        (record_outcome row outcome.kind (message_or_empty outcome.message) s)

  unfoldable pub process_rows :
      PublisherRegistry → List OutboxMessageRecord → RunState → RunState × Result (Unit {0})
  process_rows registry [] s = (s, ok tt)
  process_rows registry (row ∷ rows) s =
      and_then (after_publish row (publish registry row) s) (process_rows registry rows)

  -- After the first transaction: an error in it rolls the reclaim back too.
  abbrev pub after_claim :
      PublisherRegistry
      → OutboxTable
      → ℕ
      → Result (OutboxTable × List OutboxMessageRecord)
      → OutboxTable × Result RunSummary
  after_claim registry before reclaimed (err error) = (before, err error)
  after_claim registry before reclaimed (ok (table', rows)) =
      ended_claim (executor.ending 0) before table' (
        with_summary (
          process_rows registry rows (record {
            table = table';
            summary = start_summary reclaimed (length rows);
            ticks = 1;
          })))

  unfoldable pub run_once :
      Planner OutboxRow → PublisherRegistry → OutboxTable → OutboxTable × Result RunSummary
  run_once planner registry table =
      let (table', reclaimed) = reclaim_expired executor (clock 0) table in
      after_claim registry table reclaimed (claim_ready config executor planner (clock 0) table')
