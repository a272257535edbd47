-- ===== src/Inbox/Runner.antt =====
-- src/pactix/inbox/runner.py: `InboxRunner.run_once`, one pass of the worker.
-- The hooks do not touch the database, so the body of the loop is what they decide about a row
-- (`decide`), then one transaction that records it (`record_verdict`). The readings of the clock come
-- from a stream. What was written before an exception stays written; only the claim is rolled back as
-- a whole.
pub mod Accounting
pub mod Effects
pub mod Processed
pub mod Returns
use mathlib.Core.Option
use pactix.Prelude.{
  ℕ, ◌+◌, Option, none, some, String, List, [], ◌∷◌, Result, ok, err, foreign_error, ◌>>=◌, length,
}
use pactix.Dialect.{DateTime, Executor, Ending, committed, rolled_back, answer_lost}
use pactix.Config.{Float, PactixConfig}
use pactix.Retry.{RetryAction, retry_scheduled, failed, handle_retryable_failure}
use pactix.Queue.{Planner}
use pactix.Inbox.Model.{InboxMessageRecord}
use pactix.Inbox.Table.{InboxRow, InboxTable}
use pactix.Inbox.Store.{
  claim_ready, claim_ready_unordered, reclaim_expired, mark_processed, mark_failed,
  inbox_retry_store,
}
use pactix.Inbox.Hooks.{
  Kind, HandleOutcome, InboxHandler, IdempotencyDecision, process, skip, already_applied,
  IdempotencyHook, StaleEventDecision, fresh, stale, StaleEventFilter, accept_all_events,
}

pub data Mode : Type 0 where
  fifo_per_ordering_key unordered : Mode

pub record RunSummary : Type 0 where
  pub reclaimed : ℕ
  pub claimed : ℕ
  pub processed : ℕ
  pub stale_skipped : ℕ
  pub retry_scheduled : ℕ
  pub failed : ℕ

pub record InboxRunner : Type 0 where
  pub handler : InboxHandler
  pub idempotency_hook : IdempotencyHook
  pub mode : Mode
  pub stale_event_filter : StaleEventFilter

-- The constructor: `stale_event_filter or AcceptAllEvents()`.
abbrev pub new_runner :
    InboxHandler → IdempotencyHook → Mode → Option StaleEventFilter → InboxRunner
new_runner handler hook mode filter = record {
  handler = handler;
  idempotency_hook = hook;
  mode = mode;
  stale_event_filter = Option.get_or filter accept_all_events;
}

abbrev pub new_unordered : InboxHandler → IdempotencyHook → StaleEventFilter → InboxRunner
new_unordered handler hook filter = new_runner handler hook unordered (some filter)

-- What the hooks decide about a row: a stale event, a row that needs no processing, or the outcome of
-- the handler with its message.
pub data Verdict : Type 0 where
  stale_event not_needed : Verdict
  handled : Kind → String → Verdict

-- `outcome.message or ''`
abbrev pub message_or_empty : Option String → String
message_or_empty none = ""
message_or_empty (some message) = message

abbrev pub after_hook : InboxHandler → InboxMessageRecord → IdempotencyDecision → Result Verdict
after_hook handler row process =
    handler row >>= λ outcome. ok (handled outcome.kind (message_or_empty outcome.message))
after_hook handler row skip = ok not_needed
after_hook handler row already_applied = ok not_needed

unfoldable pub consult : InboxRunner → InboxMessageRecord → Result Verdict
consult runner row = runner.idempotency_hook row >>= λ idem. after_hook runner.handler row idem

abbrev pub after_filter : InboxRunner → InboxMessageRecord → StaleEventDecision → Result Verdict
after_filter runner row stale = ok stale_event
after_filter runner row fresh = consult runner row

abbrev pub decide_in : Mode → InboxRunner → InboxMessageRecord → Result Verdict
decide_in unordered runner row =
    runner.stale_event_filter row >>= λ decision. after_filter runner row decision
decide_in fifo_per_ordering_key runner row = consult runner row

unfoldable pub decide : InboxRunner → InboxMessageRecord → Result Verdict
unfolding consult
decide runner row = decide_in runner.mode runner row

-- The table, the counters, and how often the clock was read.
pub record RunState : Type 0 where
  pub table : InboxTable
  pub summary : RunSummary
  pub ticks : ℕ

abbrev pub count_action : RetryAction → RunSummary → RunSummary
count_action retry_scheduled s = record s { retry_scheduled = s.retry_scheduled + 1 }
count_action failed s = record s { failed = s.failed + 1 }

-- An exception ends the loop.
abbrev pub and_then :
    RunState × Result (Unit {0})
    → (RunState → RunState × Result (Unit {0}))
    → RunState × Result (Unit {0})
and_then (s, ok _) rest = rest s
and_then (s, err error) rest = (s, err error)

-- The transaction that records an outcome, from the state before it and the one that it makes: an exception
-- of the database is raised before the counters change.
abbrev pub ended : Ending → RunState → RunState → RunState × Result (Unit {0})
ended committed before after = (after, ok tt)
ended (rolled_back text) before after = (before, err (foreign_error text))
ended (answer_lost text) before after =
    (record before { table = after.table }, err (foreign_error text))

abbrev pub ended_claim :
    Ending
    → InboxTable
    → InboxTable
    → InboxTable × Result RunSummary
    → InboxTable × Result RunSummary
ended_claim committed before claimed rest = rest
ended_claim (rolled_back text) before claimed rest = (before, err (foreign_error text))
ended_claim (answer_lost text) before claimed rest = (claimed, err (foreign_error text))

abbrev pub start_summary : ℕ → ℕ → RunSummary
start_summary reclaimed claimed = record {
  reclaimed = reclaimed;
  claimed = claimed;
  processed = 0;
  stale_skipped = 0;
  retry_scheduled = 0;
  failed = 0;
}

abbrev pub with_summary : RunState × Result (Unit {0}) → InboxTable × Result RunSummary
with_summary (s, ok _) = (s.table, ok s.summary)
with_summary (s, err error) = (s.table, err error)

module _ {F : Type 0} (float : Float F) (config : PactixConfig F) (executor : Executor)
    (clock : ℕ → DateTime) where
  -- `mark_processed` and its counter.
  abbrev pub record_processed : InboxMessageRecord → RunState → RunState
  record_processed row s = record s {
    table = mark_processed executor row.id (clock s.ticks) s.table;
    summary = record s.summary { processed = s.summary.processed + 1 };
    ticks = s.ticks + 1;
  }

  -- The transaction and the counters of each branch.
  unfoldable pub record_verdict : InboxMessageRecord → Verdict → RunState → RunState
  record_verdict row stale_event s =
      let s' = record_processed row s in
      record s' { summary = record s'.summary { stale_skipped = s'.summary.stale_skipped + 1 } }
  record_verdict row not_needed s = record_processed row s
  record_verdict row (handled Kind.processed message) s = record_processed row s
  record_verdict row (handled Kind.retryable message) s =
      let (table', action) =
        handle_retryable_failure float (inbox_retry_store config executor (clock (s.ticks + 1)))
          row.id row.attempts row.max_attempts message (clock s.ticks) s.table in
      record s { table = table'; summary = count_action action s.summary; ticks = s.ticks + 2 }
  record_verdict row (handled Kind.terminal message) s = record s {
    table = mark_failed executor (clock s.ticks) row.id message s.table;
    summary = record s.summary { failed = s.summary.failed + 1 };
    ticks = s.ticks + 1;
  }

  -- The body of the loop, after the hooks have answered or raised.
  abbrev pub after_decide :
      InboxMessageRecord → Result Verdict → RunState → RunState × Result (Unit {0})
  after_decide row (err error) s = (s, err error)
  after_decide row (ok verdict) s = ended (executor.ending s.ticks) s (record_verdict row verdict s)

  unfoldable pub process_rows :
      InboxRunner → List InboxMessageRecord → RunState → RunState × Result (Unit {0})
  process_rows runner [] s = (s, ok tt)
  process_rows runner (row ∷ rows) s =
      and_then (after_decide row (decide runner row) s) (process_rows runner rows)

  -- The claim of the mode.
  abbrev pub claim_in :
      Mode
      → Planner InboxRow
      → DateTime
      → InboxTable
      → Result (InboxTable × List InboxMessageRecord)
  claim_in unordered planner now table = claim_ready_unordered config executor planner now table
  claim_in fifo_per_ordering_key planner now table = claim_ready config executor planner now table

  -- After the first transaction: an error in it rolls the reclaim back too.
  abbrev pub after_claim :
      InboxRunner
      → InboxTable
      → ℕ
      → Result (InboxTable × List InboxMessageRecord)
      → InboxTable × Result RunSummary
  after_claim runner before reclaimed (err error) = (before, err error)
  after_claim runner before reclaimed (ok (table', rows)) =
      ended_claim (executor.ending 0) before table' (
        with_summary (
          process_rows runner rows (record {
            table = table';
            summary = start_summary reclaimed (length rows);
            ticks = 1;
          })))

  unfoldable pub run_once :
      Planner InboxRow → InboxRunner → InboxTable → InboxTable × Result RunSummary
  run_once planner runner table =
      let (table', reclaimed) = reclaim_expired executor (clock 0) table in
      after_claim runner table reclaimed (claim_in runner.mode planner (clock 0) table')
