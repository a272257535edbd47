-- ===== src/Inbox/Runner/Accounting.antt =====
-- The counters of `run_once`, and where it stops when a hook raises.
use pactix.Prelude.{
  ◌≤◌, ℕ, ◌+◌, ◌≡◌, refl, sym, ◌∙◌, List, [], ◌∷◌, Result, Result-cases, inl, inr, ok, err, Error,
  arith, length,
}
use pactix.Dialect.{DateTime, Executor, committed, Ending-cases}
use pactix.Config.{Float, PactixConfig}
use pactix.Retry.{handle_retryable_failure}
use pactix.Queue.{Planner}
use pactix.Inbox.Model.{InboxMessageRecord}
use pactix.Inbox.Table.{InboxRow, InboxTable}
use pactix.Inbox.Store.{reclaim_expired}
use pactix.Inbox.Hooks.{processed, retryable, terminal}
use pactix.Inbox.Runner.{
  InboxRunner, decide, Verdict, stale_event, not_needed, handled, claim_in, RunSummary, RunState,
  record_verdict, process_rows, with_summary, run_once, start_summary,
}

-- The rows whose outcome was counted.
abbrev pub settled : RunSummary → ℕ
settled s = s.processed + s.retry_scheduled + s.failed

module _ {F : Type 0} (float : Float F) (config : PactixConfig F) (executor : Executor)
    (clock : ℕ → DateTime) where
  abbrev pub step : InboxMessageRecord → Verdict → RunState → RunState
  step = record_verdict float config executor clock

  -- One outcome counts once, and leaves the two counters of the claim.
  record_verdict-counts :
      (row : InboxMessageRecord) (verdict : Verdict) (s : RunState)
      → (settled (step row verdict s).summary ≡ settled s.summary + 1)
        × ((step row verdict s).summary.claimed ≡ s.summary.claimed)
        × ((step row verdict s).summary.stale_skipped + s.summary.processed
            ≤ (step row verdict s).summary.processed + s.summary.stale_skipped)
  unfolding record_verdict handle_retryable_failure
  record_verdict-counts row stale_event s = ground arith
  record_verdict-counts row not_needed s = ground arith
  record_verdict-counts row (handled processed message) s = ground arith
  record_verdict-counts row (handled retryable message) s = ground arith
  record_verdict-counts row (handled terminal message) s = ground arith

  module _ (runner : InboxRunner) where
    abbrev pub loop : List InboxMessageRecord → RunState → RunState × Result (Unit {0})
    loop = process_rows float config executor clock runner

    pub process_rows-cons_ok :
        (row : InboxMessageRecord) (rows : List InboxMessageRecord) (s : RunState)
        (verdict : Verdict)
        → decide runner row ≡ ok verdict
        → executor.ending s.ticks ≡ committed
        → loop (row ∷ rows) s ≡ loop rows (step row verdict s)
    unfolding process_rows
    process_rows-cons_ok row rows s verdict h c = rw (process_rows, h, c)

    pub process_rows-cons_err :
        (row : InboxMessageRecord) (rows : List InboxMessageRecord) (s : RunState) (error : Error)
        → decide runner row ≡ err error
        → loop (row ∷ rows) s ≡ (s, err error)
    unfolding process_rows
    process_rows-cons_err row rows s error h = rw (process_rows, h)

    -- A loop that goes past a row: the transaction of the row was committed.
    pub process_rows-cons :
        (row : InboxMessageRecord) (rows : List InboxMessageRecord) (s s' : RunState)
        → loop (row ∷ rows) s ≡ (s', ok tt)
        → (verdict : Verdict) × (decide runner row ≡ ok verdict)
          × (executor.ending s.ticks ≡ committed)
          × (loop rows (step row verdict s) ≡ (s', ok tt))
    unfolding process_rows
    process_rows-cons row rows s s' h = elim (Result-cases (decide runner row)) [
      | inr (error, e) ↦ cc (process_rows-cons_err row rows s error e)
      | inl (verdict, e) ↦ elim (Ending-cases (executor.ending s.ticks)) [
        | inl c ↦ (verdict, e, c, sym (process_rows-cons_ok row rows s verdict e c) ∙ h)
        | inr (inl (text, c)) ↦ cc (rw (e, c) at h)
        | inr (inr (text, c)) ↦ cc (rw (e, c) at h)
      ]
    ]

    pub process_rows-nil : (s : RunState) → loop [] s ≡ (s, ok tt)
    unfolding process_rows
    process_rows-nil s = refl

    -- Every row of a loop that ends without an exception is counted once.
    process_rows-counts :
        (rows : List InboxMessageRecord) (s s' : RunState)
        → loop rows s ≡ (s', ok tt)
        → (settled s'.summary ≡ settled s.summary + length rows)
          × (s'.summary.claimed ≡ s.summary.claimed)
          × (s'.summary.stale_skipped + s.summary.processed
              ≤ s'.summary.processed + s.summary.stale_skipped)
    process_rows-counts [] s s' h =
        let e : s' ≡ s = cc (process_rows-nil s) in rw e (omega arith, refl, omega arith)
    process_rows-counts (row ∷ rows) s s' h =
        let (verdict, _, _, rest) = process_rows-cons row rows s s' h in
        omega (
          arith,
          record_verdict-counts row verdict s,
          process_rows-counts rows (step row verdict s) s' rest,
        )

    with_summary-ok :
        (end : RunState × Result (Unit {0})) (table' : InboxTable) (summary : RunSummary)
        → with_summary end ≡ (table', ok summary)
        → (final : RunState) × (end ≡ (final, ok tt))
          × (final.table ≡ table')
          × (final.summary ≡ summary)
    with_summary-ok (final, ok _) table' summary h = (final, refl, cc, cc)
    with_summary-ok (final, err error) table' summary h = cc

    -- What a pass returned: the claim succeeded, and the loop ran to its end.
    pub run_once-ok :
        (planner : Planner InboxRow) (table table' : InboxTable) (summary : RunSummary)
        → run_once float config executor clock planner runner table ≡ (table', ok summary)
        → let start = reclaim_expired executor (clock 0) table in
          (out : InboxTable × List InboxMessageRecord) × (final : RunState) × (claim_in float config
              executor clock runner.mode planner
              (clock 0)
              start.0
            ≡ ok out)
          × (loop out.1 (record {
            table = out.0;
            summary = start_summary start.1 (length out.1);
            ticks = 1;
          })
              ≡ (final, ok tt))
          × (final.table ≡ table')
          × (final.summary ≡ summary)
    unfolding run_once
    run_once-ok planner table table' summary h =
        let start = reclaim_expired executor (clock 0) table in
        elim (Result-cases
          (claim_in float config executor clock runner.mode planner (clock 0) start.0)) [
            | inl (out, e) ↦ elim (Ending-cases (executor.ending 0)) [
              | inl c ↦
                  let (final, ended, same, total) =
                    with_summary-ok _ table' summary (rw (e, c) at h) in
                  (out, final, e, ended, same, total)
              | inr (inl (text, c)) ↦ cc (rw (e, c) at h)
              | inr (inr (text, c)) ↦ cc (rw (e, c) at h)
            ]
            | inr (error, e) ↦ cc (rw e at h)
          ]

    -- A pass that returns has counted every claimed row once: as processed, as scheduled for a
    -- retry, or as failed; and the stale events that it skipped are among the processed ones.
    pub run_once_counts :
        (planner : Planner InboxRow) (table table' : InboxTable) (summary : RunSummary)
        → run_once float config executor clock planner runner table ≡ (table', ok summary)
        → (summary.claimed ≡ summary.processed + summary.retry_scheduled + summary.failed)
          × (summary.stale_skipped ≤ summary.processed)
    run_once_counts planner table table' summary h =
        let (out, final, _, ended, _, total) = run_once-ok planner table table' summary h in
        rw (← total) (
          omega (arith, process_rows-counts out.1 _ final ended),
          omega (arith, process_rows-counts out.1 _ final ended),
        )
