-- ===== src/Outbox/Runner/Accounting.antt =====
-- The counters of `run_once`, and where it stops when a publisher raises.
use pactix.Prelude.{
  ℕ, ◌+◌, ◌≡◌, refl, sym, ap, ◌∙◌, String, List, [], ◌∷◌, ◌++◌, Result, Result-cases, inl, inr, ok,
  err, Error, foreign_error, ◌⊎◌, arith, length,
}
use pactix.Dialect.{DateTime, Executor, committed, rolled_back, answer_lost, Ending-cases}
use pactix.Config.{Float, PactixConfig}
use pactix.Retry.{handle_retryable_failure}
use pactix.Queue.{Planner}
use pactix.Outbox.Model.{OutboxMessageRecord}
use pactix.Outbox.Table.{OutboxRow, OutboxTable}
use pactix.Outbox.Store.{claim_ready, reclaim_expired}
use pactix.Outbox.Publisher.{
  Kind, published, retryable, terminal, PublishOutcome, message_or_empty, PublisherRegistry,
  publish,
}
use pactix.Outbox.Runner.{
  RunSummary, RunState, record_outcome, process_rows, with_summary, run_once, start_summary,
}

-- The rows whose outcome was counted.
abbrev pub settled : RunSummary → ℕ
settled s = s.published + s.retry_scheduled + s.failed

module _ {F : Type 0} (float : Float F) (config : PactixConfig F) (executor : Executor)
    (clock : ℕ → DateTime) where
  abbrev pub step : OutboxMessageRecord → Kind → String → RunState → RunState
  step = record_outcome float config executor clock

  -- One outcome counts once, and leaves the two counters of the claim.
  record_outcome-counts :
      (row : OutboxMessageRecord) (kind : Kind) (message : String) (s : RunState)
      → (settled (step row kind message s).summary ≡ settled s.summary + 1)
        × ((step row kind message s).summary.claimed ≡ s.summary.claimed)
        × ((step row kind message s).summary.reclaimed ≡ s.summary.reclaimed)
  unfolding record_outcome handle_retryable_failure
  record_outcome-counts row published message s = ground arith
  record_outcome-counts row retryable message s = ground arith
  record_outcome-counts row terminal message s = ground arith

  module _ (registry : PublisherRegistry) where
    abbrev pub loop : List OutboxMessageRecord → RunState → RunState × Result (Unit {0})
    loop = process_rows float config executor clock registry

    pub process_rows-cons_ok :
        (row : OutboxMessageRecord) (rows : List OutboxMessageRecord) (s : RunState)
        (outcome : PublishOutcome)
        → publish registry row ≡ ok outcome
        → executor.ending s.ticks ≡ committed
        → loop (row ∷ rows) s
          ≡ loop rows (step row outcome.kind (message_or_empty outcome.message) s)
    unfolding process_rows
    process_rows-cons_ok row rows s outcome h c = rw (process_rows, h, c)

    pub process_rows-cons_err :
        (row : OutboxMessageRecord) (rows : List OutboxMessageRecord) (s : RunState) (error : Error)
        → publish registry row ≡ err error
        → loop (row ∷ rows) s ≡ (s, err error)
    unfolding process_rows
    process_rows-cons_err row rows s error h = rw (process_rows, h)

    -- A loop that goes past a row: the transaction of the row was committed.
    pub process_rows-cons :
        (row : OutboxMessageRecord) (rows : List OutboxMessageRecord) (s s' : RunState)
        → loop (row ∷ rows) s ≡ (s', ok tt)
        → (outcome : PublishOutcome) × (publish registry row ≡ ok outcome)
          × (executor.ending s.ticks ≡ committed)
          × (loop rows (step row outcome.kind (message_or_empty outcome.message) s) ≡ (s', ok tt))
    unfolding process_rows
    process_rows-cons row rows s s' h = elim (Result-cases (publish registry row)) [
      | inr (error, e) ↦ cc (process_rows-cons_err row rows s error e)
      | inl (outcome, e) ↦ elim (Ending-cases (executor.ending s.ticks)) [
        | inl c ↦ (outcome, e, c, sym (process_rows-cons_ok row rows s outcome e c) ∙ h)
        | inr (inl (text, c)) ↦ cc (rw (e, c) at h)
        | inr (inr (text, c)) ↦ cc (rw (e, c) at h)
      ]
    ]

    pub process_rows-nil : (s : RunState) → loop [] s ≡ (s, ok tt)
    unfolding process_rows
    process_rows-nil s = refl

    -- Every row of a loop that ends without an exception is counted once.
    process_rows-counts :
        (rows : List OutboxMessageRecord) (s s' : RunState)
        → loop rows s ≡ (s', ok tt)
        → (settled s'.summary ≡ settled s.summary + length rows)
          × (s'.summary.claimed ≡ s.summary.claimed)
          × (s'.summary.reclaimed ≡ s.summary.reclaimed)
    process_rows-counts [] s s' h =
        let e : s' ≡ s = cc (process_rows-nil s) in rw e (omega arith, refl, refl)
    process_rows-counts (row ∷ rows) s s' h =
        let (outcome, _, _, rest) = process_rows-cons row rows s s' h in
        let message = message_or_empty outcome.message in
        omega (
          arith,
          record_outcome-counts row outcome.kind message s,
          process_rows-counts rows (step row outcome.kind message s) s' rest,
        )

    -- Why the loop stops at a row in the state `m`, and the state that it leaves.
    pub data Stops (row : OutboxMessageRecord) (m s' : RunState) (error : Error) : Type 0 where
      -- The publisher, or the routing, raises: nothing of the row is recorded.
      unpublished : publish registry row ≡ err error → s' ≡ m → Stops row m s' error
      -- The database rolls the transaction of the row back.
      unrecorded :
          (outcome : PublishOutcome) (text : String)
          → publish registry row ≡ ok outcome
          → executor.ending m.ticks ≡ rolled_back text
          → error ≡ foreign_error text
          → s' ≡ m
          → Stops row m s' error
      -- The transaction is committed, but its answer is lost: the table has it, the counters do not.
      uncounted :
          (outcome : PublishOutcome) (text : String)
          → publish registry row ≡ ok outcome
          → executor.ending m.ticks ≡ answer_lost text
          → error ≡ foreign_error text
          → s'.table ≡ (step row outcome.kind (message_or_empty outcome.message) m).table
          → s'.summary ≡ m.summary
          → Stops row m s' error

    stops :
        (row : OutboxMessageRecord) (rows : List OutboxMessageRecord) (m s' : RunState)
        (error : Error) (outcome : PublishOutcome)
        → publish registry row ≡ ok outcome
        → loop (row ∷ rows) m ≡ (s', err error)
        → (executor.ending m.ticks ≡ committed) ⊎ Stops row m s' error
    unfolding process_rows
    stops row rows m s' error outcome e h = elim (Ending-cases (executor.ending m.ticks)) [
      | inl c ↦ inl c
      | inr (inl (text, c)) ↦
          let stopped = rw (e, c) at h in
          inr (Stops.unrecorded outcome text e c (cc (stopped)) (cc (stopped)))
      | inr (inr (text, c)) ↦
          let stopped = rw (e, c) at h in
          inr (Stops.uncounted outcome text e c (cc (stopped)) (cc (stopped)) (cc (stopped)))
    ]

    -- A loop that ends with an exception ended at one row: the rows before it were recorded, and
    -- nothing was recorded for the rows after it. At that row its publisher or its routing raised the
    -- exception, and nothing was recorded for it; or its publisher answered, and the database raised
    -- in the transaction that records the answer: it was rolled back, or was committed and the
    -- counters do not say so.
    pub process_rows_raises :
        (rows : List OutboxMessageRecord) (s s' : RunState) (error : Error)
        → loop rows s ≡ (s', err error)
        → (before : List OutboxMessageRecord) × (row : OutboxMessageRecord) × (after : List
            OutboxMessageRecord)
          × (m : RunState) × (rows ≡ before ++ row ∷ after)
          × (loop before s ≡ (m, ok tt))
          × Stops row m s' error
    process_rows_raises [] s s' error h = cc (process_rows-nil s)
    process_rows_raises (row ∷ rows) s s' error h = elim (Result-cases (publish registry row)) [
      | inr (error', e) ↦
          let here : Stops row s s' error =
            Stops.unpublished (cc (process_rows-cons_err row rows s error' e))
              (cc (process_rows-cons_err row rows s error' e)) in
          ([], row, rows, s, refl, process_rows-nil s, here)
      | inl (outcome, e) ↦ elim (stops row rows s s' error outcome e h) [
        | inr here ↦ ([], row, rows, s, refl, process_rows-nil s, here)
        | inl c ↦
            let next = step row outcome.kind (message_or_empty outcome.message) s in
            let (before, row', after, m, split, done, there) =
              process_rows_raises rows next s' error
                (sym (process_rows-cons_ok row rows s outcome e c) ∙ h) in
            (
              row ∷ before,
              row',
              after,
              m,
              ap (λ l. row ∷ l) split,
              process_rows-cons_ok row before s outcome e c ∙ done,
              there,
            )
      ]
    ]

    with_summary-ok :
        (end : RunState × Result (Unit {0})) (table' : OutboxTable) (summary : RunSummary)
        → with_summary end ≡ (table', ok summary)
        → (final : RunState) × (end ≡ (final, ok tt))
          × (final.table ≡ table')
          × (final.summary ≡ summary)
    with_summary-ok (final, ok _) table' summary h = (final, refl, cc, cc)
    with_summary-ok (final, err error) table' summary h = cc

    -- What a pass returned: the claim succeeded, and the loop ran to its end.
    pub run_once-ok :
        (planner : Planner OutboxRow) (table table' : OutboxTable) (summary : RunSummary)
        → run_once float config executor clock planner registry table ≡ (table', ok summary)
        → let start = reclaim_expired executor (clock 0) table in
          (out : OutboxTable × List OutboxMessageRecord) × (final : RunState) × (claim_ready config
              executor planner
              (clock 0)
              start.0
            ≡ ok out)
          × (loop out.1 (record {
            table = out.0;
            summary = start_summary start.1 (length out.1);
            ticks = 1;
          })
              ≡ (final, ok tt))
          × (final.table ≡ table')
          × (final.summary ≡ summary)
    unfolding run_once
    run_once-ok planner table table' summary h =
        let start = reclaim_expired executor (clock 0) table in
        elim (Result-cases (claim_ready config executor planner (clock 0) start.0)) [
          | inl (out, e) ↦ elim (Ending-cases (executor.ending 0)) [
            | inl c ↦
                let (final, ended, same, total) =
                  with_summary-ok _ table' summary (rw (e, c) at h) in
                (out, final, e, ended, same, total)
            | inr (inl (text, c)) ↦ cc (rw (e, c) at h)
            | inr (inr (text, c)) ↦ cc (rw (e, c) at h)
          ]
          | inr (error, e) ↦ cc (rw e at h)
        ]

    -- A pass that returns has counted every claimed row once: as published, as scheduled for a
    -- retry, or as failed.
    pub run_once_accounts :
        (planner : Planner OutboxRow) (table table' : OutboxTable) (summary : RunSummary)
        → run_once float config executor clock planner registry table ≡ (table', ok summary)
        → summary.claimed ≡ summary.published + summary.retry_scheduled + summary.failed
    run_once_accounts planner table table' summary h =
        let (out, final, _, ended, _, total) = run_once-ok planner table table' summary h in
        rw (← total) (omega (arith, process_rows-counts out.1 _ final ended))
