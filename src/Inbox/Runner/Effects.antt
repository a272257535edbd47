-- ===== src/Inbox/Runner/Effects.antt =====
-- What a pass leaves in the table.
use mathlib.Core.Option
use mathlib.Core.List.Memᴰ
use pactix.Prelude.{
  ℕ, ◌+◌, ◌≡◌, ◌≢◌, refl, sym, subst, ap, ◌∙◌, inl, inr, Option, none, some, List, [], ◌∷◌, Memᴰ,
  Result, ok, arith, false, ◌==◌, ==_iff, if◌then◌else◌, leb, Bool-cases,
}
use pactix.Dialect.{DateTime, Executor}
use pactix.Config.{Float, PactixConfig}
use pactix.Retry.{handle_retryable_failure, next_retry_at}
use pactix.Queue.{Planner, find, is_processing}
use pactix.Inbox.Model.{InboxMessageRecord}
use pactix.Inbox.Table.{InboxRow, InboxTable, inbox_columns}
use pactix.Inbox.Store.{reclaim_expired, set_processed, set_retry, set_failed}
use pactix.Inbox.Store.Updates.{find-mark_processed, find-mark_retry, find-mark_failed}
use pactix.Inbox.Hooks.{processed, retryable, terminal}
use pactix.Inbox.Runner.{
  InboxRunner, Verdict, stale_event, not_needed, handled, claim_in, RunSummary, RunState,
  record_verdict, run_once,
}
use pactix.Inbox.Runner.Accounting.{loop, step, process_rows-cons, process_rows-nil, run_once-ok}

-- The row of an id is not leased: it is gone, or it is not processing.
abbrev pub NotProcessing : Option InboxRow → Type 0
NotProcessing none = Unit
NotProcessing (some r) = is_processing inbox_columns r ≡ false

module _ {F : Type 0} (float : Float F) (config : PactixConfig F) (executor : Executor)
    (clock : ℕ → DateTime) where
  -- What a verdict makes of the row of the record: processed; pending again, or failed at the attempt
  -- ceiling; or failed.
  abbrev pub verdict_row : InboxMessageRecord → Verdict → ℕ → InboxRow → InboxRow
  verdict_row row stale_event t = set_processed executor (clock t)
  verdict_row row not_needed t = set_processed executor (clock t)
  verdict_row row (handled processed message) t = set_processed executor (clock t)
  verdict_row row (handled retryable message) t =
      if leb row.max_attempts (row.attempts + 1)
      then set_failed executor (clock (t + 1)) message
      else set_retry executor (clock (t + 1)) message
          (next_retry_at float config.retry_policy row.attempts (clock t))
  verdict_row row (handled terminal message) t = set_failed executor (clock t) message

  -- Recording an outcome changes the row of the record as its kind says, and no other row.
  pub find-record_verdict :
      (row : InboxMessageRecord) (verdict : Verdict) (s : RunState) (k : ℕ)
      → find inbox_columns k (step float config executor clock row verdict s).table ≡ (
          if k == row.id
          then Option.map (verdict_row row verdict s.ticks) (find inbox_columns k s.table)
          else find inbox_columns k s.table)
  unfolding record_verdict handle_retryable_failure
  find-record_verdict row stale_event s k =
      find-mark_processed executor row.id k s.table (clock s.ticks)
  find-record_verdict row not_needed s k =
      find-mark_processed executor row.id k s.table (clock s.ticks)
  find-record_verdict row (handled processed message) s k =
      find-mark_processed executor row.id k s.table (clock s.ticks)
  find-record_verdict row (handled retryable message) s k =
      elim (Bool-cases (leb row.max_attempts (row.attempts + 1))) [
        | inl t ↦
            rw (handle_retryable_failure, t)
              (find-mark_failed executor row.id k s.table (clock (s.ticks + 1)) message)
        | inr t ↦
            rw (handle_retryable_failure, t)
              (find-mark_retry executor row.id k s.table (clock (s.ticks + 1)) message
                (next_retry_at float config.retry_policy row.attempts (clock s.ticks)))
      ]
  find-record_verdict row (handled terminal message) s k =
      find-mark_failed executor row.id k s.table (clock s.ticks) message

  verdict_row-settled :
      (row : InboxMessageRecord) (verdict : Verdict) (t : ℕ) (r : InboxRow)
      → is_processing inbox_columns (verdict_row row verdict t r) ≡ false
  unfolding is_processing
  verdict_row-settled row stale_event t r = refl
  verdict_row-settled row not_needed t r = refl
  verdict_row-settled row (handled processed message) t r = refl
  verdict_row-settled row (handled retryable message) t r =
      elim (Bool-cases (leb row.max_attempts (row.attempts + 1))) [
        | inl t' ↦ rw t'
        | inr t' ↦ rw t'
      ]
  verdict_row-settled row (handled terminal message) t r = refl

  verdict_row-NotProcessing :
      (row : InboxMessageRecord) (verdict : Verdict) (t : ℕ) (o : Option InboxRow)
      → NotProcessing (Option.map (verdict_row row verdict t) o)
  verdict_row-NotProcessing row verdict t none = tt
  verdict_row-NotProcessing row verdict t (some r) = verdict_row-settled row verdict t r

  module _ (row : InboxMessageRecord) (verdict : Verdict) (s : RunState) where
    abbrev next : InboxTable
    next = (step float config executor clock row verdict s).table

    -- The row of a recorded outcome is not processing afterwards.
    settles : NotProcessing (find inbox_columns row.id next)
    settles =
        subst NotProcessing (sym (find-record_verdict row verdict s row.id))
          (rw ((==_iff row.id row.id).1 refl) (verdict_row-NotProcessing row verdict s.ticks _))

    -- Nor does an outcome make another row processing.
    stays_settled :
        (k : ℕ)
        → NotProcessing (find inbox_columns k s.table)
        → NotProcessing (find inbox_columns k next)
    stays_settled k h =
        subst NotProcessing (sym (find-record_verdict row verdict s k))
          (elim (Bool-cases (k == row.id)) [
            | inl t ↦ rw t (verdict_row-NotProcessing row verdict s.ticks _)
            | inr t ↦ rw t h
          ])

  module _ (runner : InboxRunner) where
    abbrev run : List InboxMessageRecord → RunState → RunState × Result (Unit {0})
    run = loop float config executor clock runner

    loop_stays_settled :
        (rows : List InboxMessageRecord) (s s' : RunState) (k : ℕ)
        → run rows s ≡ (s', ok tt)
        → NotProcessing (find inbox_columns k s.table)
        → NotProcessing (find inbox_columns k s'.table)
    loop_stays_settled [] s s' k h n =
        let e : s ≡ s' = cc (process_rows-nil float config executor clock runner s) in rw (← e) n
    loop_stays_settled (row ∷ rows) s s' k h n =
        let (verdict, _, _, rest) =
          process_rows-cons float config executor clock runner row rows s s' h in
        loop_stays_settled rows _ s' k rest (stays_settled row verdict s k n)

    loop_settles :
        (rows : List InboxMessageRecord) (s s' : RunState) {r : InboxMessageRecord}
        → run rows s ≡ (s', ok tt)
        → Memᴰ r rows
        → NotProcessing (find inbox_columns r.id s'.table)
    loop_settles [] s s' h m = elim m [ ]
    loop_settles (row ∷ rows) s s' {r} h m =
        let (verdict, _, _, rest) =
          process_rows-cons float config executor clock runner row rows s s' h in
        elim (Memᴰ.cases_cons m) [
          | inl same ↦ loop_stays_settled rows _ s' r.id rest (rw same (settles row verdict s))
          | inr later ↦ loop_settles rows _ s' rest later
        ]

    loop_frame :
        (rows : List InboxMessageRecord) (s s' : RunState) (k : ℕ)
        → run rows s ≡ (s', ok tt)
        → ((r : InboxMessageRecord) → Memᴰ r rows → k ≢ r.id)
        → find inbox_columns k s'.table ≡ find inbox_columns k s.table
    loop_frame [] s s' k h apart =
        let e : s ≡ s' = cc (process_rows-nil float config executor clock runner s) in rw e
    loop_frame (row ∷ rows) s s' k h apart =
        let (verdict, _, _, rest) =
          process_rows-cons float config executor clock runner row rows s s' h in
        let other = apart row (Memᴰ.head refl) in
        loop_frame rows _ s' k rest (λ r m. apart r (Memᴰ.tail m))
        ∙ find-record_verdict row verdict s k
        ∙ ground (arith, other)

    -- After a pass that returns, in either mode, no row that it claimed is still processing; and a
    -- row that it did not claim is as the claim left it.
    pub run_once_closes :
        (planner : Planner InboxRow) (table table' : InboxTable) (summary : RunSummary)
        → run_once float config executor clock planner runner table ≡ (table', ok summary)
        → (out : InboxTable × List InboxMessageRecord) × (claim_in float config executor clock
              runner.mode planner
              (clock 0)
              (reclaim_expired executor (clock 0) table).0
            ≡ ok out)
          × ((r : InboxMessageRecord)
              → Memᴰ r out.1
              → NotProcessing (find inbox_columns r.id table'))
          × ((k : ℕ)
              → ((r : InboxMessageRecord) → Memᴰ r out.1 → k ≢ r.id)
              → find inbox_columns k table' ≡ find inbox_columns k out.0)
    run_once_closes planner table table' summary h =
        let (out, final, claimed, ended, same, _) =
          run_once-ok float config executor clock runner planner table table' summary h in
        (
          out,
          claimed,
          λ r m.
              subst (λ t. NotProcessing (find inbox_columns r.id t)) same
                (loop_settles out.1 _ final ended m),
          λ k apart. ap (find inbox_columns k) (sym same) ∙ loop_frame out.1 _ final k ended apart,
        )
