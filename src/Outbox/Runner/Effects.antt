-- ===== src/Outbox/Runner/Effects.antt =====
-- What a pass leaves in the table.
use mathlib.Core.Option
use mathlib.Core.List.Memᴰ
use pactix.Prelude.{
  ℕ, ◌+◌, ◌≡◌, ◌≢◌, refl, sym, subst, ap, ◌∙◌, inl, inr, String, Option, none, some, List, [], ◌∷◌,
  Memᴰ, Result, ok, arith, false, ◌==◌, ==_iff, if◌then◌else◌, leb, Bool-cases,
}
use pactix.Dialect.{DateTime, Executor}
use pactix.Config.{Float, PactixConfig}
use pactix.Retry.{handle_retryable_failure, next_retry_at}
use pactix.Queue.{Planner, find, is_processing}
use pactix.Outbox.Model.{OutboxMessageRecord}
use pactix.Outbox.Table.{OutboxRow, OutboxTable, outbox_columns}
use pactix.Outbox.Store.{claim_ready, reclaim_expired, set_published, set_retry, set_failed}
use pactix.Outbox.Store.Updates.{find-mark_published, find-mark_retry, find-mark_failed}
use pactix.Outbox.Publisher.{
  Kind, published, retryable, terminal, message_or_empty, PublisherRegistry,
}
use pactix.Outbox.Runner.{RunSummary, RunState, record_outcome, run_once}
use pactix.Outbox.Runner.Accounting.{loop, step, process_rows-cons, process_rows-nil, run_once-ok}

-- The row of an id is not leased: it is gone, or it is not processing.
abbrev pub NotProcessing : Option OutboxRow → Type 0
NotProcessing none = Unit
NotProcessing (some r) = is_processing outbox_columns r ≡ false

module _ {F : Type 0} (float : Float F) (config : PactixConfig F) (executor : Executor)
    (clock : ℕ → DateTime) where
  -- What an outcome makes of the row of the record: published; pending again, or failed at the attempt
  -- ceiling; or failed.
  abbrev pub outcome_row : OutboxMessageRecord → Kind → String → ℕ → OutboxRow → OutboxRow
  outcome_row row published message t = set_published executor (clock t)
  outcome_row row retryable message t =
      if leb row.max_attempts (row.attempts + 1)
      then set_failed executor (clock (t + 1)) message
      else set_retry executor (clock (t + 1)) message
          (next_retry_at float config.retry_policy row.attempts (clock t))
  outcome_row row terminal message t = set_failed executor (clock t) message

  -- Recording an outcome changes the row of the record as its kind says, and no other row.
  pub find-record_outcome :
      (row : OutboxMessageRecord) (kind : Kind) (message : String) (s : RunState) (k : ℕ)
      → find outbox_columns k (step float config executor clock row kind message s).table ≡ (
          if k == row.id
          then Option.map (outcome_row row kind message s.ticks) (find outbox_columns k s.table)
          else find outbox_columns k s.table)
  unfolding record_outcome handle_retryable_failure
  find-record_outcome row published message s k =
      find-mark_published executor row.id k s.table (clock s.ticks)
  find-record_outcome row retryable message s k =
      elim (Bool-cases (leb row.max_attempts (row.attempts + 1))) [
        | inl t ↦
            rw (handle_retryable_failure, t)
              (find-mark_failed executor row.id k s.table (clock (s.ticks + 1)) message)
        | inr t ↦
            rw (handle_retryable_failure, t)
              (find-mark_retry executor row.id k s.table (clock (s.ticks + 1)) message
                (next_retry_at float config.retry_policy row.attempts (clock s.ticks)))
      ]
  find-record_outcome row terminal message s k =
      find-mark_failed executor row.id k s.table (clock s.ticks) message

  outcome_row-settled :
      (row : OutboxMessageRecord) (kind : Kind) (message : String) (t : ℕ) (r : OutboxRow)
      → is_processing outbox_columns (outcome_row row kind message t r) ≡ false
  unfolding is_processing
  outcome_row-settled row published message t r = refl
  outcome_row-settled row retryable message t r =
      elim (Bool-cases (leb row.max_attempts (row.attempts + 1))) [
        | inl t' ↦ rw t'
        | inr t' ↦ rw t'
      ]
  outcome_row-settled row terminal message t r = refl

  outcome_row-NotProcessing :
      (row : OutboxMessageRecord) (kind : Kind) (message : String) (t : ℕ) (o : Option OutboxRow)
      → NotProcessing (Option.map (outcome_row row kind message t) o)
  outcome_row-NotProcessing row kind message t none = tt
  outcome_row-NotProcessing row kind message t (some r) = outcome_row-settled row kind message t r

  module _ (row : OutboxMessageRecord) (kind : Kind) (message : String) (s : RunState) where
    abbrev next : OutboxTable
    next = (step float config executor clock row kind message s).table

    -- The row of a recorded outcome is not processing afterwards.
    settles : NotProcessing (find outbox_columns row.id next)
    settles =
        subst NotProcessing (sym (find-record_outcome row kind message s row.id)) (
          rw ((==_iff row.id row.id).1 refl) (outcome_row-NotProcessing row kind message s.ticks _))

    -- Nor does an outcome make another row processing.
    stays_settled :
        (k : ℕ)
        → NotProcessing (find outbox_columns k s.table)
        → NotProcessing (find outbox_columns k next)
    stays_settled k h =
        subst NotProcessing (sym (find-record_outcome row kind message s k))
          (elim (Bool-cases (k == row.id)) [
            | inl t ↦ rw t (outcome_row-NotProcessing row kind message s.ticks _)
            | inr t ↦ rw t h
          ])

  module _ (registry : PublisherRegistry) where
    abbrev run : List OutboxMessageRecord → RunState → RunState × Result (Unit {0})
    run = loop float config executor clock registry

    loop_stays_settled :
        (rows : List OutboxMessageRecord) (s s' : RunState) (k : ℕ)
        → run rows s ≡ (s', ok tt)
        → NotProcessing (find outbox_columns k s.table)
        → NotProcessing (find outbox_columns k s'.table)
    loop_stays_settled [] s s' k h n =
        let e : s ≡ s' = cc (process_rows-nil float config executor clock registry s) in rw (← e) n
    loop_stays_settled (row ∷ rows) s s' k h n =
        let (outcome, _, _, rest) =
          process_rows-cons float config executor clock registry row rows s s' h in
        loop_stays_settled rows _ s' k rest
          (stays_settled row outcome.kind (message_or_empty outcome.message) s k n)

    loop_settles :
        (rows : List OutboxMessageRecord) (s s' : RunState) {r : OutboxMessageRecord}
        → run rows s ≡ (s', ok tt)
        → Memᴰ r rows
        → NotProcessing (find outbox_columns r.id s'.table)
    loop_settles [] s s' h m = elim m [ ]
    loop_settles (row ∷ rows) s s' {r} h m =
        let (outcome, _, _, rest) =
          process_rows-cons float config executor clock registry row rows s s' h in
        elim (Memᴰ.cases_cons m) [
          | inl same ↦
              loop_stays_settled rows _ s' r.id rest
                (rw same (settles row outcome.kind (message_or_empty outcome.message) s))
          | inr later ↦ loop_settles rows _ s' rest later
        ]

    loop_frame :
        (rows : List OutboxMessageRecord) (s s' : RunState) (k : ℕ)
        → run rows s ≡ (s', ok tt)
        → ((r : OutboxMessageRecord) → Memᴰ r rows → k ≢ r.id)
        → find outbox_columns k s'.table ≡ find outbox_columns k s.table
    loop_frame [] s s' k h apart =
        let e : s ≡ s' = cc (process_rows-nil float config executor clock registry s) in rw e
    loop_frame (row ∷ rows) s s' k h apart =
        let (outcome, _, _, rest) =
          process_rows-cons float config executor clock registry row rows s s' h in
        let other = apart row (Memᴰ.head refl) in
        loop_frame rows _ s' k rest (λ r m. apart r (Memᴰ.tail m))
        ∙ find-record_outcome row outcome.kind (message_or_empty outcome.message) s k
        ∙ ground (arith, other)

    -- After a pass that returns, no row that it claimed is still processing; and a row that it did
    -- not claim is as the claim left it.
    pub run_once_settles :
        (planner : Planner OutboxRow) (table table' : OutboxTable) (summary : RunSummary)
        → run_once float config executor clock planner registry table ≡ (table', ok summary)
        → (out : OutboxTable × List OutboxMessageRecord) × (claim_ready config executor planner
              (clock 0)
              (reclaim_expired executor (clock 0) table).0
            ≡ ok out)
          × ((r : OutboxMessageRecord)
              → Memᴰ r out.1
              → NotProcessing (find outbox_columns r.id table'))
          × ((k : ℕ)
              → ((r : OutboxMessageRecord) → Memᴰ r out.1 → k ≢ r.id)
              → find outbox_columns k table' ≡ find outbox_columns k out.0)
    run_once_settles planner table table' summary h =
        let (out, final, claimed, ended, same, _) =
          run_once-ok float config executor clock registry planner table table' summary h in
        (
          out,
          claimed,
          λ r m.
              subst (λ t. NotProcessing (find outbox_columns r.id t)) same
                (loop_settles out.1 _ final ended m),
          λ k apart. ap (find outbox_columns k) (sym same) ∙ loop_frame out.1 _ final k ended apart,
        )
