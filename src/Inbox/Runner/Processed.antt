-- ===== src/Inbox/Runner/Processed.antt =====
-- Which rows a pass processes.
use mathlib.Core.Option
use pactix.Prelude.{
  ℕ, ◌+◌, ◌≡◌, ◌⊎◌, refl, sym, inl, inr, Option, none, some, List, [], ◌∷◌, Memᴰ, ok, true, ◌==◌,
  ==_iff, leb, Bool-cases, >>=-eq-ok, ok-eq, subst,
}
use pactix.Dialect.{DateTime, Executor}
use pactix.Config.{Float, PactixConfig}
use pactix.Queue.{Planner}
use pactix.Queue.Status.{has_status}
use pactix.Inbox.Model.{InboxMessageRecord}
use pactix.Inbox.Table.{InboxRow, InboxTable, inbox_columns}
use pactix.Inbox.Store.{reclaim_expired}
use pactix.Inbox.Store.Processed.{
  IsProcessed, reclaim-IsProcessed, claim_ready-IsProcessed, claim_ready_unordered-IsProcessed,
}
use pactix.Inbox.Hooks.{
  processed, retryable, terminal, HandleOutcome, IdempotencyDecision, process, skip,
  already_applied, StaleEventDecision, fresh, stale,
}
use pactix.Inbox.Runner.{
  Mode, fifo_per_ordering_key, unordered, InboxRunner, decide, decide_in, consult, after_hook,
  after_filter, Verdict, stale_event, not_needed, handled, claim_in, RunSummary, RunState, run_once,
}
use pactix.Inbox.Runner.Accounting.{loop, step, process_rows-cons, process_rows-nil, run_once-ok}
use pactix.Inbox.Runner.Effects.{verdict_row, find-record_verdict}

-- The verdicts that let a row count as processed.
abbrev pub Closes : Verdict → Type 0
Closes stale_event = Unit
Closes not_needed = Unit
Closes (handled kind message) = kind ≡ processed

module _ (runner : InboxRunner) (r : InboxMessageRecord) where
  -- The hooks have decided that the row of the record is processed.
  pub data IsDecided : Type 0 where
    was_stale : runner.mode ≡ unordered → runner.stale_event_filter r ≡ ok stale → IsDecided
    was_skipped : runner.idempotency_hook r ≡ ok skip → IsDecided
    was_applied : runner.idempotency_hook r ≡ ok already_applied → IsDecided
    was_handled :
        (outcome : HandleOutcome)
        → runner.idempotency_hook r ≡ ok process
        → runner.handler r ≡ ok outcome
        → outcome.kind ≡ processed
        → IsDecided

  after_hook-IsDecided :
      (decision : IdempotencyDecision) (verdict : Verdict)
      → runner.idempotency_hook r ≡ ok decision
      → after_hook runner.handler r decision ≡ ok verdict
      → Closes verdict
      → IsDecided
  after_hook-IsDecided skip verdict e h c = IsDecided.was_skipped e
  after_hook-IsDecided already_applied verdict e h c = IsDecided.was_applied e
  after_hook-IsDecided process verdict e h c =
      let (outcome, answered, same) = >>=-eq-ok (runner.handler r) _ h in
      IsDecided.was_handled outcome e answered (subst Closes (sym (ok-eq same)) c)

  consult-IsDecided :
      (verdict : Verdict) → consult runner r ≡ ok verdict → Closes verdict → IsDecided
  unfolding consult
  consult-IsDecided verdict h c =
      let (decision, e, rest) = >>=-eq-ok (runner.idempotency_hook r) _ h in
      after_hook-IsDecided decision verdict e rest c

  after_filter-IsDecided :
      (decision : StaleEventDecision) (verdict : Verdict)
      → runner.mode ≡ unordered
      → runner.stale_event_filter r ≡ ok decision
      → after_filter runner r decision ≡ ok verdict
      → Closes verdict
      → IsDecided
  after_filter-IsDecided stale verdict mode e h c = IsDecided.was_stale mode e
  after_filter-IsDecided fresh verdict mode e h c = consult-IsDecided verdict h c

  decide_in-IsDecided :
      (mode : Mode) (verdict : Verdict)
      → runner.mode ≡ mode
      → decide_in mode runner r ≡ ok verdict
      → Closes verdict
      → IsDecided
  decide_in-IsDecided fifo_per_ordering_key verdict mode h c = consult-IsDecided verdict h c
  decide_in-IsDecided unordered verdict mode h c =
      let (decision, e, rest) = >>=-eq-ok (runner.stale_event_filter r) _ h in
      after_filter-IsDecided decision verdict mode e rest c

  decide-IsDecided : (verdict : Verdict) → decide runner r ≡ ok verdict → Closes verdict → IsDecided
  unfolding decide
  decide-IsDecided verdict h c = decide_in-IsDecided runner.mode verdict refl h c

module _ {F : Type 0} (float : Float F) (config : PactixConfig F) (executor : Executor)
    (clock : ℕ → DateTime) where
  verdict_row-processed :
      (row : InboxMessageRecord) (verdict : Verdict) (t : ℕ) (o : Option InboxRow)
      → has_status inbox_columns "processed"
          (Option.map (verdict_row float config executor clock row verdict t) o)
        ≡ true
      → Closes verdict
  verdict_row-processed row stale_event t o h = tt
  verdict_row-processed row not_needed t o h = tt
  verdict_row-processed row (handled processed message) t o h = refl
  verdict_row-processed row (handled kind message) t none h = cc
  verdict_row-processed row (handled retryable message) t (some r) h =
      elim (Bool-cases (leb row.max_attempts (row.attempts + 1))) [
        | inl b ↦ cc (rw b at h)
        | inr b ↦ cc (rw b at h)
      ]
  verdict_row-processed row (handled terminal message) t (some r) h = cc

  -- A verdict processes the row of its record alone.
  record_verdict-IsProcessed :
      (row : InboxMessageRecord) (verdict : Verdict) (s : RunState) (k : ℕ)
      → IsProcessed k (step float config executor clock row verdict s).table
      → IsProcessed k s.table ⊎ ((k ≡ row.id) × Closes verdict)
  record_verdict-IsProcessed row verdict s k p =
      let found = rw (find-record_verdict float config executor clock row verdict s k) at p in
      elim (Bool-cases (k == row.id)) [
        | inl t ↦
            inr ((==_iff k row.id).0 t, verdict_row-processed row verdict s.ticks _ (rw t at found))
        | inr t ↦ inl (rw t at found)
      ]

  claim_in-IsProcessed :
      (mode : Mode) (planner : Planner InboxRow) (now : DateTime) (table : InboxTable)
      (out : InboxTable × List InboxMessageRecord) (k : ℕ)
      → claim_in float config executor clock mode planner now table ≡ ok out
      → IsProcessed k out.0
      → IsProcessed k table
  claim_in-IsProcessed unordered planner now table out k =
      claim_ready_unordered-IsProcessed config executor planner now table out k
  claim_in-IsProcessed fifo_per_ordering_key planner now table out k =
      claim_ready-IsProcessed config executor planner now table out k

  module _ (runner : InboxRunner) where
    loop_processes :
        (rows : List InboxMessageRecord) (s s' : RunState) (k : ℕ)
        → loop float config executor clock runner rows s ≡ (s', ok tt)
        → IsProcessed k s'.table
        → IsProcessed k s.table
          ⊎ (r : InboxMessageRecord) × Memᴰ r rows × (k ≡ r.id) × IsDecided runner r
    loop_processes [] s s' k h p =
        let e : s ≡ s' = cc (process_rows-nil float config executor clock runner s) in inl (rw e p)
    loop_processes (row ∷ rows) s s' k h p =
        let (verdict, e, _, rest) =
          process_rows-cons float config executor clock runner row rows s s' h in
        elim (loop_processes rows _ s' k rest p) [
          | inr (r, m, same, decided) ↦ inr (r, Memᴰ.tail m, same, decided)
          | inl before ↦ elim (record_verdict-IsProcessed row verdict s k before) [
            | inl older ↦ inl older
            | inr (same, closes) ↦
                inr (row, Memᴰ.head refl, same, decide-IsDecided runner row verdict e closes)
          ]
        ]

    -- After a pass that returns, in either mode, a row that is processed was so before the pass, or it
    -- is the row of a record that the pass claimed, and for that record the hooks have decided it: a
    -- stale event, a decision that it need not be processed, or the handler's answer that it is.
    pub run_once_processes :
        (planner : Planner InboxRow) (table table' : InboxTable) (summary : RunSummary) (k : ℕ)
        → run_once float config executor clock planner runner table ≡ (table', ok summary)
        → IsProcessed k table'
        → IsProcessed k table
          ⊎ (out : InboxTable × List InboxMessageRecord) × (r : InboxMessageRecord) × (claim_in
                float config executor clock runner.mode planner
                (clock 0)
                (reclaim_expired executor (clock 0) table).0
              ≡ ok out)
            × Memᴰ r out.1
            × (k ≡ r.id)
            × IsDecided runner r
    run_once_processes planner table table' summary k h p =
        let (out, final, claimed, ended, same, _) =
          run_once-ok float config executor clock runner planner table table' summary h in
        elim (loop_processes out.1 _ final k ended (rw same p)) [
          | inr (r, m, id, decided) ↦ inr (out, r, claimed, m, id, decided)
          | inl before ↦ inl (
              reclaim-IsProcessed k executor (clock 0) table
                (claim_in-IsProcessed runner.mode planner (clock 0) _ out k claimed before))
        ]
