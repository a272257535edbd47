-- ===== src/Outbox/Runner/Published.antt =====
-- Which rows a pass publishes.
use mathlib.Core.Option
use pactix.Prelude.{
  ℕ, ◌+◌, ◌≡◌, ◌⊎◌, refl, inl, inr, String, Option, none, some, List, [], ◌∷◌, Memᴰ, ok, true, ◌==◌,
  ==_iff, leb, Bool-cases,
}
use pactix.Dialect.{DateTime, Executor}
use pactix.Config.{Float, PactixConfig}
use pactix.Queue.{Planner}
use pactix.Outbox.Model.{OutboxMessageRecord}
use pactix.Outbox.Table.{OutboxRow, OutboxTable, outbox_columns}
use pactix.Outbox.Store.{claim_ready, reclaim_expired}
use pactix.Queue.Status.{has_status}
use pactix.Outbox.Store.Published.{IsPublished, reclaim-IsPublished, claim_ready-IsPublished}
use pactix.Outbox.Publisher.{
  Kind, published, retryable, terminal, PublishOutcome, message_or_empty, PublisherRegistry,
  publish,
}
use pactix.Outbox.Runner.{RunSummary, RunState, run_once}
use pactix.Outbox.Runner.Accounting.{loop, step, process_rows-cons, process_rows-nil, run_once-ok}
use pactix.Outbox.Runner.Effects.{outcome_row, find-record_outcome}

-- What the publisher of a record has answered.
abbrev pub IsAcknowledged : PublisherRegistry → OutboxMessageRecord → Type 0
IsAcknowledged registry r =
    (outcome : PublishOutcome) × (publish registry r ≡ ok outcome) × (outcome.kind ≡ published)

module _ {F : Type 0} (float : Float F) (config : PactixConfig F) (executor : Executor)
    (clock : ℕ → DateTime) where
  outcome_row-published :
      (row : OutboxMessageRecord) (kind : Kind) (message : String) (t : ℕ) (o : Option OutboxRow)
      → has_status outbox_columns "published"
          (Option.map (outcome_row float config executor clock row kind message t) o)
        ≡ true
      → kind ≡ published
  outcome_row-published row published message t o h = refl
  outcome_row-published row kind message t none h = cc
  outcome_row-published row retryable message t (some r) h =
      elim (Bool-cases (leb row.max_attempts (row.attempts + 1))) [
        | inl b ↦ cc (rw b at h)
        | inr b ↦ cc (rw b at h)
      ]
  outcome_row-published row terminal message t (some r) h = cc

  -- An outcome publishes the row of its record alone, and only as its kind says.
  record_outcome-published :
      (row : OutboxMessageRecord) (kind : Kind) (message : String) (s : RunState) (k : ℕ)
      → IsPublished k (step float config executor clock row kind message s).table
      → IsPublished k s.table ⊎ ((k ≡ row.id) × (kind ≡ published))
  record_outcome-published row kind message s k p =
      let found = rw (find-record_outcome float config executor clock row kind message s k) at p in
      elim (Bool-cases (k == row.id)) [
        | inl t ↦ inr (
          (==_iff k row.id).0 t,
          outcome_row-published row kind message s.ticks _ (rw t at found),
        )
        | inr t ↦ inl (rw t at found)
      ]

  module _ (registry : PublisherRegistry) where
    loop_publishes :
        (rows : List OutboxMessageRecord) (s s' : RunState) (k : ℕ)
        → loop float config executor clock registry rows s ≡ (s', ok tt)
        → IsPublished k s'.table
        → IsPublished k s.table
          ⊎ (r : OutboxMessageRecord) × Memᴰ r rows × (k ≡ r.id) × IsAcknowledged registry r
    loop_publishes [] s s' k h p =
        let e : s ≡ s' = cc (process_rows-nil float config executor clock registry s) in
        inl (rw e p)
    loop_publishes (row ∷ rows) s s' k h p =
        let (outcome, e, _, rest) =
          process_rows-cons float config executor clock registry row rows s s' h in
        elim (loop_publishes rows _ s' k rest p) [
          | inr (r, m, same, acked) ↦ inr (r, Memᴰ.tail m, same, acked)
          | inl before ↦
              elim (record_outcome-published row outcome.kind (message_or_empty outcome.message) s k
                before) [
                  | inl older ↦ inl older
                  | inr (same, kind) ↦ inr (row, Memᴰ.head refl, same, (outcome, e, kind))
                ]
        ]

    -- After a pass that returns, a row that is published was so before the pass, or it is the row of
    -- a record that the pass claimed, and the publisher of that record answered that it is published.
    pub run_once_publishes :
        (planner : Planner OutboxRow) (table table' : OutboxTable) (summary : RunSummary) (k : ℕ)
        → run_once float config executor clock planner registry table ≡ (table', ok summary)
        → IsPublished k table'
        → IsPublished k table
          ⊎ (out : OutboxTable × List OutboxMessageRecord) × (r : OutboxMessageRecord)
            × (claim_ready config executor planner
                  (clock 0)
                  (reclaim_expired executor (clock 0) table).0
                ≡ ok out)
            × Memᴰ r out.1
            × (k ≡ r.id)
            × IsAcknowledged registry r
    run_once_publishes planner table table' summary k h p =
        let (out, final, claimed, ended, same, _) =
          run_once-ok float config executor clock registry planner table table' summary h in
        elim (loop_publishes out.1 _ final k ended (rw same p)) [
          | inr (r, m, id, acked) ↦ inr (out, r, claimed, m, id, acked)
          | inl before ↦ inl (
              reclaim-IsPublished k executor (clock 0) table
                (claim_ready-IsPublished config executor planner (clock 0) _ out k claimed before))
        ]
