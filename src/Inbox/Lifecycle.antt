-- ===== src/Inbox/Lifecycle.antt =====
-- Many workers on one table: every interleaving of the transactions of `InboxStore` is a sequence of
-- steps. Each transaction is one step, since the database runs it as a whole.
pub mod Answers
use pactix.Prelude.{inl, inr, ℕ, ◌≡◌, ◌≤◌, refl, true, false, String, List, Memᴰ, ok, ◌==◌, ==_iff}
use pactix.Dialect.{DateTime, Executor, aware, utc, column}
use pactix.Dialect.RoundTrip.{IsBackend}
use pactix.Config.{PactixConfig}
use pactix.Message.{MessageEnvelope}
use pactix.Queue.{Planner, IsPlanner, is_open, is_processing, is_pending, ready_fifo}
use pactix.Queue.Sound.{
  IsSound, IsSettling, update-IsSound, reclaim-IsSound, claim-IsSound, insert-IsSound,
}
use pactix.Queue.Fifo.{ready_fifo-pending, ready_fifo-gate}
use mathlib.Core.Bool.{false≢true}
use pactix.Inbox.Model.{as_str, InboxMessageRecord}
use pactix.Inbox.Table.{InboxRow, InboxTable, inbox_columns, inbox_laws}
use pactix.Inbox.Store.{
  save_received, ReceiveOutcome, fifo_query, claim_ready, reclaim_expired, mark_processed,
  mark_retry, mark_failed, set_processed, set_retry, set_failed, record_values,
}
use pactix.Inbox.Store.Claims.{claim_query-table}
use pactix.Inbox.Store.Inserted.{save_received-Inserted}
use pactix.Inbox.Store.Dedup.{received_row}

-- The row of an id, where there is one, is pending or processing.
abbrev pub OpenId : ℕ → InboxTable → Type 0
OpenId id t = (r : InboxRow) → Memᴰ r t → r.id ≡ id → is_open inbox_columns r ≡ true

module _ {F : Type 0} (config : PactixConfig F) where
  -- One transaction. A claim is ordered. A received row is stamped no earlier than the rows that stand in the table, and a
  -- retry is recorded while its row is still pending or processing.
  pub data Step (t : InboxTable) : InboxTable → Type 0 where
    receives :
        (e : Executor) (id : ℕ) (now : DateTime) (source : String) (envelope : MessageEnvelope)
        (out : InboxTable × ReceiveOutcome)
        → save_received config e id now source envelope t ≡ ok out
        → ((r : InboxRow) → Memᴰ r t → r.received_at ≤ column e now)
        → Step t out.0
    claims :
        (e : Executor) (planner : Planner InboxRow) (w : ℕ)
        (out : InboxTable × List InboxMessageRecord)
        → IsBackend e
        → IsPlanner planner
        → claim_ready config e planner (aware w utc) t ≡ ok out
        → Step t out.0
    reclaims : (e : Executor) (now : DateTime) → Step t (reclaim_expired e now t).0
    processes : (e : Executor) (id : ℕ) (at : DateTime) → Step t (mark_processed e id at t)
    retries :
        (e : Executor) (now : DateTime) (id : ℕ) (error : String) (at : DateTime)
        → OpenId id t
        → Step t (mark_retry e now id error at t)
    fails :
        (e : Executor) (now : DateTime) (id : ℕ) (error : String)
        → Step t (mark_failed e now id error t)

  pub data Reach (t : InboxTable) : InboxTable → Type 0 where
    here : Reach t t
    next : {u v : InboxTable} → Reach t u → Step u v → Reach t v

abbrev pub InboxSound : InboxTable → Type 0
InboxSound t = IsSound inbox_columns t

received_idle :
    {F : Type 0} (config : PactixConfig F) (e : Executor) (id : ℕ) (now : DateTime)
    (source : String) (envelope : MessageEnvelope)
    → is_processing inbox_columns (received_row config e id now source envelope) ≡ false
unfolding is_processing record_values as_str
received_idle config e id now source envelope = refl

save_received-Sound :
    {F : Type 0} (config : PactixConfig F) (e : Executor) (id : ℕ) (now : DateTime)
    (source : String) (envelope : MessageEnvelope) (t : InboxTable)
    (out : InboxTable × ReceiveOutcome)
    → save_received config e id now source envelope t ≡ ok out
    → ((r : InboxRow) → Memᴰ r t → r.received_at ≤ column e now)
    → InboxSound t
    → InboxSound out.0
save_received-Sound config e id now source envelope t out h newest sound =
    elim (save_received-Inserted config e id now source envelope t out h) [
      | inl same ↦ rw same sound
      | inr (row, inl whole, added, new) ↦ rw added (
          insert-IsSound inbox_columns inbox_laws row t (rw whole (unfold record_values in new))
            (rw whole (received_idle config e id now source envelope))
            (rw whole (unfold record_values in newest)) sound)
      | inr (row, inr cut, added, new) ↦ rw added (
          insert-IsSound inbox_columns inbox_laws row t (rw cut (unfold record_values in new))
            (rw cut (unfold is_processing in received_idle config e id now source envelope))
            (rw cut (unfold record_values in newest)) sound)
    ]

claim_ready-Sound :
    {F : Type 0} (config : PactixConfig F) (e : Executor) (planner : Planner InboxRow) (w : ℕ)
    (t : InboxTable) (out : InboxTable × List InboxMessageRecord)
    → IsBackend e
    → IsPlanner planner
    → claim_ready config e planner (aware w utc) t ≡ ok out
    → InboxSound t
    → InboxSound out.0
claim_ready-Sound config e planner w t out backend lawful h sound =
    rw
      (claim_query-table config planner lawful w t sound.unique fifo_query
        (ready_fifo-pending inbox_columns w t) e backend out (unfold claim_ready in h))
      (claim-IsSound inbox_columns inbox_laws planner lawful e.locked config.inbox_batch_size _ w
        (ready_fifo inbox_columns w t) t (ready_fifo-pending inbox_columns w t)
        (ready_fifo-gate inbox_columns w t) sound)

module _ (e : Executor) (id : ℕ) (t : InboxTable) where
  processed-settles :
      (at : DateTime) → IsSettling inbox_columns (λ r. r.id == id) (set_processed e at) t
  unfolding is_processing is_open is_pending
  processed-settles at = record {
    id = λ r. refl;
    event_type = λ r. refl;
    ordering_key = λ r. refl;
    arrived_at = λ r. refl;
    ends = λ r. refl;
    opens_none = λ r m h opened. absurd (false≢true opened);
  }

  failed-settles :
      (now : DateTime) (error : String)
      → IsSettling inbox_columns (λ r. r.id == id) (set_failed e now error) t
  unfolding is_processing is_open is_pending
  failed-settles now error = record {
    id = λ r. refl;
    event_type = λ r. refl;
    ordering_key = λ r. refl;
    arrived_at = λ r. refl;
    ends = λ r. refl;
    opens_none = λ r m h opened. absurd (false≢true opened);
  }

  retry-settles :
      (now : DateTime) (error : String) (at : DateTime)
      → OpenId id t
      → IsSettling inbox_columns (λ r. r.id == id) (set_retry e now error at) t
  unfolding is_processing
  retry-settles now error at was_open = record {
    id = λ r. refl;
    event_type = λ r. refl;
    ordering_key = λ r. refl;
    arrived_at = λ r. refl;
    ends = λ r. refl;
    opens_none = λ r m h _. was_open r m ((==_iff r.id id).0 h);
  }

-- Each transaction keeps the invariant.
Step-Sound :
    {F : Type 0} (config : PactixConfig F) {t u : InboxTable}
    → Step config t u
    → InboxSound t
    → InboxSound u
Step-Sound config {t} (Step.receives e id now source envelope out h newest) sound =
    save_received-Sound config e id now source envelope t out h newest sound
Step-Sound config {t} (Step.claims e planner w out backend lawful h) sound =
    claim_ready-Sound config e planner w t out backend lawful h sound
Step-Sound config {t} (Step.reclaims e now) sound =
    unfold reclaim_expired in reclaim-IsSound inbox_columns inbox_laws (column e now) t sound
Step-Sound config {t} (Step.processes e id at) sound =
    unfold mark_processed in
    update-IsSound inbox_columns inbox_laws _ _ t (processed-settles e id t at) sound
Step-Sound config {t} (Step.retries e now id error at was_open) sound =
    unfold mark_retry in
    update-IsSound inbox_columns inbox_laws _ _ t (retry-settles e id t now error at was_open) sound
Step-Sound config {t} (Step.fails e now id error) sound =
    unfold mark_failed in
    update-IsSound inbox_columns inbox_laws _ _ t (failed-settles e id t now error) sound

-- However the workers and consumers interleave, with ordered claims: from an inbox whose ids are
-- unique and whose rows are in order, every table that the transactions reach has unique ids, and
-- in it no row is processing while an older row of its stream is pending or processing; as long as
-- received rows are stamped no earlier than those that stand in the table, and a retry is recorded
-- for a row that is pending or processing.
pub Reach-InboxSound :
    {F : Type 0} (config : PactixConfig F) (t u : InboxTable)
    → Reach config t u
    → InboxSound t
    → InboxSound u
Reach-InboxSound config t _ Reach.here sound = sound
Reach-InboxSound config t u (Reach.next r step) sound =
    Step-Sound config step (Reach-InboxSound config t _ r sound)
