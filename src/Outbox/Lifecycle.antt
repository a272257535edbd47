-- ===== src/Outbox/Lifecycle.antt =====
-- Many workers on one table: every interleaving of the transactions of `OutboxStore` is a sequence of
-- steps. Each transaction is one step, since the database runs it as a whole.
use pactix.Prelude.{ℕ, ◌≡◌, ◌≤◌, refl, true, false, String, List, Memᴰ, ok, ◌==◌, ==_iff}
use pactix.Dialect.{DateTime, Executor, aware, utc, column}
use pactix.Dialect.RoundTrip.{IsBackend}
use pactix.Config.{RetryPolicy, PactixConfig}
use pactix.Message.{MessageEnvelope}
use pactix.Queue.{Planner, IsPlanner, is_open, is_processing, is_pending, ready_fifo}
use pactix.Queue.Sound.{
  IsSound, IsSettling, update-IsSound, reclaim-IsSound, claim-IsSound, insert-IsSound,
}
use pactix.Queue.Fifo.{ready_fifo-pending, ready_fifo-gate}
use mathlib.Core.Bool.{false≢true}
use pactix.Outbox.Model.{as_str, pending_record, OutboxMessageRecord}
use pactix.Outbox.Table.{OutboxRow, OutboxTable, outbox_columns, outbox_laws}
use pactix.Outbox.Store.{
  append, claim_ready, reclaim_expired, mark_published, mark_retry, mark_failed, set_published,
  set_retry, set_failed, record_values,
}
use pactix.Outbox.Store.Claims.{claim_ready-table}
use pactix.Outbox.Store.Append.{append-ok, appended_row}
use pactix.Outbox.Store.Updates.{insert_row-ok, not-find-of_new}

-- The row of an id, where there is one, is pending or processing.
abbrev pub OpenId : ℕ → OutboxTable → Type 0
OpenId id t = (r : OutboxRow) → Memᴰ r t → r.id ≡ id → is_open outbox_columns r ≡ true

module _ {F : Type 0} (config : PactixConfig F) where
  -- One transaction. An appended row is stamped no earlier than the rows that stand in the table, and a
  -- retry is recorded while its row is still pending or processing.
  pub data Step (t : OutboxTable) : OutboxTable → Type 0 where
    appends :
        (e : Executor) (id : ℕ) (now : DateTime) (envelope : MessageEnvelope)
        (out : OutboxTable × OutboxMessageRecord)
        → append config e id now envelope t ≡ ok out
        → ((r : OutboxRow) → Memᴰ r t → r.created_at ≤ column e now)
        → Step t out.0
    claims :
        (e : Executor) (planner : Planner OutboxRow) (w : ℕ)
        (out : OutboxTable × List OutboxMessageRecord)
        → IsBackend e
        → IsPlanner planner
        → claim_ready config e planner (aware w utc) t ≡ ok out
        → Step t out.0
    reclaims : (e : Executor) (now : DateTime) → Step t (reclaim_expired e now t).0
    publishes : (e : Executor) (id : ℕ) (at : DateTime) → Step t (mark_published e id at t)
    retries :
        (e : Executor) (now : DateTime) (id : ℕ) (error : String) (at : DateTime)
        → OpenId id t
        → Step t (mark_retry e now id error at t)
    fails :
        (e : Executor) (now : DateTime) (id : ℕ) (error : String)
        → Step t (mark_failed e now id error t)

  pub data Reach (t : OutboxTable) : OutboxTable → Type 0 where
    here : Reach t t
    next : {u v : OutboxTable} → Reach t u → Step u v → Reach t v

abbrev pub Sound : OutboxTable → Type 0
Sound t = IsSound outbox_columns t

appended_idle :
    {F : Type 0} (policy : RetryPolicy F) (e : Executor) (id : ℕ) (now : DateTime)
    (envelope : MessageEnvelope)
    → is_processing outbox_columns (record_values e (pending_record policy id now envelope)) ≡ false
unfolding is_processing record_values as_str
appended_idle policy e id now envelope = refl

append-Sound :
    {F : Type 0} (config : PactixConfig F) (e : Executor) (id : ℕ) (now : DateTime)
    (envelope : MessageEnvelope) (t : OutboxTable) (out : OutboxTable × OutboxMessageRecord)
    → append config e id now envelope t ≡ ok out
    → ((r : OutboxRow) → Memᴰ r t → r.created_at ≤ column e now)
    → Sound t
    → Sound out.0
append-Sound config e id now envelope t out h newest sound =
    let (_, new, _, inserted) = append-ok config e id now envelope t out h in
    let row = appended_row config e id now envelope in
    rw ((insert_row-ok e row t out.0 inserted).0) (
      insert-IsSound outbox_columns outbox_laws row t (not-find-of_new e.weight row t new)
        (appended_idle config.retry_policy e id now envelope) (unfold record_values in newest)
        sound)

claim_ready-Sound :
    {F : Type 0} (config : PactixConfig F) (e : Executor) (planner : Planner OutboxRow) (w : ℕ)
    (t : OutboxTable) (out : OutboxTable × List OutboxMessageRecord)
    → IsBackend e
    → IsPlanner planner
    → claim_ready config e planner (aware w utc) t ≡ ok out
    → Sound t
    → Sound out.0
claim_ready-Sound config e planner w t out backend lawful h sound =
    rw (claim_ready-table config planner lawful w t sound.unique e backend out h) (
      claim-IsSound outbox_columns outbox_laws planner lawful e.locked config.outbox_batch_size _ w
        (ready_fifo outbox_columns w t) t (ready_fifo-pending outbox_columns w t)
        (ready_fifo-gate outbox_columns w t) sound)

module _ (e : Executor) (id : ℕ) (t : OutboxTable) where
  published-settles :
      (at : DateTime) → IsSettling outbox_columns (λ r. r.id == id) (set_published e at) t
  unfolding is_processing is_open is_pending
  published-settles at = record {
    id = λ r. refl;
    event_type = λ r. refl;
    ordering_key = λ r. refl;
    arrived_at = λ r. refl;
    ends = λ r. refl;
    opens_none = λ r m h opened. absurd (false≢true opened);
  }

  failed-settles :
      (now : DateTime) (error : String)
      → IsSettling outbox_columns (λ r. r.id == id) (set_failed e now error) t
  unfolding is_processing is_open is_pending
  failed-settles now error = record {
    id = λ r. refl;
    event_type = λ r. refl;
    ordering_key = λ r. refl;
    arrived_at = λ r. refl;
    ends = λ r. refl;
    opens_none = λ r m h opened. absurd (false≢true opened);
  }

  retry-settles :
      (now : DateTime) (error : String) (at : DateTime)
      → OpenId id t
      → IsSettling outbox_columns (λ r. r.id == id) (set_retry e now error at) t
  unfolding is_processing
  retry-settles now error at was_open = record {
    id = λ r. refl;
    event_type = λ r. refl;
    ordering_key = λ r. refl;
    arrived_at = λ r. refl;
    ends = λ r. refl;
    opens_none = λ r m h _. was_open r m ((==_iff r.id id).0 h);
  }

-- Each transaction keeps the invariant.
Step-Sound :
    {F : Type 0} (config : PactixConfig F) {t u : OutboxTable} → Step config t u → Sound t → Sound u
Step-Sound config {t} (Step.appends e id now envelope out h newest) sound =
    append-Sound config e id now envelope t out h newest sound
Step-Sound config {t} (Step.claims e planner w out backend lawful h) sound =
    claim_ready-Sound config e planner w t out backend lawful h sound
Step-Sound config {t} (Step.reclaims e now) sound =
    unfold reclaim_expired in reclaim-IsSound outbox_columns outbox_laws (column e now) t sound
Step-Sound config {t} (Step.publishes e id at) sound =
    unfold mark_published in
    update-IsSound outbox_columns outbox_laws _ _ t (published-settles e id t at) sound
Step-Sound config {t} (Step.retries e now id error at was_open) sound =
    unfold mark_retry in
    update-IsSound outbox_columns outbox_laws _ _ t (retry-settles e id t now error at was_open)
      sound
Step-Sound config {t} (Step.fails e now id error) sound =
    unfold mark_failed in
    update-IsSound outbox_columns outbox_laws _ _ t (failed-settles e id t now error) sound

-- However the workers interleave: from a table whose ids are unique and whose rows are in order,
-- every table that the transactions reach has unique ids, and in it no row is processing while an
-- older row of its stream is pending or processing; as long as appended rows are stamped no earlier
-- than those that stand in the table, and a retry is recorded for a row that is pending or
-- processing.
pub Reach-Sound :
    {F : Type 0} (config : PactixConfig F) (t u : OutboxTable)
    → Reach config t u
    → Sound t
    → Sound u
Reach-Sound config t _ Reach.here sound = sound
Reach-Sound config t u (Reach.next r step) sound =
    Step-Sound config step (Reach-Sound config t _ r sound)
