-- ===== src/Inbox/Lifecycle/Answers.antt =====
-- In every inbox that the transactions reach, a valid message is answered.
use pactix.Prelude.{
  ℕ, ◌≡◌, refl, sym, subst, ◌∙◌, Bool, true, false, String, [], ◌∷◌, Memᴰ, ok, All, All-mem, exists,
  inl, inr, Bool-cases, ◌==◌, arith,
}
use mathlib.Core.Bool.{false≢true}
use pactix.Prelude.Text.{is_blank}
use pactix.Dialect.{DateTime, Executor, IsAware, column}
use pactix.Dialect.RoundTrip.{IsBackend}
use pactix.Config.{PactixConfig}
use pactix.Message.{MessageEnvelope}
use pactix.Message.Validation.{IsValid}
use pactix.Queue.{update_rows, claim_returning, claim_rows, reclaim, is_expired}
use pactix.Queue.Fifo.{ready_fifo-pending}
use pactix.Inbox.Model.{
  InboxStatus, pending, processing, processed, failed, as_str, from_str, from_str-as_str,
}
use pactix.Inbox.Table.{InboxRow, InboxTable, inbox_columns, same_receipt, collides}
use pactix.Inbox.Store.{
  save_received, ReceiveOutcome, fifo_query, claim_ready, reclaim_expired, mark_processed,
  mark_retry, mark_failed, set_processed, set_retry, set_failed, record_values,
}
use pactix.Inbox.Store.Claims.{claim_query-table}
use pactix.Inbox.Store.Receipt.{UniqueReceipts}
use pactix.Inbox.Store.Dedup.{Fits, received_row, save_received_new, save_received_duplicate}
use pactix.Inbox.Store.Constraint.{save_received-UniqueReceipts}
use pactix.Inbox.Store.Inserted.{save_received-Inserted}
use pactix.Inbox.Lifecycle.{Step, Reach, InboxSound, Reach-InboxSound}

-- The text of the status is that of a status, as the CHECK constraint of the table demands.
abbrev pub IsReadable : InboxRow → Type 0
IsReadable r = (s : InboxStatus) × (from_str r.status ≡ ok s)

module _ (p : InboxRow → Bool) (f : InboxRow → InboxRow) where
  update-IsReadable :
      (table : InboxTable)
      → ((r : InboxRow) → IsReadable (f r))
      → All IsReadable table
      → All IsReadable (update_rows p f table)
  unfolding update_rows
  update-IsReadable [] h a = tt
  update-IsReadable (r ∷ rows) h a = elim (Bool-cases (p r)) [
    | inl t ↦ rw t (h r, update-IsReadable rows h a.1)
    | inr n ↦ rw n (a.0, update-IsReadable rows h a.1)
  ]

  module _ (weight : String → String) (same_source : (r : InboxRow) → (f r).source ≡ r.source)
      (same_id : (r : InboxRow) → (f r).message_id ≡ r.message_id) where
    exists-update :
        (new : InboxRow) (table : InboxTable)
        → exists (same_receipt weight new) (update_rows p f table)
          ≡ exists (same_receipt weight new) table
    unfolding update_rows
    exists-update new [] = refl
    exists-update new (r ∷ rows) = elim (Bool-cases (p r)) [
      | inl t ↦ rw (t, same_source r, same_id r, exists-update new rows) refl
      | inr n ↦ rw (n, exists-update new rows) refl
    ]

    update-UniqueReceipts :
        (table : InboxTable)
        → UniqueReceipts weight table
        → UniqueReceipts weight (update_rows p f table)
    unfolding update_rows
    update-UniqueReceipts [] u = tt
    update-UniqueReceipts (r ∷ rows) u = elim (Bool-cases (p r)) [
      | inl t ↦ rw t (
        rw (same_source r, same_id r) (exists-update r rows ∙ u.0),
        update-UniqueReceipts rows u.1,
      )
      | inr n ↦ rw n (exists-update r rows ∙ u.0, update-UniqueReceipts rows u.1)
    ]

-- What makes an inbox answer.
abbrev pub IsKept : (String → String) → InboxTable → Type 0
IsKept weight t = UniqueReceipts weight t × All IsReadable t

-- The messages of a step are received in the collation of these weights.
abbrev pub ReceivesBy :
    {F : Type 0} {config : PactixConfig F} {t u : InboxTable}
    → (String → String)
    → Step config t u
    → Type 0
ReceivesBy weight (Step.receives e id now source envelope out h newest) = e.weight ≡ weight
ReceivesBy weight (Step.claims e planner w out backend lawful h) = Unit
ReceivesBy weight (Step.reclaims e now) = Unit
ReceivesBy weight (Step.processes e id at) = Unit
ReceivesBy weight (Step.retries e now id error at was_open) = Unit
ReceivesBy weight (Step.fails e now id error) = Unit

-- One collation for all steps: that of the table.
abbrev pub InCollation :
    {F : Type 0} {config : PactixConfig F} {t u : InboxTable}
    → (String → String)
    → Reach config t u
    → Type 0
InCollation weight Reach.here = Unit
InCollation weight (Reach.next reached step) = InCollation weight reached × ReceivesBy weight step

update-IsKept :
    (weight : String → String) (p : InboxRow → Bool) (f : InboxRow → InboxRow) (t : InboxTable)
    → ((r : InboxRow) → (f r).source ≡ r.source)
    → ((r : InboxRow) → (f r).message_id ≡ r.message_id)
    → ((r : InboxRow) → IsReadable (f r))
    → IsKept weight t
    → IsKept weight (update_rows p f t)
update-IsKept weight p f t source id readable (u, a) =
    (update-UniqueReceipts p f weight source id t u, update-IsReadable p f t readable a)

save_received-IsKept :
    {F : Type 0} (config : PactixConfig F) (e : Executor) (id : ℕ) (now : DateTime)
    (source : String) (envelope : MessageEnvelope) (t : InboxTable)
    (out : InboxTable × ReceiveOutcome)
    → save_received config e id now source envelope t ≡ ok out
    → IsKept e.weight t
    → IsKept e.weight out.0
save_received-IsKept config e id now source envelope t out h (u, a) = (
  save_received-UniqueReceipts config e id now source envelope t out h u,
  elim (save_received-Inserted config e id now source envelope t out h) [
    | inl same ↦ subst (All IsReadable) (sym same) a
    | inr (row, inl whole, added, _) ↦
        subst (All IsReadable) (sym added)
          ((pending, rw whole (unfold record_values in from_str-as_str pending)), a)
    | inr (row, inr cut, added, _) ↦
        subst (All IsReadable) (sym added)
          ((pending, rw cut (unfold record_values in from_str-as_str pending)), a)
  ],
)

Step-IsKept :
    {F : Type 0} (config : PactixConfig F) (weight : String → String) {t u : InboxTable}
    (step : Step config t u)
    → ReceivesBy weight step
    → InboxSound t
    → IsKept weight t
    → IsKept weight u
unfolding as_str
Step-IsKept config weight {t} (Step.receives e id now source envelope out h newest) by sound k =
    subst (λ w. IsKept w out.0) by
      (save_received-IsKept config e id now source envelope t out h
        (subst (λ w. IsKept w t) (sym by) k))
Step-IsKept config weight {t} (Step.claims e planner w out backend lawful h) by sound k =
    rw
      (claim_query-table config planner lawful w t sound.unique fifo_query
        (ready_fifo-pending inbox_columns w t) e backend out (unfold claim_ready in h))
      (unfold claim_returning claim_rows in
        update-IsKept weight _ (inbox_columns.set_claimed _ w) t (λ r. refl) (λ r. refl)
          (λ r. (processing, from_str-as_str processing)) k)
Step-IsKept config weight {t} (Step.reclaims e now) by sound k =
    unfold reclaim_expired reclaim in
    update-IsKept weight (is_expired inbox_columns (column e now))
      (inbox_columns.set_reclaimed (column e now)) t (λ r. refl) (λ r. refl)
      (λ r. (pending, from_str-as_str pending)) k
Step-IsKept config weight {t} (Step.processes e id at) by sound k =
    unfold mark_processed in
    update-IsKept weight _ (set_processed e at) t (λ r. refl) (λ r. refl)
      (λ r. (processed, from_str-as_str processed)) k
Step-IsKept config weight {t} (Step.retries e now id error at was_open) by sound k =
    unfold mark_retry in
    update-IsKept weight _ (set_retry e now error at) t (λ r. refl) (λ r. refl)
      (λ r. (pending, from_str-as_str pending)) k
Step-IsKept config weight {t} (Step.fails e now id error) by sound k =
    unfold mark_failed in
    update-IsKept weight _ (set_failed e now error) t (λ r. refl) (λ r. refl)
      (λ r. (failed, from_str-as_str failed)) k

Reach-IsKept :
    {F : Type 0} (config : PactixConfig F) (weight : String → String) (t u : InboxTable)
    (reached : Reach config t u)
    → InCollation weight reached
    → InboxSound t
    → IsKept weight t
    → IsKept weight u
Reach-IsKept config weight t _ Reach.here one sound k = k
Reach-IsKept config weight t u (Reach.next {u = v} r step) (one, by) sound k =
    Step-IsKept config weight step by (Reach-InboxSound config t v r sound)
      (Reach-IsKept config weight t v r one sound k)

mem-of_exists :
    (p : InboxRow → Bool) (table : InboxTable)
    → exists p table ≡ true
    → (r : InboxRow) × Memᴰ r table × (p r ≡ true)
mem-of_exists p [] h = absurd (false≢true h)
mem-of_exists p (r ∷ rows) h = elim (Bool-cases (p r)) [
  | inl t ↦ (r, Memᴰ.head refl, t)
  | inr n ↦
      let (s, inside, holds) = mem-of_exists p rows (rw n at h) in (s, Memᴰ.tail inside, holds)
]

collides-of_parts :
    (weight : String → String) (row : InboxRow) (table : InboxTable)
    → exists (same_receipt weight row) table ≡ false
    → exists (λ (old : InboxRow). old.id == row.id) table ≡ false
    → exists (collides weight row) table ≡ false
collides-of_parts weight row [] h i = refl
collides-of_parts weight row (r ∷ rows) h i = ground (arith, collides-of_parts weight row rows)

-- A consumer is always answered. In every inbox that the transactions of workers and consumers reach
-- from one that is sound, keeps the unique constraint and has statuses that can be read, in one
-- collation, and on either database: receiving a message whose metadata is valid, whose texts fit into
-- the columns, from a source that is not blank, at an aware time and with an id that no row has, returns an outcome and raises nothing, whether the message is
-- new or was received before, and whatever has become of its row.
pub received_is_answered :
    {F : Type 0} (config : PactixConfig F) (t u : InboxTable) (e : Executor) (id : ℕ)
    (now : DateTime) (source : String) (envelope : MessageEnvelope) (reached : Reach config t u)
    → InCollation e.weight reached
    → InboxSound t
    → UniqueReceipts e.weight t
    → All IsReadable t
    → IsBackend e
    → IsAware now
    → is_blank source ≡ false
    → IsValid envelope.metadata
    → Fits e source envelope.metadata
    → exists (λ (old : InboxRow). old.id == id) u ≡ false
    → (out : InboxTable × ReceiveOutcome) × (save_received config e id now source envelope u
        ≡ ok out)
received_is_answered config t u e id now source envelope reached one sound unique readable backend
      aware named valid fits fresh =
    let (u_unique, u_readable) =
      Reach-IsKept config e.weight t u reached one sound (unique, readable) in
    let row = received_row config e id now source envelope in
    elim (Bool-cases (exists (same_receipt e.weight row) u)) [
      | inl there ↦
          let (old, inside, same) = mem-of_exists (same_receipt e.weight row) u there in
          let (s, known) = All-mem IsReadable u u_readable inside in
          (
            _,
            save_received_duplicate config e id now source envelope u old s backend named valid fits
                u_unique inside same known,
          )
      | inr new ↦ (
        _,
        save_received_new config e id now source envelope u backend aware named valid fits
            (collides-of_parts e.weight row u new (unfold record_values in fresh)),
      )
    ]
