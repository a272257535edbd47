-- ===== src/Inbox/Store/Claims.antt =====
-- What `claim_ready` returns, on both databases, and that the two agree.
use pactix.Prelude.{
  Result, if◌then◌else◌, ℕ, ◌+◌, ◌-◌, ◌≡◌, refl, ◌∙◌, ◌⊎◌, inl, inr, List, [], ◌∷◌, map, Memᴰ, ok,
  arith, traverse, traverse-eq-map, Bool, true, str_eq→eq, select,
}
use pactix.Dialect.{is_mysql, DateTime, Executor, IsPostgres, IsMysql, aware, utc, naive_utc}
use pactix.Dialect.RoundTrip.{is_mysql-IsMysql, is_mysql-IsPostgres}
use pactix.Config.{PactixConfig}
use pactix.Queue.{Planner, IsPlanner, claim_returning, claim_selected, pick, is_pending}
use pactix.Queue.Rows.{UniqueIds}
use pactix.Queue.Claim.{mem-batch, mem-claim_returning, claim_selected-table}
use pactix.Inbox.Model.{pending, processing, InboxMessageRecord, from_str}
use pactix.Inbox.Table.{InboxRow, InboxTable, inbox_columns, inbox_laws}
use pactix.Inbox.Store.{record_of, map_record, Query, claim_mysql, claim_postgresql, mirror}
use pactix.Inbox.Store.Records.{in_utc, map_record_lem}

map-map :
    {A B C : Type 0} (g : B → C) (f : A → B) (xs : List A)
    → map g (map f xs) ≡ map (λ x. g (f x)) xs
map-map g f [] = refl
map-map g f (x ∷ xs) = cc (map-map g f xs)

pending_text :
    (row : InboxRow) → is_pending inbox_columns row ≡ true → from_str row.status ≡ ok pending
unfolding is_pending from_str
pending_text row h = rw (str_eq→eq row.status "pending" h)

-- The record of a row that is claimed at `n` until `l`.
abbrev pub claimed_record : ℕ → ℕ → InboxRow → InboxMessageRecord
claimed_record l n row = record_of in_utc (inbox_columns.set_claimed l n row) processing

module _ {F : Type 0} (config : PactixConfig F) (planner : Planner InboxRow)
    (lawful : IsPlanner planner) (w : ℕ) (table : InboxTable) (u : UniqueIds inbox_columns table)
    (query : Query)
    (takes : (r : InboxRow) → query w table r ≡ true → is_pending inbox_columns r ≡ true) where
  -- The times of the two statements, for `now` at `w` in UTC.
  abbrev pub now_utc : DateTime
  now_utc = aware w utc

  abbrev pub until : ℕ
  until = w + config.lease_duration

  -- Either claim, on the dialect of the executor.
  abbrev pub claim_query : Executor → Result (InboxTable × List InboxMessageRecord)
  claim_query e =
      if is_mysql e
      then claim_mysql config e planner query now_utc table
      else claim_postgresql config e planner query now_utc table

  abbrev pub eligible : List InboxRow
  eligible = select (query w table) table

  -- The rows that a claim takes, before the update.
  abbrev pub taken : (ℕ → Bool) → List InboxRow
  taken locked = pick inbox_columns planner locked config.inbox_batch_size eligible

  abbrev pub claimed_table : (ℕ → Bool) → InboxTable
  claimed_table locked =
      (claim_returning inbox_columns planner locked config.inbox_batch_size until w (query w table)
        table).0

  pub taken-pending :
      (locked : ℕ → Bool) (row : InboxRow)
      → Memᴰ row (taken locked)
      → from_str row.status ≡ ok pending
  taken-pending locked row m = pending_text row (
      takes row
        (mem-batch inbox_columns inbox_laws planner lawful locked config.inbox_batch_size until w
          (query w table) table m).1)

  module _ (e : Executor) (m : IsMysql e) where
    naive_bind : (n : ℕ) → e.bind (naive_utc e (aware n utc)) ≡ n
    unfolding naive_utc
    naive_bind n = m.binds (n + 0 - 0) ∙ omega arith

    mirrored :
        (row : InboxRow)
        → mirror config e now_utc (record_of in_utc row pending) ≡ claimed_record until w row
    mirrored row = refl

    traversed :
        traverse (map_record e) (taken e.locked)
        ≡ ok (map (λ row. record_of in_utc row pending) (taken e.locked))
    traversed =
        traverse-eq-map (map_record e) _ (taken e.locked)
          (λ row h. map_record_lem e (inr m) row pending (taken-pending e.locked row h))

    -- On MySQL: the records are those of the taken rows, in their order.
    pub claim_query-IsMysql :
        claim_query e ≡ ok (claimed_table e.locked, map (claimed_record until w) (taken e.locked))
    unfolding claim_mysql claim_selected
    claim_query-IsMysql =
        rw (is_mysql-IsMysql e m, claim_mysql, naive_bind w, naive_bind until, traversed)
          (cc (
            map-map (mirror config e now_utc) (λ row. record_of in_utc row pending)
                (taken e.locked),
            claim_selected-table inbox_columns inbox_laws planner lawful e.locked
                config.inbox_batch_size until w (query w table) table,
          ))

  module _ (e : Executor) (p : IsPostgres e) where
    aware_bind : (n : ℕ) → e.bind (aware n utc) ≡ n
    aware_bind n = p.binds n utc ∙ omega arith

    abbrev pub returned : List InboxRow
    returned =
        (claim_returning inbox_columns planner e.locked config.inbox_batch_size until w
          (query w table) table).1

    pub returned_row :
        (s : InboxRow)
        → Memᴰ s returned
        → (row : InboxRow) × Memᴰ row (taken e.locked) × (s ≡ inbox_columns.set_claimed until w row)
    returned_row s m =
        mem-claim_returning inbox_columns inbox_laws planner lawful e.locked config.inbox_batch_size
          until w (query w table) table u m

    processing_text : (s : InboxRow) → Memᴰ s returned → from_str s.status ≡ ok processing
    unfolding from_str
    processing_text s m = let (row, _, same) = returned_row s m in rw same

    -- On PostgreSQL: the records are those of the returned rows, in the order of the database.
    pub claim_query-IsPostgres :
        claim_query e
        ≡ ok (claimed_table e.locked, map (λ s. record_of in_utc s processing) returned)
    unfolding claim_postgresql claim_returning
    claim_query-IsPostgres =
        rw (is_mysql-IsPostgres e p, claim_postgresql, aware_bind w, aware_bind until)
          (rw (
            traverse-eq-map (map_record e) (λ s. record_of in_utc s processing) returned
              (λ s h. map_record_lem e (inl p) s processing (processing_text s h))))

  -- The table after a claim that succeeds.
  pub claim_query-table :
      (e : Executor)
      → IsPostgres e ⊎ IsMysql e
      → (out : InboxTable × List InboxMessageRecord) → claim_query e ≡ ok out
      → out.0 ≡ claimed_table e.locked
  claim_query-table e (inl p) out h = cc (claim_query-IsPostgres e p)
  claim_query-table e (inr m) out h = cc (claim_query-IsMysql e m)
