-- ===== src/Queue.antt =====
-- The claim and update statements that src/pactix/outbox/store.py and src/pactix/inbox/store.py share,
-- over any table of rows. The two stores name the columns (`Columns`); the arrival time is
-- `created_at` in the outbox and `received_at` in the inbox.
-- What the database chooses is `Planner`: how `ORDER BY` breaks ties and in which order an `UPDATE`
-- returns its rows; `locked` tells the rows that other transactions hold.
pub mod Rows
pub mod Pick
pub mod Claim
pub mod Lease
pub mod Fifo
pub mod Order
pub mod Sound
pub mod Status
use pactix.Prelude.{
  ℕ, zero, suc, ◌≤◌, ◌≡◌, Bool, true, false, not, ◌&&◌, ◌||◌, Option, none, some, String, List, [],
  ◌∷◌, map, Memᴰ, Permᴰ, str_eq, ltb, leb, ◌==◌, if◌then◌else◌, length, take, select, exists,
  has_id,
}

pub record Columns (R : Type 0) : Type 0 where
  pub id : R → ℕ
  pub status : R → String
  pub available_at : R → ℕ
  pub lease_until : R → Option ℕ
  pub event_type : R → String
  pub ordering_key : R → Option String
  pub arrived_at : R → ℕ
  -- SET status = 'processing', lease_until = ..., updated_at = ...
  pub set_claimed : ℕ → ℕ → R → R
  -- SET status = 'pending', lease_until = NULL, updated_at = ...
  pub set_reclaimed : ℕ → R → R

-- SQL's `=` on texts that may be NULL.
abbrev pub same_key : Option String → Option String → Bool
same_key none _ = false
same_key (some j) none = false
same_key (some j) (some k) = str_eq j k

abbrev pub is_null : Option String → Bool
is_null none = true
is_null (some _) = false

abbrev pub expired : ℕ → Option ℕ → Bool
expired now none = false
expired now (some lease) = ltb lease now

-- UPDATE ... WHERE p, and its row count.
unfoldable pub update_rows : {R : Type 0} → (R → Bool) → (R → R) → List R → List R
update_rows p f table = map (λ r. if p r then f r else r) table

unfoldable pub rowcount : {R : Type 0} → (R → Bool) → List R → ℕ
rowcount p table = length (select p table)

-- What keys of a list ascend: `ORDER BY ... ASC`.
abbrev pub Ascending : {R : Type 0} → (R → ℕ) → List R → Type 0
Ascending key [] = Unit
Ascending key (x ∷ xs) = ((y : _) → Memᴰ y xs → key x ≤ key y) × Ascending key xs

pub record Planner (R : Type 0) : Type 0 where
  pub order_by : (R → ℕ) → List R → List R
  pub returning : List R → List R

pub record IsPlanner {R : Type 0} (planner : Planner R) : Type 0 where
  pub order_by-perm : (key : R → ℕ) (rows : List R) → Permᴰ (planner.order_by key rows) rows
  pub order_by-Ascending : (key : R → ℕ) (rows : List R) → Ascending key (planner.order_by key rows)
  pub returning-perm : (rows : List R) → Permᴰ (planner.returning rows) rows

module _ {R : Type 0} (c : Columns R) where
  open c use {id, status, available_at, lease_until, event_type, ordering_key, arrived_at}

  unfoldable pub is_pending : R → Bool
  is_pending r = str_eq (status r) "pending"

  unfoldable pub is_processing : R → Bool
  is_processing r = str_eq (status r) "processing"

  -- status IN ('pending', 'processing')
  unfoldable pub is_open : R → Bool
  unfolding is_pending is_processing
  is_open r = is_pending r || is_processing r

  -- status = 'pending' AND available_at <= :now
  unfoldable pub is_ready : ℕ → R → Bool
  unfolding is_pending
  is_ready now r = is_pending r && leb (available_at r) now

  unfoldable pub same_stream : R → R → Bool
  same_stream older candidate =
      str_eq (event_type older) (event_type candidate)
      && same_key (ordering_key older) (ordering_key candidate)

  -- the row that `NOT EXISTS (SELECT 1 ...)` looks for
  unfoldable pub blocks : R → R → Bool
  unfolding same_stream is_open
  blocks candidate older =
      same_stream older candidate
      && (ltb (arrived_at older) (arrived_at candidate) && is_open older)

  -- candidate.ordering_key IS NULL OR NOT EXISTS (...)
  unfoldable pub fifo_gate : List R → R → Bool
  unfolding blocks
  fifo_gate table candidate =
      is_null (ordering_key candidate) || not (exists (blocks candidate) table)

  unfoldable pub ready_fifo : ℕ → List R → R → Bool
  unfolding is_ready fifo_gate
  ready_fifo now table r = is_ready now r && fifo_gate table r

  -- ORDER BY arrived_at ASC LIMIT :limit FOR UPDATE SKIP LOCKED
  unfoldable pub pick : Planner R → (ℕ → Bool) → ℕ → List R → List R
  pick planner locked limit rows =
      take limit (select (λ r. not (locked (id r))) (planner.order_by arrived_at rows))

  -- UPDATE ... SET status = 'processing' ... WHERE id IN (...)
  unfoldable pub claim_rows : List ℕ → ℕ → ℕ → List R → List R
  unfolding update_rows
  claim_rows ids lease now = update_rows (λ r. has_id (id r) ids) (c.set_claimed lease now)

  -- The PostgreSQL statement: select, update and return the updated rows, in one.
  unfoldable pub claim_returning :
      Planner R → (ℕ → Bool) → ℕ → ℕ → ℕ → (R → Bool) → List R → List R × List R
  unfolding pick claim_rows
  claim_returning planner locked limit lease now test table =
      let ids = map id (pick planner locked limit (select test table)) in
      let table' = claim_rows ids lease now table in
      (table', planner.returning (select (λ r. has_id (id r) ids) table'))

  -- The MySQL pair: the selected rows, and the table after the `UPDATE`, which is skipped when no row
  -- was selected.
  abbrev pub update_selected : ℕ → ℕ → List R → List R → List R
  update_selected lease now [] table = table
  update_selected lease now (r ∷ rows) table = claim_rows (map id (r ∷ rows)) lease now table

  unfoldable pub claim_selected :
      Planner R → (ℕ → Bool) → ℕ → ℕ → ℕ → (R → Bool) → List R → List R × List R
  unfolding pick claim_rows
  claim_selected planner locked limit lease now test table =
      let rows = pick planner locked limit (select test table) in
      (update_selected lease now rows table, rows)

  -- status = 'processing' AND lease_until < :now
  unfoldable pub is_expired : ℕ → R → Bool
  unfolding is_processing
  is_expired now r = is_processing r && expired now (lease_until r)

  unfoldable pub reclaim : ℕ → List R → List R × ℕ
  unfolding update_rows rowcount is_expired
  reclaim now table =
      (update_rows (is_expired now) (c.set_reclaimed now) table, rowcount (is_expired now) table)

  -- The row of an id.
  unfoldable pub find : ℕ → List R → Option R
  find k [] = none
  find k (r ∷ rows) = if id r == k then some r else find k rows

-- What the two updates leave alone, and what they set.
pub record ColumnLaws {R : Type 0} (c : Columns R) : Type 0 where
  pub claimed_id : (l n : ℕ) (r : R) → c.id (c.set_claimed l n r) ≡ c.id r
  pub claimed_status : (l n : ℕ) (r : R) → c.status (c.set_claimed l n r) ≡ "processing"
  pub claimed_lease : (l n : ℕ) (r : R) → c.lease_until (c.set_claimed l n r) ≡ some l
  pub claimed_event_type : (l n : ℕ) (r : R) → c.event_type (c.set_claimed l n r) ≡ c.event_type r
  pub claimed_ordering_key :
      (l n : ℕ) (r : R) → c.ordering_key (c.set_claimed l n r) ≡ c.ordering_key r
  pub claimed_arrived_at : (l n : ℕ) (r : R) → c.arrived_at (c.set_claimed l n r) ≡ c.arrived_at r
  pub reclaimed_id : (n : ℕ) (r : R) → c.id (c.set_reclaimed n r) ≡ c.id r
  pub reclaimed_status : (n : ℕ) (r : R) → c.status (c.set_reclaimed n r) ≡ "pending"
  pub reclaimed_lease : (n : ℕ) (r : R) → c.lease_until (c.set_reclaimed n r) ≡ none
  pub reclaimed_event_type : (n : ℕ) (r : R) → c.event_type (c.set_reclaimed n r) ≡ c.event_type r
  pub reclaimed_ordering_key :
      (n : ℕ) (r : R) → c.ordering_key (c.set_reclaimed n r) ≡ c.ordering_key r
  pub reclaimed_arrived_at : (n : ℕ) (r : R) → c.arrived_at (c.set_reclaimed n r) ≡ c.arrived_at r
