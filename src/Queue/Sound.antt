-- ===== src/Queue/Sound.antt =====
-- The invariant of a table: ids are unique, and rows are processed in order. Each statement keeps it.
use mathlib.Core.List.Memᴰ
use mathlib.Core.Bool.{false≢true}
use pactix.Prelude.{
  ℕ, ◌≤◌, ◌≡◌, sym, ◌∙◌, inl, inr, Bool, true, false, none, List, ◌∷◌, Memᴰ, arith, if◌then◌else◌,
  Bool-cases, ap,
}
use pactix.Queue.{
  Columns, ColumnLaws, Planner, IsPlanner, is_pending, is_processing, is_open, fifo_gate,
  claim_returning, update_rows, reclaim, find,
}
use pactix.Queue.Rows.{UniqueIds, UniqueIds-update_rows}
use pactix.Queue.Claim.{UniqueIds-claim_rows}
use pactix.Queue.Lease.{UniqueIds-reclaim}
use pactix.Queue.Fifo.{InOrder, InOrder-map, KeepsOrder}
use pactix.Queue.Order.{claim_returning-InOrder, reclaim-InOrder, if_same}

-- No id stands twice, and no row is processing while an older row of its stream is pending or
-- processing.
pub record IsSound {R : Type 0} (c : Columns R) (table : List R) : Type 0 where
  pub unique : UniqueIds c table
  pub in_order : InOrder c table

-- An update of a row by its id: it keeps what orders the row, ends the processing, and reopens no
-- closed row.
pub record IsSettling {R : Type 0} (c : Columns R) (p : R → Bool) (f : R → R) (table : List R)
    : Type 0 where
  pub id : (r : R) → c.id (f r) ≡ c.id r
  pub event_type : (r : R) → c.event_type (f r) ≡ c.event_type r
  pub ordering_key : (r : R) → c.ordering_key (f r) ≡ c.ordering_key r
  pub arrived_at : (r : R) → c.arrived_at (f r) ≡ c.arrived_at r
  pub ends : (r : R) → is_processing c (f r) ≡ false
  pub opens_none : (r : R) → Memᴰ r table → p r ≡ true → is_open c (f r) ≡ true → is_open c r ≡ true

module _ {R : Type 0} (c : Columns R) (laws : ColumnLaws c) where
  update-KeepsOrder :
      (p : R → Bool) (f : R → R) (table : List R)
      → IsSettling c p f table
      → KeepsOrder c table (λ r. if p r then f r else r)
  update-KeepsOrder p f table s = record {
    event_type = λ r. if_same c laws (p r) r _ c.event_type (s.event_type r);
    ordering_key = λ r. if_same c laws (p r) r _ c.ordering_key (s.ordering_key r);
    arrived_at = λ r. if_same c laws (p r) r _ c.arrived_at (s.arrived_at r);
    opens_none = λ r m h. elim (Bool-cases (p r)) [
      | inl t ↦ s.opens_none r m t (rw t at h)
      | inr t ↦ rw t at h
    ];
    gated = λ r m h. elim (Bool-cases (p r)) [
      | inl t ↦ absurd (false≢true (sym (s.ends r) ∙ (rw t at h)))
      | inr t ↦ inl (rw t at h)
    ];
  }

  pub update-IsSound :
      (p : R → Bool) (f : R → R) (table : List R)
      → IsSettling c p f table
      → IsSound c table
      → IsSound c (update_rows p f table)
  update-IsSound p f table s sound = record {
    unique = UniqueIds-update_rows c p f table s.id sound.unique;
    in_order =
        unfold update_rows in InOrder-map c table _ (update-KeepsOrder p f table s) sound.in_order;
  }

  pub reclaim-IsSound :
      (now : ℕ) (table : List R) → IsSound c table → IsSound c (reclaim c now table).0
  reclaim-IsSound now table sound = record {
    unique = UniqueIds-reclaim c laws now table sound.unique;
    in_order = reclaim-InOrder c laws now table sound.in_order;
  }

  UniqueIds-claim_returning :
      (planner : Planner R) (locked : ℕ → Bool) (limit l n : ℕ) (test : R → Bool) (table : List R)
      → UniqueIds c table
      → UniqueIds c (claim_returning c planner locked limit l n test table).0
  unfolding claim_returning
  UniqueIds-claim_returning planner locked limit l n test table u =
      UniqueIds-claim_rows c laws _ l n table u

  -- A claim keeps the invariant when its test takes pending rows that pass the gate.
  pub claim-IsSound :
      (planner : Planner R) (lawful : IsPlanner planner) (locked : ℕ → Bool) (limit l n : ℕ)
      (test : R → Bool) (table : List R)
      → ((r : R) → test r ≡ true → is_pending c r ≡ true)
      → ((r : R) → test r ≡ true → fifo_gate c table r ≡ true)
      → IsSound c table
      → IsSound c (claim_returning c planner locked limit l n test table).0
  claim-IsSound planner lawful locked limit l n test table takes gated sound = record {
    unique = UniqueIds-claim_returning planner locked limit l n test table sound.unique;
    in_order =
        claim_returning-InOrder c laws planner lawful locked limit l n test table sound.unique takes
          gated sound.in_order;
  }

  -- A new row that is not processing, and that no row of the table is younger than, keeps it.
  pub insert-IsSound :
      (row : R) (table : List R)
      → find c (c.id row) table ≡ none
      → is_processing c row ≡ false
      → ((r : R) → Memᴰ r table → c.arrived_at r ≤ c.arrived_at row)
      → IsSound c table
      → IsSound c (row ∷ table)
  insert-IsSound row table new idle newest sound = record {
    unique = (new, sound.unique);
    in_order = λ r s mr ms stream older processing. elim (Memᴰ.cases_cons ms) [
      | inl es ↦ absurd (false≢true (sym idle ∙ (rw es at processing)))
      | inr ms' ↦ elim (Memᴰ.cases_cons mr) [
        | inl er ↦ absurd (omega (arith, newest s ms', ap c.arrived_at er))
        | inr mr' ↦ sound.in_order r s mr' ms' stream older processing
      ]
    ];
  }
