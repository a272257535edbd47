-- ===== src/Queue/Order.antt =====
-- The claim and reclaim statements keep a table in order (`InOrder` of Queue/Fifo).
use pactix.Prelude.{
  ℕ, ◌≡◌, refl, sym, ◌∙◌, ◌⊎◌, inl, inr, Bool, true, false, List, Memᴰ, arith, if◌then◌else◌,
  Bool-cases, has_id,
}
use pactix.Queue.{
  Columns, ColumnLaws, Planner, IsPlanner, is_pending, is_processing, is_open, fifo_gate,
  claim_returning, claim_rows, update_rows, reclaim, is_expired,
}
use pactix.Queue.Claim.{batch_ids, mem-batch, batch_of_id}
use pactix.Queue.Fifo.{InOrder, InOrder-map, KeepsOrder, pending-open}
use mathlib.Core.Bool.{false≢true}
use pactix.Queue.Rows.{UniqueIds}

module _ {R : Type 0} (c : Columns R) (laws : ColumnLaws c) where
  pub if_same :
      {A : Type 0} (b : Bool) (r r' : R) (f : R → A) → f r' ≡ f r → f (if b then r' else r) ≡ f r
  if_same true r r' f h = h
  if_same false r r' f h = refl

  module _ (planner : Planner R) (lawful : IsPlanner planner) (locked : ℕ → Bool) (limit l n : ℕ)
      (test : R → Bool) (table : List R) (u : UniqueIds c table)
      (takes : (r : R) → test r ≡ true → is_pending c r ≡ true)
      (gated : (r : R) → test r ≡ true → fifo_gate c table r ≡ true) where
    abbrev mark : R → R
    mark r =
        if has_id (c.id r) (batch_ids c laws planner lawful locked limit l n test table)
        then c.set_claimed l n r
        else r

    mark_cases : (r : R) → Memᴰ r table → (test r ≡ true) ⊎ (mark r ≡ r)
    mark_cases r m =
        elim (Bool-cases
          (has_id (c.id r) (batch_ids c laws planner lawful locked limit l n test table))) [
            | inl t ↦
                let picked = batch_of_id c laws planner lawful locked limit l n test table u m t in
                inl (mem-batch c laws planner lawful locked limit l n test table picked).1
            | inr f ↦ inr (rw f)
          ]

    mark-KeepsOrder : KeepsOrder c table mark
    mark-KeepsOrder = record {
      event_type = λ r. if_same _ r _ c.event_type (laws.claimed_event_type l n r);
      ordering_key = λ r. if_same _ r _ c.ordering_key (laws.claimed_ordering_key l n r);
      arrived_at = λ r. if_same _ r _ c.arrived_at (laws.claimed_arrived_at l n r);
      opens_none = λ r m h. elim (mark_cases r m) [
        | inl t ↦ pending-open c r (takes r t)
        | inr e ↦ rw e at h
      ];
      gated = λ r m h. elim (mark_cases r m) [ inl t ↦ inr (gated r t) | inr e ↦ inl (rw e at h) ];
    }

    -- A claim whose test includes the gate keeps the table in order.
    pub claim_returning-InOrder :
        InOrder c table → InOrder c (claim_returning c planner locked limit l n test table).0
    unfolding claim_returning claim_rows update_rows
    claim_returning-InOrder ordered = InOrder-map c table mark mark-KeepsOrder ordered

  reclaimed-pending : (now : ℕ) (r : R) → is_processing c (c.set_reclaimed now r) ≡ false
  unfolding is_processing
  reclaimed-pending now r = rw (is_processing, laws.reclaimed_status now r)

  expired-open : (now : ℕ) (r : R) → is_expired c now r ≡ true → is_open c r ≡ true
  unfolding is_expired is_open
  expired-open now r h = ground arith

  reclaim-KeepsOrder :
      (now : ℕ) (table : List R)
      → KeepsOrder c table (λ r. if is_expired c now r then c.set_reclaimed now r else r)
  reclaim-KeepsOrder now table = record {
    event_type = λ r. if_same _ r _ c.event_type (laws.reclaimed_event_type now r);
    ordering_key = λ r. if_same _ r _ c.ordering_key (laws.reclaimed_ordering_key now r);
    arrived_at = λ r. if_same _ r _ c.arrived_at (laws.reclaimed_arrived_at now r);
    opens_none = λ r m h. elim (Bool-cases (is_expired c now r)) [
      | inl t ↦ expired-open now r t
      | inr f ↦ rw f at h
    ];
    gated = λ r m h. elim (Bool-cases (is_expired c now r)) [
      | inl t ↦ absurd (false≢true (sym (reclaimed-pending now r) ∙ (rw t at h)))
      | inr f ↦ inl (rw f at h)
    ];
  }

  -- A reclaim keeps the table in order.
  pub reclaim-InOrder :
      (now : ℕ) (table : List R) → InOrder c table → InOrder c (reclaim c now table).0
  unfolding reclaim update_rows
  reclaim-InOrder now table ordered = InOrder-map c table _ (reclaim-KeepsOrder now table) ordered
