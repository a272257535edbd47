-- ===== src/Queue/Status.antt =====
-- Statuses that a claim and a reclaim do not set.
use mathlib.Core.Option
use pactix.Prelude.{
  ℕ, ◌≡◌, ap, ◌∙◌, inl, inr, String, Option, none, some, List, [], ◌∷◌, map, arith, true, false,
  Bool, if◌then◌else◌, Bool-cases, str_eq, has_id,
}
use pactix.Queue.{
  Columns, ColumnLaws, find, reclaim, is_expired, claim_rows, update_rows, update_selected,
}
use pactix.Queue.Rows.{find-update_rows}

module _ {R : Type 0} (c : Columns R) (text : String) where
  -- The row of an id is there, with this status.
  abbrev pub has_status : Option R → Bool
  has_status none = false
  has_status (some r) = str_eq (c.status r) text

  abbrev pub HasStatus : ℕ → List R → Type 0
  HasStatus k table = has_status (find c k table) ≡ true

  update_rows-HasStatus :
      (p : R → Bool) (f : R → R) (k : ℕ) (table : List R)
      → ((r : R) → c.id (f r) ≡ c.id r)
      → ((r : R) → str_eq (c.status (f r)) text ≡ false)
      → HasStatus k (update_rows p f table)
      → HasStatus k table
  update_rows-HasStatus p f k table keeps other h =
      before (find c k table) (rw (find-update_rows c p f k table keeps) at h)
    where
      before :
          (o : Option R)
          → has_status (Option.map (λ r. if p r then f r else r) o) ≡ true
          → has_status o ≡ true
      before none h = h
      before (some r) h = elim (Bool-cases (p r)) [
        | inl t ↦ ground (arith, other r)
        | inr t ↦ rw t at h
      ]

  module _ (laws : ColumnLaws c) where
    pub reclaim-HasStatus :
        (now k : ℕ) (table : List R)
        → str_eq "pending" text ≡ false
        → HasStatus k (reclaim c now table).0
        → HasStatus k table
    unfolding reclaim
    reclaim-HasStatus now k table other =
        update_rows-HasStatus (is_expired c now) (c.set_reclaimed now) k table
          (laws.reclaimed_id now)
          (λ r. ap (λ s. str_eq s text) (laws.reclaimed_status now r) ∙ other)

    pub claim_rows-HasStatus :
        (ids : List ℕ) (l n k : ℕ) (table : List R)
        → str_eq "processing" text ≡ false
        → HasStatus k (claim_rows c ids l n table)
        → HasStatus k table
    unfolding claim_rows
    claim_rows-HasStatus ids l n k table other =
        update_rows-HasStatus (λ r. has_id (c.id r) ids) (c.set_claimed l n) k table
          (laws.claimed_id l n) (λ r. ap (λ s. str_eq s text) (laws.claimed_status l n r) ∙ other)

    pub update_selected-HasStatus :
        (l n k : ℕ) (rows table : List R)
        → str_eq "processing" text ≡ false
        → HasStatus k (update_selected c l n rows table)
        → HasStatus k table
    update_selected-HasStatus l n k [] table other h = h
    update_selected-HasStatus l n k (r ∷ rows) table other h =
        claim_rows-HasStatus (map c.id (r ∷ rows)) l n k table other h
