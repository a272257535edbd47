-- ===== src/Queue/Lease.antt =====
-- Leases: a claimed row is not claimed again before it is reclaimed, and a reclaim ends the expired
-- leases and no others.
use mathlib.Core.Option
use pactix.Prelude.{ℕ, ◌≡◌, ◌≢◌, ap, Bool, true, false, List, Memᴰ, if◌then◌else◌, select, ◌∙◌}
use pactix.Queue.{
  Columns, ColumnLaws, Planner, IsPlanner, is_pending, is_processing, pick, claim_returning, find,
  is_expired, reclaim,
}
use pactix.Queue.Rows.{UniqueIds, find-update_rows, UniqueIds-update_rows, update_rows-none_left}
use pactix.Queue.Claim.{mem-batch, same_row, claimed_state, UniqueIds-claim_rows}

module _ {R : Type 0} (c : Columns R) (laws : ColumnLaws c) where
  pub pending-ne_processing : {s : R} → is_pending c s ≡ true → c.status s ≢ "processing"
  unfolding is_pending
  pending-ne_processing h e = cc (rw e at h)

  -- With unique ids, a row that a claim returned is not selected by a claim that follows it in the
  -- table which the first left: whatever the locks, limits and plans of the two, if the second
  -- takes pending rows only.
  pub no_double_claim :
      (p q : Planner R) (lawful_p : IsPlanner p) (lawful_q : IsPlanner q) (locked other : ℕ → Bool)
      (limit limit' l n : ℕ) (test test' : R → Bool) (table : List R) {r s : R}
      → UniqueIds c table
      → ((x : R) → test' x ≡ true → is_pending c x ≡ true)
      → let after = claim_returning c p locked limit l n test table in
        Memᴰ s after.1 → Memᴰ r (pick c q other limit' (select test' after.0)) → c.id r ≢ c.id s
  unfolding claim_returning
  no_double_claim p q lawful_p lawful_q locked other limit limit' l n test test' table u takes ms mr
        same =
      let (inside, status, _) = claimed_state c laws p lawful_p locked limit l n test table u ms in
      let (there, passes, _) = mem-batch c laws q lawful_q other limit' l n test' _ mr in
      let row = same_row c laws _ (UniqueIds-claim_rows c laws _ l n table u) there inside same in
      pending-ne_processing (takes _ passes) (ap c.status row ∙ status)

  not-expired-reclaimed : (now : ℕ) (r : R) → is_expired c now (c.set_reclaimed now r) ≡ false
  unfolding is_expired
  not-expired-reclaimed now r = rw (is_expired, is_processing, laws.reclaimed_status now r)

  -- After a reclaim at `now` no processing row has a lease that ended before `now`.
  pub reclaim-none_expired :
      (now : ℕ) (table : List R) {s : R}
      → Memᴰ s (reclaim c now table).0
      → is_expired c now s ≡ false
  unfolding reclaim
  reclaim-none_expired now table m =
      update_rows-none_left c (is_expired c now) (c.set_reclaimed now) table
        (not-expired-reclaimed now) m

  -- A reclaim makes the row of an id pending, without a lease, exactly when it is processing with
  -- an expired lease, and leaves any other row as it is.
  find-reclaim :
      (now k : ℕ) (table : List R)
      → find c k (reclaim c now table).0
        ≡ Option.map (λ r. if is_expired c now r then c.set_reclaimed now r else r) (find c k table)
  unfolding reclaim
  find-reclaim now k table =
      find-update_rows c (is_expired c now) (c.set_reclaimed now) k table (laws.reclaimed_id now)

  pub UniqueIds-reclaim :
      (now : ℕ) (table : List R) → UniqueIds c table → UniqueIds c (reclaim c now table).0
  unfolding reclaim
  UniqueIds-reclaim now table u =
      UniqueIds-update_rows c (is_expired c now) (c.set_reclaimed now) table (laws.reclaimed_id now)
        u
