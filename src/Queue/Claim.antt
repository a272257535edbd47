-- ===== src/Queue/Claim.antt =====
-- The claim and reclaim statements: which rows they change, what they return, and that the PostgreSQL
-- and the MySQL form agree.
use mathlib.Core.List.Memᴰ
use mathlib.Core.List.Permᴰ
use pactix.Prelude.{
  ℕ, ◌≡◌, refl, sym, ap, ◌∙◌, subst, Bool, true, false, some, List, [], ◌∷◌, map, Memᴰ,
  if◌then◌else◌, select, has_id, mem-select, mem-select_of_mem, mem-perm, mem-map, has_id-mem,
  mem-has_id,
}
use mathlib.Core.Option.{some-injective}
use pactix.Queue.{
  Columns, ColumnLaws, Planner, IsPlanner, pick, claim_rows, claim_returning, claim_selected,
  update_selected, find,
}
use pactix.Queue.Rows.{
  UniqueIds, find_of_mem, mem-update_rows, if_keeps_id, UniqueIds-update_rows, update_rows-mem,
}
use pactix.Queue.Pick.{mem-pick}

mem-map_of_mem :
    {A B : Type 0} (f : A → B) {a : A} {xs : List A} → Memᴰ a xs → Memᴰ (f a) (map f xs)
mem-map_of_mem f m = Memᴰ.map f m

map_same : {A : Type 0} (f : A → A) (xs : List A) → ((x : A) → f x ≡ x) → map f xs ≡ xs
map_same f [] h = refl
map_same f (x ∷ xs) h = cc (h x, map_same f xs h)

module _ {R : Type 0} (c : Columns R) (laws : ColumnLaws c) where
  pub UniqueIds-claim_rows :
      (ids : List ℕ) (l n : ℕ) (table : List R)
      → UniqueIds c table
      → UniqueIds c (claim_rows c ids l n table)
  unfolding claim_rows
  UniqueIds-claim_rows ids l n table u =
      UniqueIds-update_rows c (λ r. has_id (c.id r) ids) (c.set_claimed l n) table
        (laws.claimed_id l n) u

  -- A row after a claim is a claimed row of the batch, or a row outside the batch, unchanged.
  pub mem-claim_rows :
      (ids : List ℕ) (l n : ℕ) (table : List R) {s : R}
      → Memᴰ s (claim_rows c ids l n table)
      → (r : R) × Memᴰ r table
        × (c.id s ≡ c.id r)
        × (s ≡ (if has_id (c.id r) ids then c.set_claimed l n r else r))
  unfolding claim_rows
  mem-claim_rows ids l n table m =
      let (r, h, e) = mem-update_rows c (λ r. has_id (c.id r) ids) (c.set_claimed l n) table m in
      (
        r,
        h,
        ap c.id e
            ∙ if_keeps_id c (λ r. has_id (c.id r) ids) (c.set_claimed l n) (laws.claimed_id l n) r,
        e,
      )

  pub same_row :
      (table : List R) {r s : R}
      → UniqueIds c table
      → Memᴰ r table
      → Memᴰ s table
      → c.id r ≡ c.id s
      → r ≡ s
  same_row table {r} {s} u mr ms e =
      some-injective r s
        (sym (find_of_mem c table u mr) ∙ ap (λ k. find c k table) e ∙ find_of_mem c table u ms)

  module _ (planner : Planner R) (lawful : IsPlanner planner) (locked : ℕ → Bool) (limit l n : ℕ)
      (test : R → Bool) (table : List R) where
    abbrev pub batch : List R
    batch = pick c planner locked limit (select test table)

    abbrev pub batch_ids : List ℕ
    batch_ids = map c.id batch

    pub mem-batch :
        {r : R} → Memᴰ r batch → Memᴰ r table × (test r ≡ true) × (locked (c.id r) ≡ false)
    mem-batch m =
        let (h, free) = mem-pick c planner lawful locked limit (select test table) m in
        let (inside, passes) = mem-select test table h in (inside, passes, free)

    pub batch_of_id :
        {r : R} → UniqueIds c table → Memᴰ r table → has_id (c.id r) batch_ids ≡ true → Memᴰ r batch
    batch_of_id u m h =
        let (s, picked, e) = mem-map c.id batch (has_id-mem _ batch_ids h) in
        subst (λ x. Memᴰ x batch) (same_row table u (mem-batch picked).0 m (sym e)) picked

    -- What a PostgreSQL claim returns: rows of the table that passed the test and that no other
    -- transaction held, each with its status, lease and update time set.
    pub mem-claim_returning :
        {s : R}
        → UniqueIds c table
        → Memᴰ s (claim_returning c planner locked limit l n test table).1
        → (r : R) × Memᴰ r batch × (s ≡ c.set_claimed l n r)
    unfolding claim_returning
    mem-claim_returning u m =
        let (h, t) =
          mem-select (λ r. has_id (c.id r) batch_ids) _ (mem-perm (lawful.returning-perm _) m) in
        let (r, inside, same, e) = mem-claim_rows batch_ids l n table h in
        let t' : has_id (c.id r) batch_ids ≡ true = rw same at t in
        (r, batch_of_id u inside t', rw t' at e)

    pub claim_returning-mem :
        {r : R}
        → Memᴰ r batch
        → Memᴰ (c.set_claimed l n r) (claim_returning c planner locked limit l n test table).1
    unfolding claim_returning claim_rows
    claim_returning-mem {r} m =
        let chosen : has_id (c.id r) batch_ids ≡ true =
          mem-has_id batch_ids (mem-map_of_mem c.id m) in
        mem-perm (Permᴰ.symm (lawful.returning-perm _)) (
          mem-select_of_mem (λ r. has_id (c.id r) batch_ids) _
            (update_rows-mem c (λ r. has_id (c.id r) batch_ids) (c.set_claimed l n) table
              (mem-batch m).0 chosen)
            (rw (laws.claimed_id l n r) chosen))

    -- The MySQL pair of statements leaves the table that the PostgreSQL statement leaves.
    pub claim_selected-table :
        (claim_selected c planner locked limit l n test table).0
        ≡ (claim_returning c planner locked limit l n test table).0
    unfolding claim_selected claim_returning
    claim_selected-table = same batch
      where
        same :
            (rows : List R)
            → update_selected c l n rows table ≡ claim_rows c (map c.id rows) l n table
        same [] = sym (map_same _ table (λ x. refl))
        same (r ∷ rows) = refl

    -- The rows that MySQL selects are those that PostgreSQL returns, before the update.
    pub claim_selected-rows :
        UniqueIds c table
        → ((s : R)
            → Memᴰ s (claim_returning c planner locked limit l n test table).1
            → (r : R) × Memᴰ r (claim_selected c planner locked limit l n test table).1
              × (s ≡ c.set_claimed l n r))
          × ((r : R)
              → Memᴰ r (claim_selected c planner locked limit l n test table).1
              → Memᴰ
                  (c.set_claimed l n r)
                  (claim_returning c planner locked limit l n test table).1)
    unfolding claim_selected
    claim_selected-rows u = (λ s m. mem-claim_returning u m, λ r m. claim_returning-mem m)

    -- Every claimed row stands in the new table, is processing and leased until `l`.
    pub claimed_state :
        {s : R}
        → UniqueIds c table
        → Memᴰ s (claim_returning c planner locked limit l n test table).1
        → Memᴰ s (claim_returning c planner locked limit l n test table).0
          × (c.status s ≡ "processing")
          × (c.lease_until s ≡ some l)
    unfolding claim_returning
    claimed_state u m =
        let (r, _, e) = mem-claim_returning u m in
        (
          (mem-select (λ r. has_id (c.id r) batch_ids) _ (mem-perm (lawful.returning-perm _) m)).0,
          rw e (laws.claimed_status l n r),
          rw e (laws.claimed_lease l n r),
        )
