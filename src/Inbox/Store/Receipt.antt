-- ===== src/Inbox/Store/Receipt.antt =====
-- `save_received`: a message is stored once for each source and message id.
use pactix.Prelude.{
  ◌≡◌, refl, sym, ap, ◌∙◌, Bool, true, false, String, List, [], ◌∷◌, Memᴰ, ok, arith, str_eq,
  select, exists, exists-false, Bool-cases, inl, inr, ◌==◌, &&-true, str_eq→eq,
}
use mathlib.Core.Bool.{false≢true}
use pactix.Queue.{update_rows}
use pactix.Inbox.Table.{InboxRow, InboxTable, same_receipt, collides, upsert_row}

pub select-none : {A : Type 0} (p : A → Bool) (xs : List A) → exists p xs ≡ false → select p xs ≡ []
select-none p [] h = refl
select-none p (x ∷ xs) h = ground (arith, select-none p xs)

exists-same :
    {A : Type 0} (p q : A → Bool) (xs : List A) → ((x : A) → p x ≡ q x) → exists p xs ≡ exists q xs
exists-same p q [] h = refl
exists-same p q (x ∷ xs) h = cc (h x, exists-same p q xs h)

pub exists-of_mem :
    {A : Type 0} (p : A → Bool) {a : A} (xs : List A) → Memᴰ a xs → p a ≡ true → exists p xs ≡ true
exists-of_mem p [] m t = elim m [ ]
exists-of_mem p (x ∷ xs) (Memᴰ.head e) t = let here : p x ≡ true = rw (← e) t in rw here
exists-of_mem p (x ∷ xs) (Memᴰ.tail m) t = ground (arith, exists-of_mem p xs m t)

-- The update of the upsert sets a column to itself.
pub kept :
    (p : InboxRow → Bool) (table : InboxTable)
    → update_rows p (λ r. record r { source = r.source }) table ≡ table
unfolding update_rows
kept p [] = refl
kept p (r ∷ rows) = elim (Bool-cases (p r)) [
  | inl t ↦ rw t (ap (λ l. r ∷ l) (kept p rows))
  | inr f ↦ rw f (ap (λ l. r ∷ l) (kept p rows))
]

-- In a collation of texts, by their weights.
module _ (weight : String → String) where
  -- The unique constraint: no source and message id stand twice.
  abbrev pub UniqueReceipts : InboxTable → Type 0
  UniqueReceipts [] = Unit
  UniqueReceipts (r ∷ rows) = (exists (same_receipt weight r) rows ≡ false) × UniqueReceipts rows

  same_receipt_trans :
      (a b r : InboxRow)
      → same_receipt weight a b ≡ true
      → same_receipt weight b r ≡ same_receipt weight a r
  same_receipt_trans a b r h =
      let (s, m) = &&-true (str_eq (weight b.source) (weight a.source)) _ h in
      cc (
        str_eq→eq (weight b.source) (weight a.source) s,
        str_eq→eq (weight b.message_id) (weight a.message_id) m,
      )

  -- In a table that keeps the constraint, one row at most has a given source and message id.
  pub select-one :
      (row old : InboxRow) (table : InboxTable)
      → UniqueReceipts table
      → Memᴰ old table
      → same_receipt weight row old ≡ true
      → select (same_receipt weight row) table ≡ old ∷ []
  select-one row old [] u m h = elim m [ ]
  select-one row old (x ∷ rows) u (Memᴰ.head e) h =
      let here : same_receipt weight row x ≡ true = rw (← e) h in
      let none_else : exists (same_receipt weight row) rows ≡ false =
        sym (
          exists-same (same_receipt weight x) (same_receipt weight row) rows
            (λ r. same_receipt_trans row x r here))
        ∙ u.0 in
      rw (here, select-none (same_receipt weight row) rows none_else) (ap (λ r. r ∷ []) (sym e))
  select-one row old (x ∷ rows) u (Memᴰ.tail m) h = elim (Bool-cases (same_receipt weight row x)) [
    | inl t ↦
        let apart = exists-false (same_receipt weight x) rows u.0 m in
        absurd (false≢true (sym apart ∙ same_receipt_trans row x old t ∙ h))
    | inr f ↦ rw f (select-one row old rows u.1 m h)
  ]

  pub collides-false :
      (row : InboxRow) (table : InboxTable)
      → exists (collides weight row) table ≡ false
      → (exists (same_receipt weight row) table ≡ false)
        × (exists (λ old. old.id == row.id) table ≡ false)
  collides-false row [] h = (refl, refl)
  collides-false row (x ∷ rows) h =
      let (a, b) = collides-false row rows (ground arith) in (ground arith, ground arith)

  pub collides-receipt :
      (row : InboxRow) (table : InboxTable)
      → exists (same_receipt weight row) table ≡ true
      → exists (collides weight row) table ≡ true
  collides-receipt row [] h = h
  collides-receipt row (x ∷ rows) h = ground (arith, collides-receipt row rows)

  pub upsert_row_new :
      (row : InboxRow) (table : InboxTable)
      → exists (collides weight row) table ≡ false
      → upsert_row weight row table ≡ ok (row ∷ table, (row, true) ∷ [])
  unfolding upsert_row
  upsert_row_new row table h = let (a, b) = collides-false row table h in rw (upsert_row, a, b)

  pub upsert_row_duplicate :
      (row old : InboxRow) (table : InboxTable)
      → UniqueReceipts table
      → Memᴰ old table
      → same_receipt weight row old ≡ true
      → upsert_row weight row table ≡ ok (table, (old, false) ∷ [])
  unfolding upsert_row
  upsert_row_duplicate row old table u m h = rw (
    upsert_row,
    exists-of_mem (same_receipt weight row) table m h,
    kept (same_receipt weight row) table,
    select-one row old table u m h,
  )
