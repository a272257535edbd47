-- ===== src/Inbox/Store/Abstract.antt =====
-- The inbox as a client sees it: which messages of which sources it has received. `save_received` on
-- both databases implements one operation on this view.
use pactix.Prelude.{
  ℕ, ◌≡◌, refl, sym, ap, subst, fun_ext, Bool, true, false, not, ◌&&◌, ◌||◌, String, List, [], ◌∷◌,
  ok, map, str_eq, str_eq→eq, select, exists, inl, inr, ◌⊎◌, >>=-eq-ok, Bool-cases, ◌==◌, &&-true,
}
use pactix.Dialect.{DateTime, Executor, is_mysql}
use pactix.Config.{PactixConfig}
use pactix.Message.{MessageEnvelope}
use pactix.Inbox.Model.{InboxMessageRecord, new_pending}
use pactix.Inbox.Table.{
  InboxRow, InboxTable, same_receipt, collides, truncated, upsert_row, insert_ignore, one,
}
use pactix.Inbox.Store.{
  record_values, map_record, save_received, save_received_mysql, save_received_postgresql,
  ReceiveOutcome,
}
use pactix.Inbox.Store.Receipt.{kept, collides-false, select-none}
use pactix.Inbox.Store.Inserted.{new_pending-ok}
use pactix.Inbox.Store.Dedup.{received_row, Fits, truncated-Fits}

-- The abstract state: has the message of a source been received? The two are told apart by their weights
-- in the collation of the database.
abbrev pub Receipts : Type 0
Receipts = String → String → Bool

-- The abstract operation: the message is received from now on, and was new if it had not been.
abbrev pub receive : String → String → Receipts → Receipts × Bool
receive source message_id seen =
    (λ s m. (str_eq source s && str_eq message_id m) || seen s m, not (seen source message_id))

-- What a table says of this.
abbrev pub receipts : (String → String) → InboxTable → Receipts
receipts weight table source message_id =
    exists
      (λ (r : InboxRow). str_eq (weight r.source) source && str_eq (weight r.message_id) message_id)
      table

-- A receipt: nothing happens where the row's message is there, and otherwise the row is added.
abbrev pub IsReceipt : (String → String) → InboxRow → InboxTable → InboxTable → Bool → Type 0
IsReceipt weight row table table' inserted =
    ((exists (same_receipt weight row) table ≡ true) × (table' ≡ table) × (inserted ≡ false))
    ⊎ ((exists (same_receipt weight row) table ≡ false)
        × (table' ≡ row ∷ table)
        × (inserted ≡ true))

one-selected :
    {A : Type 0} (p : A → Bool) (xs : List A) (x : A)
    → one (select p xs) ≡ ok x
    → exists p xs ≡ true
unfolding one
one-selected p xs x h = elim (Bool-cases (exists p xs)) [
  | inl t ↦ t
  | inr f ↦ cc (rw (select-none p xs f) at h)
]

one-not_inserted :
    (rows : List InboxRow) (x : InboxRow × Bool)
    → one (map (λ r. (r, false)) rows) ≡ ok x
    → x.1 ≡ false
unfolding one
one-not_inserted [] x h = cc
one-not_inserted (r ∷ []) x h = cc
one-not_inserted (r ∷ q ∷ rows) x h = cc

mysql-IsReceipt :
    (e : Executor) (made : InboxMessageRecord) (row : InboxRow) (table : InboxTable)
    (out : InboxTable × ReceiveOutcome)
    → truncated e row ≡ row
    → save_received_mysql e made row table ≡ ok out
    → IsReceipt e.weight row table out.0 out.1.inserted
unfolding save_received_mysql insert_ignore
mysql-IsReceipt e made row table out fits h =
    elim (Bool-cases (exists (collides e.weight row) table)) [
      | inl t ↦
          let (r, found, rest) =
            >>=-eq-ok (one (select (same_receipt e.weight row) table)) _ (rw (fits, t) at h) in
          let (existing, _, last) = >>=-eq-ok (map_record e r) _ rest in
          inl (one-selected (same_receipt e.weight row) table r found, cc, cc)
      | inr f ↦
          inr (
            (collides-false e.weight row table f).0,
            cc (rw (fits, f) at h),
            cc (rw (fits, f) at h),
          )
    ]

upsert_row-IsReceipt :
    (weight : String → String) (row : InboxRow) (table table' : InboxTable)
    (rows : List (InboxRow × Bool)) (r : InboxRow × Bool)
    → upsert_row weight row table ≡ ok (table', rows)
    → one rows ≡ ok r
    → IsReceipt weight row table table' r.1
unfolding upsert_row one
upsert_row-IsReceipt weight row table table' rows r put found =
    elim (Bool-cases (exists (same_receipt weight row) table)) [
      | inl t ↦
          let same = rw (t, kept (same_receipt weight row) table) at put in
          inl (
            t,
            cc (same),
            one-not_inserted (select (same_receipt weight row) table) r (cc (same, found)),
          )
      | inr f ↦ elim (Bool-cases (exists (λ (old : InboxRow). old.id == row.id) table)) [
        | inl t ↦ cc (rw (f, t) at put)
        | inr g ↦
            let added = rw (f, g) at put in
            let only : rows ≡ (row, true) ∷ [] = cc (added) in
            inr (f, cc (added), cc (rw only at found))
      ]
    ]

postgresql-IsReceipt :
    (e : Executor) (row : InboxRow) (table : InboxTable) (out : InboxTable × ReceiveOutcome)
    → save_received_postgresql e row table ≡ ok out
    → IsReceipt e.weight row table out.0 out.1.inserted
unfolding save_received_postgresql
postgresql-IsReceipt e row table out h =
    let (upserted, put, rest) = >>=-eq-ok (upsert_row e.weight row table) _ h in
    let (r, found, rest') = >>=-eq-ok (one upserted.1) _ rest in
    let (stored, _, last) = >>=-eq-ok (map_record e r.0) _ rest' in
    let same_table : upserted.0 ≡ out.0 = cc (last) in
    let same_flag : r.1 ≡ out.1.inserted = cc (last) in
    subst (λ t. IsReceipt e.weight row table t out.1.inserted) same_table
      (subst (λ b. IsReceipt e.weight row table upserted.0 b) same_flag
        (upsert_row-IsReceipt e.weight row table upserted.0 upserted.1 r put found))

same_pair :
    (a b s m : String) (seen : Receipts)
    → seen a b ≡ true
    → ((str_eq a s && str_eq b m) || seen s m) ≡ seen s m
same_pair a b s m seen h = elim (Bool-cases (str_eq a s && str_eq b m)) [
  | inl t ↦
      let (p, q) = &&-true (str_eq a s) (str_eq b m) t in
      let known : seen s m ≡ true = rw (← str_eq→eq a s p, ← str_eq→eq b m q) h in
      rw (t, known) refl
  | inr f ↦ rw f refl
]

-- A receipt is the abstract operation.
IsReceipt-receive :
    (weight : String → String) (row : InboxRow) (table table' : InboxTable) (inserted : Bool)
    → IsReceipt weight row table table' inserted
    → (receipts weight table', inserted)
      ≡ receive (weight row.source) (weight row.message_id) (receipts weight table)
IsReceipt-receive weight row table table' inserted (inl (t, same, not_new)) =
    rw (same, not_new, t)
      (ap (λ f. (f, false))
        (fun_ext (λ s. fun_ext (λ m.
          sym (
            same_pair (weight row.source) (weight row.message_id) s m (receipts weight table) t)))))
IsReceipt-receive weight row table table' inserted (inr (f, same, new)) = rw (same, new, f) refl

module _ {F : Type 0} (config : PactixConfig F) (e : Executor) (id : ℕ) (now : DateTime)
    (source : String) (envelope : MessageEnvelope) (table : InboxTable)
    (out : InboxTable × ReceiveOutcome) (fits : Fits e source envelope.metadata)
    (saved : save_received config e id now source envelope table ≡ ok out) where
  pub save_received-IsReceipt :
      IsReceipt e.weight (received_row config e id now source envelope) table out.0 out.1.inserted
  unfolding save_received
  save_received-IsReceipt =
      let (made, fresh, rest) =
        >>=-eq-ok (new_pending envelope.metadata envelope.payload config.retry_policy id now source)
          _ saved in
      let is_made = new_pending-ok config e id now source envelope made fresh in
      let whole : truncated e (record_values e made) ≡ record_values e made =
        rw is_made (truncated-Fits config e id now source envelope fits) in
      rw (← is_made) (elim (Bool-cases (is_mysql e)) [
        | inl t ↦ mysql-IsReceipt e made (record_values e made) table out whole (rw t at rest)
        | inr f ↦ postgresql-IsReceipt e (record_values e made) table out (rw f at rest)
      ])

  -- Whenever `save_received` returns, on either dialect and from any table, for a message whose texts fit
  -- into the columns, it has done the abstract operation on the weights of the source and the message
  -- id in the collation of the database: the table says of every other message what it said before and
  -- that this one is received, and the outcome says that it was inserted exactly if it had not been
  -- received before.
  pub save_received_refines :
      (receipts e.weight out.0, out.1.inserted)
      ≡ receive (e.weight source) (e.weight envelope.metadata.message_id) (receipts e.weight table)
  unfolding record_values
  save_received_refines =
      IsReceipt-receive e.weight (received_row config e id now source envelope) table out.0
        out.1.inserted save_received-IsReceipt
