-- ===== src/Queue/Rows.antt =====
-- Rows by their ids, and what an update does to them.
use mathlib.Core.Option
use mathlib.Core.List.Memᴰ
use pactix.Prelude.{
  ℕ, ◌≡◌, refl, sym, ap, ◌∙◌, Bool, true, false, none, some, List, [], ◌∷◌, map, Memᴰ, arith, ◌==◌,
  if◌then◌else◌, Bool-cases, inl, inr, ==_iff, mem-map,
}
use pactix.Queue.{Columns, update_rows, find}

module _ {R : Type 0} (c : Columns R) where
  -- The primary key: no id stands twice.
  abbrev pub UniqueIds : List R → Type 0
  UniqueIds [] = Unit
  UniqueIds (r ∷ rows) = (find c (c.id r) rows ≡ none) × UniqueIds rows

  pub find-map :
      (g : R → R) (k : ℕ) (table : List R)
      → ((r : R) → c.id (g r) ≡ c.id r)
      → find c k (map g table) ≡ Option.map g (find c k table)
  unfolding find
  find-map g k [] keeps = refl
  find-map g k (r ∷ rows) keeps = ground (arith, keeps r, find-map g k rows keeps)

  pub if_keeps_id :
      (p : R → Bool) (f : R → R)
      → ((r : R) → c.id (f r) ≡ c.id r)
      → (r : R) → c.id (if p r then f r else r) ≡ c.id r
  if_keeps_id p f keeps r = elim (Bool-cases (p r)) [ inl t ↦ rw t (keeps r) | inr t ↦ rw t ]

  -- An update changes the row of an id exactly when that row passes its test.
  pub find-update_rows :
      (p : R → Bool) (f : R → R) (k : ℕ) (table : List R)
      → ((r : R) → c.id (f r) ≡ c.id r)
      → find c k (update_rows p f table) ≡ Option.map (λ r. if p r then f r else r) (find c k table)
  unfolding update_rows
  find-update_rows p f k table keeps =
      find-map (λ r. if p r then f r else r) k table (if_keeps_id p f keeps)

  pub find-mem :
      (k : ℕ) (table : List R) {r : R} → find c k table ≡ some r → Memᴰ r table × (c.id r ≡ k)
  unfolding find
  find-mem k [] h = cc
  find-mem k (x ∷ rows) h = elim (Bool-cases (c.id x == k)) [
    | inl t ↦ (Memᴰ.head (ground arith), ground arith)
    | inr t ↦ let (m, e) = find-mem k rows (ground arith) in (Memᴰ.tail m, e)
  ]

  find-none :
      (k : ℕ) (table : List R) {r : R} → find c k table ≡ none → Memᴰ r table → c.id r ≡ k → ⊥
  unfolding find
  find-none k [] h m e = Memᴰ.not-nil m
  find-none k (x ∷ rows) h (Memᴰ.head same) e = ground (arith, ap c.id same)
  find-none k (x ∷ rows) h (Memᴰ.tail m) e = find-none k rows (ground arith) m e

  -- With unique ids, a row of the table is the row of its id.
  pub find_of_mem :
      (table : List R) {r : R} → UniqueIds table → Memᴰ r table → find c (c.id r) table ≡ some r
  unfolding find
  find_of_mem [] u m = absurd (Memᴰ.not-nil m)
  find_of_mem (x ∷ rows) u (Memᴰ.head same) = ground (arith, same, ap c.id same)
  find_of_mem (x ∷ rows) {r} u (Memᴰ.tail m) = elim (Bool-cases (c.id x == c.id r)) [
    | inl t ↦ absurd (find-none (c.id x) rows u.0 m (sym ((==_iff _ _).0 t)))
    | inr t ↦ rw t (find_of_mem rows u.1 m)
  ]

  pub UniqueIds-map :
      (g : R → R) (table : List R)
      → ((r : R) → c.id (g r) ≡ c.id r)
      → UniqueIds table
      → UniqueIds (map g table)
  UniqueIds-map g [] keeps u = tt
  UniqueIds-map g (r ∷ rows) keeps u = (
    rw (keeps r) (find-map g (c.id r) rows keeps ∙ ap (Option.map g) u.0),
    UniqueIds-map g rows keeps u.1,
  )

  -- An update keeps the primary key.
  pub UniqueIds-update_rows :
      (p : R → Bool) (f : R → R) (table : List R)
      → ((r : R) → c.id (f r) ≡ c.id r)
      → UniqueIds table
      → UniqueIds (update_rows p f table)
  unfolding update_rows
  UniqueIds-update_rows p f table keeps u =
      UniqueIds-map (λ r. if p r then f r else r) table (if_keeps_id p f keeps) u

  -- A row after an update comes from a row before it.
  pub mem-update_rows :
      (p : R → Bool) (f : R → R) (table : List R) {s : R}
      → Memᴰ s (update_rows p f table)
      → (r : R) × Memᴰ r table × (s ≡ (if p r then f r else r))
  unfolding update_rows
  mem-update_rows p f table m = mem-map (λ r. if p r then f r else r) table m

  pub update_rows-mem :
      (p : R → Bool) (f : R → R) (table : List R) {r : R}
      → Memᴰ r table
      → p r ≡ true
      → Memᴰ (f r) (update_rows p f table)
  unfolding update_rows
  update_rows-mem p f table {r} m t =
      let h : Memᴰ (if p r then f r else r) (map (λ x. if p x then f x else x) table) =
        Memᴰ.map (λ x. if p x then f x else x) m in
      rw t at h

  -- An update whose result fails its test leaves no row that passes it.
  pub update_rows-none_left :
      (p : R → Bool) (f : R → R) (table : List R) {s : R}
      → ((r : R) → p (f r) ≡ false)
      → Memᴰ s (update_rows p f table)
      → p s ≡ false
  update_rows-none_left p f table clears m =
      let (r, _, e) = mem-update_rows p f table m in
      elim (Bool-cases (p r)) [ inl t ↦ rw (e, t) (clears r) | inr t ↦ rw (e, t) t ]
