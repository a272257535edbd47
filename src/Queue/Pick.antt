-- ===== src/Queue/Pick.antt =====
-- Which rows `ORDER BY ... LIMIT ... FOR UPDATE SKIP LOCKED` selects.
use mathlib.Core.List.Memᴰ
use pactix.Prelude.{
  ℕ, zero, suc, ◌≤◌, ◌<◌, ◌≡◌, ◌⊎◌, inl, inr, Bool, true, false, not, List, [], ◌∷◌, Memᴰ, arith,
  length, take, select, mem-take, mem-select, mem-select_of_mem, mem-perm, length-take-le,
  Bool-cases,
}
use mathlib.Core.List.Permᴰ
use pactix.Queue.{Columns, Planner, IsPlanner, Ascending, pick}

not-false : (b : Bool) → not b ≡ true → b ≡ false
not-false b h = ground arith

false-not : (b : Bool) → b ≡ false → not b ≡ true
false-not b h = ground arith

module _ {R : Type 0} (key : R → ℕ) where
  Ascending-select : (p : R → Bool) (xs : List R) → Ascending key xs → Ascending key (select p xs)
  Ascending-select p [] a = tt
  Ascending-select p (x ∷ xs) a = elim (Bool-cases (p x)) [
    | inl t ↦ rw t (λ y m. a.0 y (mem-select p xs m).0, Ascending-select p xs a.1)
    | inr t ↦ rw t (Ascending-select p xs a.1)
  ]

  -- In an ascending list, an element is among the first `n` or not below any of them.
  take-least :
      (n : ℕ) (xs : List R) {s : R}
      → Ascending key xs
      → Memᴰ s xs
      → Memᴰ s (take n xs) ⊎ ((r : R) → Memᴰ r (take n xs) → key r ≤ key s)
  take-least n [] a m = absurd (Memᴰ.not-nil m)
  take-least zero (x ∷ xs) a m = inr (λ r h. absurd (Memᴰ.not-nil h))
  take-least (suc n) (x ∷ xs) a (Memᴰ.head e) = inl (Memᴰ.head e)
  take-least (suc n) (x ∷ xs) {s} a (Memᴰ.tail m) = elim (take-least n xs a.1 m) [
    | inl h ↦ inl (Memᴰ.tail h)
    | inr low ↦ inr (λ r h. elim (Memᴰ.cases_cons h) [ inl e ↦ rw e (a.0 s m) | inr h' ↦ low r h' ])
  ]

module _ {R : Type 0} (c : Columns R) (planner : Planner R) (lawful : IsPlanner planner)
    (locked : ℕ → Bool) (limit : ℕ) (rows : List R) where
  -- A picked row is one of the rows, and no other transaction holds it.
  pub mem-pick :
      {r : R} → Memᴰ r (pick c planner locked limit rows) → Memᴰ r rows × (locked (c.id r) ≡ false)
  unfolding pick
  mem-pick {r} m =
      let (h, free) =
        mem-select (λ x. not (locked (c.id x))) (planner.order_by c.arrived_at rows)
          (mem-take limit _ m) in
      (mem-perm (lawful.order_by-perm c.arrived_at rows) h, not-false _ free)

  pub length-pick-le : length (pick c planner locked limit rows) ≤ limit
  unfolding pick
  length-pick-le = length-take-le limit _

  -- A row that no other transaction holds is picked, or none of the picked rows arrived after it.
  pick_oldest :
      {s : R}
      → Memᴰ s rows
      → locked (c.id s) ≡ false
      → Memᴰ s (pick c planner locked limit rows)
        ⊎ ((r : R) → Memᴰ r (pick c planner locked limit rows) → c.arrived_at r ≤ c.arrived_at s)
  unfolding pick
  pick_oldest m free =
      take-least c.arrived_at limit _
        (Ascending-select c.arrived_at _ _ (lawful.order_by-Ascending c.arrived_at rows))
        (mem-select_of_mem (λ x. not (locked (c.id x))) _
          (mem-perm (Permᴰ.symm (lawful.order_by-perm c.arrived_at rows)) m) (false-not _ free))

  -- With room in the batch, a free row makes the batch non-empty.
  pub pick_nonempty :
      {s : R}
      → Memᴰ s rows
      → locked (c.id s) ≡ false
      → 0 < limit
      → 0 < length (pick c planner locked limit rows)
  unfolding pick
  pick_nonempty m free room = nonempty limit room _ (
      mem-select_of_mem (λ x. not (locked (c.id x))) _
        (mem-perm (Permᴰ.symm (lawful.order_by-perm c.arrived_at rows)) m) (false-not _ free))
    where
      nonempty : (n : ℕ) → 0 < n → (xs : List R) {x : R} → Memᴰ x xs → 0 < length (take n xs)
      nonempty zero room xs m = absurd (omega arith)
      nonempty (suc n) room [] m = absurd (Memᴰ.not-nil m)
      nonempty (suc n) room (x ∷ xs) m = omega arith
