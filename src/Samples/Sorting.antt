-- ===== src/Samples/Sorting.antt =====
-- A stable sort: a database plan that the samples run on.
use mathlib.Core.List.Memᴰ
use mathlib.Core.List.Permᴰ
use pactix.Prelude.{
  ℕ, refl, inl, inr, List, [], ◌∷◌, arith, if◌then◌else◌, leb, leb→le, Bool-cases, mem-perm, Permᴰ,
}
use pactix.Queue.{Planner, IsPlanner, Ascending}

module _ {R : Type 0} (key : R → ℕ) where
  abbrev pub insert : R → List R → List R
  insert x [] = x ∷ []
  insert x (y ∷ ys) = let rest = insert x ys in if leb (key x) (key y) then x ∷ y ∷ ys else y ∷ rest

  abbrev pub sort : List R → List R
  sort [] = []
  sort (x ∷ xs) = insert x (sort xs)

  insert-perm : (x : R) (ys : List R) → Permᴰ (insert x ys) (x ∷ ys)
  insert-perm x [] = Permᴰ.refl _
  insert-perm x (y ∷ ys) = elim (Bool-cases (leb (key x) (key y))) [
    | inl t ↦ rw t (Permᴰ.refl _)
    | inr f ↦ rw f (Permᴰ.trans (Permᴰ.cons refl (insert-perm x ys)) (Permᴰ.swap refl refl))
  ]

  sort-perm : (xs : List R) → Permᴰ (sort xs) xs
  sort-perm [] = Permᴰ.nil
  sort-perm (x ∷ xs) = Permᴰ.trans (insert-perm x (sort xs)) (Permᴰ.cons refl (sort-perm xs))

  insert-Ascending : (x : R) (ys : List R) → Ascending key ys → Ascending key (insert x ys)
  insert-Ascending x [] a = (λ y m. absurd (Memᴰ.not-nil m), tt)
  insert-Ascending x (y ∷ ys) a = elim (Bool-cases (leb (key x) (key y))) [
    | inl t ↦ rw t (
      λ z m. elim (Memᴰ.cases_cons m) [
        | inl e ↦ rw e (leb→le (key x) (key y) t)
        | inr m' ↦ omega (arith, a.0 z m', leb→le (key x) (key y) t)
      ],
      a,
    )
    | inr f ↦ rw f (
      λ z m. elim (Memᴰ.cases_cons (mem-perm (insert-perm x ys) m)) [
        | inl e ↦ rw e (ground arith)
        | inr m' ↦ a.0 z m'
      ],
      insert-Ascending x ys a.1,
    )
  ]

  sort-Ascending : (xs : List R) → Ascending key (sort xs)
  sort-Ascending [] = tt
  sort-Ascending (x ∷ xs) = insert-Ascending x (sort xs) (sort-Ascending xs)

abbrev pub sorting : {R : Type 0} → Planner R
sorting = record { order_by = sort; returning = λ rows. rows }

pub sorting-IsPlanner : {R : Type 0} → IsPlanner (sorting {R = R})
sorting-IsPlanner = record {
  order_by-perm = sort-perm;
  order_by-Ascending = sort-Ascending;
  returning-perm = λ rows. Permᴰ.refl rows;
}
