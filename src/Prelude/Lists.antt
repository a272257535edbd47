-- ===== src/Prelude/Lists.antt =====
-- Lists as SQL results: rows that pass a test, the first rows, membership.
use Prim.Native.Nat.{ℕ, zero, suc, ◌≤◌, ◌<◌}
use mathlib.Core.Path.{◌≡◌, refl, sym, ap, ◌∙◌, subst}
use mathlib.Core.Logic.{◌⊎◌, inl, inr}
use mathlib.Core.Bool.{Bool, true, false, ◌||◌}
use mathlib.Core.List.Memᴰ
use mathlib.Core.List.{List, [], ◌∷◌, map, Memᴰ, Permᴰ}
use native.Mathlib.Omega.{arith}
use pactix.Prelude.Tests.{if◌then◌else◌, Bool-cases, ◌==◌, ==_iff}

module _ {ℓ} {A : Type ℓ} where
  abbrev pub length : List A → ℕ
  length [] = 0
  length (x ∷ xs) = suc (length xs)

  abbrev pub take : ℕ → List A → List A
  take zero xs = []
  take (suc n) [] = []
  take (suc n) (x ∷ xs) = x ∷ take n xs

  -- The rows that pass a test, in their order.
  abbrev pub select : (A → Bool) → List A → List A
  select p [] = []
  select p (x ∷ xs) = let rest = select p xs in if p x then x ∷ rest else rest

  abbrev pub exists : (A → Bool) → List A → Bool
  exists p [] = false
  exists p (x ∷ xs) = p x || exists p xs

  abbrev pub All {κ} : (A → Type κ) → List A → Type κ
  All P [] = Unit
  All P (x ∷ xs) = P x × All P xs

-- SQL's `id IN (...)`
abbrev pub has_id : ℕ → List ℕ → Bool
has_id k [] = false
has_id k (j ∷ js) = j == k || has_id k js

module _ {ℓ} {A : Type ℓ} where
  pub length-take-le : (n : ℕ) (xs : List A) → length (take n xs) ≤ n
  length-take-le zero xs = omega arith
  length-take-le (suc n) [] = omega arith
  length-take-le (suc n) (x ∷ xs) = omega (arith, length-take-le n xs)

  pub length-map {κ} : {B : Type κ} (f : A → B) (xs : List A) → length (map f xs) ≡ length xs
  length-map f [] = refl
  length-map f (x ∷ xs) = ap suc (length-map f xs)

  pub mem-take : (n : ℕ) {a : A} (xs : List A) → Memᴰ a (take n xs) → Memᴰ a xs
  mem-take zero xs m = absurd (Memᴰ.not-nil m)
  mem-take (suc n) [] m = m
  mem-take (suc n) (x ∷ xs) (Memᴰ.head e) = Memᴰ.head e
  mem-take (suc n) (x ∷ xs) (Memᴰ.tail m) = Memᴰ.tail (mem-take n xs m)

  mem-if_cons :
      (b : Bool) (x : A) {a : A} (r : List A)
      → Memᴰ a (if b then x ∷ r else r)
      → ((a ≡ x) × (b ≡ true)) ⊎ Memᴰ a r
  mem-if_cons true x r (Memᴰ.head e) = inl (e, refl)
  mem-if_cons true x r (Memᴰ.tail m) = inr m
  mem-if_cons false x r m = inr m

  -- A selected row is a row of the table and passes the test.
  pub mem-select :
      (p : A → Bool) {a : A} (xs : List A) → Memᴰ a (select p xs) → Memᴰ a xs × (p a ≡ true)
  mem-select p [] m = absurd (Memᴰ.not-nil m)
  mem-select p (x ∷ xs) m = elim (mem-if_cons (p x) x (select p xs) m) [
    | inl (e, t) ↦ (Memᴰ.head e, rw e t)
    | inr m' ↦ let (h, t) = mem-select p xs m' in (Memᴰ.tail h, t)
  ]

  mem-if_here :
      {b : Bool} {x a : A} (r : List A) → b ≡ true → a ≡ x → Memᴰ a (if b then x ∷ r else r)
  mem-if_here r t e = rw t (Memᴰ.head e)

  mem-if_later :
      (b : Bool) (x : A) {a : A} (r : List A) → Memᴰ a r → Memᴰ a (if b then x ∷ r else r)
  mem-if_later true x r m = Memᴰ.tail m
  mem-if_later false x r m = m

  pub mem-select_of_mem :
      (p : A → Bool) {a : A} (xs : List A) → Memᴰ a xs → p a ≡ true → Memᴰ a (select p xs)
  mem-select_of_mem p [] m t = elim m [ ]
  mem-select_of_mem p (x ∷ xs) (Memᴰ.head e) t = mem-if_here (select p xs) (rw (← e) t) e
  mem-select_of_mem p (x ∷ xs) (Memᴰ.tail m) t =
      mem-if_later (p x) x (select p xs) (mem-select_of_mem p xs m t)

  pub exists-false :
      (p : A → Bool) {a : A} (xs : List A) → exists p xs ≡ false → Memᴰ a xs → p a ≡ false
  exists-false p [] h m = elim m [ ]
  exists-false p (x ∷ xs) h (Memᴰ.head e) = rw e (ground arith)
  exists-false p (x ∷ xs) h (Memᴰ.tail m) = exists-false p xs (ground arith) m

  pub exists-true :
      (p : A → Bool) (xs : List A) → exists p xs ≡ true → (a : A) × Memᴰ a xs × (p a ≡ true)
  exists-true p [] h = cc
  exists-true p (x ∷ xs) h = elim (Bool-cases (p x)) [
    | inl t ↦ (x, Memᴰ.head refl, t)
    | inr f ↦ let (a, m, t) = exists-true p xs (ground arith) in (a, Memᴰ.tail m, t)
  ]

  pub mem-map {κ} :
      {B : Type κ} (f : A → B) {b : B} (xs : List A)
      → Memᴰ b (map f xs)
      → (a : A) × Memᴰ a xs × (b ≡ f a)
  mem-map f [] m = absurd (Memᴰ.not-nil m)
  mem-map f (x ∷ xs) (Memᴰ.head e) = (x, Memᴰ.head refl, e)
  mem-map f (x ∷ xs) (Memᴰ.tail m) = let (a, h, e) = mem-map f xs m in (a, Memᴰ.tail h, e)

  -- A permutation has the same members.
  pub mem-perm : {a : A} {xs ys : List A} → Permᴰ xs ys → Memᴰ a xs → Memᴰ a ys
  mem-perm Permᴰ.nil m = m
  mem-perm (Permᴰ.cons e p) (Memᴰ.head h) = Memᴰ.head (h ∙ e)
  mem-perm (Permᴰ.cons e p) (Memᴰ.tail m) = Memᴰ.tail (mem-perm p m)
  mem-perm (Permᴰ.swap d e) (Memᴰ.head h) = Memᴰ.tail (Memᴰ.head (h ∙ d))
  mem-perm (Permᴰ.swap d e) (Memᴰ.tail (Memᴰ.head h)) = Memᴰ.head (h ∙ e)
  mem-perm (Permᴰ.swap d e) (Memᴰ.tail (Memᴰ.tail m)) = Memᴰ.tail (Memᴰ.tail m)
  mem-perm (Permᴰ.trans p q) m = mem-perm q (mem-perm p m)

  pub All-mem {κ} : (P : A → Type κ) {a : A} (xs : List A) → All P xs → Memᴰ a xs → P a
  All-mem P [] h m = elim m [ ]
  All-mem P (x ∷ xs) h (Memᴰ.head e) = subst P (sym e) h.0
  All-mem P (x ∷ xs) h (Memᴰ.tail m) = All-mem P xs h.1 m

  pub All-of_mem {κ} : (P : A → Type κ) (xs : List A) → ((a : A) → Memᴰ a xs → P a) → All P xs
  All-of_mem P [] h = tt
  All-of_mem P (x ∷ xs) h = (h x (Memᴰ.head refl), All-of_mem P xs (λ a m. h a (Memᴰ.tail m)))

module _ {ℓ} {A : Type ℓ} where
  pub length-pos_of_mem : {a : A} (xs : List A) → Memᴰ a xs → 0 < length xs
  length-pos_of_mem [] m = elim m [ ]
  length-pos_of_mem (x ∷ xs) m = omega arith

  pub mem_of_length-pos : (xs : List A) → 0 < length xs → (a : A) × Memᴰ a xs
  mem_of_length-pos [] h = absurd (omega arith)
  mem_of_length-pos (x ∷ xs) h = (x, Memᴰ.head refl)

pub has_id-mem : (k : ℕ) (js : List ℕ) → has_id k js ≡ true → Memᴰ k js
has_id-mem k [] h = cc
has_id-mem k (j ∷ js) h = elim (Bool-cases (j == k)) [
  | inl t ↦ Memᴰ.head (sym ((==_iff j k).0 t))
  | inr f ↦ Memᴰ.tail (has_id-mem k js (ground arith))
]

pub mem-has_id : {k : ℕ} (js : List ℕ) → Memᴰ k js → has_id k js ≡ true
mem-has_id [] m = elim m [ ]
mem-has_id (j ∷ js) (Memᴰ.head e) = ground arith
mem-has_id (j ∷ js) (Memᴰ.tail m) = ground (arith, mem-has_id js m)
