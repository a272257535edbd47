-- ===== src/Prelude/Errors.antt =====
-- Python exceptions as values. The first three are the classes of src/pactix/errors.py (all of them
-- a `PactixError`); the others come from the libraries that the code calls.
use Prim.Native.String.{String}
use mathlib.Core.Path.{◌≡◌, refl}
use mathlib.Core.Logic.{◌⊎◌, inl, inr}
use mathlib.Core.Bool.{Bool, true, false}
use mathlib.Core.List.{List, [], ◌∷◌, map, Memᴰ}

pub data Error : Type 0 where
  validation_error persistence_error routing_error : String → Error
  integrity_error no_result_found multiple_results_found : Error
  foreign_error : String → Error

-- `except PactixError`
pub is_pactix_error : Error → Bool
is_pactix_error (validation_error _) = true
is_pactix_error (persistence_error _) = true
is_pactix_error (routing_error _) = true
is_pactix_error _ = false

-- The outcome of a call: a value, or the exception that it raised.
pub data Result {ℓ} (V : Type ℓ) : Type ℓ where
  err : Error → Result V
  ok : V → Result V

infixl 5 ◌>>=◌ ◌>>◌
abbrev pub ◌>>=◌ {ℓ κ} : {V : Type ℓ} → {W : Type κ} → Result V → (V → Result W) → Result W
err raised >>= next = err raised
ok value >>= next = next value

abbrev pub ◌>>◌ {ℓ} : {W : Type ℓ} → Result (Unit {0}) → Result W → Result W
first >> second = first >>= λ _. second

pub >>=-eq-ok {ℓ κ} :
    {V : Type ℓ} {W : Type κ} {out : W} (call : Result V) (next : V → Result W)
    → (call >>= next) ≡ ok out
    → (value : V) × (call ≡ ok value) × (next value ≡ ok out)
>>=-eq-ok (err raised) next h = cc
>>=-eq-ok (ok value) next h = (value, refl, h)

-- What a result is paired with is in what comes out.
pub >>=-paired {ℓ κ ν} :
    {V : Type ℓ} {T : Type κ} {W : Type ν} {out : T × W} (call : Result V) (t : T) (f : V → W)
    → (call >>= λ value. ok (t, f value)) ≡ ok out
    → t ≡ out.0
>>=-paired (err raised) t f h = cc
>>=-paired (ok value) t f h = cc

pub Result-cases {ℓ} :
    {A : Type ℓ} (r : Result A) → ((a : A) × (r ≡ ok a)) ⊎ ((e : Error) × (r ≡ err e))
Result-cases (ok a) = inl (a, refl)
Result-cases (err e) = inr (e, refl)

pub ok-eq {ℓ} : {A : Type ℓ} {a b : A} → ok a ≡ ok b → a ≡ b
ok-eq h = cc

pub err-eq {ℓ} : {A : Type ℓ} {e f : Error} → ◌≡◌ {A = Result A} (err e) (err f) → e ≡ f
err-eq h = cc

-- A list comprehension whose element may raise: `[f(x) for x in xs]`.
unfoldable pub traverse {ℓ κ} :
    {A : Type ℓ} {B : Type κ} → (A → Result B) → List A → Result (List B)
traverse f [] = ok []
traverse f (x ∷ xs) = f x >>= λ y. traverse f xs >>= λ ys. ok (y ∷ ys)

-- Where every element has a value, so has the comprehension.
pub traverse-eq-map {ℓ κ} :
    {A : Type ℓ} {B : Type κ} (f : A → Result B) (g : A → B) (xs : List A)
    → ((x : A) → Memᴰ x xs → f x ≡ ok (g x))
    → traverse f xs ≡ ok (map g xs)
unfolding traverse
traverse-eq-map f g [] h = refl
traverse-eq-map f g (x ∷ xs) h =
    rw (h x (Memᴰ.head refl), traverse-eq-map f g xs (λ y m. h y (Memᴰ.tail m)))
