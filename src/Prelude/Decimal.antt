-- ===== src/Prelude/Decimal.antt =====
-- Python's text of an `int` that is not negative, as an f-string writes it.
use Prim.Native.Nat.{ℕ, zero, suc, ◌<◌, ◌≤◌, ◌/◌, ◌%◌}
use Prim.Native.String.{String, ◌++◌, slice}
use mathlib.Core.Path.{◌≡◌, refl, ap}
use mathlib.Core.Bool.{true, false}
use mathlib.Core.Logic.{inl, inr}
use native.Mathlib.Omega.{arith}
use pactix.Prelude.Tests.{ltb, Bool-cases}

abbrev pub digit : ℕ → String
digit n = slice "0123456789" n (suc n)

-- The digits, on fuel.
unfoldable pub digits : ℕ → ℕ → String
digits zero n = ""
digits (suc fuel) n = elim (ltb n 10) [
  | true ↦ digit n
  | false ↦ digits fuel (n / 10) ++ digit (n % 10)
]

-- Each step divides by ten, so `n + 1` steps are enough.
unfoldable pub decimal : ℕ → String
unfolding digits
decimal n = digits (suc n) n

-- Any fuel above the number gives its text.
pub digits-decimal : (fuel more n : ℕ) → n < fuel → n < more → digits fuel n ≡ digits more n
unfolding digits
digits-decimal zero more n h k = absurd (omega arith)
digits-decimal (suc fuel) zero n h k = absurd (omega arith)
digits-decimal (suc fuel) (suc more) n h k = elim (Bool-cases (ltb n 10)) [
  | inl t ↦ rw (digits, t) refl
  | inr f ↦
      let big : 10 ≤ n = ground arith in
      let below : n / 10 < n = omega arith in
      rw (digits, f)
        (ap (λ s. s ++ digit (n % 10))
          (digits-decimal fuel more (n / 10) (omega arith) (omega arith)))
]
