-- ===== src/Retry/Backoff.antt =====
-- `next_retry_at` of _retry.py: where the retry time lies.
use pactix.Prelude.{
  ℕ, ◌+◌, ◌-◌, ap, Option, some, Option-cases, ◌≤◌, ◌≡◌, refl, inl, inr, none, Bool-cases, false,
  if◌then◌else◌,
}
use pactix.Dialect.{DateTime}
use pactix.Config.{TimeDelta, positive, Float, IsFloat, RetryPolicy, float_min}
use pactix.Retry.{capped_seconds, shift, next_retry_at}

module _ {F : Type 0} (float : Float F) (law : IsFloat float) where
  -- The smaller of two floats is not above either.
  pub float_min-right : (x y : F) → float.lt y (float_min float x y) ≡ false
  unfolding float_min
  float_min-right x y = elim (Bool-cases (float.lt y x)) [
    | inl t ↦
        rw t (elim (Bool-cases (float.lt y y)) [ inl s ↦ cc (law.asymmetric y y s) | inr s ↦ s ])
    | inr f ↦ rw f f
  ]

  module _ (policy : RetryPolicy F) (fits : policy.max_interval ≤ 9007199254740992) where
    abbrev delay : ℕ → TimeDelta
    delay attempts = float.from_seconds (capped_seconds float policy attempts)

    -- The delay in whole microseconds, of the power: the product with `initial_interval`, or
    -- `max_interval` where the product is above it and where the power overflows.
    abbrev pub saturated : Option F → TimeDelta
    saturated none = positive policy.max_interval
    saturated (some power) =
        if float.lt (float.total_seconds policy.max_interval)
          (float.mul (float.total_seconds policy.initial_interval) power)
        then positive policy.max_interval
        else float.from_seconds (float.mul (float.total_seconds policy.initial_interval) power)

    -- Where `max_interval` is at most 2 ** 53 microseconds, the retry is exactly `max_interval` from
    -- now if `multiplier ** attempts` overflows or its product with `initial_interval` is above
    -- `max_interval`, and that product from now otherwise, in the zone of `now`.
    pub next_retry_at_saturates :
        (attempts : ℕ) (now : DateTime)
        → let delta = saturated (float.pow policy.multiplier attempts) in
          next_retry_at float policy attempts now
          ≡ record now { wall = now.wall + delta.ahead - delta.behind }
    unfolding next_retry_at float_min
    next_retry_at_saturates attempts now =
        ap (shift now) (elim (Option-cases (float.pow policy.multiplier attempts)) [
          | inl over ↦
              rw (over, law.below_inf policy.max_interval) (law.round_trip policy.max_interval fits)
          | inr (p, made) ↦
              rw made
                (elim (Bool-cases (
                  float.lt (float.total_seconds policy.max_interval)
                    (float.mul (float.total_seconds policy.initial_interval) p))) [
                      | inl t ↦ rw t (law.round_trip policy.max_interval fits)
                      | inr f ↦ rw f refl
                    ])
        ])
