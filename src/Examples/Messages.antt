-- ===== src/Examples/Messages.antt =====
-- Examples for Message, Config, Dialect and Retry.
use pactix.Prelude.{◌+◌, ◌-◌, ◌≤◌, ◌≡◌, arith}
use pactix.Retry.{next_retry_at}
use pactix.Retry.Backoff.{saturated, next_retry_at_saturates}
use pactix.Samples.{whole, whole-IsFloat, config, noon}

minute_fits : 60_000_000 ≤ 9007199254740992
minute_fits = omega arith

next_retry_at_saturates_example :
    let delta =
      saturated whole whole-IsFloat config.retry_policy minute_fits
        (whole.pow config.retry_policy.multiplier 7) in
    next_retry_at whole config.retry_policy 7 noon
    ≡ record noon { wall = noon.wall + delta.ahead - delta.behind }
next_retry_at_saturates_example =
    next_retry_at_saturates whole whole-IsFloat config.retry_policy minute_fits 7 noon
