-- ===== src/Retry.antt =====
-- src/pactix/_retry.py: the retry time, and the decision to retry or to fail.
-- `RetryStore` is the interface to a store: its policy and the two updates, on a database `D`.
pub mod Backoff
use pactix.Prelude.{ℕ, ◌+◌, ◌-◌, Bool, true, false, Option, none, some, String, leb, if◌then◌else◌}
use pactix.Dialect.{DateTime}
use pactix.Config.{TimeDelta, Float, RetryPolicy, float_min}

pub data RetryAction : Type 0 where
  retry_scheduled failed : RetryAction

-- `initial_seconds * (multiplier ** attempts)`, or infinity where the power overflows.
abbrev pub scaled : {F : Type 0} → Float F → F → Option F → F
scaled float initial none = float.inf
scaled float initial (some power) = float.mul initial power

-- The delay in seconds: the scaled interval, capped.
unfoldable pub capped_seconds : {F : Type 0} → Float F → RetryPolicy F → ℕ → F
unfolding float_min
capped_seconds float policy attempts =
    float_min float
      (scaled float (float.total_seconds policy.initial_interval)
        (float.pow policy.multiplier attempts))
      (float.total_seconds policy.max_interval)

-- `now + delta`, within the years that a datetime has.
abbrev pub shift : DateTime → TimeDelta → DateTime
shift now delta = record now { wall = now.wall + delta.ahead - delta.behind }

unfoldable pub next_retry_at : {F : Type 0} → Float F → RetryPolicy F → ℕ → DateTime → DateTime
unfolding capped_seconds
next_retry_at float policy attempts now =
    shift now (float.from_seconds (capped_seconds float policy attempts))

pub record RetryStore (F D : Type 0) : Type 0 where
  pub retry_policy : RetryPolicy F
  pub mark_retry : ℕ → String → DateTime → D → D
  pub mark_failed : ℕ → String → D → D

-- Reschedules the row, or fails it at the attempt ceiling. The database comes back with the action.
unfoldable pub handle_retryable_failure :
    {F D : Type 0} → Float F → RetryStore F D → ℕ → ℕ → ℕ → String → DateTime → D → D × RetryAction
handle_retryable_failure float store id attempts max_attempts error now db =
    if leb max_attempts (attempts + 1) then (store.mark_failed id error db, failed) else (
      store.mark_retry id error (next_retry_at float store.retry_policy attempts now) db,
      retry_scheduled,
    )
