-- ===== src/Outbox/Wakeup.antt =====
-- src/pactix/outbox/wakeup.py: the wakeup-driven loop of the outbox worker.
-- A pass of the worker is a function of its number and the table, since each pass has its own readings
-- of the clock. Waiting is left out: a wait changes neither the table nor the schedule, and only sets
-- when the next cycle runs.
pub mod Drain
pub mod Schedule
pub mod Notify
pub mod Listener
pub mod Connections
pub mod Run
pub mod Cycles
use pactix.Prelude.{
  ℕ, zero, suc, ◌+◌, ◌-◌, Bool, true, false, Option, none, some, List, [], ◌∷◌, Result, ok, err,
  Error, validation_error, ◌==◌, ltb, if◌then◌else◌, not,
}
use pactix.Config.{Float, float_min, WakeupPolicy}
use pactix.Outbox.Table.{OutboxTable}
use pactix.Outbox.Runner.{RunSummary}

-- `LocalWakeup`: the event is set or not. A wait answers whether it was woken, and consumes the event;
-- `signalled` says whether a wake comes before its timeout.
unfoldable pub wake : Bool → Bool
wake event = true

unfoldable pub wait : Bool → Bool → Bool × Bool
wait event signalled = if event then (false, true) else (false, signalled)

-- `FallbackBackoff`, whose state is the current number of seconds.
module _ {F : Type 0} (float : Float F) (policy : WakeupPolicy F) where
  abbrev pub new_backoff : F
  new_backoff = float.total_seconds policy.fallback_initial_interval

  unfoldable pub record_work_found : F → F
  record_work_found current = float.total_seconds policy.fallback_initial_interval

  unfoldable pub record_idle : F → F
  unfolding float_min
  record_idle current =
      float_min float (float.mul current policy.fallback_multiplier)
        (float.total_seconds policy.fallback_max_interval)

abbrev pub max_passes_per_wake : ℕ
max_passes_per_wake = 100

-- The body of the loop of `_drain`, after a pass.
abbrev pub after_pass :
    Bool
    → OutboxTable × Result RunSummary
    → (OutboxTable → OutboxTable × Result Bool)
    → OutboxTable × Result Bool
after_pass found_work (table', err error) rest = (table', err error)
after_pass found_work (table', ok summary) rest =
    if summary.claimed == 0 then (table', ok found_work) else rest table'

module _ (pass : ℕ → OutboxTable → OutboxTable × Result RunSummary) where
  -- The loop of `_drain`, with the passes that are left and the number of the next one.
  unfoldable pub drain_passes : ℕ → ℕ → Bool → OutboxTable → OutboxTable × Result Bool
  drain_passes zero n found_work table = (table, ok found_work)
  drain_passes (suc left) n found_work table =
      after_pass found_work (pass n table) (drain_passes left (suc n) true)

  -- `_drain`
  unfoldable pub drain : ℕ → OutboxTable → OutboxTable × Result Bool
  unfolding drain_passes
  drain n table = drain_passes max_passes_per_wake n false table

-- `CoalescedNotifier`: the reading of the monotonic clock, in microseconds, by the call that last set it,
-- and the readings of the calls that have sent a NOTIFY, the newest first.
pub record CoalescedNotifier : Type 0 where
  pub coalesce : ℕ
  pub last_notified : Option ℕ
  pub notified : List ℕ

-- `self._last_notified is not None and now - self._last_notified < self._coalesce_seconds`
abbrev pub too_recent : ℕ → ℕ → Option ℕ → Bool
too_recent coalesce now none = false
too_recent coalesce now (some last) = ltb (now - last) coalesce

-- `notify` is two steps, with the statement between them, during which other tasks run. The first reads
-- the clock, and tells whether the statement is run.
unfoldable pub begin_notify : ℕ → CoalescedNotifier → Bool
begin_notify now n = not (too_recent n.coalesce now n.last_notified)

-- The second, after the statement has succeeded or raised, in the state that the others have left.
unfoldable pub end_notify :
    ℕ → Result (Unit {0}) → CoalescedNotifier → CoalescedNotifier × Result (Unit {0})
end_notify now (err error) n = (n, err error)
end_notify now (ok _) n =
    (record n { last_notified = some now; notified = now ∷ n.notified }, ok tt)

-- A call during whose statement no other call runs.
unfoldable pub notify :
    ℕ → Result (Unit {0}) → CoalescedNotifier → CoalescedNotifier × Result (Unit {0})
unfolding begin_notify end_notify
notify now sent n = if begin_notify now n then end_notify now sent n else (n, ok tt)
