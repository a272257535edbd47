-- ===== src/Outbox/Wakeup/Run.antt =====
-- src/pactix/outbox/wakeup.py: `WakeupRunner.run`, cycle by cycle.
-- What a cycle meets is a `Wake`: the answers of the engine, which of the waiting tasks `asyncio.wait`
-- reports as done, and whether it or the sleep is cancelled. A run is given the wakes of its cycles, and
-- is still running where they end.
use pactix.Prelude.{
  ℕ, ◌+◌, Bool, true, false, not, ◌||◌, Option, none, some, String, List, [], ◌∷◌, str_eq,
  if◌then◌else◌, Result, ok, err, Error, validation_error,
}
use pactix.Config.{Float, WakeupPolicy, NotifyMode}
use pactix.Outbox.Table.{OutboxTable}
use pactix.Outbox.Runner.{RunSummary}
use pactix.Outbox.Wakeup.{wait as wait_local, new_backoff, record_work_found, record_idle, drain}
use pactix.Outbox.Wakeup.Listener.{
  Engine, Listener, new_listener, ensure_listener, wait as wait_listener, aclose,
}

pub record Wake : Type 0 where
  pub engine : Engine
  pub local_done : Bool
  pub listener_done : Bool
  pub waited : Result (Unit {0})

-- The local signal and the listener, where the runner has them, the seconds of the fallback schedule,
-- the table, and the number of the cycle.
pub record WakeupState (F : Type 0) : Type 0 where
  pub local_event : Option Bool
  pub listener : Option Listener
  pub current_seconds : F
  pub table : OutboxTable
  pub cycle : ℕ

abbrev pub is_off : NotifyMode → Bool
is_off NotifyMode.off = true
is_off NotifyMode.coalesced = false
is_off NotifyMode.trigger = false

-- `_make_listener`, from the name of the engine's dialect.
unfoldable pub make_listener : String → NotifyMode → Option Listener
make_listener dialect notify_mode =
    if not (str_eq dialect "postgresql") || is_off notify_mode then none else some new_listener

-- The task on the local signal: it consumes the signal where it is done, and is cancelled otherwise.
abbrev pub local_task : Bool → Option Bool → Option Bool
local_task done none = none
local_task done (some event) = if done then some (wait_local event true).0 else some event

abbrev pub without_value : Listener × Result Bool → Option Listener × Result (Unit {0})
without_value (l, ok _) = (some l, ok tt)
without_value (l, err error) = (some l, err error)

-- The task on the listener: its exception is raised where it is done; where it is cancelled, what it has
-- done to the connection stays, and its exception is dropped.
abbrev pub listener_task : Engine → Bool → Option Listener → Option Listener × Result (Unit {0})
listener_task engine done none = (none, ok tt)
listener_task engine true (some l) = without_value (wait_listener engine true l)
listener_task engine false (some l) = (some (ensure_listener engine l).0, ok tt)

-- An exception of `asyncio.wait`, a cancellation, comes before that of a task.
abbrev pub first_error : Result (Unit {0}) → Result (Unit {0}) → Result (Unit {0})
first_error (err error) task = err error
first_error (ok _) task = task

-- `_wait_for_wake`
unfoldable pub wait_for_wake :
    {F : Type 0} → Wake → WakeupState F → WakeupState F × Result (Unit {0})
wait_for_wake wake s =
    let (listener', answer) = listener_task wake.engine wake.listener_done s.listener in
    (
      record s { local_event = local_task wake.local_done s.local_event; listener = listener' },
      first_error wake.waited answer,
    )

-- The `finally` block: its own exception takes the place of the one that ended the loop.
abbrev pub close_with : Error → Listener × Result (Unit {0}) → Option Listener × Error
close_with error (l, ok _) = (some l, error)
close_with error (l, err other) = (some l, other)

abbrev pub finish : Engine → Option Listener → Error → Option Listener × Error
finish engine none error = (none, error)
finish engine (some l) error = close_with error (aclose engine l)

module _ {F : Type 0} (float : Float F) (policy : WakeupPolicy F)
    (pass : ℕ → ℕ → OutboxTable → OutboxTable × Result RunSummary) where
  -- The end of a cycle: the schedule, where the drain returned.
  abbrev pub after_drain :
      WakeupState F → OutboxTable × Result Bool → WakeupState F × Result (Unit {0})
  after_drain s (table', err error) = (record s { table = table' }, err error)
  after_drain s (table', ok found_work) = (
    record s {
      table = table';
      cycle = s.cycle + 1;
      current_seconds =
          if found_work
          then record_work_found float policy s.current_seconds
          else record_idle float policy s.current_seconds;
    },
    ok tt,
  )

  abbrev pub after_wait : WakeupState F × Result (Unit {0}) → WakeupState F × Result (Unit {0})
  after_wait (s, err error) = (s, err error)
  after_wait (s, ok _) = after_drain s (drain (pass s.cycle) 0 s.table)

  -- The body of the endless loop.
  unfoldable pub run_cycle : Wake → WakeupState F → WakeupState F × Result (Unit {0})
  run_cycle wake s = after_wait (wait_for_wake wake s)

  -- The loop is running where the answer is `none`.
  abbrev pub then_cycle :
      (WakeupState F → WakeupState F × Option Error)
      → WakeupState F × Result (Unit {0})
      → WakeupState F × Option Error
  then_cycle rest (s, ok _) = rest s
  then_cycle rest (s, err error) = (s, some error)

  unfoldable pub run_cycles : List Wake → WakeupState F → WakeupState F × Option Error
  run_cycles [] s = (s, none)
  run_cycles (wake ∷ wakes) s = then_cycle (run_cycles wakes) (run_cycle wake s)

  abbrev pub finally_close : Engine → WakeupState F × Option Error → WakeupState F × Option Error
  finally_close engine (s, none) = (s, none)
  finally_close engine (s, some error) =
      let (listener', raised) = finish engine s.listener error in
      (record s { listener = listener' }, some raised)

  abbrev pub start : String → Option Bool → OutboxTable → WakeupState F
  start dialect local_event table = record {
    local_event = local_event;
    listener = make_listener dialect policy.notify_mode;
    current_seconds = new_backoff float policy;
    table = table;
    cycle = 0;
  }

  -- `run`; the last engine is the one that `aclose` meets.
  unfoldable pub run :
      String → Option Bool → List Wake → Engine → OutboxTable → WakeupState F × Option Error
  run dialect local_event wakes engine table =
      if not policy.enabled
      then (
        record (start dialect local_event table) { listener = none },
        some (validation_error "wakeup policy is disabled"),
      )
      else finally_close engine (run_cycles wakes (start dialect local_event table))
