-- ===== src/Examples/Listeners.antt =====
-- Examples for the LISTEN connection and the endless loop.
use pactix.Prelude.{
  ℕ, ◌≡◌, refl, true, false, none, some, [], ◌∷◌, Result, ok, err, foreign_error, ltb,
  if◌then◌else◌,
}
use pactix.Config.{WakeupPolicy}
use pactix.Outbox.Table.{OutboxTable}
use pactix.Outbox.Runner.{RunSummary, start_summary}
use pactix.Outbox.Wakeup.{drain, record_work_found}
use pactix.Outbox.Wakeup.Listener.{Engine, new_listener, aclose, wait, ensure_listener, close}
use pactix.Outbox.Wakeup.Connections.{notifies, waits, calls, held, calls-aclose}
use pactix.Outbox.Wakeup.Run.{
  Wake, WakeupState, run, run_cycles, run_cycle, wait_for_wake, make_listener,
}
use pactix.Outbox.Wakeup.Cycles.{AreReturned, run_ends}
use pactix.Samples.{whole, config, outbox}

-- A database that listens but loses the connection at the end, and one that refuses to listen.
abbrev losing : Engine
losing = record {
  connect = ok 5;
  add_listener = λ c. ok tt;
  remove_listener = λ c. err (foreign_error "connection is lost");
}

abbrev refusing : Engine
refusing = record {
  connect = ok 4;
  add_listener = λ c. err (foreign_error "too many listeners");
  remove_listener = λ c. ok tt;
}

calls-aclose_example :
    let l = calls (waits refusing true ∷ waits losing true ∷ notifies ∷ []) new_listener in
    (l.checked_out ≡ held l.conn)
    × ((aclose losing l).0.checked_out ≡ [])
    × ((aclose losing l).0.conn ≡ none)
calls-aclose_example = calls-aclose (waits refusing true ∷ waits losing true ∷ notifies ∷ []) losing

abbrev enabled : WakeupPolicy ℕ
enabled = record config.wakeup { enabled = true }

-- In each cycle the first two passes claim a row each.
abbrev busy_passes : ℕ → ℕ → OutboxTable → OutboxTable × Result RunSummary
busy_passes k n table = (table, ok (start_summary 0 (if ltb n 2 then 1 else 0)))

-- A cycle that a NOTIFY wakes, and one that is cancelled.
abbrev notified : Wake
notified = record { engine = losing; local_done = false; listener_done = true; waited = ok tt }

abbrev cancelled : Wake
cancelled = record {
  engine = losing;
  local_done = false;
  listener_done = false;
  waited = err (foreign_error "cancelled");
}

abbrev ended : WakeupState ℕ
ended = record {
  local_event = some false;
  listener = some new_listener;
  current_seconds = 1_000_000;
  table = outbox;
  cycle = 1;
}

run_of_two :
    run whole enabled busy_passes "postgresql"
      (some false)
      (notified ∷ cancelled ∷ [])
      losing
      outbox
    ≡ (ended, some (foreign_error "connection is lost"))
unfolding run run_cycles run_cycle wait_for_wake make_listener drain aclose wait ensure_listener
    close record_work_found
run_of_two = refl

run_ends_example : AreReturned (some new_listener) × (outbox ≡ outbox)
run_ends_example =
    run_ends whole enabled busy_passes (λ t. t ≡ outbox) (λ k n t p. p) "postgresql" (some false)
      (notified ∷ cancelled ∷ []) losing outbox ended (foreign_error "connection is lost") refl
      run_of_two
