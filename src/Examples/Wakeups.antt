-- ===== src/Examples/Wakeups.antt =====
-- Examples for the wakeup loop.
use pactix.Prelude.{
  List, foreign_error, err, ℕ, ◌≡◌, refl, true, false, some, [], ◌∷◌, Result, ok, arith, ltb,
  if◌then◌else◌,
}
use pactix.Outbox.Table.{OutboxTable}
use pactix.Outbox.Runner.{RunSummary, start_summary}
use pactix.Outbox.Wakeup.{CoalescedNotifier, drain, max_passes_per_wake, new_backoff}
use pactix.Outbox.Wakeup.Drain.{Ended, drain_ends}
use pactix.Outbox.Wakeup.Schedule.{backoff_after, backoff_bounded}
use pactix.Outbox.Wakeup.Notify.{IsSpaced, Call, after_calls, calls-IsSpaced}
use pactix.Samples.{whole, whole-IsFloat, config, outbox}

-- The first two passes claim a row each, any later one claims none.
abbrev two_passes : ℕ → OutboxTable → OutboxTable × Result RunSummary
two_passes n table = (table, ok (start_summary 0 (if ltb n 2 then 1 else 0)))

drained : drain two_passes 0 outbox ≡ (outbox, ok true)
unfolding drain
drained = refl

drain_ends_example :
    (k : ℕ) × Ended two_passes max_passes_per_wake 0 outbox outbox k × (true ≡ ltb 0 k)
drain_ends_example = drain_ends two_passes 0 outbox outbox true drained

within_cap :
    whole.lt
      (whole.total_seconds config.wakeup.fallback_max_interval)
      (new_backoff whole config.wakeup)
    ≡ false
within_cap = refl

backoff_bounded_example :
    whole.lt
      (whole.total_seconds config.wakeup.fallback_max_interval)
      (backoff_after whole config.wakeup (false ∷ false ∷ true ∷ []))
    ≡ false
backoff_bounded_example =
    backoff_bounded whole config.wakeup whole-IsFloat (false ∷ false ∷ true ∷ []) within_cap

abbrev notifier : CoalescedNotifier
notifier = record { coalesce = 50_000; last_notified = some 1_000; notified = 1_000 ∷ [] }

notifier-IsSpaced : IsSpaced notifier
notifier-IsSpaced = record { remembered = refl; spaced = tt }

-- A call that is too early, one whose statement raises, and one that sends.
abbrev three_calls : List Call
three_calls = (40_000, ok tt) ∷ (60_000, err (foreign_error "no connection")) ∷ (70_000, ok tt) ∷ []

calls-IsSpaced_example : IsSpaced (after_calls three_calls notifier)
calls-IsSpaced_example =
    calls-IsSpaced three_calls 1_000 notifier (omega arith, (omega arith, (omega arith, tt)))
      (omega arith) notifier-IsSpaced
