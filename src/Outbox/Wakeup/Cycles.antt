-- ===== src/Outbox/Wakeup/Cycles.antt =====
-- What a run keeps, and how it ends.
use pactix.Prelude.{
  ℕ, zero, suc, ◌≡◌, refl, ap, subst, Bool, true, false, not, Option, none, some, String, List, [],
  ◌∷◌, Result, ok, err, Error, Bool-cases, inl, inr, ◌==◌, ◌||◌, str_eq,
}
use pactix.Config.{Float, WakeupPolicy}
use pactix.Outbox.Table.{OutboxTable}
use pactix.Outbox.Runner.{RunSummary}
use pactix.Outbox.Wakeup.{after_pass, drain_passes, drain, max_passes_per_wake}
use pactix.Outbox.Wakeup.Listener.{Engine, Listener, wait, aclose}
use pactix.Outbox.Wakeup.Connections.{
  IsBalanced, ensure_listener-IsBalanced, wait-IsBalanced, aclose_lem,
}
use pactix.Outbox.Wakeup.Run.{
  Wake, WakeupState, is_off, make_listener, listener_task, without_value, wait_for_wake, close_with,
  finish, after_drain, after_wait, run_cycle, then_cycle, run_cycles, finally_close, start, run,
}

-- The connections of a runner are those that its listener holds, and none after its end.
abbrev pub AreHeld : Option Listener → Type 0
AreHeld none = Unit
AreHeld (some l) = IsBalanced l

abbrev pub AreReturned : Option Listener → Type 0
AreReturned none = Unit
AreReturned (some l) = (l.checked_out ≡ []) × (l.conn ≡ none)

module _ (P : OutboxTable → Type 0) (pass : ℕ → OutboxTable → OutboxTable × Result RunSummary)
    (keeps : (n : ℕ) (t : OutboxTable) → P t → P (pass n t).0) where
  after_pass-keeps :
      (found : Bool) (r : OutboxTable × Result RunSummary)
      (rest : OutboxTable → OutboxTable × Result Bool)
      → ((t : OutboxTable) → P t → P (rest t).0)
      → P r.0
      → P (after_pass found r rest).0
  after_pass-keeps found (t, err error) rest h p = p
  after_pass-keeps found (t, ok summary) rest h p = elim (Bool-cases (summary.claimed == 0)) [
    | inl idle ↦ rw idle p
    | inr busy ↦ rw busy (h t p)
  ]

  drain_passes-keeps :
      (left n : ℕ) (found : Bool) (t : OutboxTable) → P t → P (drain_passes pass left n found t).0
  unfolding drain_passes
  drain_passes-keeps zero n found t p = p
  drain_passes-keeps (suc left) n found t p =
      after_pass-keeps found (pass n t) (drain_passes pass left (suc n) true)
        (drain_passes-keeps left (suc n) true) (keeps n t p)

listener_task-AreHeld :
    (engine : Engine) (done : Bool) (o : Option Listener)
    → AreHeld o
    → AreHeld (listener_task engine done o).0
listener_task-AreHeld engine done none h = tt
listener_task-AreHeld engine true (some l) h =
    held_without_value (wait engine true l) (wait-IsBalanced engine true l h)
  where
    held_without_value : (r : Listener × Result Bool) → IsBalanced r.0 → AreHeld (without_value r).0
    held_without_value (l, ok _) b = b
    held_without_value (l, err error) b = b
listener_task-AreHeld engine false (some l) h = ensure_listener-IsBalanced engine l h

finish-AreReturned :
    (engine : Engine) (o : Option Listener) (error : Error)
    → AreHeld o
    → AreReturned (finish engine o error).0
finish-AreReturned engine none error h = tt
finish-AreReturned engine (some l) error h = returned (aclose engine l) (aclose_lem engine l h)
  where
    returned :
        (r : Listener × Result (Unit {0}))
        → (r.0.conn ≡ none) × (r.0.checked_out ≡ [])
        → AreReturned (close_with error r).0
    returned (l, ok _) (n, b) = (b, n)
    returned (l, err other) (n, b) = (b, n)

module _ {F : Type 0} (float : Float F) (policy : WakeupPolicy F)
    (pass : ℕ → ℕ → OutboxTable → OutboxTable × Result RunSummary) (P : OutboxTable → Type 0)
    (keeps : (k n : ℕ) (t : OutboxTable) → P t → P (pass k n t).0) where
  -- What holds of a runner between two cycles.
  abbrev Kept : WakeupState F → Type 0
  Kept s = P s.table × AreHeld s.listener

  after_drain-Kept :
      (s : WakeupState F) (r : OutboxTable × Result Bool)
      → P r.0
      → AreHeld s.listener
      → Kept (after_drain float policy pass s r).0
  after_drain-Kept s (t, err error) p h = (p, h)
  after_drain-Kept s (t, ok found) p h = (p, h)

  after_wait-Kept :
      (r : WakeupState F × Result (Unit {0})) → Kept r.0 → Kept (after_wait float policy pass r).0
  unfolding drain
  after_wait-Kept (s, err error) k = k
  after_wait-Kept (s, ok _) (p, h) =
      after_drain-Kept s (drain (pass s.cycle) 0 s.table)
        (drain_passes-keeps P (pass s.cycle) (keeps s.cycle) max_passes_per_wake 0 false s.table p)
        h

  run_cycle-Kept :
      (wake : Wake) (s : WakeupState F) → Kept s → Kept (run_cycle float policy pass wake s).0
  unfolding run_cycle wait_for_wake
  run_cycle-Kept wake s (p, h) =
      after_wait-Kept (wait_for_wake wake s)
        (p, listener_task-AreHeld wake.engine wake.listener_done s.listener h)

  then_cycle-Kept :
      (rest : WakeupState F → WakeupState F × Option Error) (r : WakeupState F × Result (Unit {0}))
      → ((s : WakeupState F) → Kept s → Kept (rest s).0)
      → Kept r.0
      → Kept (then_cycle float policy pass rest r).0
  then_cycle-Kept rest (s, ok _) h k = h s k
  then_cycle-Kept rest (s, err error) h k = k

  run_cycles-Kept :
      (wakes : List Wake) (s : WakeupState F)
      → Kept s
      → Kept (run_cycles float policy pass wakes s).0
  unfolding run_cycles
  run_cycles-Kept [] s k = k
  run_cycles-Kept (wake ∷ wakes) s k =
      then_cycle-Kept (run_cycles float policy pass wakes) (run_cycle float policy pass wake s)
        (run_cycles-Kept wakes) (run_cycle-Kept wake s k)

  start-Kept :
      (dialect : String) (local_event : Option Bool) (table : OutboxTable)
      → P table
      → Kept (start float policy pass dialect local_event table)
  unfolding make_listener
  start-Kept dialect local_event table p =
      elim (Bool-cases (not (str_eq dialect "postgresql") || is_off policy.notify_mode)) [
        | inl t ↦ rw t (p, tt)
        | inr f ↦ rw f (p, refl)
      ]

  finally_close-ends :
      (engine : Engine) (r : WakeupState F × Option Error) (s : WakeupState F) (error : Error)
      → Kept r.0
      → finally_close float policy pass engine r ≡ (s, some error)
      → AreReturned s.listener × P s.table
  finally_close-ends engine (s', none) s error k h = cc
  finally_close-ends engine (s', some raised) s error (p, held_before) h =
      let same_listener : (finish engine s'.listener raised).0 ≡ s.listener =
        ap (λ (r : WakeupState F × Option Error). r.0.listener) h in
      let same_table : s'.table ≡ s.table =
        ap (λ (r : WakeupState F × Option Error). r.0.table) h in
      (
        subst AreReturned same_listener (finish-AreReturned engine s'.listener raised held_before),
        subst P same_table p,
      )

  -- When the wakeup loop ends, with whatever exception, of a pass, of a wait, of the listener or by
  -- cancellation: it has returned its connection to the pool, where it had one, and what every pass
  -- keeps of the table still holds, if it held at the beginning.
  pub run_ends :
      (dialect : String) (local_event : Option Bool) (wakes : List Wake) (engine : Engine)
      (table : OutboxTable) (s : WakeupState F) (error : Error)
      → P table
      → run float policy pass dialect local_event wakes engine table ≡ (s, some error)
      → AreReturned s.listener × P s.table
  unfolding run
  run_ends dialect local_event wakes engine table s error p h =
      elim (Bool-cases (not policy.enabled)) [
        | inl t ↦
            let ended = rw t at h in
            let same : none ≡ s.listener =
              ap (λ (r : WakeupState F × Option Error). r.0.listener) ended in
            let same_table : table ≡ s.table =
              ap (λ (r : WakeupState F × Option Error). r.0.table) ended in
            (subst AreReturned same tt, subst P same_table p)
        | inr f ↦
            finally_close-ends engine
              (run_cycles float policy pass wakes
                (start float policy pass dialect local_event table))
              s error (run_cycles-Kept wakes _ (start-Kept dialect local_event table p)) (rw f at h)
      ]
