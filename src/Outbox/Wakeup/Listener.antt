-- ===== src/Outbox/Wakeup/Listener.antt =====
-- src/pactix/outbox/wakeup.py: `PostgresWakeListener`, which holds a connection of the pool between its
-- first wait and `aclose`.
-- The engine and its driver are parameters: what each call answers, or the exception that it raises,
-- a cancellation included. Closing a connection gives it back to the pool.
use pactix.Prelude.{
  ℕ, Bool, true, false, not, Option, none, some, List, [], ◌∷◌, ◌==◌, if◌then◌else◌, select, Result,
  ok, err,
}

-- The calls of the engine. A connection is a number; the two calls on one take in `get_raw_connection`.
pub record Engine : Type 0 where
  pub connect : Result ℕ
  pub add_listener : ℕ → Result (Unit {0})
  pub remove_listener : ℕ → Result (Unit {0})

-- The state of the listener, and the connections that it has checked out of the pool.
pub record Listener : Type 0 where
  pub conn : Option ℕ
  pub event : Bool
  pub checked_out : List ℕ

abbrev pub new_listener : Listener
new_listener = record { conn = none; event = false; checked_out = [] }

unfoldable pub on_notify : Listener → Listener
on_notify l = record l { event = true }

-- `conn.close()`
unfoldable pub close : ℕ → Listener → Listener
close c l = record l { checked_out = select (λ d. not (d == c)) l.checked_out }

-- The `try` block of `_ensure_listener`, after the driver has answered.
abbrev pub after_listen : ℕ → Result (Unit {0}) → Listener → Listener × Result (Unit {0})
after_listen c (ok _) l = (record l { conn = some c }, ok tt)
after_listen c (err error) l = (close c l, err error)

abbrev pub after_connect : Engine → Result ℕ → Listener → Listener × Result (Unit {0})
after_connect engine (err error) l = (l, err error)
after_connect engine (ok c) l =
    after_listen c (engine.add_listener c) (record l { checked_out = c ∷ l.checked_out })

abbrev pub ensure_at : Engine → Option ℕ → Listener → Listener × Result (Unit {0})
ensure_at engine (some c) l = (l, ok tt)
ensure_at engine none l = after_connect engine engine.connect l

unfoldable pub ensure_listener : Engine → Listener → Listener × Result (Unit {0})
ensure_listener engine l = ensure_at engine l.conn l

-- The wait on the event: it is set, or is set before the timeout (`signalled`); it is cleared either way.
abbrev pub after_ensure : Bool → Listener × Result (Unit {0}) → Listener × Result Bool
after_ensure signalled (l, err error) = (l, err error)
after_ensure signalled (l, ok _) =
    (record l { event = false }, ok (if l.event then true else signalled))

unfoldable pub wait : Engine → Bool → Listener → Listener × Result Bool
wait engine signalled l = after_ensure signalled (ensure_listener engine l)

abbrev pub aclose_at : Engine → Option ℕ → Listener → Listener × Result (Unit {0})
aclose_at engine none l = (l, ok tt)
aclose_at engine (some c) l = (close c (record l { conn = none }), engine.remove_listener c)

unfoldable pub aclose : Engine → Listener → Listener × Result (Unit {0})
aclose engine l = aclose_at engine l.conn l
