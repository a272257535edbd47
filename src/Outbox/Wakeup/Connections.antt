-- ===== src/Outbox/Wakeup/Connections.antt =====
-- No connection of the pool is lost.
use pactix.Prelude.{
  ℕ, ◌≡◌, refl, sym, ap, ◌∙◌, Bool, not, Option, none, some, List, [], ◌∷◌, ◌==◌, ==_iff, select,
  Result, ok, err, arith,
}
use pactix.Outbox.Wakeup.Listener.{
  Engine, Listener, new_listener, on_notify, close, aclose_at, after_listen, after_connect,
  ensure_at, after_ensure, ensure_listener, wait, aclose,
}

-- The calls of a listener, each with the engine as it then is.
pub data Call : Type 0 where
  notifies : Call
  waits : Engine → Bool → Call
  closes : Engine → Call

unfoldable pub call : Call → Listener → Listener
call notifies l = on_notify l
call (waits engine signalled) l = (wait engine signalled l).0
call (closes engine) l = (aclose engine l).0

unfoldable pub calls : List Call → Listener → Listener
unfolding call
calls [] l = l
calls (c ∷ cs) l = calls cs (call c l)

-- The connection that the listener holds.
abbrev pub held : Option ℕ → List ℕ
held none = []
held (some c) = c ∷ []

-- What is checked out of the pool is what the listener holds.
abbrev pub IsBalanced : Listener → Type 0
IsBalanced l = l.checked_out ≡ held l.conn

close_only : (c : ℕ) → select (λ d. not (d == c)) (c ∷ []) ≡ []
close_only c = ground (arith, ==_iff c c)

aclose_at-lem :
    (engine : Engine) (o : Option ℕ) (l : Listener)
    → l.conn ≡ o
    → l.checked_out ≡ held o
    → ((aclose_at engine o l).0.conn ≡ none) × ((aclose_at engine o l).0.checked_out ≡ [])
unfolding close
aclose_at-lem engine none l n b = (n, b)
aclose_at-lem engine (some c) l s b = (refl, rw b (close_only c))

after_listen-IsBalanced :
    (c : ℕ) (answer : Result (Unit {0})) (l : Listener)
    → l.conn ≡ none
    → l.checked_out ≡ c ∷ []
    → IsBalanced (after_listen c answer l).0
unfolding close
after_listen-IsBalanced c (ok _) l n b = b
after_listen-IsBalanced c (err error) l n b = rw (n, b) (close_only c)

after_connect-IsBalanced :
    (engine : Engine) (answer : Result ℕ) (l : Listener)
    → l.conn ≡ none
    → l.checked_out ≡ []
    → IsBalanced (after_connect engine answer l).0
after_connect-IsBalanced engine (err error) l n b = b ∙ sym (ap held n)
after_connect-IsBalanced engine (ok c) l n b =
    after_listen-IsBalanced c (engine.add_listener c) (record l { checked_out = c ∷ l.checked_out })
      n (ap (λ cs. c ∷ cs) b)

ensure_at-IsBalanced :
    (engine : Engine) (o : Option ℕ) (l : Listener)
    → l.conn ≡ o
    → l.checked_out ≡ held o
    → IsBalanced (ensure_at engine o l).0
ensure_at-IsBalanced engine (some c) l s b = b ∙ sym (ap held s)
ensure_at-IsBalanced engine none l n b = after_connect-IsBalanced engine engine.connect l n b

after_ensure-IsBalanced :
    (signalled : Bool) (r : Listener × Result (Unit {0}))
    → IsBalanced r.0
    → IsBalanced (after_ensure signalled r).0
after_ensure-IsBalanced signalled (l, err error) b = b
after_ensure-IsBalanced signalled (l, ok _) b = b

pub ensure_listener-IsBalanced :
    (engine : Engine) (l : Listener) → IsBalanced l → IsBalanced (ensure_listener engine l).0
unfolding ensure_listener
ensure_listener-IsBalanced engine l b = ensure_at-IsBalanced engine l.conn l refl b

pub wait-IsBalanced :
    (engine : Engine) (signalled : Bool) (l : Listener)
    → IsBalanced l
    → IsBalanced (wait engine signalled l).0
unfolding wait
wait-IsBalanced engine signalled l b =
    after_ensure-IsBalanced signalled (ensure_listener engine l)
      (ensure_listener-IsBalanced engine l b)

pub aclose_lem :
    (engine : Engine) (l : Listener)
    → IsBalanced l
    → ((aclose engine l).0.conn ≡ none) × ((aclose engine l).0.checked_out ≡ [])
unfolding aclose
aclose_lem engine l b = aclose_at-lem engine l.conn l refl b

call-IsBalanced : (c : Call) (l : Listener) → IsBalanced l → IsBalanced (call c l)
unfolding call on_notify
call-IsBalanced notifies l b = b
call-IsBalanced (waits engine signalled) l b = wait-IsBalanced engine signalled l b
call-IsBalanced (closes engine) l b =
    let (n, empty) = aclose_lem engine l b in empty ∙ sym (ap held n)

calls-IsBalanced : (cs : List Call) (l : Listener) → IsBalanced l → IsBalanced (calls cs l)
unfolding calls
calls-IsBalanced [] l b = b
calls-IsBalanced (c ∷ cs) l b = calls-IsBalanced cs (call c l) (call-IsBalanced c l b)

-- However a new listener is used, and whatever the engine and the driver answer or raise: at every
-- moment the connections that it has checked out of the pool are the one that it holds, or none; and an
-- `aclose` that follows leaves none checked out and none held, also where removing the listener raises.
pub calls-aclose :
    (cs : List Call) (engine : Engine)
    → let l = calls cs new_listener in
      (l.checked_out ≡ held l.conn)
      × ((aclose engine l).0.checked_out ≡ [])
      × ((aclose engine l).0.conn ≡ none)
calls-aclose cs engine =
    let balanced = calls-IsBalanced cs new_listener refl in
    let (n, empty) = aclose_lem engine (calls cs new_listener) balanced in (balanced, empty, n)
