-- ===== src/Outbox/Wakeup/Notify.antt =====
-- The notifier keeps its NOTIFY apart, where its calls do not overlap.
use pactix.Prelude.{
  ℕ, ◌+◌, ◌≡◌, ◌≤◌, refl, false, Option, none, some, List, [], ◌∷◌, Result, ok, err, arith,
  Bool-cases, inl, inr,
}
use pactix.Outbox.Wakeup.{CoalescedNotifier, too_recent, end_notify, notify}

-- Each reading comes at least `coalesce` after the one before it.
abbrev pub SpacedBy : ℕ → List ℕ → Type 0
SpacedBy coalesce [] = Unit
SpacedBy coalesce (t ∷ []) = Unit
SpacedBy coalesce (t ∷ s ∷ before) = (s + coalesce ≤ t) × SpacedBy coalesce (s ∷ before)

abbrev pub newest : List ℕ → Option ℕ
newest [] = none
newest (t ∷ before) = some t

-- The notifier remembers the newest NOTIFY, and they are spaced.
pub record IsSpaced (n : CoalescedNotifier) : Type 0 where
  pub remembered : n.last_notified ≡ newest n.notified
  pub spaced : SpacedBy n.coalesce n.notified

-- The clock has not gone back behind a NOTIFY.
abbrev pub NotBefore : ℕ → Option ℕ → Type 0
NotBefore now none = Unit
NotBefore now (some last) = last ≤ now

spaced_cons :
    (coalesce now : ℕ) (sent : List ℕ)
    → NotBefore now (newest sent)
    → SpacedBy coalesce sent
    → too_recent coalesce now (newest sent) ≡ false
    → SpacedBy coalesce (now ∷ sent)
spaced_cons coalesce now [] clock spaced h = tt
spaced_cons coalesce now (s ∷ before) clock spaced h = (ground arith, spaced)

-- One call: its reading of the clock, and what the statement answers if it is run.
abbrev pub Call : Type 0
Call = ℕ × Result (Unit {0})

-- Calls that do not overlap, the first one first: each is done before the next reads the clock.
abbrev pub after_calls : List Call → CoalescedNotifier → CoalescedNotifier
after_calls [] n = n
after_calls ((now, sent) ∷ calls) n = after_calls calls (notify now sent n).0

-- The clock does not go back from call to call.
abbrev pub Monotonic : ℕ → List Call → Type 0
Monotonic now [] = Unit
Monotonic now ((next, sent) ∷ calls) = (now ≤ next) × Monotonic next calls

notify-IsSpaced :
    (now : ℕ) (sent : Result (Unit {0})) (n : CoalescedNotifier)
    → NotBefore now n.last_notified
    → IsSpaced n
    → IsSpaced (notify now sent n).0
unfolding notify
notify-IsSpaced now sent n clock s = elim (Bool-cases (too_recent n.coalesce now n.last_notified)) [
  | inl t ↦ rw t s
  | inr f ↦ rw f (ended sent f)
]
  where
    ended :
        (sent : Result (Unit {0}))
        → too_recent n.coalesce now n.last_notified ≡ false
        → IsSpaced (end_notify now sent n).0
    ended (err error) f = unfold end_notify in s
    ended (ok _) f =
        unfold end_notify in
        record {
          remembered = refl;
          spaced =
              spaced_cons n.coalesce now n.notified (rw s.remembered at clock) s.spaced
                (rw s.remembered at f);
        }

NotBefore-later :
    (now later : ℕ) (last : Option ℕ) → NotBefore now last → now ≤ later → NotBefore later last
NotBefore-later now later none h le = tt
NotBefore-later now later (some t) h le = omega arith

notify-NotBefore :
    (now : ℕ) (sent : Result (Unit {0})) (n : CoalescedNotifier)
    → NotBefore now n.last_notified
    → NotBefore now (notify now sent n).0.last_notified
unfolding notify
notify-NotBefore now sent n clock = elim (Bool-cases (too_recent n.coalesce now n.last_notified)) [
  | inl t ↦ rw t clock
  | inr f ↦ rw f (ended sent)
]
  where
    ended : (sent : Result (Unit {0})) → NotBefore now (end_notify now sent n).0.last_notified
    ended (err error) = unfold end_notify in clock
    ended (ok _) = unfold end_notify in omega arith

-- After any calls that do not overlap, on a clock that does not go back, whether their statements
-- succeed or raise: the calls that have sent a NOTIFY read the clock at least the coalesce interval
-- apart.
pub calls-IsSpaced :
    (calls : List Call) (start : ℕ) (n : CoalescedNotifier)
    → Monotonic start calls
    → NotBefore start n.last_notified
    → IsSpaced n
    → IsSpaced (after_calls calls n)
calls-IsSpaced [] start n m clock s = s
calls-IsSpaced ((now, sent) ∷ calls) start n (le, m) clock s =
    let now_clock = NotBefore-later start now n.last_notified clock le in
    calls-IsSpaced calls now (notify now sent n).0 m (notify-NotBefore now sent n now_clock)
      (notify-IsSpaced now sent n now_clock s)
