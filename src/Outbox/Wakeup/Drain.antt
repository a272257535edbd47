-- ===== src/Outbox/Wakeup/Drain.antt =====
-- When a drain ends.
use pactix.Prelude.{
  ℕ, zero, suc, ◌+◌, ◌≡◌, ◌≢◌, ◌≤◌, ◌⊎◌, inl, inr, refl, ap, ◌∙◌, Bool, true, false, Result, ok,
  err, arith, ◌==◌, Bool-cases, ltb,
}
use pactix.Outbox.Table.{OutboxTable}
use pactix.Outbox.Runner.{RunSummary}
use pactix.Outbox.Wakeup.{after_pass, drain_passes, drain, max_passes_per_wake}

module _ (pass : ℕ → OutboxTable → OutboxTable × Result RunSummary) where
  -- `Busy k n t u`: from the table t, the k passes from the n-th on all claim rows, and leave u.
  pub data Busy : ℕ → ℕ → OutboxTable → OutboxTable → Type 0 where
    none_yet : {n : ℕ} {t : OutboxTable} → Busy zero n t t
    one_more :
        {k n : ℕ} {t u v : OutboxTable} (s : RunSummary)
        → pass n t ≡ (u, ok s)
        → s.claimed ≢ 0
        → Busy k (suc n) u v
        → Busy (suc k) n t v

  -- How a drain with `limit` passes left ends: after k passes that claimed rows, at the limit or with a
  -- pass that claimed none.
  pub record Ended (limit n : ℕ) (t t' : OutboxTable) (k : ℕ) : Type 0 where
    pub within : k ≤ limit
    pub table : OutboxTable
    pub busy : Busy k n t table
    pub stopped :
        ((k ≡ limit) × (t' ≡ table))
        ⊎ ((s : RunSummary) × (pass (n + k) table ≡ (t', ok s)) × (s.claimed ≡ 0))

  Ended-one_more :
      {limit n k : ℕ} {t u t' : OutboxTable} (s : RunSummary)
      → pass n t ≡ (u, ok s)
      → s.claimed ≢ 0
      → Ended limit (suc n) u t' k
      → Ended (suc limit) n t t' (suc k)
  Ended-one_more {limit} {n} {k} s ran some_claimed e = record {
    within = omega (arith, e.within);
    table = e.table;
    busy = Busy.one_more s ran some_claimed e.busy;
    stopped = elim e.stopped [
      | inl (at_limit, same) ↦ inl (omega arith, same)
      | inr (s', last, idle) ↦
          let shift : suc n + k ≡ n + suc k = omega arith in inr (s', rw shift at last, idle)
    ];
  }

  -- `found_work or k > 0`
  abbrev pub found_after : Bool → ℕ → Bool
  found_after found zero = found
  found_after found (suc k) = true

  found_after-true : (k : ℕ) → found_after true k ≡ true
  found_after-true zero = refl
  found_after-true (suc k) = refl

  after_cases :
      (limit n : ℕ) (found : Bool) (t : OutboxTable) (r : OutboxTable × Result RunSummary)
      (t' : OutboxTable) (answer : Bool)
      → after_pass found r (drain_passes pass limit (suc n) true) ≡ (t', ok answer)
      → (s : RunSummary) × (r ≡ (r.0, ok s))
        × (((s.claimed ≡ 0) × (r.0 ≡ t') × (answer ≡ found))
            ⊎ ((s.claimed ≢ 0) × (drain_passes pass limit (suc n) true r.0 ≡ (t', ok answer))))
  after_cases limit n found t (u, err error) t' answer h = cc
  after_cases limit n found t (u, ok s) t' answer h = elim (Bool-cases (s.claimed == 0)) [
    | inl z ↦ (s, refl, inl (ground arith, cc (rw z at h), cc (rw z at h)))
    | inr z ↦ (s, refl, inr (ground arith, rw z at h))
  ]

  drain_passes-Ended :
      (limit n : ℕ) (found : Bool) (t t' : OutboxTable) (answer : Bool)
      → drain_passes pass limit n found t ≡ (t', ok answer)
      → (k : ℕ) × Ended limit n t t' k × (answer ≡ found_after found k)
  unfolding drain_passes
  drain_passes-Ended zero n found t t' answer h = (
    0,
    record { within = omega arith; table = t; busy = Busy.none_yet; stopped = inl (refl, cc) },
    cc,
  )
  drain_passes-Ended (suc limit) n found t t' answer h =
      let (s, ran, ends) = after_cases limit n found t (pass n t) t' answer h in
      elim ends [
        | inl (idle, same, told) ↦
            let here : n + 0 ≡ n = omega arith in
            let last : pass (n + 0) t ≡ (t', ok s) = rw here (ran ∙ ap (λ u. (u, ok s)) same) in
            (
              0,
              record {
                within = omega arith;
                table = t;
                busy = Busy.none_yet;
                stopped = inr (s, last, idle);
              },
              told,
            )
        | inr (some_claimed, rest) ↦
            let (k, e, told) = drain_passes-Ended limit (suc n) true _ t' answer rest in
            (suc k, Ended-one_more s ran some_claimed e, told ∙ found_after-true k)
      ]

  found_at_all : (k : ℕ) → found_after false k ≡ ltb 0 k
  found_at_all zero = refl
  found_at_all (suc k) = ground arith

  -- A drain that returns has made k passes that claimed rows, where k is at most 100, and ended at the
  -- hundredth or with one more pass, which claimed none; it answers whether k is above 0.
  pub drain_ends :
      (n : ℕ) (t t' : OutboxTable) (answer : Bool)
      → drain pass n t ≡ (t', ok answer)
      → (k : ℕ) × Ended max_passes_per_wake n t t' k × (answer ≡ ltb 0 k)
  unfolding drain
  drain_ends n t t' answer h =
      let (k, e, told) = drain_passes-Ended max_passes_per_wake n false t t' answer h in
      (k, e, told ∙ found_at_all k)
