-- ===== src/Queue/Fifo.antt =====
-- First in, first out within one `event_type` and `ordering_key` (a stream).
use native.Mathlib.Decide.{dec_lt}
use mathlib.Core.Bool.{false≢true}
use pactix.Prelude.{
  mem-select, ℕ, ◌<◌, ◌≤◌, ◌≡◌, refl, sym, ◌∙◌, ◌⊎◌, inl, inr, Bool, true, false, Option, none,
  some, String, List, map, Memᴰ, arith, lt→ltb, eq_iff, exists, exists-false, exists-true,
  Bool-cases, &&-true, mem-map, select, ltb,
}
use pactix.Queue.{
  Columns, is_null, same_key, is_pending, is_processing, is_open, is_ready, same_stream, blocks,
  fifo_gate, ready_fifo,
}

module _ {R : Type 0} (c : Columns R) where
  -- Two rows of one stream: the same event type and the same ordering key, which is not NULL.
  abbrev pub SameStream : R → R → Type 0
  SameStream r s = same_stream c r s ≡ true

  not_null : (j k : Option String) → same_key j k ≡ true → is_null k ≡ false
  not_null none k h = cc
  not_null (some j) none h = cc
  not_null (some j) (some k) h = refl

  not_null_of_stream : (r s : R) → SameStream r s → is_null (c.ordering_key s) ≡ false
  unfolding same_stream
  not_null_of_stream r s h = not_null (c.ordering_key r) (c.ordering_key s) (&&-true _ _ h).1

  -- The gate passes a row only when no older row of its stream is pending or processing.
  pub fifo_gate-closed :
      (table : List R) {r s : R}
      → fifo_gate c table s ≡ true
      → Memᴰ r table
      → SameStream r s
      → c.arrived_at r < c.arrived_at s
      → is_open c r ≡ false
  unfolding fifo_gate
  fifo_gate-closed table {r} {s} gate m stream older =
      let none_blocks : exists (blocks c s) table ≡ false =
        ground (arith, not_null_of_stream r s stream) in
      let free = exists-false (blocks c s) table none_blocks m in
      unfold blocks in ground (arith, lt→ltb _ _ older)

  -- No row is processing while an older row of its stream is pending or processing.
  abbrev pub InOrder : List R → Type 0
  InOrder table =
      (r s : R)
      → Memᴰ r table
      → Memᴰ s table
      → SameStream r s
      → c.arrived_at r < c.arrived_at s
      → is_processing c s ≡ true
      → is_open c r ≡ false

  -- What a change of rows may do: it keeps the stream and the arrival time, opens no closed row, and
  -- sets to processing only rows that were processing or passed the gate.
  pub record KeepsOrder (table : List R) (g : R → R) : Type 0 where
    pub event_type : (r : R) → c.event_type (g r) ≡ c.event_type r
    pub ordering_key : (r : R) → c.ordering_key (g r) ≡ c.ordering_key r
    pub arrived_at : (r : R) → c.arrived_at (g r) ≡ c.arrived_at r
    pub opens_none : (r : R) → Memᴰ r table → is_open c (g r) ≡ true → is_open c r ≡ true
    pub gated :
        (r : R)
        → Memᴰ r table
        → is_processing c (g r) ≡ true
        → (is_processing c r ≡ true) ⊎ (fifo_gate c table r ≡ true)

  same_stream-map :
      (table : List R) (g : R → R)
      → KeepsOrder table g
      → (r s : R) → same_stream c (g r) (g s) ≡ same_stream c r s
  unfolding same_stream
  same_stream-map table g keeps r s =
      cc (keeps.event_type r, keeps.event_type s, keeps.ordering_key r, keeps.ordering_key s)

  pub pending-open : (r : R) → is_pending c r ≡ true → is_open c r ≡ true
  unfolding is_open
  pending-open r h = ground arith

  closed_of : (b b' : Bool) → (b' ≡ true → b ≡ true) → b ≡ false → b' ≡ false
  closed_of b true h f = cc (h refl)
  closed_of b false h f = refl

  pub InOrder-map :
      (table : List R) (g : R → R) → KeepsOrder table g → InOrder table → InOrder (map g table)
  InOrder-map table g keeps ordered r' s' mr' ms' stream older processing =
      let (r, mr, er) = mem-map g table mr' in
      let (s, ms, es) = mem-map g table ms' in
      let stream' : SameStream r s =
        sym (same_stream-map table g keeps r s) ∙ (rw (er, es) at stream) in
      let older' : c.arrived_at r < c.arrived_at s =
        rw (er, es, keeps.arrived_at r, keeps.arrived_at s) at older in
      let closed : is_open c r ≡ false = elim (keeps.gated s ms (rw es at processing)) [
        | inl was ↦ ordered r s mr ms stream' older' was
        | inr gate ↦ fifo_gate-closed table gate mr stream' older'
      ] in
      rw er (closed_of _ _ (keeps.opens_none r mr) closed)

  pub ready_fifo-pending :
      (now : ℕ) (table : List R) (r : R) → ready_fifo c now table r ≡ true → is_pending c r ≡ true
  unfolding ready_fifo
  ready_fifo-pending now table r h = ground arith

  pub ready_fifo-available :
      (now : ℕ) (table : List R) (r : R) → ready_fifo c now table r ≡ true → c.available_at r ≤ now
  unfolding ready_fifo
  ready_fifo-available now table r h = ground arith

  pub ready_fifo-gate :
      (now : ℕ) (table : List R) (r : R)
      → ready_fifo c now table r ≡ true
      → fifo_gate c table r ≡ true
  unfolding ready_fifo
  ready_fifo-gate now table r h = ground arith

  pub is_ready-pending : (now : ℕ) (r : R) → is_ready c now r ≡ true → is_pending c r ≡ true
  unfolding is_ready
  is_ready-pending now r h = ground arith

  pub is_ready-available : (now : ℕ) (r : R) → is_ready c now r ≡ true → c.available_at r ≤ now
  unfolding is_ready
  is_ready-available now r h = ground arith

  -- The gate lets a row pass when no older row of its stream is pending or processing.
  fifo_gate-open :
      (table : List R) (r : R)
      → ((older : R)
          → Memᴰ older table
          → SameStream older r
          → c.arrived_at older < c.arrived_at r
          → is_open c older ≡ false)
      → fifo_gate c table r ≡ true
  unfolding fifo_gate
  fifo_gate-open table r closed = elim (Bool-cases (exists (blocks c r) table)) [
    | inr f ↦ ground arith
    | inl t ↦
        let (older, m, blocking) = exists-true (blocks c r) table t in
        let (stream, rest) = &&-true _ _ (unfold blocks in blocking) in
        let (before, open') = &&-true (ltb (c.arrived_at older) (c.arrived_at r)) _ rest in
        absurd (false≢true (sym (closed older m stream (ground (arith, before))) ∙ open'))
  ]

  pub ready_fifo-first :
      (now : ℕ) (table : List R) (r : R)
      → is_pending c r ≡ true
      → c.available_at r ≤ now
      → ((older : R)
          → Memᴰ older table
          → SameStream older r
          → c.arrived_at older < c.arrived_at r
          → is_open c older ≡ false)
      → ready_fifo c now table r ≡ true
  unfolding ready_fifo is_ready
  ready_fifo-first now table r pending available closed =
      let gate = fifo_gate-open table r closed in ground arith

  same_key_sym : (j k : Option String) → same_key j k ≡ true → same_key k j ≡ true
  same_key_sym none k h = cc
  same_key_sym (some j) none h = cc
  same_key_sym (some j) (some k) h = ground (arith, eq_iff j k, eq_iff k j)

  pub SameStream-sym : (r s : R) → SameStream r s → SameStream s r
  unfolding same_stream
  SameStream-sym r s h = ground (
    arith,
    eq_iff (c.event_type r) (c.event_type s),
    eq_iff (c.event_type s) (c.event_type r),
    same_key_sym (c.ordering_key r) (c.ordering_key s),
  )

  -- Of two ready rows of one stream neither is older than the other.
  ready-not_older :
      (now : ℕ) (table : List R) (r s : R)
      → ready_fifo c now table r ≡ true
      → ready_fifo c now table s ≡ true
      → Memᴰ r table
      → SameStream r s
      → c.arrived_at s ≤ c.arrived_at r
  ready-not_older now table r s ready_r ready_s m stream =
      elim (dec_lt (c.arrived_at r) (c.arrived_at s)) [
        | yes older ↦
            let closed =
              fifo_gate-closed table (ready_fifo-gate now table s ready_s) m stream older in
            absurd
              (false≢true (sym closed ∙ pending-open r (ready_fifo-pending now table r ready_r)))
        | no not_older ↦ omega arith
      ]

  -- Two rows of one stream that are ready together arrived at the same time.
  ready_one_per_stream :
      (now : ℕ) (table : List R) (r s : R)
      → Memᴰ r (select (ready_fifo c now table) table)
      → Memᴰ s (select (ready_fifo c now table) table)
      → SameStream r s
      → c.arrived_at r ≡ c.arrived_at s
  ready_one_per_stream now table r s mr ms stream =
      let (in_r, ready_r) = mem-select (ready_fifo c now table) table mr in
      let (in_s, ready_s) = mem-select (ready_fifo c now table) table ms in
      omega (
        arith,
        ready-not_older now table r s ready_r ready_s in_r stream,
        ready-not_older now table s r ready_s ready_r in_s (SameStream-sym r s stream),
      )
