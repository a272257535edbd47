-- ===== src/Transport/Http/Endpoint.antt =====
-- What the endpoint does to the inbox, with each answer that it gives.
use pactix.Prelude.{
  ℕ, ◌≡◌, refl, ap, none, some, String, Bool, true, false, Result, ok, err, ◌>>=◌, inl, inr, ◌⊎◌,
  Error, validation_error, persistence_error, routing_error, integrity_error, no_result_found,
  multiple_results_found, foreign_error, Result-cases, ◌∙◌,
}
use pactix.Prelude.Dict.{Dict}
use pactix.Dialect.{DateTime, Executor, Ending, committed, rolled_back, answer_lost}
use pactix.Config.{PactixConfig}
use pactix.Message.{JsonValue, MessageEnvelope}
use pactix.Inbox.Table.{InboxTable}
use pactix.Inbox.Store.{ReceiveOutcome, save_received}
use pactix.Transport.{transaction}
use pactix.Transport.Http.Inbox.{
  from_headers, to_envelope, Response, accepted, respond, save_message, save, handler,
}

-- The exceptions that are no `PactixError`.
abbrev pub is_foreign : Error → Bool
is_foreign (validation_error text) = false
is_foreign (persistence_error text) = false
is_foreign (routing_error text) = false
is_foreign integrity_error = true
is_foreign no_result_found = true
is_foreign multiple_results_found = true
is_foreign (foreign_error text) = true

-- What the handler answers to a body, of the attempt to store the message and of how the database ends
-- the transaction; and what it leaves of the table.
pub data IsAnswered (payload : Result JsonValue) (attempt : Result (InboxTable × ReceiveOutcome))
    (ending : Ending) (table table' : InboxTable) (answer : Result Response) : Type 0 where
  -- The body cannot be read.
  unread :
      (error : Error)
      → payload ≡ err error
      → answer ≡ err error
      → table' ≡ table
      → IsAnswered payload attempt ending table table' answer
  -- Nothing is raised, and the message is stored.
  stored :
      (outcome : ReceiveOutcome)
      → attempt ≡ ok (table', outcome)
      → ending ≡ committed
      → answer ≡ ok (record { status = 202; text = none })
      → IsAnswered payload attempt ending table table' answer
  invalid :
      (text : String)
      → attempt ≡ err (validation_error text)
      → answer ≡ ok (record { status = 400; text = some text })
      → table' ≡ table
      → IsAnswered payload attempt ending table table' answer
  refused :
      (text : String)
      → (attempt ≡ err (persistence_error text)) ⊎ (attempt ≡ err (routing_error text))
      → answer ≡ ok (record { status = 500; text = some text })
      → table' ≡ table
      → IsAnswered payload attempt ending table table' answer
  raised :
      (error : Error)
      → attempt ≡ err error
      → is_foreign error ≡ true
      → answer ≡ err error
      → table' ≡ table
      → IsAnswered payload attempt ending table table' answer
  undone :
      (text : String) (out : InboxTable × ReceiveOutcome)
      → attempt ≡ ok out
      → ending ≡ rolled_back text
      → answer ≡ err (foreign_error text)
      → table' ≡ table
      → IsAnswered payload attempt ending table table' answer
  unconfirmed :
      (text : String) (outcome : ReceiveOutcome)
      → attempt ≡ ok (table', outcome)
      → ending ≡ answer_lost text
      → answer ≡ err (foreign_error text)
      → IsAnswered payload attempt ending table table' answer

respond-error :
    (payload : Result JsonValue) (attempt : Result (InboxTable × ReceiveOutcome)) (ending : Ending)
    (table : InboxTable) (error : Error)
    → attempt ≡ err error
    → let out = respond (table, err error) in IsAnswered payload attempt ending table out.0 out.1
unfolding respond
respond-error payload attempt ending table (validation_error text) h =
    IsAnswered.invalid text h refl refl
respond-error payload attempt ending table (persistence_error text) h =
    IsAnswered.refused text (inl h) refl refl
respond-error payload attempt ending table (routing_error text) h =
    IsAnswered.refused text (inr h) refl refl
respond-error payload attempt ending table integrity_error h =
    IsAnswered.raised integrity_error h refl refl refl
respond-error payload attempt ending table no_result_found h =
    IsAnswered.raised no_result_found h refl refl refl
respond-error payload attempt ending table multiple_results_found h =
    IsAnswered.raised multiple_results_found h refl refl refl
respond-error payload attempt ending table (foreign_error text) h =
    IsAnswered.raised (foreign_error text) h refl refl refl

-- After an attempt that raises nothing.
respond-ended :
    (payload : Result JsonValue) (attempt : Result (InboxTable × ReceiveOutcome)) (ending : Ending)
    (table : InboxTable) (out : InboxTable × ReceiveOutcome)
    → attempt ≡ ok out
    → let answered = respond (transaction ending table (ok out)) in
      IsAnswered payload attempt ending table answered.0 answered.1
unfolding respond transaction
respond-ended payload attempt committed table out h = IsAnswered.stored out.1 h refl refl
respond-ended payload attempt (rolled_back text) table out h =
    IsAnswered.undone text out h refl refl refl
respond-ended payload attempt (answer_lost text) table out h =
    IsAnswered.unconfirmed text out.1 h refl refl

module _ {F : Type 0} (lower : String → String) (config : PactixConfig F) (e : Executor)
    (source : String) (id : ℕ) (occurred_at now : DateTime) (headers : Dict String)
    (table : InboxTable) where
  -- What `save` does, told by its two parts.
  abbrev pub delivered : JsonValue → Result (InboxTable × ReceiveOutcome)
  delivered payload = from_headers lower headers payload >>= to_envelope occurred_at >>= λ envelope.
      save_received config e id now source envelope table

  save-delivered :
      (payload : JsonValue)
      → save lower config e source id occurred_at now headers payload table
        ≡ transaction (e.ending 0) table (delivered payload)
  unfolding save save_message transaction
  save-delivered payload = elim (Result-cases (from_headers lower headers payload)) [
    | inl (message, made) ↦ rw made refl
    | inr (error, failed) ↦ rw failed refl
  ]

  -- What the handler does on a body that is read, from what `delivered` gives.
  handler-error :
      (payload : JsonValue) (error : Error)
      → delivered payload ≡ err error
      → handler lower config e source id occurred_at now headers (ok payload) table
        ≡ respond (table, err error)
  unfolding handler transaction
  handler-error payload error failed = ap respond (save-delivered payload ∙ rw failed refl)

  handler-ended :
      (payload : JsonValue) (out : InboxTable × ReceiveOutcome)
      → delivered payload ≡ ok out
      → handler lower config e source id occurred_at now headers (ok payload) table
        ≡ respond (transaction (e.ending 0) table (ok out))
  unfolding handler
  handler-ended payload out done =
      ap respond (save-delivered payload ∙ ap (transaction (e.ending 0) table) done)

  pub handler-saved :
      (payload : JsonValue) (envelope : MessageEnvelope) (out : InboxTable × ReceiveOutcome)
      → (from_headers lower headers payload >>= to_envelope occurred_at) ≡ ok envelope
      → save_received config e id now source envelope table ≡ ok out
      → e.ending 0 ≡ committed
      → handler lower config e source id occurred_at now headers (ok payload) table
        ≡ (out.0, ok accepted)
  unfolding handler transaction respond
  handler-saved payload envelope out made saved ended =
      let done : delivered payload ≡ ok out = rw made saved in
      handler-ended payload out done ∙ rw ended refl

  -- The attempt to store the message of a body: it may raise at the body, at the headers, at the
  -- metadata, and in the store.
  abbrev pub attempted : Result JsonValue → Result (InboxTable × ReceiveOutcome)
  attempted payload = payload >>= delivered

  -- Whatever the request is, and however the database ends the transaction. Where the store has answered
  -- and the transaction is committed, the handler answers 202, and the table is that of the store.
  -- Where storing the message raises a `ValidationError` it answers 400 with its text, where it raises
  -- another `PactixError` 500, and any other exception, of the body, of the store or of the database, is
  -- raised; the table is then as it was, unless the transaction was committed and only the answer to it
  -- was lost.
  pub handler_lem :
      (payload : Result JsonValue)
      → let out = handler lower config e source id occurred_at now headers payload table in
        IsAnswered payload (attempted payload) (e.ending 0) table out.0 out.1
  handler_lem (err error) = unfold handler in IsAnswered.unread error refl refl refl
  handler_lem (ok payload) = elim (Result-cases (delivered payload)) [
    | inr (error, failed) ↦
        rw (handler-error payload error failed)
          (respond-error (ok payload) (delivered payload) (e.ending 0) table error failed)
    | inl (out, done) ↦
        rw (handler-ended payload out done)
          (respond-ended (ok payload) (delivered payload) (e.ending 0) table out done)
  ]
