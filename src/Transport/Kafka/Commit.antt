-- ===== src/Transport/Kafka/Commit.antt =====
-- When an offset is committed.
use pactix.Prelude.{
  ℕ, ◌≡◌, refl, sym, inl, inr, ◌∙◌, String, ◌∷◌, Result, ok, err, ◌>>=◌, >>=-eq-ok, Result-cases,
  Error, foreign_error,
}
use pactix.Prelude.Dict.{get}
use pactix.Dialect.{DateTime, Executor, Ending, committed, rolled_back, answer_lost}
use pactix.Config.{PactixConfig}
use pactix.Message.{MessageMetadata, MessageEnvelope, new_metadata, new_envelope}
use pactix.Message.Validation.{IsValid, IsValid-validate, new_envelope_lem}
use pactix.Outbox.Publisher.{or_raise}
use pactix.Inbox.Table.{InboxTable}
use pactix.Inbox.Store.{ReceiveOutcome, save_received}
use pactix.Transport.{transaction}
use pactix.Transport.Metadata.{with_keys-new_metadata}
use pactix.Transport.Kafka.Consumer.{
  KafkaInboundMessage, ConsumerState, Committer, text_or, fallback_message_id, event_type_required,
  to_envelope, after_store, save_and_commit,
}

-- The id under which a message is received.
abbrev pub message_id_of : KafkaInboundMessage → String
message_id_of message = text_or (get message.headers "message_id") (fallback_message_id message)

-- The metadata of a message at a time.
abbrev pub metadata_of : KafkaInboundMessage → String → DateTime → MessageMetadata
metadata_of message event_type occurred_at =
    record (new_metadata occurred_at (message_id_of message) event_type) {
      message_key = message.key;
      ordering_key = get message.headers "ordering_key";
      correlation_id = get message.headers "correlation_id";
      headers = message.headers;
    }

abbrev pub envelope_of : KafkaInboundMessage → String → DateTime → MessageEnvelope
envelope_of message event_type occurred_at = record {
  metadata = metadata_of message event_type occurred_at;
  payload = message.payload;
}

module _ (message : KafkaInboundMessage) (event_type : String) where
  to_envelope_found :
      (t : DateTime)
      → or_raise event_type_required (get message.headers "event_type") ≡ ok event_type
      → to_envelope t message ≡ new_envelope (metadata_of message event_type t) message.payload
  unfolding to_envelope
  to_envelope_found t found =
      rw
        (
          found,
          with_keys-new_metadata t (message_id_of message) event_type message.key
              (get message.headers "ordering_key") (get message.headers "correlation_id")
              message.headers,
        )
        refl

  -- Whether metadata is valid does not depend on its time.
  pub metadata_of-IsValid :
      (t t' : DateTime)
      → IsValid (metadata_of message event_type t)
      → IsValid (metadata_of message event_type t')
  metadata_of-IsValid t t' v = record {
    has_message_id = v.has_message_id;
    has_event_type = v.has_event_type;
    key_not_blank = v.key_not_blank;
  }

event_type_of :
    (message : KafkaInboundMessage) (t : DateTime) (envelope : MessageEnvelope)
    → to_envelope t message ≡ ok envelope
    → (event_type : String) × (or_raise event_type_required (get message.headers "event_type")
        ≡ ok event_type)
unfolding to_envelope
event_type_of message t envelope h =
    let (event_type, found, _) =
      >>=-eq-ok (or_raise event_type_required (get message.headers "event_type")) _ h in
    (event_type, found)

-- A message that is read at one time is read at any other, as the same but for the time.
pub to_envelope-ok :
    (message : KafkaInboundMessage) (occurred_at : DateTime) (envelope : MessageEnvelope)
    → to_envelope occurred_at message ≡ ok envelope
    → (event_type : String) × (envelope ≡ envelope_of message event_type occurred_at)
      × IsValid (metadata_of message event_type occurred_at)
      × ((t : DateTime) → to_envelope t message ≡ ok (envelope_of message event_type t))
to_envelope-ok message occurred_at envelope h =
    let (event_type, found) = event_type_of message occurred_at envelope h in
    let (shape, valid) =
      new_envelope_lem (metadata_of message event_type occurred_at) message.payload envelope
        (sym (to_envelope_found message event_type occurred_at found) ∙ h) in
    (
      event_type,
      shape,
      valid,
      λ t.
          to_envelope_found message event_type t found
          ∙ unfold new_envelope in
            rw (IsValid-validate _ (metadata_of-IsValid message event_type occurred_at t valid))
              refl,
    )

-- What a consumer has done, of the attempt to store the message, of how the database ends the transaction
-- and of what the committer answers.
pub data IsConsumed (position : String × ℕ × ℕ) (attempt : Result (InboxTable × ReceiveOutcome))
    (ending : Ending) (committing : Result (Unit {0})) (s s' : ConsumerState)
    (answer : Result ReceiveOutcome) : Type 0 where
  -- The message is stored, and only then the offset is committed.
  consumed :
      (outcome : ReceiveOutcome)
      → attempt ≡ ok (s'.table, outcome)
      → ending ≡ committed
      → committing ≡ ok tt
      → answer ≡ ok outcome
      → s'.commits ≡ position ∷ s.commits
      → IsConsumed position attempt ending committing s s' answer
  -- The message is stored, but its offset is not committed.
  uncommitted :
      (outcome : ReceiveOutcome) (error : Error)
      → attempt ≡ ok (s'.table, outcome)
      → ending ≡ committed
      → committing ≡ err error
      → answer ≡ err error
      → s'.commits ≡ s.commits
      → IsConsumed position attempt ending committing s s' answer
  -- The transaction is committed, but its answer is lost.
  unconfirmed :
      (outcome : ReceiveOutcome) (text : String)
      → attempt ≡ ok (s'.table, outcome)
      → ending ≡ answer_lost text
      → answer ≡ err (foreign_error text)
      → s'.commits ≡ s.commits
      → IsConsumed position attempt ending committing s s' answer
  -- Nothing is stored.
  undone :
      (out : InboxTable × ReceiveOutcome) (text : String)
      → attempt ≡ ok out
      → ending ≡ rolled_back text
      → answer ≡ err (foreign_error text)
      → s' ≡ s
      → IsConsumed position attempt ending committing s s' answer
  rejected :
      (error : Error)
      → attempt ≡ err error
      → answer ≡ err error
      → s' ≡ s
      → IsConsumed position attempt ending committing s s' answer

consumed-ended :
    (commit : Committer) (message : KafkaInboundMessage) (s : ConsumerState)
    (attempt : Result (InboxTable × ReceiveOutcome)) (ending : Ending)
    (out : InboxTable × ReceiveOutcome)
    → attempt ≡ ok out
    → let done = after_store commit message (transaction ending s.table (ok out)) s in
      IsConsumed
        (message.topic, message.partition, message.offset)
        attempt
        ending
        (commit message.topic message.partition message.offset)
        s
        done.0
        done.1
unfolding transaction
consumed-ended commit message s attempt (rolled_back text) out h =
    IsConsumed.undone out text h refl refl refl
consumed-ended commit message s attempt (answer_lost text) out h =
    IsConsumed.unconfirmed out.1 text h refl refl refl
consumed-ended commit message s attempt committed out h =
    elim (Result-cases (commit message.topic message.partition message.offset)) [
      | inl (_, done) ↦ rw done (IsConsumed.consumed out.1 h refl refl refl refl)
      | inr (error, stopped) ↦ rw stopped (IsConsumed.uncommitted out.1 error h refl refl refl refl)
    ]

module _ {F : Type 0} (config : PactixConfig F) (e : Executor) (source : String) (id : ℕ)
    (occurred_at now : DateTime) (message : KafkaInboundMessage) (commit : Committer)
    (s : ConsumerState) where
  -- The attempt to store the message: it may raise at the envelope and in the store.
  abbrev pub attempted : Result (InboxTable × ReceiveOutcome)
  attempted = to_envelope occurred_at message >>= λ envelope.
      save_received config e id now source envelope s.table

  -- For every record, committer, database and table, and however the database ends the transaction: an
  -- offset is committed exactly where the message was stored, its transaction is committed, the code
  -- was told so, and the committer succeeds. Otherwise an exception is raised, and no offset is
  -- committed; the table then has the message only if the transaction was committed, and is as it was
  -- where the transaction was rolled back, or where storing the message raised.
  pub save_and_commit_lem :
      let out = save_and_commit config e source id occurred_at now message commit s in
      IsConsumed
        (message.topic, message.partition, message.offset)
        attempted
        (e.ending 0)
        (commit message.topic message.partition message.offset)
        s
        out.0
        out.1
  unfolding save_and_commit
  save_and_commit_lem = elim (Result-cases attempted) [
    | inr (error, stopped) ↦
        rw stopped (unfold transaction in IsConsumed.rejected error refl refl refl)
    | inl (out, done) ↦ rw done (consumed-ended commit message s (ok out) (e.ending 0) out refl)
  ]
