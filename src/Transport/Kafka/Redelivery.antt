-- ===== src/Transport/Kafka/Redelivery.antt =====
-- A record that comes again after its commit has failed.
use pactix.Prelude.{
  ℕ, ◌≡◌, refl, true, false, String, ◌∷◌, Memᴰ, ok, err, Error, exists, str_eq_refl,
}
use pactix.Prelude.Text.{is_blank}
use pactix.Dialect.{committed, DateTime, Executor, IsAware}
use pactix.Dialect.RoundTrip.{IsBackend}
use pactix.Config.{PactixConfig}
use pactix.Message.{MessageEnvelope}
use pactix.Inbox.Model.{pending, from_str, from_str-as_str}
use pactix.Inbox.Table.{InboxTable, same_receipt, collides}
use pactix.Inbox.Store.{ReceiveOutcome, record_values, save_received}
use pactix.Inbox.Store.Receipt.{UniqueReceipts, collides-false}
use pactix.Inbox.Store.Dedup.{Fits, received_row, save_received_new, save_received_duplicate}
use pactix.Transport.{transaction}
use pactix.Transport.Kafka.Consumer.{
  KafkaInboundMessage, ConsumerState, Committer, to_envelope, save_and_commit,
}
use pactix.Transport.Kafka.Commit.{envelope_of, metadata_of-IsValid, to_envelope-ok}

module _ {F : Type 0} (config : PactixConfig F) (e : Executor) (source : String)
    (message : KafkaInboundMessage) where
  -- `save_and_commit`, where the message is read and the store answers.
  stored-committed :
      (id : ℕ) (occ now : DateTime) (commit : Committer) (s : ConsumerState)
      (envelope : MessageEnvelope) (out : InboxTable × ReceiveOutcome)
      → to_envelope occ message ≡ ok envelope
      → save_received config e id now source envelope s.table ≡ ok out
      → commit message.topic message.partition message.offset ≡ ok tt
      → e.ending 0 ≡ committed
      → save_and_commit config e source id occ now message commit s ≡ (
        record {
          table = out.0;
          commits = (message.topic, message.partition, message.offset) ∷ s.commits;
        },
        ok out.1,
      )
  unfolding save_and_commit transaction
  stored-committed id occ now commit s envelope out built saved done ended =
      rw (built, saved, ended, done) refl

  stored-uncommitted :
      (id : ℕ) (occ now : DateTime) (commit : Committer) (s : ConsumerState)
      (envelope : MessageEnvelope) (out : InboxTable × ReceiveOutcome) (error : Error)
      → to_envelope occ message ≡ ok envelope
      → save_received config e id now source envelope s.table ≡ ok out
      → commit message.topic message.partition message.offset ≡ err error
      → e.ending 0 ≡ committed
      → save_and_commit config e source id occ now message commit s
        ≡ (record { table = out.0; commits = s.commits }, err error)
  unfolding save_and_commit transaction
  stored-uncommitted id occ now commit s envelope out error built saved failed ended =
      rw (built, saved, ended, failed) refl

  again :
      (event_type : String) (id id' : ℕ) (occ occ' now now' : DateTime)
      → same_receipt e.weight
          (received_row config e id' now' source (envelope_of message event_type occ'))
          (received_row config e id now source (envelope_of message event_type occ))
        ≡ true
  unfolding record_values
  again event_type id id' occ occ' now now' =
      rw
        (
          str_eq_refl (e.weight source),
          str_eq_refl (e.weight (envelope_of message event_type occ).metadata.message_id),
        )
        refl

  known :
      (envelope : MessageEnvelope) (id : ℕ) (now : DateTime)
      → from_str (received_row config e id now source envelope).status ≡ ok pending
  unfolding record_values
  known envelope id now = from_str-as_str pending

  Fits-at :
      (event_type : String) (t t' : DateTime)
      → Fits e source (envelope_of message event_type t).metadata
      → Fits e source (envelope_of message event_type t').metadata
  Fits-at event_type t t' f = record {
    source_fits = f.source_fits;
    message_id_fits = f.message_id_fits;
    event_type_fits = f.event_type_fits;
    message_key_fits = f.message_key_fits;
    ordering_key_fits = f.ordering_key_fits;
    correlation_id_fits = f.correlation_id_fits;
  }

  -- A record whose commit fails is not lost and not stored twice. Where its message is valid, fits into the columns and is new,
  -- the first call stores it, commits nothing and raises the error of the committer; when the record
  -- comes again, at any later time, the table stays as it is, the offset is committed, and the outcome
  -- says that nothing was inserted. This holds on either database, where the transactions are committed, the source is not blank, the
  -- time is aware, and the table keeps the unique constraint.
  pub kafka_redelivery :
      (id id' : ℕ) (occ occ' now now' : DateTime) (commit commit' : Committer) (s : ConsumerState)
      (envelope : MessageEnvelope) (error : Error)
      → to_envelope occ message ≡ ok envelope
      → commit message.topic message.partition message.offset ≡ err error
      → commit' message.topic message.partition message.offset ≡ ok tt
      → IsBackend e
      → e.ending 0 ≡ committed
      → IsAware now
      → is_blank source ≡ false
      → Fits e source envelope.metadata
      → UniqueReceipts e.weight s.table
      → exists (collides e.weight (received_row config e id now source envelope)) s.table ≡ false
      → let stored = received_row config e id now source envelope ∷ s.table in
        let kept : ConsumerState = record { table = stored; commits = s.commits } in
        let position : String × ℕ × ℕ = (message.topic, message.partition, message.offset) in
        (save_and_commit config e source id occ now message commit s ≡ (kept, err error))
        × (outcome : ReceiveOutcome) × (outcome.inserted ≡ false)
        × (save_and_commit config e source id' occ' now' message commit' kept
            ≡ (record { table = stored; commits = position ∷ s.commits }, ok outcome))
  kafka_redelivery id id' occ occ' now now' commit commit' s envelope error built failed done
        backend ended aware named fits unique new =
      let row = received_row config e id now source envelope in
      let (event_type, shape, valid, reads) = to_envelope-ok message occ envelope built in
      let same : same_receipt e.weight
            (received_row config e id' now' source (envelope_of message event_type occ')) row
          ≡ true =
        rw shape (again event_type id id' occ occ' now now') in
      (
        stored-uncommitted id occ now commit s envelope _ error built
            (save_received_new config e id now source envelope s.table backend aware named
              (rw shape valid) fits new)
            failed ended,
        _,
        refl,
        stored-committed id' occ' now' commit'
            (record { table = row ∷ s.table; commits = s.commits })
            (envelope_of message event_type occ') _ (reads occ')
            (save_received_duplicate config e id' now' source (envelope_of message event_type occ')
              (row ∷ s.table) row pending backend named
              (metadata_of-IsValid message event_type occ occ' valid)
              (Fits-at event_type occ occ' (rw shape at fits))
              ((collides-false e.weight row s.table new).0, unique) (Memᴰ.head refl) same
              (known envelope id now))
            done ended,
      )
