-- ===== src/Transport.antt =====
-- src/pactix/transport: the adapters that carry a row of the outbox to another service's inbox.
pub mod Http
pub mod Kafka
pub mod Metadata
use pactix.Prelude.{Option, none, some, String, Result, ok, err, foreign_error}
use pactix.Dialect.{Ending, committed, rolled_back, answer_lost}
use pactix.Prelude.Dict.{Dict, put}
use pactix.Inbox.Table.{InboxTable}
use pactix.Inbox.Store.{ReceiveOutcome}
use pactix.Message.{MessageMetadata, with_message_key, with_ordering_key, with_correlation_id}

-- `if value is not None: headers[name] = value`
unfoldable pub put_some : Dict String → String → Option String → Dict String
put_some headers name none = headers
put_some headers name (some value) = put headers name value

-- `if key is not None: metadata = metadata.with_...(key)`
abbrev pub with_some :
    (MessageMetadata → String → MessageMetadata) → Option String → MessageMetadata → MessageMetadata
with_some setter none m = m
with_some setter (some key) m = setter m key

-- The keys that both receivers set, each where it is not None.
unfoldable pub with_keys :
    Option String → Option String → Option String → MessageMetadata → MessageMetadata
unfolding with_message_key with_ordering_key with_correlation_id
with_keys message_key ordering_key correlation_id m =
    with_some with_correlation_id correlation_id
      (with_some with_ordering_key ordering_key (with_some with_message_key message_key m))

-- `async with engine.begin()`: an exception rolls the table back, and is raised; otherwise the database
-- ends the transaction.
unfoldable pub transaction :
    Ending → InboxTable → Result (InboxTable × ReceiveOutcome) → InboxTable × Result ReceiveOutcome
transaction ending before (err error) = (before, err error)
transaction committed before (ok (after, outcome)) = (after, ok outcome)
transaction (rolled_back text) before (ok out) = (before, err (foreign_error text))
transaction (answer_lost text) before (ok (after, outcome)) = (after, err (foreign_error text))
