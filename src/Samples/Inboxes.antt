-- ===== src/Samples/Inboxes.antt =====
-- An inbox, and the hooks of a worker.
use pactix.Prelude.{ℕ, refl, Option, none, some, String, [], ◌∷◌, ok, err, foreign_error}
use pactix.Message.{null}
use pactix.Queue.{find}
use pactix.Queue.Rows.{UniqueIds}
use pactix.Inbox.Table.{InboxRow, InboxTable, inbox_columns}
use pactix.Inbox.Hooks.{InboxHandler, processed_outcome, StaleEventFilter, stale, process_all}
use pactix.Inbox.Runner.{InboxRunner, new_runner, new_unordered, fifo_per_ordering_key}
use pactix.Inbox.Store.Receipt.{UniqueReceipts}

abbrev pub inbox_row : ℕ → String → Option String → String → ℕ → Option ℕ → InboxRow
inbox_row id message_id ordering_key status received_at lease_until = record {
  id = id;
  source = "kafka";
  message_id = message_id;
  event_type = "order.paid";
  message_key = none;
  ordering_key = ordering_key;
  correlation_id = none;
  payload = null;
  headers = [];
  status = status;
  attempts = 0;
  max_attempts = 10;
  available_at = received_at;
  lease_until = lease_until;
  last_error = none;
  received_at = received_at;
  updated_at = received_at;
  processed_at = none;
}

-- A row whose lease has expired at second one, a younger row of its stream, and a row of no stream.
abbrev pub inbox : InboxTable
inbox =
    inbox_row 1 "a" (some "customer-7") "processing" 100 (some 500)
    ∷ inbox_row 2 "b" (some "customer-7") "pending" 200 none
    ∷ inbox_row 3 "c" none "pending" 300 none
    ∷ []

pub inbox-UniqueIds : UniqueIds inbox_columns inbox
unfolding find
inbox-UniqueIds = (refl, (refl, (refl, tt)))

pub inbox-UniqueReceipts : UniqueReceipts (λ s. s) inbox
inbox-UniqueReceipts = (refl, (refl, (refl, tt)))

abbrev pub handling : InboxHandler
handling r = ok processed_outcome

abbrev pub failing : InboxHandler
failing r = err (foreign_error "no stock")

abbrev pub all_stale : StaleEventFilter
all_stale r = ok stale

abbrev pub ordered_runner : InboxRunner
ordered_runner = new_runner handling process_all fifo_per_ordering_key none

abbrev pub unordered_runner : InboxRunner
unordered_runner = new_unordered handling process_all all_stale

abbrev pub failing_runner : InboxRunner
failing_runner = new_runner failing process_all fifo_per_ordering_key none
