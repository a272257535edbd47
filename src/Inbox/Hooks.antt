-- ===== src/Inbox/Hooks.antt =====
-- src/pactix/inbox/handler.py, idempotency.py and stale.py: what the application answers about a row.
-- A hook is a function of the record that may raise.
use pactix.Prelude.{Option, none, some, String, Result, ok}
use pactix.Inbox.Model.{InboxMessageRecord}

pub data Kind : Type 0 where
  processed retryable terminal : Kind

pub record HandleOutcome : Type 0 where
  pub kind : Kind
  pub message : Option String

abbrev pub processed_outcome : HandleOutcome
processed_outcome = record { kind = processed; message = none }

abbrev pub retryable_outcome : String → HandleOutcome
retryable_outcome message = record { kind = retryable; message = some message }

abbrev pub terminal_outcome : String → HandleOutcome
terminal_outcome message = record { kind = terminal; message = some message }

abbrev pub InboxHandler : Type 0
InboxHandler = InboxMessageRecord → Result HandleOutcome

pub data IdempotencyDecision : Type 0 where
  process skip already_applied : IdempotencyDecision

abbrev pub IdempotencyHook : Type 0
IdempotencyHook = InboxMessageRecord → Result IdempotencyDecision

-- `StaticIdempotency`
abbrev pub static_idempotency : IdempotencyDecision → IdempotencyHook
static_idempotency decision r = ok decision

-- `ProcessAll`
abbrev pub process_all : IdempotencyHook
process_all r = ok process

pub data StaleEventDecision : Type 0 where
  fresh stale : StaleEventDecision

abbrev pub StaleEventFilter : Type 0
StaleEventFilter = InboxMessageRecord → Result StaleEventDecision

-- `AcceptAllEvents`
abbrev pub accept_all_events : StaleEventFilter
accept_all_events r = ok fresh
