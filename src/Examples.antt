-- ===== src/Examples.antt =====
-- The theorems at concrete inputs.
mod Messages
mod Queues
mod Outboxes
mod Inboxes
mod Wakeups
mod Workers
mod Traces
mod Returns
mod InboxReturns
mod Transports
mod Consumers
mod Listeners
mod Schemas
