-- ===== src/Outbox.antt =====
-- src/pactix/outbox: the outbox table, its store, the publishers and the one-pass worker.
pub mod Model
pub mod Table
pub mod Store
pub mod Publisher
pub mod Runner
pub mod Lifecycle
pub mod Wakeup
