-- ===== src/Inbox.antt =====
-- src/pactix/inbox: the inbox table, its store, the hooks and the one-pass worker.
pub mod Model
pub mod Table
pub mod Store
pub mod Hooks
pub mod Runner
pub mod Lifecycle
