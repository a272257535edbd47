-- ===== src/Transport/Http.antt =====
-- src/pactix/transport/http: outbox rows as JSON requests, and requests as inbox rows.
pub mod Headers
pub mod Publisher
pub mod Inbox
pub mod Names
pub mod Written
pub mod RoundTrip
pub mod Endpoint
pub mod Delivery
pub mod Outcomes
pub mod Worker
