-- ===== src/Events.antt =====
-- stratae/events: envelopes, message headers, and the transactional outbox.
pub mod Envelope
pub mod Headers
pub mod Hooks
pub mod Direct
pub mod Dispatch
pub mod Middleware
pub mod Outbox
mod Tests
