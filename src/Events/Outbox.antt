-- ===== src/Events/Outbox.antt =====
-- stratae/events/outbox.py: the outbox's records, its in-memory store, the relay and the producer.
pub mod Record
pub mod Store
pub mod Relay
pub mod Producer
mod Tests
