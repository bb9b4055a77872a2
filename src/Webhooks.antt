-- ===== src/Webhooks.antt =====
-- services/webhooks.py: the transactional outbox, the delivery of its events and their consumer.
pub mod Outbox
pub mod Columns
pub mod Delivery
pub mod Leases
pub mod Superseded
pub mod Signature
pub mod Signed
pub mod Parse
pub mod Body
pub mod Valid
pub mod Emitted
pub mod Accepted
pub mod Refused
pub mod Consumer
pub mod Inbox
pub mod Applied
pub mod Endpoint
pub mod EndToEnd
pub mod Published
