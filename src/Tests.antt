-- ===== src/Tests.antt =====
-- The theorems at concrete inputs: data of one merchant, and an example for each theorem.
pub mod Data
pub mod Payments
pub mod Confirmations
pub mod Ledger
pub mod Webhooks
pub mod Domain
pub mod Parsing
pub mod Reporting
pub mod Api
