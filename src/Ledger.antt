-- ===== src/Ledger.antt =====
-- The ledger as an independent account of the balances: its sums for a payment, and the
-- invariant that they are the balances of the payment.
pub mod Sums
pub mod Sound
pub mod Authorization
pub mod Growth
pub mod Operations
pub mod Confirmations
pub mod Expiry
