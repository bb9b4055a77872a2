-- ===== src/Confirmations.antt =====
-- services/confirmations.py: receipts of asynchronous confirmations, their completion, and the
-- expiry of payments that were not confirmed.
pub mod Commands
pub mod Dispositions
pub mod Accept
pub mod Classify
pub mod Effects
pub mod Endings
pub mod Once
pub mod Complete
pub mod Expire
pub mod Due
