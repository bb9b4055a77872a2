-- ===== src/Payments.antt =====
-- services/payments.py: authorization and the lifecycle operations as transactions with
-- idempotency keys.
pub mod Commands
pub mod Snapshot
pub mod Claims
pub mod Commit
pub mod Authorize
pub mod Lifecycle
pub mod Atomicity
pub mod Staged
pub mod Keys
pub mod Effects
pub mod Endings
pub mod Replay
pub mod ReplayLifecycle
pub mod Progress
