-- ===== src/Domain.antt =====
-- The lifecycle and financial rules of domain/payment.py.
pub mod Types
pub mod Operations
pub mod Coherence
pub mod Graph
pub mod Refunds
