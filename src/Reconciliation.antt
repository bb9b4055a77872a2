-- ===== src/Reconciliation.antt =====
-- services/reconciliation.py: the import of settlements and the comparison of the sources.
pub mod Totals
pub mod Sources
pub mod Batches
pub mod Report
pub mod Matching
pub mod Outcome
pub mod Import
