-- ===== src/Reporting.antt =====
-- services/confirmation_reporting.py: the confirmation section of a settlement batch's report.
pub mod Counters
pub mod Told
pub mod Buckets
pub mod Anomalies
pub mod Section
pub mod Accounted
pub mod Frozen
