-- ===== src/Database.antt =====
-- The tables of persistence/models.py, their constraints, and the operations on rows that the
-- services use.
pub mod Types
pub mod Rows
pub mod Tables
pub mod Checks
pub mod Store
pub mod Inversion
