-- ===== src/Api.antt =====
-- main.py and api/routes.py: what the HTTP layer answers.
pub mod Errors
pub mod Webhooks
pub mod Queries
pub mod Payments
pub mod Retries
